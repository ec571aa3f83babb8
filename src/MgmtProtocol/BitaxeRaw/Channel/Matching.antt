-- ===== src/MgmtProtocol/BitaxeRaw/Channel/Matching.antt =====
-- Which response a request gets.
use nano_mujina.Prelude.{
  ℕ, ◌+◌, ◌≤◌, ◌<◌, ◌≡◌, refl, sym, ap, ap₂, ◌∙◌, Bool, true, false, Option, none, some, List, [],
  ◌∷◌, ◌++◌, arith, ◌==◌, if◌then◌else◌, ==_iff, Outcome, ok, err, panic, ◌>>=◌, length, All,
}
use nano_mujina.Prelude.Bytes.{u8, IsByte}
use nano_mujina.MgmtProtocol.BitaxeRaw.Packet.{Packet}
use nano_mujina.MgmtProtocol.BitaxeRaw.Packet
use nano_mujina.MgmtProtocol.BitaxeRaw.Response.{
  ResponseFormat, Response, ResponseError, IoError, id_mismatch, protocol_error, timed_out,
}
use nano_mujina.MgmtProtocol.BitaxeRaw.Codec.Requests.{encode-fits}
use nano_mujina.MgmtProtocol.BitaxeRaw.Channel.{
  Writer, ready, Item, received, failed, closed, ControlChannelInner, with_id, send,
  send_packet_no_reply, next_response, check_error, await_response, send_packet,
}

abbrev pub channel : ResponseFormat → List ℕ → List Item → ℕ → ControlChannelInner
channel format output waiting next_id = record {
  format = format;
  output = output;
  waiting = waiting;
  next_id = next_id;
}

check_error-ok :
    (id : ℕ) (payload : List ℕ) (e : Option ResponseError) (r : Response)
    → let resp : Response = record { id = id; payload = payload; error = e } in
      check_error resp ≡ ok r → (resp ≡ r) × (e ≡ none)
unfolding check_error
check_error-ok id payload none r h = (ground (arith, h), refl)
check_error-ok id payload (some e) r h = absurd (ground (arith, h))

matching :
    (expected_id : ℕ) (resp : Response) (waiting : List Item) (r : Response)
    → (b : Bool) → (resp.id == expected_id) ≡ b
    → let step : Outcome IoError Response × List Item =
        if b then (ok resp, waiting) else (err (id_mismatch expected_id resp.id), waiting) in
      step.0 >>= check_error ≡ ok r
      → (received resp ∷ waiting ≡ received r ∷ step.1) × (r.id ≡ expected_id) × (r.error ≡ none)
matching expected_id resp waiting r false e h = absurd (ground (arith, h))
matching expected_id resp waiting r true e h =
    let (same, clean) = check_error-ok resp.id resp.payload resp.error r h in
    (
      ap (λ x. received x ∷ waiting) same,
      ap (λ x. x.id) (sym same) ∙ (==_iff resp.id expected_id).0 e,
      ap (λ x. x.error) (sym same) ∙ clean,
    )

next_response-ok :
    (expected_id : ℕ) (items : List Item) (r : Response)
    → (next_response expected_id items).0 >>= check_error ≡ ok r
    → (items ≡ received r ∷ (next_response expected_id items).1)
      × (r.id ≡ expected_id)
      × (r.error ≡ none)
unfolding next_response check_error
next_response-ok expected_id [] r h = absurd (ground (arith, h))
next_response-ok expected_id (received resp ∷ waiting) r h =
    matching expected_id resp waiting r (resp.id == expected_id) refl h
next_response-ok expected_id (failed e ∷ waiting) r h = absurd (ground (arith, h))
next_response-ok expected_id (closed ∷ waiting) r h = absurd (ground (arith, h))

await_response-ok :
    (expected_id : ℕ) (sent : Outcome IoError (Unit {0})) (c : ControlChannelInner) (r : Response)
    → (await_response expected_id sent c).0 ≡ ok r
    → (sent ≡ ok tt)
      × (c.waiting ≡ received r ∷ (await_response expected_id sent c).1.waiting)
      × (r.id ≡ expected_id)
      × (r.error ≡ none)
unfolding await_response
await_response-ok expected_id (ok sent) c r h =
    let (same, id, clean) = next_response-ok expected_id c.waiting r h in (refl, same, id, clean)
await_response-ok expected_id (err e) c r h = absurd (ground (arith, h))
await_response-ok expected_id panic c r h = absurd (ground (arith, h))

-- A request succeeds only with the first item that the reader had not yielded yet, which is a
-- response with the id of the request and without an error, and which it takes from the reader; and
-- only if the request was written.
pub send_packet-ok :
    (c : ControlChannelInner) (packet : Packet) (writer : Writer) (arriving : List Item)
    (r : Response)
    → (send_packet c packet writer arriving).0 ≡ ok r
    → ((send c (with_id packet c.next_id) writer).0 ≡ ok tt)
      × (c.waiting ++ arriving ≡ received r ∷ (send_packet c packet writer arriving).1.waiting)
      × (r.id ≡ c.next_id)
      × (r.error ≡ none)
unfolding send_packet send_packet_no_reply
send_packet-ok c packet writer arriving r h =
    await_response-ok c.next_id (send c (with_id packet c.next_id) writer).0
      (send_packet_no_reply c packet writer arriving).1 r h

-- A request and the device's reply to it, whose id the device takes from the request.
pub record Exchange : Type 0 where
  pub packet : Packet
  pub reply : Response

unfoldable pub reply_to : ℕ → Response → Response
reply_to id r = record { id = id; payload = r.payload; error = r.error }

-- The size of a packet that the encoder accepts.
abbrev pub IsSmall : Exchange → Type 0
IsSmall x = 6 + length x.packet.payload ≤ 4096

-- Requests one after the other, each answered in time.
unfoldable pub exchanges : ControlChannelInner → List Exchange → List (Outcome IoError Response)
exchanges c [] = []
exchanges c (x ∷ xs) =
    let (result, after) =
      send_packet c x.packet (ready (ok tt)) (received (reply_to c.next_id x.reply) ∷ []) in
    result ∷ exchanges after xs

-- What a caller is to get for a reply: its data, or the error that it reports.
abbrev pub answer : ℕ → List ℕ → Option ResponseError → Outcome IoError Response
answer id payload none = ok (record { id = id; payload = payload; error = none })
answer id payload (some error) = err (protocol_error error)

-- The results when every request gets its own reply.
unfoldable pub own_replies : ℕ → List Exchange → List (Outcome IoError Response)
own_replies id [] = []
own_replies id (x ∷ xs) = answer id x.reply.payload x.reply.error ∷ own_replies (u8 (id + 1)) xs

check_error-answer :
    (id : ℕ) (payload : List ℕ) (error : Option ResponseError)
    → check_error (record { id = id; payload = payload; error = error }) ≡ answer id payload error
unfolding check_error
check_error-answer id payload none = refl
check_error-answer id payload (some error) = refl

-- The results when every request gets the reply before its own.
unfoldable pub stale_replies : ℕ → List Exchange → List (Outcome IoError Response)
stale_replies id [] = []
stale_replies id (x ∷ xs) = err (id_mismatch (u8 (id + 1)) id) ∷ stale_replies (u8 (id + 1)) xs

pub ask_first :
    (f : ResponseFormat) (output : List ℕ) (waiting : List Item) (n : ℕ) (packet : Packet)
    (item : Item)
    → 6 + length packet.payload ≤ 4096
    → send_packet (channel f output waiting n) packet (ready (ok tt)) (item ∷ []) ≡ (
      (next_response n (waiting ++ (item ∷ []))).0 >>= check_error,
      channel f
          (output ++ Packet.encode (with_id packet n))
          (next_response n (waiting ++ (item ∷ []))).1
          (u8 (n + 1)),
    )
unfolding send_packet send_packet_no_reply send await_response
ask_first f output waiting n packet item h = rw ((encode-fits f (with_id packet n) output h).0)

pub own_reply :
    (n : ℕ) (r : Response)
    → next_response n (received (reply_to n r) ∷ []) ≡ (ok (reply_to n r), [])
unfolding next_response reply_to
own_reply n r = ground arith

stale_reply :
    (n : ℕ) (r : Response) (item : Item)
    → r.id < 256
    → n ≡ u8 (r.id + 1)
    → next_response n (received r ∷ item ∷ []) ≡ (err (id_mismatch n r.id), item ∷ [])
unfolding next_response
stale_reply n r item lt h = ground arith

-- As long as the device answers each request in time, and the packets have at most 4096 bytes, each
-- request gets its own reply, its data with the request's id or the error that it reports, whatever
-- the number of requests: the ids wrap around at 256 without harm.
pub exchanges-own_replies :
    (f : ResponseFormat) (output : List ℕ) (n : ℕ) (xs : List Exchange)
    → All IsSmall xs
    → exchanges (channel f output [] n) xs ≡ own_replies n xs
unfolding exchanges own_replies reply_to
exchanges-own_replies f output n [] h = refl
exchanges-own_replies f output n (x ∷ xs) (small, h) =
    rw (ask_first f output [] n x.packet (received (reply_to n x.reply)) small, own_reply n x.reply)
      (ap₂ ◌∷◌ (check_error-answer n x.reply.payload x.reply.error)
        (exchanges-own_replies f (output ++ Packet.encode (with_id x.packet n)) (u8 (n + 1)) xs h))

-- One reply that is still waiting makes every later request fail.
exchanges-stale_replies :
    (f : ResponseFormat) (output : List ℕ) (late : Response) (xs : List Exchange)
    → IsByte late.id
    → All IsSmall xs
    → exchanges (channel f output (received late ∷ []) (u8 (late.id + 1))) xs
      ≡ stale_replies late.id xs
unfolding exchanges stale_replies reply_to
exchanges-stale_replies f output late [] lt h = refl
exchanges-stale_replies f output late (x ∷ xs) lt (small, h) =
    rw
      (
        ask_first f output (received late ∷ []) (u8 (late.id + 1)) x.packet
            (received (reply_to (u8 (late.id + 1)) x.reply)) small,
        stale_reply (u8 (late.id + 1)) late (received (reply_to (u8 (late.id + 1)) x.reply)) lt
            refl,
      )
      (ap (◌∷◌ (err (id_mismatch (u8 (late.id + 1)) late.id))) (
        exchanges-stale_replies f (output ++ Packet.encode (with_id x.packet (u8 (late.id + 1))))
          (reply_to (u8 (late.id + 1)) x.reply) xs (omega arith) h))

-- A request that the device answers too late, with every later request answered in time: the first
-- one times out, and each later one fails, since it is given the reply to the request before it.
-- The channel does not recover from one late reply.
pub timed_out-stale_replies :
    (f : ResponseFormat) (output : List ℕ) (n : ℕ) (slow x : Exchange) (xs : List Exchange)
    → IsByte n
    → All IsSmall (slow ∷ x ∷ xs)
    → let (result, after) = send_packet (channel f output [] n) slow.packet (ready (ok tt)) [] in
      (result ≡ err timed_out)
      × (exchanges
            (channel f after.output
              (received (reply_to n slow.reply) ∷ after.waiting)
              after.next_id)
            (x ∷ xs)
          ≡ stale_replies n (x ∷ xs))
unfolding send_packet send_packet_no_reply send await_response next_response reply_to
timed_out-stale_replies f output n slow x xs lt (small, h) =
    rw ((encode-fits f (with_id slow.packet n) output small).0) (
      refl,
      exchanges-stale_replies f (output ++ Packet.encode (with_id slow.packet n))
          (reply_to n slow.reply) (x ∷ xs) lt h,
    )
