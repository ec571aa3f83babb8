-- ===== src/MgmtProtocol/BitaxeRaw/Codec/Frames.antt =====
-- The stream of responses: what a device writes, and what the decoder reads of it.
use nano_mujina.Prelude.{
  ℕ, zero, suc, ◌+◌, ◌-◌, ◌*◌, ◌/◌, ◌%◌, ◌≤◌, ◌<◌, ◌≡◌, refl, sym, ap, ◌∙◌, ◌≢◌, ◌↔◌, inl, inr,
  Option, none, some, List, [], ◌∷◌, ◌++◌, arith, ltb, ltb→lt, ltb-false→le, Bool-cases, ok, panic,
  ◌>>=◌, length, take, drop, length-append, length-take, take-append, drop-append,
}
use nano_mujina.Prelude.Utf8.{IsUtf8, from_utf8_lossy-IsUtf8}
use nano_mujina.MgmtProtocol.BitaxeRaw.Response.{
  ResponseFormat, v0, v1, status_ok, ErrorCode, timeout, invalid_command, buffer_overflow, custom,
  error_code_repr, try_from, ResponseError, Response, parse, parse_v0, parse_v1, parse_error,
  message_of,
}
use nano_mujina.MgmtProtocol.BitaxeRaw.Codec.{
  ControlCodec, new, total_size, some_response, from_two, decode_sized, decode,
}

-- The bytes that a message of an error takes.
unfoldable pub message_bytes : Option (List ℕ) → List ℕ
message_bytes none = []
message_bytes (some m) = m

-- The bytes of a response behind its length, as the documentation lays them out: V0 has no place
-- for an error.
unfoldable pub body : ResponseFormat → Response → List ℕ
body v0 r = r.id ∷ r.payload
body v1 r = elim r.error [
  | none ↦ r.id ∷ status_ok ∷ r.payload
  | some e ↦ r.id ∷ error_code_repr e.code ∷ message_bytes e.message
]

-- The length field of a body: the bytes of data alone for V0, the whole frame for V1.
unfoldable pub field : ResponseFormat → List ℕ → ℕ
field v0 bytes = length bytes - 1
field v1 bytes = 2 + length bytes

unfoldable pub frame : ResponseFormat → List ℕ → List ℕ
frame format bytes = (field format bytes % 256) ∷ (field format bytes / 256) ∷ bytes

-- The messages that an error of a code can have: for a custom error none, or a string that is not empty.
unfoldable pub IsMessage : ErrorCode → Option (List ℕ) → Type 0
IsMessage custom (some m) = (1 ≤ length m) × IsUtf8 m
IsMessage custom none = Unit {0}
IsMessage _ m = m ≡ none

-- The responses that a device can send in a format.
unfoldable pub IsReply : ResponseFormat → Response → Type 0
IsReply v0 r = r.error ≡ none
IsReply v1 r = elim r.error [
  | none ↦ Unit {0}
  | some e ↦ (r.payload ≡ []) × IsMessage e.code e.message
]

try_from-error_code_repr : (c : ErrorCode) → try_from (error_code_repr c) ≡ ok c
unfolding try_from error_code_repr
try_from-error_code_repr timeout = refl
try_from-error_code_repr invalid_command = refl
try_from-error_code_repr buffer_overflow = refl
try_from-error_code_repr custom = refl

message_of-message_bytes :
    (c : ErrorCode) (m : Option (List ℕ)) → IsMessage c m → message_of c (message_bytes m) ≡ m
unfolding message_of message_bytes IsMessage
message_of-message_bytes timeout m h = sym h
message_of-message_bytes invalid_command m h = sym h
message_of-message_bytes buffer_overflow m h = sym h
message_of-message_bytes custom none h = refl
message_of-message_bytes custom (some []) (filled, _) = absurd (omega arith)
message_of-message_bytes custom (some (b ∷ m)) (_, utf8) =
    ap some (from_utf8_lossy-IsUtf8 (b ∷ m) utf8)

parse-body_error :
    (id : ℕ) (c : ErrorCode) (m : Option (List ℕ))
    → IsMessage c m
    → parse_v1 (id ∷ error_code_repr c ∷ message_bytes m)
      ≡ ok (record { id = id; payload = []; error = some (record { code = c; message = m }) })
unfolding parse_v1 parse_error error_code_repr try_from
parse-body_error id timeout m h = rw (message_of-message_bytes timeout m h)
parse-body_error id invalid_command m h = rw (message_of-message_bytes invalid_command m h)
parse-body_error id buffer_overflow m h = rw (message_of-message_bytes buffer_overflow m h)
parse-body_error id custom m h = rw (message_of-message_bytes custom m h)

parse-body_v1 :
    (id : ℕ) (payload : List ℕ) (e : Option ResponseError)
    → let r : Response = record { id = id; payload = payload; error = e } in
      IsReply v1 r → parse_v1 (body v1 r) ≡ ok r
unfolding body IsReply parse_v1
parse-body_v1 id payload none h = refl
parse-body_v1 id payload (some e) (empty, h) =
    parse-body_error id e.code e.message h ∙ rw (sym empty)

parse-body : (f : ResponseFormat) (r : Response) → IsReply f r → parse f (body f r) ≡ ok r
unfolding parse parse_v0 IsReply body
parse-body v0 r h = rw (sym h)
parse-body v1 r h = parse-body_v1 r.id r.payload r.error h

length-error_body :
    (id : ℕ) (payload : List ℕ) (e : Option ResponseError)
    → 1 ≤ length (body v1 (record { id = id; payload = payload; error = e }))
unfolding body
length-error_body id payload none = omega arith
length-error_body id payload (some e) = omega arith

length-body : (f : ResponseFormat) (r : Response) → 1 ≤ length (body f r)
unfolding body
length-body v0 r = omega arith
length-body v1 r = length-error_body r.id r.payload r.error

total_size-field :
    (f : ResponseFormat) (bytes : List ℕ)
    → 1 ≤ length bytes
    → total_size f (field f bytes % 256 + field f bytes / 256 * 256) ≡ suc (suc (length bytes))
unfolding total_size field
total_size-field v0 bytes h = omega arith
total_size-field v1 bytes h = omega arith

decode_sized-whole :
    (c : ControlCodec) (total : ℕ) (src : List ℕ)
    → total ≤ c.max_length
    → total ≤ length src
    → decode_sized c total src
      ≡ (some_response (from_two (take total src) >>= parse c.format), drop total src)
unfolding decode_sized
decode_sized-whole c total src h k = ground arith

decode_sized-part :
    (c : ControlCodec) (total : ℕ) (src : List ℕ)
    → total ≤ c.max_length
    → length src < total
    → decode_sized c total src ≡ (ok none, src)
unfolding decode_sized
decode_sized-part c total src h k = ground arith

-- A frame at the front of the buffer, its bytes and what is behind it given apart.
decode_sized-front :
    (f : ResponseFormat) (a b : ℕ) (bytes rest : List ℕ)
    → 2 + length bytes ≤ 4096
    → decode_sized (new f) (suc (suc (length bytes))) (a ∷ b ∷ (bytes ++ rest))
      ≡ (some_response (parse f bytes), rest)
unfolding from_two new
decode_sized-front f a b bytes rest h =
    ◌∙◌
      {b = (
        some_response
            (from_two (take (suc (suc (length bytes))) (a ∷ b ∷ (bytes ++ rest))) >>= parse f),
        drop (suc (suc (length bytes))) (a ∷ b ∷ (bytes ++ rest)),
      )}
      (decode_sized-whole (new f) (suc (suc (length bytes))) (a ∷ b ∷ (bytes ++ rest)) (omega arith)
        (omega (arith, length-append bytes rest)))
      (rw (take-append (length bytes) bytes rest refl, drop-append (length bytes) bytes rest refl))

-- What the device sends, the decoder reads: a reply of a format, framed, gives the reply itself,
-- with its id, its data or its error code and message, and leaves what follows the frame, whatever
-- it is, if the frame has at most 4096 bytes and a custom error's message, if it has one, is
-- well-formed UTF-8 and not empty.
pub decode-frame :
    (f : ResponseFormat) (r : Response) (rest : List ℕ)
    → IsReply f r
    → 2 + length (body f r) ≤ 4096
    → decode (new f) (frame f (body f r) ++ rest) ≡ (ok (some r), rest)
unfolding decode frame new
decode-frame f r rest h k = rw (
  total_size-field f (body f r) (length-body f r),
  decode_sized-front f (field f (body f r) % 256) (field f (body f r) / 256) (body f r) rest k,
  parse-body f r h,
)

-- A frame that has not arrived whole is no error: with only a first part of it in the buffer, the
-- decoder asks for more and takes nothing.
pub decode-partial :
    (f : ResponseFormat) (r : Response) (n : ℕ)
    → 2 + length (body f r) ≤ 4096
    → n < 2 + length (body f r)
    → decode (new f) (take n (frame f (body f r))) ≡ (ok none, take n (frame f (body f r)))
unfolding decode frame new
decode-partial f r zero h lt = refl
decode-partial f r (suc zero) h lt = refl
decode-partial f r (suc (suc n)) h lt = rw (total_size-field f (body f r) (length-body f r)) (
    decode_sized-part (new f) (suc (suc (length (body f r))))
      (take (suc (suc n)) (frame f (body f r))) (omega arith)
      (omega (arith, length-take n (body f r))))

parse-returns : (f : ResponseFormat) (bytes : List ℕ) → some_response (parse f bytes) ≢ panic
unfolding parse parse_v0 parse_v1 parse_error try_from
parse-returns v0 [] h = ground arith
parse-returns v0 (id ∷ payload) h = ground arith
parse-returns v1 [] h = ground arith
parse-returns v1 (id ∷ []) h = ground arith
parse-returns v1 (id ∷ status ∷ payload) h = ground arith

-- Neither does a frame of two bytes or more.
whole-returns :
    (f : ResponseFormat) (total a b : ℕ) (rest : List ℕ)
    → 2 ≤ total
    → (decode_sized (new f) total (a ∷ b ∷ rest)).0 ≢ panic
unfolding decode_sized from_two new
whole-returns f zero a b rest le h = absurd (omega arith)
whole-returns f (suc zero) a b rest le h = absurd (omega arith)
whole-returns f (suc (suc n)) a b rest le h = ground (arith, parse-returns f (take n rest))

short-panics :
    (f : ResponseFormat) (total a b : ℕ) (rest : List ℕ)
    → total < 2
    → (decode_sized (new f) total (a ∷ b ∷ rest)).0 ≡ panic
unfolding decode_sized from_two new
short-panics f zero a b rest lt = ground arith
short-panics f (suc zero) a b rest lt = ground arith
short-panics f (suc (suc n)) a b rest lt = absurd (omega arith)

-- For a buffer of two bytes or more.
decode-panic_long :
    (f : ResponseFormat) (a b : ℕ) (rest : List ℕ)
    → ((decode (new f) (a ∷ b ∷ rest)).0 ≡ panic) ↔ ((f ≡ v1) × (a + b * 256 < 2))
unfolding decode new total_size
decode-panic_long v0 a b rest = (
  λ h. absurd (whole-returns v0 (2 + 1 + (a + b * 256)) a b rest (omega arith) h),
  λ (same, lt). absurd (ground (arith, same)),
)
decode-panic_long v1 a b rest = (
  λ h. (
    refl,
    elim (Bool-cases (ltb (a + b * 256) 2)) [
      | inl lt ↦ ltb→lt (a + b * 256) 2 lt
      | inr le ↦
          absurd (whole-returns v1 (a + b * 256) a b rest (ltb-false→le (a + b * 256) 2 le) h)
    ],
  ),
  λ (_, lt). short-panics v1 (a + b * 256) a b rest lt,
)

-- A V1 length below two, with both of its bytes in the buffer.
pub record IsTooShort (f : ResponseFormat) (src : List ℕ) : Type 0 where
  pub low : ℕ
  pub high : ℕ
  pub rest : List ℕ
  pub is_v1 : f ≡ v1
  pub starts : src ≡ low ∷ high ∷ rest
  pub below : low + high * 256 < 2

-- The decoder panics on exactly one kind of buffer, of whatever length: a V1 length below two with
-- both of its bytes in the buffer. Every other buffer gives a response, an error or a request for
-- more bytes.
pub decode-panic_iff :
    (f : ResponseFormat) (src : List ℕ) → ((decode (new f) src).0 ≡ panic) ↔ IsTooShort f src
unfolding decode new
decode-panic_iff f [] = (λ h. absurd (ground (arith, h)), λ w. absurd (ground (arith, w.starts)))
decode-panic_iff f (a ∷ []) =
    (λ h. absurd (ground (arith, h)), λ w. absurd (ground (arith, w.starts)))
decode-panic_iff f (a ∷ b ∷ rest) = (
  λ h.
      let (same, lt) = (decode-panic_long f a b rest).0 h in
      record { low = a; high = b; rest = rest; is_v1 = same; starts = refl; below = lt },
  λ w. (decode-panic_long f a b rest).1 (
    w.is_v1,
    (let low : a ≡ w.low = ground (arith, w.starts) in
        let high : b ≡ w.high = ground (arith, w.starts) in
        let below : w.low + w.high * 256 < 2 = w.below in rw (low, high) below),
  ),
)
