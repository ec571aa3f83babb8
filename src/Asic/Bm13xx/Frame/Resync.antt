-- ===== src/Asic/Bm13xx/Frame/Resync.antt =====
-- Calling the decoder again and again on what it left.
use nano_mujina.Prelude.{
  ℕ, zero, suc, ◌≤◌, ◌<◌, ◌≡◌, refl, ◌∙◌, ◌≢◌, ◌⊎◌, inl, inr, true, false, Option, none, some, List,
  [], ◌∷◌, ◌++◌, arith, ltb, ◌==◌, Outcome, ok, ◌>>=◌, length, drop, All, length-append,
  length-drop,
}
use nano_mujina.Asic.Bm13xx.Crc.{CrcAll}
use nano_mujina.Asic.Bm13xx.Response.{Response}
use nano_mujina.Asic.Bm13xx.Frame.{decode, decode_full}
use nano_mujina.Asic.Bm13xx.Frame.Stream.{Progress, wait, skip, take_frame, decode-Progress}

module _ (lib : CrcAll) where
  -- At most `fuel` calls of the decoder, up to the first response.
  pub poll : ℕ → List ℕ → Outcome ⊥ (Option Response × List ℕ)
  poll zero src = ok (none, src)
  poll (suc fuel) src = decode lib src >>= λ p.
      let (o, rest) = p in elim o [ none ↦ poll fuel rest | some r ↦ ok (some r, rest) ]

  poll_step :
      (fuel : ℕ) (src rest : List ℕ)
      → decode lib src ≡ ok (none, rest)
      → poll (suc fuel) src ≡ poll fuel rest
  unfolding poll
  poll_step fuel src rest h = rw (h, poll)

  poll_found :
      (fuel : ℕ) (src rest : List ℕ) (r : Response)
      → decode lib src ≡ ok (some r, rest)
      → poll (suc fuel) src ≡ ok (some r, rest)
  unfolding poll
  poll_found fuel src rest r h = rw (h, poll)

  decode_short : (src : List ℕ) → length src < 11 → decode lib src ≡ ok (none, src)
  unfolding decode
  decode_short src h = let short : ltb (length src) 11 ≡ true = ground arith in rw short

  poll_short : (fuel : ℕ) (src : List ℕ) → length src < 11 → poll fuel src ≡ ok (none, src)
  poll_short zero src h = unfold poll in refl
  poll_short (suc fuel) src h = poll_step fuel src src (decode_short src h) ∙ poll_short fuel src h

  -- The calls ended with a response, or with fewer bytes than a frame.
  abbrev pub Ends : Outcome ⊥ (Option Response × List ℕ) → Type 0
  Ends result =
      (o : Option Response) × (rest : List ℕ) × (result ≡ ok (o, rest))
      × (((r : Response) × (o ≡ some r)) ⊎ ((o ≡ none) × (length rest < 11)))

  poll-Ends_step :
      (fuel : ℕ) (src : List ℕ) {o : Option Response} {rest : List ℕ}
      → ((next : List ℕ) → length next < fuel → Ends (poll fuel next))
      → length src < suc fuel
      → decode lib src ≡ ok (o, rest)
      → Progress lib src o rest
      → Ends (poll (suc fuel) src)
  poll-Ends_step fuel src ih h e (wait short) =
      (none, src, poll_short (suc fuel) src short, inr (refl, short))
  poll-Ends_step fuel src ih h e (skip long) =
      rw (poll_step fuel src (drop 1 src) e) (ih (drop 1 src) (omega (arith, length-drop 1 src)))
  poll-Ends_step fuel src ih h e (take_frame r long) =
      (some r, drop 11 src, poll_found fuel src (drop 11 src) r e, inl (r, refl))

  -- Repeated calls come to an end: with more calls than there are bytes they reach a response, or
  -- leave fewer bytes than a frame.
  poll-Ends : (fuel : ℕ) (src : List ℕ) → length src < fuel → Ends (poll fuel src)
  poll-Ends zero src h = absurd (omega arith)
  poll-Ends (suc fuel) src h =
      let (o, rest, e, progress) = decode-Progress lib src in
      poll-Ends_step fuel src (λ next small. poll-Ends fuel next small) h e progress

  decode_garbage :
      (b : ℕ) (src : List ℕ) → b ≢ 0xaa → 10 ≤ length src → decode lib (b ∷ src) ≡ ok (none, src)
  unfolding decode decode_full
  decode_garbage b [] h long = absurd (omega arith)
  decode_garbage b (c ∷ rest) h long =
      let whole : ltb (length (b ∷ c ∷ rest)) 11 ≡ false = ground arith in
      let other : (b == 0xaa) ≡ false = ground arith in rw (whole, other)

  -- Bytes before a frame, none of them the first byte of a preamble, are skipped: as many more calls
  -- as there are such bytes give the response of the frame and leave what follows it.
  pub poll-garbage :
      (garbage frame rest : List ℕ) (r : Response)
      → All (λ b. b ≢ 0xaa) garbage
      → 11 ≤ length frame
      → decode lib frame ≡ ok (some r, rest)
      → poll (suc (length garbage)) (garbage ++ frame) ≡ ok (some r, rest)
  poll-garbage [] frame rest r h long found = poll_found 0 frame rest r found
  poll-garbage (b ∷ garbage) frame rest r (other, h) long found =
      poll_step (suc (length garbage)) (b ∷ (garbage ++ frame)) (garbage ++ frame)
        (decode_garbage b (garbage ++ frame) other (omega (arith, length-append garbage frame)))
      ∙ poll-garbage garbage frame rest r h long found
