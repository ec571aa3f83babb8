-- ===== src/Asic/Bm13xx/Frame/Stream.antt =====
-- Decoding a stream of bytes: progress, resynchronisation, and the content of a frame.
use nano_mujina.Prelude.{
  ℕ, ◌≤◌, ◌<◌, ◌≡◌, refl, ◌≢◌, inl, inr, not, Option, none, some, List, [], ◌∷◌, arith, ltb, ◌==◌,
  if-holds, ltb→lt, ltb-false→le, Bool-cases, Outcome, ok, err, panic, length, take, drop,
  length-take,
}
use nano_mujina.Asic.Bm13xx.Crc.{CrcAll, crc5_is_valid}
use nano_mujina.Asic.Bm13xx.Response.{Response, read_register, nonce, ProtocolError}
use nano_mujina.Asic.Bm13xx.Response
use nano_mujina.Asic.Bm13xx.Frame.{decode, decode_full, accept}

-- The bytes of a frame behind its preamble are enough for either kind of response.
Response-decode_total : (bytes : List ℕ) → length bytes ≡ 9 → Response.decode bytes ≢ panic
unfolding Response.decode Response.decode_as Response.decode_read_register Response.decode_nonce
    Response.read_as
Response-decode_total (b0 ∷ b1 ∷ b2 ∷ b3 ∷ b4 ∷ b5 ∷ b6 ∷ b7 ∷ b8 ∷ []) h = λ e. ground arith
Response-decode_total _ h = λ e. absurd (omega arith)

module _ (lib : CrcAll) where
  -- How a call of the decoder leaves a buffer: untouched while it is shorter than a frame, else
  -- shorter by one byte with no response, or by one frame with a response.
  pub data Progress (src : List ℕ) : Option Response → List ℕ → Type 0 where
    wait : length src < 11 → Progress src none src
    skip : 11 ≤ length src → Progress src none (drop 1 src)
    take_frame : (r : Response) → 11 ≤ length src → Progress src (some r) (drop 11 src)

  accept-Progress :
      (r : Outcome ProtocolError Response) (src : List ℕ)
      → r ≢ panic
      → 11 ≤ length src
      → (o : Option Response) × (rest : List ℕ) × (accept lib r src ≡ ok (o, rest))
        × Progress src o rest
  unfolding accept
  accept-Progress (ok r) src total h = (some r, drop 11 src, refl, take_frame r h)
  accept-Progress (err e) src total h = (none, drop 1 src, refl, skip h)
  accept-Progress panic src total h = absurd (total refl)

  -- The outcome is a pair that progresses.
  abbrev Moves : List ℕ → Outcome ⊥ (Option Response × List ℕ) → Type 0
  Moves src r = (o : Option Response) × (rest : List ℕ) × (r ≡ ok (o, rest)) × Progress src o rest

  skip-Moves :
      (b0 b1 : ℕ) (rest : List ℕ)
      → 11 ≤ length (b0 ∷ b1 ∷ rest)
      → Moves (b0 ∷ b1 ∷ rest) (ok (none, b1 ∷ rest))
  skip-Moves b0 b1 rest h = (none, b1 ∷ rest, refl, skip h)

  decode_full-Moves : (src : List ℕ) → 11 ≤ length src → Moves src (decode_full lib src)
  unfolding decode_full
  decode_full-Moves [] h = absurd (omega arith)
  decode_full-Moves (b0 ∷ []) h = absurd (omega arith)
  decode_full-Moves (b0 ∷ b1 ∷ rest) h =
      let src : List ℕ = b0 ∷ b1 ∷ rest in
      let skipped : Moves src (ok (none, b1 ∷ rest)) = skip-Moves b0 b1 rest h in
      if-holds (Moves src) (not (b0 == 0xaa)) _ _ (λ _. skipped)
        (λ _.
          if-holds (Moves src) (not (b1 == 0x55)) _ _ (λ _. skipped)
            (λ _.
              if-holds (Moves src) (not (crc5_is_valid lib (take 9 rest))) _ _ (λ _. skipped)
                (λ _.
                  accept-Progress (Response.decode (take 9 rest)) src
                    (Response-decode_total (take 9 rest) (omega (arith, length-take 9 rest))) h)))

  -- On any bytes at all the decoder returns, without a panic, and makes progress of one of the
  -- three kinds: it waits only while fewer bytes than a frame are there.
  pub decode-Progress :
      (src : List ℕ)
      → (o : Option Response) × (rest : List ℕ) × (decode lib src ≡ ok (o, rest))
        × Progress src o rest
  unfolding decode
  decode-Progress src = elim (Bool-cases (ltb (length src) 11)) [
    | inl short ↦ (none, src, rw short, wait (ltb→lt (length src) 11 short))
    | inr long ↦ rw long (decode_full-Moves src (ltb-false→le (length src) 11 long))
  ]
