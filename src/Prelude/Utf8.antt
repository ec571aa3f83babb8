-- ===== src/Prelude/Utf8.antt =====
-- `String::from_utf8_lossy` of the standard library, on the UTF-8 bytes of strings: each longest
-- beginning of a character that is not completed, and each byte that begins none, is replaced by
-- U+FFFD.
use Prim.Native.Nat.{ℕ, zero, suc, ◌≤◌}
use mathlib.Core.Path.{◌≡◌, refl}
use mathlib.Core.Logic.{◌≢◌, ◌⊎◌}
use mathlib.Core.Bool.{◌&&◌}
use mathlib.Core.List.{List, [], ◌∷◌, ◌++◌}
use native.Mathlib.Omega.{arith}
use nano_mujina.Prelude.Tests.{leb, ◌==◌, if◌then◌else◌}

-- The bytes of U+FFFD.
abbrev pub replacement : List ℕ
replacement = 0xef ∷ 0xbf ∷ 0xbd ∷ []

-- What has been read of a character: nothing, or its first bytes, with the bounds of the next byte and
-- the number of bytes behind that one.
pub data Pending : Type 0 where
  idle : Pending
  after : List ℕ → ℕ → ℕ → ℕ → Pending

-- The bytes that are done with, and what is pending.
abbrev pub Read : Type 0
Read = List ℕ × Pending

-- A byte that begins a character, by the table of the well-formed sequences.
unfoldable pub start : ℕ → Read
start b =
    if leb b 0x7f
    then (b ∷ [], idle)
    else if leb 0xc2 b && leb b 0xdf
    then ([], after (b ∷ []) 0x80 0xbf 0)
    else if b == 0xe0
    then ([], after (b ∷ []) 0xa0 0xbf 1)
    else if b == 0xed
    then ([], after (b ∷ []) 0x80 0x9f 1)
    else if leb 0xe1 b && leb b 0xef
    then ([], after (b ∷ []) 0x80 0xbf 1)
    else if b == 0xf0
    then ([], after (b ∷ []) 0x90 0xbf 2)
    else if leb 0xf1 b && leb b 0xf3
    then ([], after (b ∷ []) 0x80 0xbf 2)
    else if b == 0xf4
    then ([], after (b ∷ []) 0x80 0x8f 2)
    else (replacement, idle)

-- A character with one more byte.
abbrev pub extend : List ℕ → ℕ → Read
extend bytes zero = (bytes, idle)
extend bytes (suc left) = ([], after bytes 0x80 0xbf left)

unfoldable pub step : Pending → ℕ → Read
unfolding start
step idle b = start b
step (after bytes lo hi left) b =
    if leb lo b && leb b hi
    then extend (bytes ++ (b ∷ [])) left
    else (replacement ++ (start b).0, (start b).1)

unfoldable pub lossy_from : Pending → List ℕ → List ℕ
unfolding step
lossy_from idle [] = []
lossy_from (after bytes lo hi left) [] = replacement
lossy_from pending (b ∷ rest) = let (done, next) = step pending b in done ++ lossy_from next rest

unfoldable pub from_utf8_lossy : List ℕ → List ℕ
unfolding lossy_from
from_utf8_lossy bytes = lossy_from idle bytes

-- A byte within bounds.
abbrev pub IsIn : ℕ → ℕ → ℕ → Type 0
IsIn lo hi b = (lo ≤ b) × (b ≤ hi)

-- The well-formed sequences of bytes, as the Unicode standard tabulates them.
pub data IsUtf8 : List ℕ → Type 0 where
  nil : IsUtf8 []
  one : (a : ℕ) (rest : List ℕ) → a ≤ 0x7f → IsUtf8 rest → IsUtf8 (a ∷ rest)
  two :
      (a b : ℕ) (rest : List ℕ)
      → IsIn 0xc2 0xdf a
      → IsIn 0x80 0xbf b
      → IsUtf8 rest
      → IsUtf8 (a ∷ b ∷ rest)
  three_e0 :
      (b c : ℕ) (rest : List ℕ)
      → IsIn 0xa0 0xbf b
      → IsIn 0x80 0xbf c
      → IsUtf8 rest
      → IsUtf8 (0xe0 ∷ b ∷ c ∷ rest)
  three :
      (a b c : ℕ) (rest : List ℕ)
      → IsIn 0xe1 0xef a
      → (a ≢ 0xed) ⊎ (b ≤ 0x9f)
      → IsIn 0x80 0xbf b
      → IsIn 0x80 0xbf c
      → IsUtf8 rest
      → IsUtf8 (a ∷ b ∷ c ∷ rest)
  four_f0 :
      (b c d : ℕ) (rest : List ℕ)
      → IsIn 0x90 0xbf b
      → IsIn 0x80 0xbf c
      → IsIn 0x80 0xbf d
      → IsUtf8 rest
      → IsUtf8 (0xf0 ∷ b ∷ c ∷ d ∷ rest)
  four :
      (a b c d : ℕ) (rest : List ℕ)
      → IsIn 0xf1 0xf4 a
      → (a ≢ 0xf4) ⊎ (b ≤ 0x8f)
      → IsIn 0x80 0xbf b
      → IsIn 0x80 0xbf c
      → IsIn 0x80 0xbf d
      → IsUtf8 rest
      → IsUtf8 (a ∷ b ∷ c ∷ d ∷ rest)

-- A well-formed sequence is not changed.
lossy_from-IsUtf8 : (bytes : List ℕ) → IsUtf8 bytes → lossy_from idle bytes ≡ bytes
unfolding lossy_from step start
lossy_from-IsUtf8 _ nil = refl
lossy_from-IsUtf8 _ (one a rest lo h) = ground (arith, lossy_from-IsUtf8 rest h)
lossy_from-IsUtf8 _ (two a b rest ha hb h) = ground (arith, lossy_from-IsUtf8 rest h)
lossy_from-IsUtf8 _ (three_e0 b c rest hb hc h) = ground (arith, lossy_from-IsUtf8 rest h)
lossy_from-IsUtf8 _ (three a b c rest ha low hb hc h) =
    ground (arith, low, lossy_from-IsUtf8 rest h)
lossy_from-IsUtf8 _ (four_f0 b c d rest hb hc hd h) = ground (arith, lossy_from-IsUtf8 rest h)
lossy_from-IsUtf8 _ (four a b c d rest ha low hb hc hd h) =
    ground (arith, low, lossy_from-IsUtf8 rest h)

pub from_utf8_lossy-IsUtf8 : (bytes : List ℕ) → IsUtf8 bytes → from_utf8_lossy bytes ≡ bytes
unfolding from_utf8_lossy
from_utf8_lossy-IsUtf8 bytes h = lossy_from-IsUtf8 bytes h
