-- ===== src/Scheduler/Slots.antt =====
-- The maps of the scheduler: `SlotMap` of the crate slotmap and the maps keyed by its keys. A slot map
-- gives each value a key that was never used before; it promises no order, and here keeps the order of
-- insertion.
use nano_mujina.Prelude.{
  ℕ, ◌+◌, Bool, true, false, Option, none, some, List, [], ◌∷◌, ◌++◌, ◌==◌, if◌then◌else◌,
}

pub record Store (V : Type 0) : Type 0 where
  pub entries : List (ℕ × V)
  pub next_key : ℕ

module _ {V : Type 0} where
  abbrev pub empty : Store V
  empty = record { entries = []; next_key = 0 }

  abbrev pub lookup : List (ℕ × V) → ℕ → Option V
  lookup [] key = none
  lookup ((k, v) ∷ rest) key = let later = lookup rest key in if k == key then some v else later

  abbrev pub update : List (ℕ × V) → ℕ → (V → V) → List (ℕ × V)
  update [] key f = []
  update ((k, v) ∷ rest) key f =
      let later = update rest key f in if k == key then (k, f v) ∷ rest else (k, v) ∷ later

  -- Keeps the entries that satisfy the test.
  abbrev pub retain : (ℕ → V → Bool) → List (ℕ × V) → List (ℕ × V)
  retain test [] = []
  retain test ((k, v) ∷ rest) =
      let later = retain test rest in if test k v then (k, v) ∷ later else later

  abbrev pub keys : List (ℕ × V) → List ℕ
  keys [] = []
  keys ((k, v) ∷ rest) = k ∷ keys rest

  unfoldable pub get : Store V → ℕ → Option V
  get s key = lookup s.entries key

  -- The key is the `next_key` before.
  unfoldable pub insert : Store V → V → Store V
  insert s v = record { entries = s.entries ++ ((s.next_key, v) ∷ []); next_key = s.next_key + 1 }

  unfoldable pub modify : Store V → ℕ → (V → V) → Store V
  modify s key f = record s { entries = update s.entries key f }

  unfoldable pub retain_in : (ℕ → V → Bool) → Store V → Store V
  retain_in test s = record s { entries = retain test s.entries }

-- `contains` of a set of keys.
abbrev pub has_key : List ℕ → ℕ → Bool
has_key [] key = false
has_key (k ∷ rest) key = let later = has_key rest key in if k == key then true else later
