-- ===== src/Scheduler/Slices/Entries.antt =====
-- scheduler.rs: the threads that are eligible for tasks have entries, and keep them.
use nano_mujina.Prelude.{
  ℕ, Bool, ◌≡◌, refl, subst, Option, none, some, List, [], ◌∷◌, ◌==◌, if◌then◌else◌, if-holds, All,
  arith,
}
use nano_mujina.Scheduler.{ThreadEntry, eligible, if_reported}
use nano_mujina.Scheduler.Slots
use nano_mujina.Scheduler.Slots.{Store, lookup, insert, modify, get}

-- The thread has an entry.
abbrev pub HasEntry : List (ℕ × ThreadEntry) → ℕ → Type 0
HasEntry entries t = (e : ThreadEntry) × (lookup entries t ≡ some e)

cons-HasEntry :
    (k : ℕ) (v : ThreadEntry) (rest : List (ℕ × ThreadEntry)) (t : ℕ)
    → HasEntry rest t
    → HasEntry ((k, v) ∷ rest) t
cons-HasEntry k v rest t (e, h) =
    if-holds (λ x. (e' : ThreadEntry) × (x ≡ some e')) (k == t) (some v) (lookup rest t)
      (λ _. (v, refl)) (λ _. (e, h))

all_cons-HasEntry :
    (k : ℕ) (v : ThreadEntry) (rest : List (ℕ × ThreadEntry)) (ts : List ℕ)
    → All (HasEntry rest) ts
    → All (HasEntry ((k, v) ∷ rest)) ts
all_cons-HasEntry k v rest [] h = tt
all_cons-HasEntry k v rest (t ∷ ts) (h, hs) =
    (cons-HasEntry k v rest t h, all_cons-HasEntry k v rest ts hs)

if_reported-HasEntry :
    (expected : Option ℕ) (k : ℕ) (v : ThreadEntry) (rest : List (ℕ × ThreadEntry)) (ts : List ℕ)
    → All (HasEntry ((k, v) ∷ rest)) ts
    → All (HasEntry ((k, v) ∷ rest)) (if_reported expected k ts)
if_reported-HasEntry none k v rest ts h = h
if_reported-HasEntry (some rate) k v rest ts h = (here k v rest, h)
  where
    here : (k : ℕ) (v : ThreadEntry) (rest : List (ℕ × ThreadEntry)) → HasEntry ((k, v) ∷ rest) k
    here k v rest = (v, ground arith)

pub eligible-HasEntry :
    (entries : List (ℕ × ThreadEntry)) → All (HasEntry entries) (eligible entries)
eligible-HasEntry [] = tt
eligible-HasEntry ((k, v) ∷ rest) =
    if_reported-HasEntry v.expected k v rest (eligible rest)
      (all_cons-HasEntry k v rest (eligible rest) (eligible-HasEntry rest))

-- Replacing the first value, and the rest if it has every thread of the rest.
change-HasEntry :
    (k t : ℕ) (v w : ThreadEntry) (rest rest' : List (ℕ × ThreadEntry))
    → (HasEntry rest t → HasEntry rest' t)
    → HasEntry ((k, v) ∷ rest) t
    → HasEntry ((k, w) ∷ rest') t
change-HasEntry k t v w rest rest' later (e, h) =
    if-holds (λ x. (e' : ThreadEntry) × (x ≡ some e')) (k == t) (some w) (lookup rest' t)
      (λ _. (w, refl))
      (λ no. later (e, subst (λ (b : Bool). (if b then some v else lookup rest t) ≡ some e) no h))

update-HasEntry :
    (entries : List (ℕ × ThreadEntry)) (key t : ℕ) (f : ThreadEntry → ThreadEntry)
    → HasEntry entries t
    → HasEntry (Slots.update entries key f) t
update-HasEntry [] key t f h = h
update-HasEntry ((k, v) ∷ rest) key t f h =
    if-holds (λ (xs : List (ℕ × ThreadEntry)). HasEntry xs t) (k == key) _ _
      (λ _. change-HasEntry k t v (f v) rest rest (λ x. x) h)
      (λ _. change-HasEntry k t v v rest (Slots.update rest key f) (update-HasEntry rest key t f) h)

pub all_update-HasEntry :
    (entries : List (ℕ × ThreadEntry)) (key : ℕ) (ts : List ℕ) (f : ThreadEntry → ThreadEntry)
    → All (HasEntry entries) ts
    → All (HasEntry (Slots.update entries key f)) ts
all_update-HasEntry entries key [] f h = tt
all_update-HasEntry entries key (t ∷ ts) f (h, hs) =
    (update-HasEntry entries key t f h, all_update-HasEntry entries key ts f hs)
