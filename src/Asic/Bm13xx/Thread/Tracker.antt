-- ===== src/Asic/Bm13xx/Thread/Tracker.antt =====
-- thread.rs: which task the table of jobs answers for an id, however many jobs were inserted.
use nano_mujina.Prelude.{
  ℕ, zero, suc, ◌+◌, ◌%◌, ◌≤◌, ◌<◌, ◌≡◌, ◌≢◌, refl, ap, ◌∙◌, All, Option, none, some, List, [], ◌∷◌,
  arith, length, get_elem?,
}
use nano_mujina.Asic.Bm13xx.Thread.{
  HashTask, ChipJobTracker, set_slot, get_slot, new_tracker, insert, get, clear, empty_tasks,
}

-- There are sixteen slots, and the next id is one of theirs.
pub record IsTracker (t : ChipJobTracker) : Type 0 where
  pub slots : length t.tasks ≡ 16
  pub next_below : t.next_id < 16

-- Insertions one after the other.
pub insert_all : ChipJobTracker → List HashTask → ChipJobTracker
insert_all t [] = t
insert_all t (task ∷ tasks) = insert_all (insert t task) tasks

length-set_slot :
    (xs : List (Option HashTask)) (i : ℕ) (task : HashTask)
    → length (set_slot xs i task) ≡ length xs
length-set_slot [] i task = refl
length-set_slot (x ∷ xs) zero task = refl
length-set_slot (x ∷ xs) (suc i) task = omega (arith, length-set_slot xs i task)

get_slot-set_slot :
    (xs : List (Option HashTask)) (i : ℕ) (task : HashTask)
    → i < length xs
    → get_slot (set_slot xs i task) i ≡ some task
get_slot-set_slot [] i task h = absurd (omega arith)
get_slot-set_slot (x ∷ xs) zero task h = refl
get_slot-set_slot (x ∷ xs) (suc i) task h = get_slot-set_slot xs i task (omega arith)

get_slot-set_slot_other :
    (xs : List (Option HashTask)) (i j : ℕ) (task : HashTask)
    → i ≢ j
    → get_slot (set_slot xs i task) j ≡ get_slot xs j
get_slot-set_slot_other [] i j task h = refl
get_slot-set_slot_other (x ∷ xs) zero zero task h = absurd (h refl)
get_slot-set_slot_other (x ∷ xs) zero (suc j) task h = refl
get_slot-set_slot_other (x ∷ xs) (suc i) zero task h = refl
get_slot-set_slot_other (x ∷ xs) (suc i) (suc j) task h =
    get_slot-set_slot_other xs i j task (λ e. h (ap suc e))

get_slot-none :
    (xs : List (Option HashTask)) (i : ℕ) → All (λ x. x ≡ none) xs → get_slot xs i ≡ none
get_slot-none [] i h = refl
get_slot-none (x ∷ xs) zero (h, _) = h
get_slot-none (x ∷ xs) (suc i) (_, h) = get_slot-none xs i h

empty_tasks-none : All (λ x. x ≡ none) empty_tasks
empty_tasks-none = (
  refl,
  (
    refl,
    (
      refl,
      (
        refl,
        (
          refl,
          (
            refl,
            (refl, (refl, (refl, (refl, (refl, (refl, (refl, (refl, (refl, (refl, tt)))))))))),
          ),
        ),
      ),
    ),
  ),
)

pub get-clear : (t : ChipJobTracker) (i : ℕ) → get (clear t) i ≡ none
unfolding get clear
get-clear t i = get_slot-none empty_tasks i empty_tasks-none

pub get-new_tracker : (i : ℕ) → get new_tracker i ≡ none
unfolding get
get-new_tracker i = get_slot-none empty_tasks i empty_tasks-none

pub new_tracker-IsTracker : IsTracker new_tracker
new_tracker-IsTracker = record { slots = refl; next_below = omega arith }

pub insert-IsTracker :
    (t : ChipJobTracker) (task : HashTask) → IsTracker t → IsTracker (insert t task)
unfolding insert
insert-IsTracker t task h = record {
  slots = length-set_slot t.tasks t.next_id task ∙ h.slots;
  next_below = omega arith;
}

pub clear-IsTracker : (t : ChipJobTracker) → IsTracker t → IsTracker (clear t)
unfolding clear
clear-IsTracker t h = record { slots = refl; next_below = h.next_below }

pub insert_all-IsTracker :
    (t : ChipJobTracker) (tasks : List HashTask) → IsTracker t → IsTracker (insert_all t tasks)
unfolding insert_all
insert_all-IsTracker t [] h = h
insert_all-IsTracker t (task ∷ tasks) h =
    insert_all-IsTracker (insert t task) tasks (insert-IsTracker t task h)

pub get-insert :
    (t : ChipJobTracker) (task : HashTask) → IsTracker t → get (insert t task) t.next_id ≡ some task
unfolding get insert
get-insert t task h =
    get_slot-set_slot t.tasks t.next_id task (omega (arith, h.slots, h.next_below))

pub get-insert_other :
    (t : ChipJobTracker) (task : HashTask) (j : ℕ) → t.next_id ≢ j → get (insert t task) j ≡ get t j
unfolding get insert
get-insert_other t task j h = get_slot-set_slot_other t.tasks t.next_id j task h

next_id-insert :
    (t : ChipJobTracker) (task : HashTask) → (insert t task).next_id ≡ (t.next_id + 1) % 16
unfolding insert
next_id-insert t task = refl

-- Insertions that do not come round to a slot keep it.
get-insert_all_kept :
    (t : ChipJobTracker) (tasks : List HashTask) (k j : ℕ)
    → j ≡ (t.next_id + k) % 16
    → t.next_id < 16
    → length tasks ≤ k
    → k < 16
    → get (insert_all t tasks) j ≡ get t j
unfolding insert_all
get-insert_all_kept t [] k j e b h l = refl
get-insert_all_kept t (task ∷ tasks) zero j e b h l = absurd (omega arith)
get-insert_all_kept t (task ∷ tasks) (suc k) j e b h l =
    get-insert_all_kept (insert t task) tasks k j (omega (arith, next_id-insert t task))
      (omega (arith, next_id-insert t task)) (omega arith) (omega arith)
    ∙ get-insert_other t task j (λ same. omega arith)

get-insert_all_at :
    (t : ChipJobTracker) (tasks : List HashTask) (i j : ℕ)
    → IsTracker t
    → j ≡ (t.next_id + i) % 16
    → i < length tasks
    → length tasks ≤ i + 16
    → get (insert_all t tasks) j ≡ get_elem? tasks i
unfolding insert_all
get-insert_all_at t [] i j h e lo hi = absurd (omega arith)
get-insert_all_at t (task ∷ tasks) zero j h e lo hi =
    get-insert_all_kept (insert t task) tasks 15 j
      (omega (arith, next_id-insert t task, h.next_below)) (insert-IsTracker t task h).next_below
      (omega arith) (omega arith)
    ∙ (ap (get (insert t task)) (omega (arith, e, h.next_below)) ∙ get-insert t task h)
get-insert_all_at t (task ∷ tasks) (suc i) j h e lo hi =
    get-insert_all_at (insert t task) tasks i j (insert-IsTracker t task h)
      (omega (arith, next_id-insert t task)) (omega arith) (omega arith)

-- After any number of insertions, the task that was inserted as number i, counted from 0, is what the
-- table answers for the id that the insertion returned, as long as at most fifteen insertions
-- followed it; the sixteenth after it takes the same id.
pub get-insert_all :
    (t : ChipJobTracker) (tasks : List HashTask) (i : ℕ)
    → IsTracker t
    → i < length tasks
    → length tasks ≤ i + 16
    → get (insert_all t tasks) ((t.next_id + i) % 16) ≡ get_elem? tasks i
get-insert_all t tasks i h lo hi = get-insert_all_at t tasks i ((t.next_id + i) % 16) h refl lo hi
