-- ===== src/Scheduler/Opening.antt =====
-- scheduler.rs: when the startup gate opens.
use nano_mujina.Prelude.{
  ℕ, suc, Bool, true, false, ◌&&◌, ◌||◌, ◌≡◌, refl, sym, ap, ap₂, subst, ◌∙◌, inl, inr, List, [],
  ◌∷◌, leb, Bool-cases, arith,
}
use nano_mujina.Scheduler.Gate.{
  StartupGate, new_gate, try_open, record_registered, record_reported, record_enumeration_complete,
  record_timeout,
}

pub data GateEvent : Type 0 where
  registered reported enumerated timed_out : GateEvent

abbrev pub gate_step : StartupGate → GateEvent → StartupGate
gate_step g registered = record_registered g
gate_step g reported = record_reported g
gate_step g enumerated = record_enumeration_complete g
gate_step g timed_out = record_timeout g

-- The gate after a history, whose latest event comes first.
pub gate_after : List GateEvent → StartupGate
gate_after [] = new_gate
gate_after (e ∷ earlier) = gate_step (gate_after earlier) e

abbrev pub registrations : List GateEvent → ℕ
registrations [] = 0
registrations (registered ∷ earlier) = suc (registrations earlier)
registrations (reported ∷ earlier) = registrations earlier
registrations (enumerated ∷ earlier) = registrations earlier
registrations (timed_out ∷ earlier) = registrations earlier

abbrev pub reports : List GateEvent → ℕ
reports [] = 0
reports (registered ∷ earlier) = reports earlier
reports (reported ∷ earlier) = suc (reports earlier)
reports (enumerated ∷ earlier) = reports earlier
reports (timed_out ∷ earlier) = reports earlier

abbrev pub was_enumerated : List GateEvent → Bool
was_enumerated [] = false
was_enumerated (enumerated ∷ earlier) = true
was_enumerated (registered ∷ earlier) = was_enumerated earlier
was_enumerated (reported ∷ earlier) = was_enumerated earlier
was_enumerated (timed_out ∷ earlier) = was_enumerated earlier

-- The enumeration was complete and every thread known had reported.
abbrev pub all_reported : List GateEvent → Bool
all_reported history = was_enumerated history && leb (registrations history) (reports history)

abbrev pub is_timeout : GateEvent → Bool
is_timeout timed_out = true
is_timeout registered = false
is_timeout reported = false
is_timeout enumerated = false

-- At some point of the history there was a timeout, or all threads had reported.
abbrev pub was_ready : List GateEvent → Bool
was_ready [] = false
was_ready (e ∷ earlier) = was_ready earlier || (is_timeout e || all_reported (e ∷ earlier))

-- A gate agrees with a history; while it holds, it counts.
record Agrees (g : StartupGate) (history : List GateEvent) : Type 0 where
  opened : g.is_open ≡ was_ready history
  held_back : g.is_open ≡ false → all_reported history ≡ false
  counted : g.is_open ≡ false → g.registered ≡ registrations history
  answered : g.is_open ≡ false → g.reported ≡ reports history
  complete : g.is_open ≡ false → g.enumeration_complete ≡ was_enumerated history

true-false : true ≡ false → ⊥
true-false e = cc

stays_open :
    (g : StartupGate) (e : GateEvent) (history : List GateEvent)
    → g.is_open ≡ true
    → was_ready history ≡ true
    → Agrees g (e ∷ history)
stays_open g e history opened before = record {
  opened = opened ∙ sym (ap (λ b. b || (is_timeout e || all_reported (e ∷ history))) before);
  held_back = λ held. absurd (true-false (sym opened ∙ held));
  counted = λ held. absurd (true-false (sym opened ∙ held));
  answered = λ held. absurd (true-false (sym opened ∙ held));
  complete = λ held. absurd (true-false (sym opened ∙ held));
}

-- A gate that holds, with its counts.
abbrev holding : ℕ → ℕ → Bool → StartupGate
holding r p c = record { registered = r; reported = p; enumeration_complete = c; is_open = false }

step_holding :
    (e : GateEvent) (history : List GateEvent)
    → was_ready history ≡ false
    → all_reported history ≡ false
    → Agrees
        (gate_step (holding (registrations history) (reports history) (was_enumerated history)) e)
        (e ∷ history)
unfolding record_registered record_reported record_enumeration_complete record_timeout try_open
step_holding registered history w h = record {
  opened = ground arith;
  held_back = λ _. ground arith;
  counted = λ _. omega arith;
  answered = λ _. refl;
  complete = λ _. refl;
}
step_holding reported history w h = record {
  opened = ground arith;
  held_back = ground arith;
  counted = ground arith;
  answered = ground arith;
  complete = ground arith;
}
step_holding enumerated history w h = record {
  opened = ground arith;
  held_back = ground arith;
  counted = ground arith;
  answered = ground arith;
  complete = ground arith;
}
step_holding timed_out history w h = record {
  opened = ground arith;
  held_back = ground arith;
  counted = ground arith;
  answered = ground arith;
  complete = ground arith;
}

-- A step of a gate that is open changes nothing but what an open gate ignores.
step_open : (g : StartupGate) (e : GateEvent) → g.is_open ≡ true → (gate_step g e).is_open ≡ true
unfolding record_registered record_reported record_enumeration_complete record_timeout try_open
step_open g registered h = ground arith
step_open g reported h = ground arith
step_open g enumerated h = ground arith
step_open g timed_out h = refl

same_gate :
    (g : StartupGate) (r p : ℕ) (c : Bool)
    → g.registered ≡ r
    → g.reported ≡ p
    → g.enumeration_complete ≡ c
    → g.is_open ≡ false
    → g ≡ holding r p c
same_gate g r p c e1 e2 e3 e4 =
    ap₂ (λ x y. record g { registered = x; reported = y }) e1 e2
    ∙ ap₂ (λ x y. record { registered = r; reported = p; enumeration_complete = x; is_open = y }) e3
        e4

step-Agrees :
    (g : StartupGate) (e : GateEvent) (history : List GateEvent)
    → Agrees g history
    → Agrees (gate_step g e) (e ∷ history)
step-Agrees g e history a = elim (Bool-cases g.is_open) [
  | inl before ↦ stays_open (gate_step g e) e history (step_open g e before) (sym a.opened ∙ before)
  | inr held ↦
      (let same : g ≡ holding (registrations history) (reports history) (was_enumerated history) =
          same_gate g _ _ _ (a.counted held) (a.answered held) (a.complete held) held in
        subst (λ x. Agrees (gate_step x e) (e ∷ history)) (sym same)
          (step_holding e history (sym a.opened ∙ held) (a.held_back held)))
]

gate_after-Agrees : (history : List GateEvent) → Agrees (gate_after history) history
unfolding gate_after new_gate
gate_after-Agrees [] = record {
  opened = refl;
  held_back = λ _. refl;
  counted = λ _. refl;
  answered = λ _. refl;
  complete = λ _. refl;
}
gate_after-Agrees (e ∷ history) =
    step-Agrees (gate_after history) e history (gate_after-Agrees history)

-- The gate is open exactly when, at some point of its history, the timeout came or the enumeration was
-- complete and no more threads were registered than had reported; whatever came in which order, and
-- nothing that comes later closes it.
pub gate_after-was_ready :
    (history : List GateEvent) → (gate_after history).is_open ≡ was_ready history
gate_after-was_ready history = (gate_after-Agrees history).opened
