-- ===== src/Board/Pattern/Selection.antt =====
-- The handler that is selected.
use nano_mujina.Prelude.{
  ℕ, ◌≤◌, ◌<◌, ◌≡◌, ◌≢◌, refl, sym, ap, ◌∙◌, ◌⊎◌, inl, inr, Bool, if◌then◌else◌, true, false,
  Option, none, some, List, [], ◌∷◌, ◌++◌, append-nil, append_assoc, arith, leb, leb→le, Bool-cases,
  subst, if-holds, All, All-append,
}
use nano_mujina.Board.Pattern.{
  Strings, UsbDeviceInfo, BoardDescriptor, specificity, matches, matching, max_loop, most_specific,
  find_descriptor,
}

abbrev pub score : BoardDescriptor → ℕ
score d = specificity d.pattern

-- A descriptor among others: none before it scores higher, and every one after it scores lower.
record IsLastBest (d : BoardDescriptor) (ds : List BoardDescriptor) : Type 0 where
  pub before : List BoardDescriptor
  pub after : List BoardDescriptor
  pub place : ds ≡ before ++ (d ∷ after)
  pub not_higher : All (λ x. score x ≤ score d) before
  pub lower : All (λ x. score x < score d) after

All-le :
    (m n : ℕ) (ds : List BoardDescriptor)
    → m ≤ n
    → All (λ x. score x ≤ m) ds
    → All (λ x. score x ≤ n) ds
All-le m n [] le h = tt
All-le m n (d ∷ ds) le (first, h) = (omega arith, All-le m n ds le h)

lower-le :
    (m n : ℕ) (ds : List BoardDescriptor)
    → m ≤ n
    → All (λ x. score x < m) ds
    → All (λ x. score x ≤ n) ds
lower-le m n [] le h = tt
lower-le m n (d ∷ ds) le (first, h) = (omega arith, lower-le m n ds le h)

-- The loop, with the best so far, what stands before it, and what has been passed since.
max_loop-IsLastBest :
    (best : BoardDescriptor) (before passed rest : List BoardDescriptor)
    → All (λ x. score x ≤ score best) before
    → All (λ x. score x < score best) passed
    → IsLastBest (max_loop best rest) (before ++ (best ∷ (passed ++ rest)))
unfolding max_loop
max_loop-IsLastBest best before passed [] h k = record {
  before = before;
  after = passed;
  place = ap (λ xs. before ++ (best ∷ xs)) (append-nil passed);
  not_higher = h;
  lower = k;
}
max_loop-IsLastBest best before passed (d ∷ rest) h k =
    elim (Bool-cases (leb (score best) (score d))) [
      | inl higher ↦
          let le : score best ≤ score d = leb→le (score best) (score d) higher in
          rw higher (
            subst (IsLastBest (max_loop d rest)) (append_assoc before (best ∷ passed) (d ∷ rest)) (
              max_loop-IsLastBest d (before ++ (best ∷ passed)) [] rest
                (All-append (λ x. score x ≤ score d) before (best ∷ passed)
                  (All-le (score best) (score d) before le h)
                  (le, lower-le (score best) (score d) passed le k))
                tt))
      | inr lower ↦ rw lower (
          subst (λ xs. IsLastBest (max_loop best rest) (before ++ (best ∷ xs)))
            (append_assoc passed (d ∷ []) rest)
            (max_loop-IsLastBest best before (passed ++ (d ∷ [])) rest h
              (All-append (λ x. score x < score best) passed (d ∷ []) k (ground arith, tt))))
    ]

abbrev head_or : BoardDescriptor → List BoardDescriptor → BoardDescriptor
head_or d [] = d
head_or d (x ∷ xs) = x

abbrev tail : List BoardDescriptor → List BoardDescriptor
tail [] = []
tail (x ∷ xs) = xs

nil_cons :
    (d : BoardDescriptor) (ds : List BoardDescriptor) → ◌≢◌ {A = List BoardDescriptor} [] (d ∷ ds)
nil_cons d ds e = absurd (ground (arith, e))

All-middle {κ} :
    (P : BoardDescriptor → Type κ) (before after : List BoardDescriptor) (d : BoardDescriptor)
    → All P (before ++ (d ∷ after))
    → P d
All-middle P [] after d (p, h) = p
All-middle P (x ∷ before) after d (p, h) = All-middle P before after d h

module _ (strings : Strings) where
  -- A descriptor of the inventory: of those whose patterns match, none before it scores higher, and every
  -- one after it scores lower.
  pub record IsBest (d : BoardDescriptor) (device : UsbDeviceInfo)
      (inventory : List BoardDescriptor) : Type 0 where
    pub before : List BoardDescriptor
    pub after : List BoardDescriptor
    pub place : inventory ≡ before ++ (d ∷ after)
    pub not_higher :
        All (λ x. (matches strings x.pattern device ≡ false) ⊎ (score x ≤ score d)) before
    pub lower : All (λ x. (matches strings x.pattern device ≡ false) ⊎ (score x < score d)) after

  -- A descriptor that does not score higher may stand in front.
  push :
      (d : BoardDescriptor) (device : UsbDeviceInfo) (x : BoardDescriptor)
      (rest : List BoardDescriptor)
      → (matches strings x.pattern device ≡ false) ⊎ (score x ≤ score d)
      → IsBest d device rest
      → IsBest d device (x ∷ rest)
  push d device x rest low best = record {
    before = x ∷ best.before;
    after = best.after;
    place = ap (λ ys. x ∷ ys) best.place;
    not_higher = (low, best.not_higher);
    lower = best.lower;
  }

  -- What the registry answers for a device.
  pub data Selected (inventory : List BoardDescriptor) (device : UsbDeviceInfo)
      : Option BoardDescriptor → Type 0 where
    nothing :
        All (λ x. matches strings x.pattern device ≡ false) inventory
        → Selected inventory device none
    handler :
        (d : BoardDescriptor)
        → matches strings d.pattern device ≡ true
        → IsBest d device inventory
        → Selected inventory device (some d)

  matching-All :
      (device : UsbDeviceInfo) (inventory : List BoardDescriptor)
      → All (λ x. matches strings x.pattern device ≡ true) (matching strings device inventory)
  unfolding matching
  matching-All device [] = tt
  matching-All device (d ∷ rest) =
      if-holds (All (λ x. matches strings x.pattern device ≡ true))
        (matches strings d.pattern device) (d ∷ matching strings device rest)
        (matching strings device rest) (λ yes_it_does. (yes_it_does, matching-All device rest))
        (λ _. matching-All device rest)

  matching-none :
      (device : UsbDeviceInfo) (inventory : List BoardDescriptor)
      → matching strings device inventory ≡ []
      → All (λ x. matches strings x.pattern device ≡ false) inventory
  unfolding matching
  matching-none device [] h = tt
  matching-none device (d ∷ rest) h = elim (Bool-cases (matches strings d.pattern device)) [
    | inl found ↦ absurd (ground (arith, h, found))
    | inr other ↦ (other, matching-none device rest (ground (arith, h, other)))
  ]

  matching-found :
      (device : UsbDeviceInfo) (x : BoardDescriptor) (rest : List BoardDescriptor)
      → matches strings x.pattern device ≡ true
      → matching strings device (x ∷ rest) ≡ x ∷ matching strings device rest
  unfolding matching
  matching-found device x rest found =
      ap
        (λ (b : Bool). if b then x ∷ matching strings device rest else matching strings device rest)
        found

  matching-other :
      (device : UsbDeviceInfo) (x : BoardDescriptor) (rest : List BoardDescriptor)
      → matches strings x.pattern device ≡ false
      → matching strings device (x ∷ rest) ≡ matching strings device rest
  unfolding matching
  matching-other device x rest other =
      ap
        (λ (b : Bool). if b then x ∷ matching strings device rest else matching strings device rest)
        other

  -- What holds of the matching descriptors, of the others as well in its weaker form.
  matching-All_or :
      (P : BoardDescriptor → Type 0) (device : UsbDeviceInfo) (inventory : List BoardDescriptor)
      → All P (matching strings device inventory)
      → All (λ x. (matches strings x.pattern device ≡ false) ⊎ P x) inventory
  matching-All_or P device [] h = tt
  matching-All_or P device (x ∷ rest) h = elim (Bool-cases (matches strings x.pattern device)) [
    | inl found ↦
        (let (first, later) = subst (All P) (matching-found device x rest found) h in
          (inr first, matching-All_or P device rest later))
    | inr other ↦ (
      inl other,
      matching-All_or P device rest (subst (All P) (matching-other device x rest other) h),
    )
  ]

  -- The place of a matching descriptor in the inventory.
  best_of :
      (d : BoardDescriptor) (device : UsbDeviceInfo) (inventory before after : List BoardDescriptor)
      → matching strings device inventory ≡ before ++ (d ∷ after)
      → All (λ x. score x ≤ score d) before
      → All (λ x. score x < score d) after
      → IsBest d device inventory
  unfolding matching
  best_of d device [] [] after e h k = absurd (nil_cons d after e)
  best_of d device [] (b ∷ before) after e h k = absurd (nil_cons b (before ++ (d ∷ after)) e)
  best_of d device (x ∷ rest) [] after e h k =
      elim (Bool-cases (matches strings x.pattern device)) [
        | inl found ↦
            (let whole : x ∷ matching strings device rest ≡ d ∷ after =
                sym (matching-found device x rest found) ∙ e in
              record {
                before = [];
                after = rest;
                place = ap (λ y. y ∷ rest) (ap (head_or d) whole);
                not_higher = tt;
                lower =
                    matching-All_or (λ y. score y < score d) device rest
                      (subst (All (λ y. score y < score d)) (sym (ap tail whole)) k);
              })
        | inr other ↦
            push d device x rest (inl other)
              (best_of d device rest [] after (sym (matching-other device x rest other) ∙ e) h k)
      ]
  best_of d device (x ∷ rest) (b ∷ before) after e (first, h) k =
      elim (Bool-cases (matches strings x.pattern device)) [
        | inl found ↦
            (let whole : x ∷ matching strings device rest ≡ b ∷ (before ++ (d ∷ after)) =
                sym (matching-found device x rest found) ∙ e in
              push d device x rest
                (inr (subst (λ y. score y ≤ score d) (sym (ap (head_or b) whole)) first))
                (best_of d device rest before after (ap tail whole) h k))
        | inr other ↦ push d device x rest (inl other) (
            best_of d device rest (b ∷ before) after (sym (matching-other device x rest other) ∙ e)
              (first, h) k)
      ]

  most_specific-Selected :
      (inventory : List BoardDescriptor) (device : UsbDeviceInfo) (ds : List BoardDescriptor)
      → matching strings device inventory ≡ ds
      → Selected inventory device (most_specific ds)
  unfolding most_specific
  most_specific-Selected inventory device [] e = nothing (matching-none device inventory e)
  most_specific-Selected inventory device (d ∷ rest) e =
      let best : IsLastBest (max_loop d rest) (d ∷ rest) = max_loop-IsLastBest d [] [] rest tt tt in
      handler (max_loop d rest)
        (All-middle (λ x. matches strings x.pattern device ≡ true) best.before best.after
          (max_loop d rest)
          (subst (All (λ x. matches strings x.pattern device ≡ true)) (e ∙ best.place)
            (matching-All device inventory)))
        (best_of (max_loop d rest) device inventory best.before best.after (e ∙ best.place)
          best.not_higher best.lower)

  -- For any registered descriptors and any device: either none of the patterns matches and there is
  -- no handler, or the handler stands in the inventory and its pattern matches, and of the registered
  -- descriptors whose patterns match, none before it scores higher and all after it score lower.
  pub find_descriptor-Selected :
      (inventory : List BoardDescriptor) (device : UsbDeviceInfo)
      → Selected inventory device (find_descriptor strings inventory device)
  unfolding find_descriptor
  find_descriptor-Selected inventory device =
      most_specific-Selected inventory device (matching strings device inventory) refl
