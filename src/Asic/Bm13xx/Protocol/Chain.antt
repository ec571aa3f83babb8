-- ===== src/Asic/Bm13xx/Protocol/Chain.antt =====
-- Addresses and domains of a chain of chips.
use nano_mujina.Prelude.{
  ℕ, zero, suc, ◌+◌, ◌-◌, ◌*◌, ◌/◌, ◌%◌, ◌≤◌, ◌<◌, ◌≡◌, refl, ap, ◌⊎◌, inl, inr, Bool, true, false,
  not, List, [], ◌∷◌, ◌++◌, append-nil, arith, ◌==◌, if◌then◌else◌, ok, panic, All, All-append,
}
use nano_mujina.Prelude.Bytes.{u8}
use nano_mujina.Asic.Bm13xx.Command.{Command, set_chip_address, write_register}
use nano_mujina.Asic.Bm13xx.Protocol.{
  chip_address, assign_addresses, multi_chip_init, configure_nonce_ranges, boundary_strengths,
  uart_relays, configure_domains, last_chip, relay,
}
use nano_mujina.Asic.Bm13xx.Register.{Register}
use native.Mathlib.Nat.{div-add-mod, mul_comm, mul-le-mul_left}

-- The addresses that a list of commands assigns, in order.
abbrev pub assigned : List Command → List ℕ
assigned [] = []
assigned (set_chip_address a ∷ cs) = a ∷ assigned cs
assigned (_ ∷ cs) = assigned cs

-- 0, 2, 4, … from 2 * i on.
abbrev pub even_from : ℕ → ℕ → List ℕ
even_from zero i = []
even_from (suc n) i = (2 * i) ∷ even_from n (i + 1)

assigned-append : (xs ys : List Command) → assigned (xs ++ ys) ≡ assigned xs ++ assigned ys
assigned-append [] ys = refl
assigned-append (set_chip_address a ∷ xs) ys = ap (◌∷◌ a) (assigned-append xs ys)
assigned-append (_ ∷ xs) ys = assigned-append xs ys

assigned-assign_addresses :
    (todo i : ℕ) → i + todo ≤ 128 → assigned (assign_addresses todo i) ≡ even_from todo i
unfolding assign_addresses chip_address
assigned-assign_addresses zero i h = refl
assigned-assign_addresses (suc todo) i h =
    let small : u8 (u8 i * 2) ≡ 2 * i = omega arith in
    rw small (ap (◌∷◌ (2 * i)) (assigned-assign_addresses todo (i + 1) (omega arith)))

-- Starting a chain of at most 128 chips assigns them the addresses 0, 2, 4, … in order, one to each.
pub assigned-multi_chip_init :
    (chain_length : ℕ)
    → chain_length ≤ 128
    → assigned (multi_chip_init chain_length) ≡ even_from chain_length 0
unfolding multi_chip_init configure_nonce_ranges
assigned-multi_chip_init chain_length h = rw assigned-append (
    rw (assigned-assign_addresses chain_length 0 (omega arith))
      (append-nil (even_from chain_length 0)))

-- In a chain of more than 128 chips the address of a chip is also that of the chip 128 further on.
pub chip_address_wraps : (i : ℕ) → chip_address (i + 128) ≡ chip_address i
unfolding chip_address
chip_address_wraps i = omega arith

-- Among the first 128 chips no two have the same address.
pub chip_address-injective : (i j : ℕ) → i < 128 → j < 128 → chip_address i ≡ chip_address j → i ≡ j
unfolding chip_address
chip_address-injective i j hi hj h = omega arith

-- A targeted write to one of the first `n` chips.
pub data Targets (n : ℕ) : Command → Type 0 where
  targets : {r : Register} (k : ℕ) → k < n → Targets n (write_register false (chip_address k) r)

optional-Targets :
    (b : Bool) (n k : ℕ) (r : Register)
    → k < n
    → All (Targets n) (if b then write_register false (chip_address k) r ∷ [] else [])
optional-Targets true n k r h = (targets k h, tt)
optional-Targets false n k r h = tt

first_chip-lt :
    (n chips domain : ℕ) → 1 ≤ chips → domain < (n + (chips - 1)) / chips → domain * chips < n
first_chip-lt n chips domain h d =
    let whole : chips * ((n + (chips - 1)) / chips) + (n + (chips - 1)) % chips ≡ n + (chips - 1) =
      div-add-mod (n + (chips - 1)) chips in
    let most : chips * (domain + 1) ≤ chips * ((n + (chips - 1)) / chips) =
      mul-le-mul_left chips (omega arith) in
    omega (arith, whole, most, mul_comm domain chips)

boundary_strengths-Targets :
    (todo domain n chips : ℕ)
    → 1 ≤ chips
    → domain + todo ≤ (n + (chips - 1)) / chips
    → All (Targets n) (boundary_strengths todo domain n chips)
unfolding boundary_strengths
boundary_strengths-Targets zero domain n chips h bound = tt
boundary_strengths-Targets (suc todo) domain n chips h bound =
    let inside : domain * chips < n = first_chip-lt n chips domain h (omega arith) in
    (
      targets (last_chip n chips domain) (omega arith),
      boundary_strengths-Targets todo (domain + 1) n chips h (omega arith),
    )

uart_relays-Targets :
    (todo domain n chips : ℕ)
    → 1 ≤ chips
    → domain + todo ≤ (n + (chips - 1)) / chips
    → All (Targets n) (uart_relays todo domain n chips)
unfolding uart_relays
uart_relays-Targets zero domain n chips h bound = tt
uart_relays-Targets (suc todo) domain n chips h bound =
    let inside : domain * chips < n = first_chip-lt n chips domain h (omega arith) in
    let later : All (Targets n) (uart_relays todo (domain + 1) n chips) =
      uart_relays-Targets todo (domain + 1) n chips h (omega arith) in
    (
      targets (domain * chips) inside,
      All-append (Targets n) _ _
          (optional-Targets (not (domain * chips == last_chip n chips domain)) n
            (last_chip n chips domain) (relay domain chips) (omega arith))
          later,
    )

-- Configuring the domains of a chain, empty or not, with at least one chip in a domain, gives
-- targeted register writes only, and each goes to a chip of the chain; with no chip in a domain it
-- panics.
pub configure_domains-Targets :
    (n chips : ℕ)
    → ((1 ≤ chips)
        × ((cs : List Command) × (configure_domains n chips ≡ ok cs) × All (Targets n) cs))
      ⊎ ((chips ≡ 0) × (configure_domains n chips ≡ panic))
unfolding configure_domains
configure_domains-Targets n zero = inr (refl, refl)
configure_domains-Targets n (suc c) =
    let chips : ℕ = suc c in
    let num_domains : ℕ = (n + (chips - 1)) / chips in
    let some_chips : (chips == 0) ≡ false = ground arith in
    inl (
      omega arith,
      (
        boundary_strengths num_domains 0 n chips ++ uart_relays num_domains 0 n chips,
        rw some_chips,
        All-append (Targets n) (boundary_strengths num_domains 0 n chips)
            (uart_relays num_domains 0 n chips)
            (boundary_strengths-Targets num_domains 0 n chips (omega arith) (omega arith))
            (uart_relays-Targets num_domains 0 n chips (omega arith) (omega arith)),
      ),
    )
