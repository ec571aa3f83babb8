-- ===== src/Asic/Bm13xx/Register/Address.antt =====
-- protocol.rs: `RegisterAddress`, its numbers, and the partial inverse that strum derives.
use nano_mujina.Prelude.{
  ℕ, ◌≡◌, refl, inl, inr, Option, none, some, List, [], ◌∷◌, arith, ◌==◌, if◌then◌else◌, Bool-cases,
}

pub data RegisterAddress : Type 0 where
  chip_id pll_divider nonce_range ticket_mask misc_control uart_baud uart_relay : RegisterAddress
  core analog_mux io_driver_strength pll3_parameter version_mask init_control : RegisterAddress
  misc_settings : RegisterAddress

-- The discriminants.
unfoldable pub repr : RegisterAddress → ℕ
repr chip_id = 0x00
repr pll_divider = 0x08
repr nonce_range = 0x10
repr ticket_mask = 0x14
repr misc_control = 0x18
repr uart_baud = 0x28
repr uart_relay = 0x2C
repr core = 0x3C
repr analog_mux = 0x54
repr io_driver_strength = 0x58
repr pll3_parameter = 0x68
repr version_mask = 0xA4
repr init_control = 0xA8
repr misc_settings = 0xB9

abbrev addresses : List RegisterAddress
addresses =
    chip_id ∷ pll_divider ∷ nonce_range ∷ ticket_mask ∷ misc_control ∷ uart_baud ∷ uart_relay ∷ core
    ∷ analog_mux ∷ io_driver_strength ∷ pll3_parameter ∷ version_mask ∷ init_control ∷ misc_settings
    ∷ []

-- The address with a given number, if there is one.
find_repr : ℕ → List RegisterAddress → Option RegisterAddress
find_repr n [] = none
find_repr n (a ∷ rest) = if n == repr a then some a else find_repr n rest

unfoldable pub from_repr : ℕ → Option RegisterAddress
unfolding find_repr repr
from_repr n = find_repr n addresses

-- `from_repr` finds an address for its own number, and for no other number.
pub from_repr-repr : (a : RegisterAddress) → from_repr (repr a) ≡ some a
unfolding from_repr
from_repr-repr chip_id = refl
from_repr-repr _ = refl

find_repr-some :
    (n : ℕ) (rest : List RegisterAddress) (a : RegisterAddress)
    → find_repr n rest ≡ some a
    → repr a ≡ n
unfolding find_repr
find_repr-some n [] a h = cc
find_repr-some n (b ∷ rest) a h = elim (Bool-cases (n == repr b)) [
  | inl same ↦ ground arith
  | inr other ↦ find_repr-some n rest a (ground arith)
]

-- A byte that is taken for the address of a register is the byte of that register.
pub repr-from_repr : (n : ℕ) (a : RegisterAddress) → from_repr n ≡ some a → repr a ≡ n
unfolding from_repr
repr-from_repr n a h = find_repr-some n addresses a h
