-- ===== src/JobSource/Extranonce2/Value.antt =====
-- extranonce2.rs: the type `Extranonce2`, its constructor and its bytes.
use nano_mujina.Prelude.{
  ℕ, zero, suc, ◌+◌, ◌-◌, ◌*◌, ◌^◌, ◌≤◌, ◌<◌, ◌≡◌, refl, ◌||◌, List, arith, ltb, leb, ◌==◌,
  if◌then◌else◌, Outcome, ok, err, length, take,
}
use nano_mujina.Prelude.Bytes.{
  le_list, from_le_list, length-le_list, from_le_list-le_list, take-le_list,
}

pub data Extranonce2Error : Type 0 where
  invalid_size : ℕ → Extranonce2Error
  value_too_large : ℕ → ℕ → Extranonce2Error
  invalid_range : ℕ → ℕ → Extranonce2Error

pub record Extranonce2 : Type 0 where
  pub value : ℕ  -- u64
  pub size : ℕ  -- u8

-- `(1u64 << (size * 8)) - 1`; below 8 neither the shift nor the product overflows.
unfoldable pub max_for_size : ℕ → ℕ
max_for_size size = if leb 8 size then 2 ^ 64 - 1 else 2 ^ (size * 8) - 1

unfoldable pub new : ℕ → ℕ → Outcome Extranonce2Error Extranonce2
new value size =
    if size == 0 || ltb 8 size
    then err (invalid_size size)
    else if ltb (max_for_size size) value
    then err (value_too_large value size)
    else ok (record { value = value; size = size })

-- What `extend_vec` appends to a vector, and `Vec::from` returns.
unfoldable pub to_vec : Extranonce2 → List ℕ
to_vec ext = take ext.size (le_list 8 ext.value)

pub max_for_size-pow : (size : ℕ) → size ≤ 8 → max_for_size size + 1 ≡ 256 ^ size
unfolding max_for_size
max_for_size-pow zero h = refl
max_for_size-pow (suc zero) h = refl
max_for_size-pow (suc (suc zero)) h = refl
max_for_size-pow (suc (suc (suc zero))) h = refl
max_for_size-pow (suc (suc (suc (suc zero)))) h = refl
max_for_size-pow (suc (suc (suc (suc (suc zero))))) h = refl
max_for_size-pow (suc (suc (suc (suc (suc (suc zero)))))) h = refl
max_for_size-pow (suc (suc (suc (suc (suc (suc (suc zero))))))) h = refl
max_for_size-pow (suc (suc (suc (suc (suc (suc (suc (suc n)))))))) h =
    let eq : n ≡ 0 = omega arith in rw eq

-- A value that the constructor accepts is written in exactly `size` bytes, which stand for it again,
-- the lowest first; and `new` accepts exactly the values that `size` bytes can hold, for the sizes
-- 1 to 8.
pub to_vec-new :
    (value size : ℕ)
    → 1 ≤ size
    → size ≤ 8
    → value < 256 ^ size
    → (ext : Extranonce2) × (new value size ≡ ok ext)
      × (length (to_vec ext) ≡ size)
      × (from_le_list (to_vec ext) ≡ value)
unfolding new to_vec
to_vec-new value size lo hi fits = (
  record { value = value; size = size },
  ground (arith, max_for_size-pow size),
  rw (take-le_list size 8 value hi) (length-le_list size value),
  rw (take-le_list size 8 value hi) (from_le_list-le_list size value fits),
)
