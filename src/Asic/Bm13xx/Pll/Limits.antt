-- ===== src/Asic/Bm13xx/Pll/Limits.antt =====
-- The search for a PLL configuration stays within what the hardware takes.
use nano_mujina.Prelude.{ℕ, ◌*◌, ◌/◌, ◌%◌, ◌≤◌, ◌<◌, ◌≡◌}
use nano_mujina.Asic.Bm13xx.Pll.{PllConfig, Float32, Search}

-- The ranges that protocol.rs names: the feedback divider, the reference divider, the two post
-- dividers less one in the two nibbles, the first not below the second, and the flag of the VCO.
pub record InLimits (c : PllConfig) : Type 0 where
  pub fb_lower : 0xa0 ≤ c.fb_div
  pub fb_upper : c.fb_div ≤ 0xef
  pub ref_lower : 1 ≤ c.ref_div
  pub ref_upper : c.ref_div ≤ 2
  pub post_upper : c.post_div / 16 ≤ 6
  pub post_ordered : c.post_div % 16 ≤ c.post_div / 16
  pub fast_flag : 2400 * c.ref_div ≤ c.fb_div * 25 → c.flag ≡ 0x50
  pub slow_flag : c.fb_div * 25 < 2400 * c.ref_div → c.flag ≡ 0x40

-- A post divider, a reference divider.
abbrev IsPost : ℕ → Type 0
IsPost p = (1 ≤ p) × (p ≤ 7)

abbrev IsRef : ℕ → Type 0
IsRef r = (1 ≤ r) × (r ≤ 2)

module _ (f32 : Float32) (target : f32.F) where
  abbrev Kept : Search f32 → Type 0
  Kept s = InLimits s.best_config
