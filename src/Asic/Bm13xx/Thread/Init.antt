-- ===== src/Asic/Bm13xx/Thread/Init.antt =====
-- thread.rs: `initialize_chip`, the commands that bring a chain of chips up.
use nano_mujina.Prelude.{
  ℕ, suc, Bool, true, false, ◌&&◌, Option, none, some, List, [], ◌∷◌, ◌++◌, map, if◌then◌else◌,
}
use nano_mujina.Asic.Bm13xx.Command.{Command, set_chip_address, chain_inactive, write_register}
use nano_mujina.Asic.Bm13xx.Register.{
  Register, version_mask, init_control, misc_control, core, ticket_mask, io_driver_strength,
  misc_settings, analog_mux, pll_divider, nonce_range,
}
use nano_mujina.Asic.Bm13xx.Fields.{full_rolling, normal, nonce_range_from_raw}
use nano_mujina.Asic.Bm13xx.Ticket.{Log2Difficulty}
use nano_mujina.Asic.Bm13xx.Ticket
use nano_mujina.Asic.Bm13xx.Pll.{PllConfig}
use nano_mujina.Asic.Bm13xx.Thread.Ramp.{RampFloat, ramp_loop}

-- `send_reg` to all chips and to chip 0.
abbrev all_chips : Register → Command
all_chips register = write_register true 0x00 register

abbrev first_chip : Register → Command
first_chip register = write_register false 0x00 register

-- `generate_frequency_ramp_steps(56.25, 525.0, 6.25)`, in quarters of a megahertz.
unfoldable pub frequency_steps : (f32 : RampFloat) → List PllConfig
frequency_steps f32 =
    ramp_loop f32 2000 (f32.of_quarters 2100) (f32.of_quarters 25) (f32.of_quarters 225)

-- What `initialize_chip` sends before the ramp, and after it.
abbrev pub configuration : Log2Difficulty → List Command
configuration asic_difficulty =
    all_chips (version_mask full_rolling)
    ∷ all_chips (version_mask full_rolling)
    ∷ all_chips (version_mask full_rolling)
    ∷ all_chips (init_control 0x00000700)
    ∷ all_chips (misc_control 0x00C100F0)
    ∷ chain_inactive
    ∷ set_chip_address 0x00
    ∷ all_chips (core 0x80008B00)
    ∷ all_chips (core 0x8000800C)
    ∷ all_chips (ticket_mask (Ticket.new asic_difficulty))
    ∷ all_chips (io_driver_strength normal)
    ∷ first_chip (init_control 0xF0010700)
    ∷ first_chip (misc_control 0x00C100F0)
    ∷ first_chip (core 0x80008B00)
    ∷ first_chip (core 0x8000800C)
    ∷ first_chip (core 0x800082AA)
    ∷ all_chips (misc_settings 0x80440000)
    ∷ all_chips (analog_mux 0x02000000)
    ∷ all_chips (misc_settings 0x80440000)
    ∷ all_chips (core 0x80008DEE)
    ∷ []

abbrev pub final_configuration : List Command
final_configuration =
    all_chips (nonce_range (nonce_range_from_raw 0xB51E0000))
    ∷ all_chips (version_mask full_rolling)
    ∷ []

-- All that it sends, in order.
unfoldable pub init_commands : (f32 : RampFloat) → Log2Difficulty → List Command
init_commands f32 asic_difficulty =
    configuration asic_difficulty
    ++ (map (λ pll_config. all_chips (pll_divider pll_config)) (frequency_steps f32)
        ++ final_configuration)

-- What the surroundings answer during one event: whether enabling the ASIC fails, and which of the
-- event's sends, counted from 0, the sink refuses.
pub record Io : Type 0 where
  pub enable_fails : Bool
  pub send_fails : ℕ → Bool

pub data InitError : Type 0 where
  enable_failed : InitError
  send_failed : ℕ → InitError

-- Sends until one is refused: the commands that the sink took, and the error if there was one. The
-- first send of the list is the event's send number `n`.
unfoldable pub send_all : Io → ℕ → List Command → List Command × Option InitError
send_all io n [] = ([], none)
send_all io n (c ∷ rest) =
    let later = send_all io (suc n) rest in
    if io.send_fails n then ([], some (send_failed n)) else (c ∷ later.0, later.1)

-- `has_asic_enable`: the board gave a control for enabling the ASIC.
unfoldable pub initialize_chip :
    (f32 : RampFloat) → Log2Difficulty → Bool → Io → List Command × Option InitError
initialize_chip f32 asic_difficulty has_asic_enable io =
    if has_asic_enable && io.enable_fails
    then ([], some enable_failed)
    else send_all io 0 (init_commands f32 asic_difficulty)
