-- ===== src/MgmtProtocol/BitaxeRaw/Channel/HwError.antt =====
-- hw_trait/mod.rs and hw_trait/i2c.rs: the errors that pins and buses on the channel return.
use nano_mujina.Prelude.{ℕ, Outcome, ok, err, panic}
use nano_mujina.MgmtProtocol.BitaxeRaw.Response.{IoError}

-- The texts of the errors, as what they are made from: the channel's error, or a reply of the wrong
-- length, with the length expected and the length that came.
pub data Text : Type 0 where
  failed : IoError → Text
  length_mismatch : ℕ → ℕ → Text

pub data I2cError : Type 0 where
  no_ack : ℕ → I2cError
  arbitration_lost bus_error : I2cError
  other : Text → I2cError

pub data HwError : Type 0 where
  io : IoError → HwError
  i2c : I2cError → HwError
  invalid_parameter not_supported : Text → HwError
  timeout : HwError
  other : Text → HwError

-- `HwError::I2c(I2cError::Other(…))`.
abbrev pub i2c_failed : IoError → HwError
i2c_failed e = i2c (I2cError.other (failed e))

abbrev pub i2c_length : ℕ → ℕ → HwError
i2c_length expected got = i2c (I2cError.other (length_mismatch expected got))

-- `map_err`.
unfoldable pub map_err {ℓ} :
    {A : Type ℓ} → (IoError → HwError) → Outcome IoError A → Outcome HwError A
map_err f (ok a) = ok a
map_err f (err e) = err (f e)
map_err f panic = panic
