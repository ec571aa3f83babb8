-- ===== src/Asic/Bm13xx/Register/Tests.antt =====
-- The theorems about registers at concrete values.
use nano_mujina.Prelude.{◌≡◌}
use nano_mujina.Prelude.Bytes.{bytes4}
use nano_mujina.Asic.Bm13xx.Hash.{Hash}
use nano_mujina.Asic.Bm13xx.Fields.{baud1m, custom}
use nano_mujina.Asic.Bm13xx.Register.{Register, decode, address, encode_data}
use nano_mujina.Asic.Bm13xx.Register.RoundTrip.{decode-encode_data}

decode-encode_data_example :
    decode (address (Register.uart_baud baud1m)) (encode_data (Register.uart_baud baud1m))
    ≡ Register.uart_baud (custom 0x00023011)
decode-encode_data_example = decode-encode_data (Register.uart_baud baud1m) tt

abbrev counted : Hash
counted = record {
  w0 = bytes4 0 1 2 3;
  w1 = bytes4 4 5 6 7;
  w2 = bytes4 8 9 10 11;
  w3 = bytes4 12 13 14 15;
  w4 = bytes4 16 17 18 19;
  w5 = bytes4 20 21 22 23;
  w6 = bytes4 24 25 26 27;
  w7 = bytes4 28 29 30 31;
}
