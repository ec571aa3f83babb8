-- ===== src/Asic/Bm13xx/Hash.antt =====
-- protocol.rs: a hash between the order of the bitcoin crate and the order on the wire. The 32
-- bytes are eight words of four bytes, and `bytes[i * 4..(i + 1) * 4]` is word i.
use nano_mujina.Prelude.{ℕ, zero, suc, ◌-◌, ◌≡◌, refl, List, ◌++◌}
use nano_mujina.Prelude.Bytes.{Bytes4, bytes4, Bytes4_to_list}

pub record Hash : Type 0 where
  pub w0 : Bytes4
  pub w1 : Bytes4
  pub w2 : Bytes4
  pub w3 : Bytes4
  pub w4 : Bytes4
  pub w5 : Bytes4
  pub w6 : Bytes4
  pub w7 : Bytes4

abbrev zero_hash : Hash
zero_hash =
    let z : Bytes4 = bytes4 0 0 0 0 in
    record { w0 = z; w1 = z; w2 = z; w3 = z; w4 = z; w5 = z; w6 = z; w7 = z }

-- Word i, and a write to it; there are no words above 7.
word : Hash → ℕ → Bytes4
word h zero = h.w0
word h (suc zero) = h.w1
word h (suc (suc zero)) = h.w2
word h (suc (suc (suc zero))) = h.w3
word h (suc (suc (suc (suc zero)))) = h.w4
word h (suc (suc (suc (suc (suc zero))))) = h.w5
word h (suc (suc (suc (suc (suc (suc zero)))))) = h.w6
word h (suc (suc (suc (suc (suc (suc (suc i))))))) = h.w7

set_word : Hash → ℕ → Bytes4 → Hash
set_word h zero v = record h { w0 = v }
set_word h (suc zero) v = record h { w1 = v }
set_word h (suc (suc zero)) v = record h { w2 = v }
set_word h (suc (suc (suc zero))) v = record h { w3 = v }
set_word h (suc (suc (suc (suc zero)))) v = record h { w4 = v }
set_word h (suc (suc (suc (suc (suc zero))))) v = record h { w5 = v }
set_word h (suc (suc (suc (suc (suc (suc zero)))))) v = record h { w6 = v }
set_word h (suc (suc (suc (suc (suc (suc (suc i))))))) v = record h { w7 = v }

-- The loop of both functions from round `8 - todo` on: word 7 - i is written from word i.
reverse_words : ℕ → Hash → Hash → Hash
unfolding word set_word
reverse_words zero src dst = dst
reverse_words (suc todo) src dst = reverse_words todo src (set_word dst todo (word src (7 - todo)))

unfoldable pub hash_to_wire_bytes : Hash → Hash
unfolding reverse_words
hash_to_wire_bytes hash = reverse_words 8 hash zero_hash

unfoldable pub hash_from_wire_bytes : Hash → Hash
unfolding reverse_words
hash_from_wire_bytes wire_bytes = reverse_words 8 wire_bytes zero_hash

-- The bytes in order.
abbrev pub hash_to_list : Hash → List ℕ
hash_to_list h =
    Bytes4_to_list h.w0
    ++ (Bytes4_to_list h.w1
        ++ (Bytes4_to_list h.w2
            ++ (Bytes4_to_list h.w3
                ++ (Bytes4_to_list h.w4
                    ++ (Bytes4_to_list h.w5 ++ (Bytes4_to_list h.w6 ++ Bytes4_to_list h.w7))))))

-- The wire order is the reverse order of the words, each word's bytes kept, and the two functions
-- undo each other.
pub hash_from_wire_bytes-hash_to_wire_bytes :
    (h : Hash)
    → (hash_to_wire_bytes h ≡ record {
      w0 = h.w7;
      w1 = h.w6;
      w2 = h.w5;
      w3 = h.w4;
      w4 = h.w3;
      w5 = h.w2;
      w6 = h.w1;
      w7 = h.w0;
    })
      × (hash_from_wire_bytes (hash_to_wire_bytes h) ≡ h)
      × (hash_to_wire_bytes (hash_from_wire_bytes h) ≡ h)
unfolding hash_to_wire_bytes hash_from_wire_bytes
hash_from_wire_bytes-hash_to_wire_bytes h = (refl, refl, refl)
