-- ===== src/Fixtures.antt =====
-- Test data that the modules of tests share: small stand-ins for the crates, a job and a task.
use nano_mujina.Prelude.{ℕ, suc, ◌+◌, ◌-◌, ◌/◌, ◌%◌, some, [], ◌∷◌, leb, min, ◌^◌, ◌*◌, false}
use nano_mujina.Prelude.Bytes.{Bytes4, bytes4, to_le_bytes}
use nano_mujina.Asic.Bm13xx.Hash.{Hash}
use nano_mujina.JobSource.Version.{gp_bits}
use nano_mujina.JobSource.Extranonce2.Range.{Extranonce2Range}
use nano_mujina.JobSource.Job.{JobTemplate, computed, MerkleRootKind}
use nano_mujina.Types.Bitcoin.{Bitcoin}
use nano_mujina.Types.U256.{down}
use nano_mujina.Scheduler.{Host}
use nano_mujina.Types.HashrateEstimator.{Ruint}
use nano_mujina.Asic.Bm13xx.Thread.{HashTask}

abbrev pub word_hash : ℕ → Hash
word_hash n =
    let z : Bytes4 = bytes4 0 0 0 0 in
    record { w0 = to_le_bytes n; w1 = z; w2 = z; w3 = z; w4 = z; w5 = z; w6 = z; w7 = z }

-- A header's hash is its nonce; every hash below the target meets it.
abbrev pub toy_bitcoin : Bitcoin
toy_bitcoin = record {
  coinbase_txid = λ bytes. some (word_hash 7);
  sha256d = λ bytes. word_hash 8;
  block_hash = λ h. word_hash h.nonce;
  target_from = λ bits. bits;
  is_met_by = λ target hash. leb hash.w0.b0 target;
  max_target = 1000;
  target_to_work = λ target. 1000 / suc target;
}

abbrev pub toy_ruint : Ruint
toy_ruint = record {
  add = λ a b. (a + b) % 2 ^ 256;
  sub = λ a b. (a + 2 ^ 256 - b) % 2 ^ 256;
  div = λ a b. a / b;
  saturating_to_u64 = λ a. min a (2 ^ 64 - 1);
}

abbrev pub range : Extranonce2Range
range = record { min = 0; max = 255; size = 1 }

abbrev pub template : MerkleRootKind → JobTemplate
template kind = record {
  id = 1 ∷ [];
  prev_blockhash = word_hash 5;
  version = record { base = 0x20000000; gp_bits_mask = gp_bits 0xff 0xff };
  bits = 0x1d00ffff;
  share_target = 100;
  time = 1000;
  merkle_root = kind;
}

abbrev pub pool_root : MerkleRootKind
pool_root = computed (record {
  coinbase1 = 1 ∷ [];
  extranonce1 = 2 ∷ [];
  extranonce2_range = range;
  coinbase2 = 3 ∷ [];
  merkle_branches = word_hash 9 ∷ [];
})

-- A task on channel `tx`.
abbrev pub task : ℕ → HashTask
task tx = record {
  template = template pool_root;
  en2_range = some range;
  en2 = some (record { value = 3; size = 1 });
  share_target = 100;
  ntime = 1000;
  share_tx = tx;
}

abbrev pub toy_host : Host
toy_host = record {
  bitcoin = toy_bitcoin;
  ruint = toy_ruint;
  wide = record {
    leading_zeros = λ v. 0;
    shl_256 = λ v s. v * 2 ^ s % 2 ^ 256;
    div_256 = λ v d. v / d;
    shl_512 = λ v s. v * 2 ^ s % 2 ^ 512;
    div_512 = λ v d. v / d;
  };
  hashes_in = λ rate interval. (leb rate 1, record { mantissa = rate; exponent = down 0 });
  share_takes_long = λ target rate. false;
}
