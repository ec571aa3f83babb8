-- ===== src/JobSource/StratumV1.antt =====
-- job_source/stratum_v1.rs and the messages in stratum_v1/messages.rs: the source that works with a
-- Stratum pool. The counters of shares, static in the source, are fields of its state; the username is
-- all that it uses of the configuration. A string is the list of its characters.
pub mod Connection
mod Tests
use nano_mujina.Prelude.{
  ℕ, zero, suc, ◌+◌, ◌%◌, bit_and, Bool, true, false, not, ◌||◌, Option, none, some, List, [], ◌∷◌,
  ltb, ◌==◌, if◌then◌else◌, Outcome, ok, err, panic, ◌>>=◌,
}
use nano_mujina.Prelude.Bytes.{u8, u64, to_be_bytes, to_le_bytes, from_be_bytes}
use nano_mujina.Asic.Bm13xx.Hash.{Hash}
use nano_mujina.Types.Difficulty.{Difficulty}
use nano_mujina.Types.Difficulty
use nano_mujina.Types.U256.{Decoded, div_f64}
use nano_mujina.JobSource.Extranonce2.Value.{Extranonce2Error, Extranonce2, to_vec}
use nano_mujina.JobSource.Extranonce2.Range.{Extranonce2Range}
use nano_mujina.JobSource.Extranonce2.Range
use nano_mujina.JobSource.Version.{
  GeneralPurposeBits, VersionTemplate, VersionTemplateError, none_set, from_mask_bytes,
}
use nano_mujina.JobSource.Version
use nano_mujina.JobSource.Job.{JobTemplate, Share, computed}
use nano_mujina.Scheduler.{Host, rate_target}
use nano_mujina.Scheduler.Handlers.{SourceEvent, update_job, replace_job}

-- The operations on `f64`, with `Difficulty::as_f64`: `of_quarters n` is n / 4, and `decode` reads a
-- finite positive number.
pub record Float64 : Type 1 where
  pub F : Type 0
  pub of_quarters : ℕ → F
  pub le : F → F → Bool
  pub mul : F → F → F
  pub div : F → F → F
  pub is_finite : F → Bool
  pub decode : F → Decoded
  pub as_f64 : Difficulty → F

pub record ProtocolState : Type 0 where
  pub extranonce1 : List ℕ
  pub extranonce2_size : ℕ
  pub share_difficulty : Option Difficulty
  pub version_mask : Option ℕ

pub record StratumV1Source (F : Type 0) : Type 0 where
  pub username : List ℕ
  pub state : Option ProtocolState
  pub first_share_logged : Bool
  pub expected_hashrate : ℕ
  pub last_suggested_difficulty : Option F
  pub cooldown_until : Option ℕ
  pub shares_accepted : ℕ
  pub shares_rejected : ℕ

pub record JobNotification : Type 0 where
  pub job_id : List ℕ
  pub prev_hash : Hash
  pub coinbase1 : List ℕ
  pub coinbase2 : List ℕ
  pub merkle_branches : List Hash
  pub version : ℕ
  pub nbits : ℕ
  pub ntime : ℕ
  pub clean_jobs : Bool

pub data ClientEvent (F : Type 0) : Type 0 where
  version_rolling_configured : Option ℕ → ClientEvent F
  subscribed : List ℕ → ℕ → ClientEvent F
  new_job : JobNotification → ClientEvent F
  difficulty_changed : F → ClientEvent F
  version_mask_set : ℕ → ClientEvent F
  share_accepted : List ℕ → ℕ → ClientEvent F
  share_rejected : List ℕ → List ℕ → ClientEvent F
  disconnected : ClientEvent F
  error : List ℕ → ClientEvent F

pub record SubmitParams : Type 0 where
  pub username : List ℕ
  pub job_id : List ℕ
  pub extranonce2 : List ℕ
  pub ntime : ℕ
  pub nonce : ℕ
  pub version_bits : Option ℕ

pub data SourceError : Type 0 where
  not_subscribed scheduler_gone : SourceError
  extranonce2_error : Extranonce2Error → SourceError
  version_error : VersionTemplateError → SourceError

-- A fresh state for the events that come before the subscription.
pub unsubscribed : ProtocolState
unsubscribed = record {
  extranonce1 = [];
  extranonce2_size = 0;
  share_difficulty = none;
  version_mask = none;
}

abbrev pub gp_mask : Option ℕ → GeneralPurposeBits
gp_mask none = none_set
gp_mask (some mask) = from_mask_bytes (to_be_bytes mask)

-- `vec![0; size]`.
pub zeros : ℕ → List ℕ
zeros zero = []
zeros (suc n) = 0 ∷ zeros n

abbrev pub extranonce2_or_zeros : ℕ → Option Extranonce2 → List ℕ
extranonce2_or_zeros size none = zeros size
extranonce2_or_zeros size (some extranonce2) = to_vec extranonce2

abbrev pub rolled_bits : ℕ → Option ℕ → Option ℕ
rolled_bits version none = none
rolled_bits version (some mask) = some (bit_and version mask)

-- `share_to_submit_params`, once there is a protocol state.
pub submit_params : List ℕ → ProtocolState → Share → SubmitParams
submit_params username state share = record {
  username = username;
  job_id = share.job_id;
  extranonce2 = extranonce2_or_zeros state.extranonce2_size share.extranonce2;
  ntime = share.time;
  nonce = from_be_bytes (to_le_bytes share.nonce);
  version_bits = rolled_bits share.version state.version_mask;
}

unfoldable pub share_to_submit_params :
    {F : Type 0} → StratumV1Source F → Share → Outcome SourceError SubmitParams
share_to_submit_params s share = elim s.state [
  | none ↦ err not_subscribed
  | some state ↦ ok (submit_params s.username state share)
]

-- The errors that `?` converts.
abbrev pub or_error : {A E : Type 0} → (E → SourceError) → Outcome E A → Outcome SourceError A
or_error f (ok a) = ok a
or_error f (err e) = err (f e)
or_error f panic = panic

module _ (host : Host) where
  abbrev pub share_target_of : Option Difficulty → ℕ
  share_target_of none = Difficulty.to_target (Difficulty.from_u64 host.bitcoin host.ruint 1)
  share_target_of (some difficulty) = Difficulty.to_target difficulty

  -- The template of a job, with its range and version.
  unfoldable pub template_of :
      ProtocolState → JobNotification → Extranonce2Range → VersionTemplate → JobTemplate
  template_of state job extranonce2_range version = record {
    id = job.job_id;
    prev_blockhash = job.prev_hash;
    version = version;
    bits = job.nbits;
    share_target = share_target_of state.share_difficulty;
    time = job.ntime;
    merkle_root = computed (record {
      coinbase1 = job.coinbase1;
      extranonce1 = state.extranonce1;
      extranonce2_range = extranonce2_range;
      coinbase2 = job.coinbase2;
      merkle_branches = job.merkle_branches;
    });
  }

  -- `job_to_template`, once there is a protocol state.
  unfoldable pub job_with : ProtocolState → JobNotification → Outcome SourceError JobTemplate
  unfolding template_of
  job_with state job =
      or_error extranonce2_error (Range.new (u8 state.extranonce2_size)) >>= λ extranonce2_range.
      or_error version_error (Version.new job.version (gp_mask state.version_mask)) >>= λ version.
      ok (template_of state job extranonce2_range version)

  unfoldable pub job_to_template :
      Option ProtocolState → JobNotification → Outcome SourceError JobTemplate
  unfolding job_with
  job_to_template none job = err not_subscribed
  job_to_template (some state) job = job_with state job

-- The handling of an event: the source after it, what the scheduler gets, and the result.
abbrev pub Handled : Type 0 → Type 0
Handled F = StratumV1Source F × List SourceEvent × Outcome SourceError (Unit {0})

-- `if let Some(state) = &mut self.state`.
abbrev pub modify_state :
    {F : Type 0} → (ProtocolState → ProtocolState) → StratumV1Source F → StratumV1Source F
modify_state f s = elim s.state [ none ↦ s | some state ↦ record s { state = some (f state) } ]

-- The state that an event finds, or a fresh one.
abbrev pub state_or_new : Option ProtocolState → ProtocolState
state_or_new none = unsubscribed
state_or_new (some state) = state

abbrev pub event_of : Bool → JobTemplate → SourceEvent
event_of true template = replace_job template
event_of false template = update_job template

-- The `?` on a job's template and on its sending: `received` is whether the scheduler's receiver is
-- there.
abbrev pub emit :
    {F : Type 0} → StratumV1Source F → Bool → Bool → Outcome SourceError JobTemplate → Handled F
emit s clean_jobs true (ok template) = (s, event_of clean_jobs template ∷ [], ok tt)
emit s clean_jobs false (ok template) = (s, [], err scheduler_gone)
emit s clean_jobs received (err e) = (s, [], err e)
emit s clean_jobs received panic = (s, [], panic)

module _ (host : Host) (float : Float64) where
  open float use {F, of_quarters, le, is_finite, decode}

  -- `Difficulty::from_f64`.
  unfoldable pub from_f64 : F → Difficulty
  from_f64 value =
      if le value (of_quarters 0) || not (is_finite value)
      then record { target = host.bitcoin.max_target }
      else record { target = div_f64 host.wide host.bitcoin.max_target (decode value) }

  unfoldable pub on_new_job : StratumV1Source F → JobNotification → Bool → Handled F
  unfolding job_to_template
  on_new_job s job received = emit s job.clean_jobs received (job_to_template host s.state job)

  -- `handle_client_event`.
  unfoldable pub handle_client_event : StratumV1Source F → ClientEvent F → Bool → Handled F
  unfolding on_new_job from_f64
  handle_client_event s (version_rolling_configured authorized_mask) received =
      (let state = record (state_or_new s.state) { version_mask = authorized_mask } in
        (record s { state = some state }, [], ok tt))
  handle_client_event s (subscribed extranonce1 extranonce2_size) received =
      (let state = record (state_or_new s.state) {
        extranonce1 = extranonce1;
        extranonce2_size = extranonce2_size;
      } in
        (record s { state = some state }, [], ok tt))
  handle_client_event s (new_job job) received = on_new_job s job received
  handle_client_event s (difficulty_changed diff) received =
      (let difficulty = from_f64 diff in
        (modify_state (λ state. record state { share_difficulty = some difficulty }) s, [], ok tt))
  handle_client_event s (version_mask_set mask) received =
      (modify_state (λ state. record state { version_mask = some mask }) s, [], ok tt)
  handle_client_event s (share_accepted job_id nonce) received = (
    record s { shares_accepted = u64 (s.shares_accepted + 1); first_share_logged = true },
    [],
    ok tt,
  )
  handle_client_event s (share_rejected job_id reason) received =
      (record s { shares_rejected = u64 (s.shares_rejected + 1) }, [], ok tt)
  handle_client_event s disconnected received = (s, [], ok tt)
  handle_client_event s (error message) received = (s, [], ok tt)
