-- ===== src/Emission/State.antt =====
-- The emission controller's state: one field for each key or key family, and the events that it logs. The keys are
-- written once by `init`, but for `cfg_lastEpoch` and `owed|name|epoch`.
use magi_tokenomics.Common.{ℕ, ℤ, pos, String, List, [], Option, none, Bool, false, Map}
use magi_tokenomics.Adapter.{Kind, fungible}

pub record BucketDef : Type 0 where
  pub name : String
  pub wbps : ℤ

-- `emissionCfg`
pub record EmissionCfg : Type 0 where
  pub epoch_len : ℕ
  pub base_annual : ℤ
  pub blocks_per_year : ℕ

pub record State : Type 0 where
  pub initialized : Bool
  pub token : String
  pub kind : Kind
  pub genesis : ℕ
  pub schedule : EmissionCfg
  pub dust_bucket : String
  -- 0 where the key was never written
  pub max_catch : ℕ
  -- `bkt|name`
  pub targets : Map String String
  -- `bucket|i`, in order; `bucket_n` is the length
  pub buckets : List BucketDef
  pub source : String
  pub max_supply : ℤ
  -- `cfg_lastEpoch_v`, where `cfg_lastEpoch` is set
  pub last_epoch : Option ℕ
  -- `owed|name|epoch`
  pub owed : Map (String × ℕ) ℤ

pub data Event : Type 0 where
  c2_init : String → String → String → ℕ → EmissionCfg → String → List BucketDef → ℤ → Event
  -- from_epoch, last_epoch, epochs, pulled, starved
  poke : ℕ → ℕ → ℕ → ℤ → Bool → Event
  -- epoch, emission
  emit : ℕ → ℤ → Event
  -- bucket, epoch, amount, is_dust
  alloc : String → ℕ → ℤ → Bool → Event
  -- bucket, epoch, amount, target
  bucket_claim : String → ℕ → ℤ → String → Event

abbrev pub no_schedule_cfg : EmissionCfg
no_schedule_cfg = record { epoch_len = 0; base_annual = pos 0; blocks_per_year = 0 }

-- A contract that was deployed and not initialised.
abbrev pub deployed : State
deployed = record {
  initialized = false;
  token = "";
  kind = fungible;
  genesis = 0;
  schedule = no_schedule_cfg;
  dust_bucket = "";
  max_catch = 0;
  targets = [];
  buckets = [];
  source = "";
  max_supply = pos 0;
  last_epoch = none;
  owed = [];
}
