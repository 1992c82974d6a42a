-- ===== src/Emission/Init.antt =====
-- `init`: the checks of the configuration. The payload's fields are read by
-- the time they come here; a field that is not a number is `none`.
use text.Mathlib.Text.{starts_with}
use magi_tokenomics.Common.{
  ℕ, ℤ, pos, ◌+ℤ◌, ltb_ℤ, leb_ℤ, String, List, [], ◌∷◌, ◌++◌, Bool, true, false, not, ◌&&◌, ◌||◌,
  ltb, nat_beq, ◌==◌, string_eq, if◌then◌else◌, Option, none, some, get, insert, Map, Outcome, ok,
  abort, require, abort_if, ◌>>=◌, ◌>>◌, already_initialized, not_owner, bad_uint, genesis_in_past,
  bad_epoch_len, bad_base_annual, bad_blocks_per_year, zero_emission, bad_max_catch, bad_bucket,
  bad_target, self_target, bad_weight, duplicate_bucket, weights_not_full, dust_bucket_missing,
  bad_source, self_source, bad_max_supply,
}
use magi_tokenomics.Chain.{Env, World, validate_addr, is_ledger_addr}
use magi_tokenomics.Adapter.{Token, require_fungible, require_no_token_id}
use magi_tokenomics.Auth.Active.{require_active_unless_contract}
use magi_tokenomics.Emission.State.{State, EmissionCfg, BucketDef, Event, c2_init}
use magi_tokenomics.Emission.Schedule.{for_epoch}

-- One `name:target:weightBps` of the payload, split; `none` is a weight that is no integer.
pub record BucketText : Type 0 where
  pub name : String
  pub target : String
  pub wbps : Option ℤ

pub record Request : Type 0 where
  pub token : String
  pub kind : String
  pub token_id : String
  -- absent, or the text's value
  pub genesis : Option (Option ℕ)
  -- 0 where the text is no uint64 (`pu`)
  pub epoch_len : ℕ
  pub base_annual : ℤ
  pub blocks_per_year : ℕ
  pub dust_bucket : String
  pub max_catch : Option ℕ
  pub buckets : List BucketText
  pub source : String

unfoldable pub choose_genesis : Option (Option ℕ) → ℕ → Outcome ℕ
choose_genesis none now = ok now
choose_genesis (some none) now = abort bad_uint
choose_genesis (some (some g)) now = if ltb g now then abort genesis_in_past else ok g

abbrev schedule_of : Request → EmissionCfg
schedule_of r = record {
  epoch_len = r.epoch_len;
  base_annual = r.base_annual;
  blocks_per_year = r.blocks_per_year;
}

unfoldable pub check_schedule : Request → Outcome EmissionCfg
check_schedule r = do
  require (not (nat_beq r.epoch_len 0)) bad_epoch_len
  require (ltb_ℤ (pos 0) r.base_annual) bad_base_annual
  require (not (nat_beq r.blocks_per_year 0)) bad_blocks_per_year
  require (ltb_ℤ (pos 0) (for_epoch (schedule_of r) 0)) zero_emission
  ok (schedule_of r)

unfoldable pub check_max_catch : Option ℕ → Outcome ℕ
check_max_catch none = ok 0
check_max_catch (some n) = if nat_beq n 0 || ltb 1000 n then abort bad_max_catch else ok n

-- The loop over the buckets: the table so far, its targets, the sum of the weights, and whether
-- the dust bucket was among them.
pub record Table : Type 0 where
  pub targets : Map String String
  pub buckets : List BucketDef
  pub total : ℤ
  pub dust_seen : Bool

abbrev pub empty_table : Table
empty_table = record { targets = []; buckets = []; total = pos 0; dust_seen = false }

unfoldable pub check_target : String → String → Outcome (Unit {0})
check_target self target = do
  validate_addr target
  require
      (starts_with target "hive:" || starts_with target "contract:" || starts_with target "did:")
      bad_target
  abort_if (target == self) self_target

unfoldable pub check_weight : Option ℤ → Outcome ℤ
check_weight none = abort bad_weight
check_weight (some w) = if ltb_ℤ w (pos 0) || ltb_ℤ (pos 10000) w then abort bad_weight else ok w

unfoldable pub add_bucket : String → String → BucketText → Table → Outcome Table
unfolding check_target check_weight
add_bucket self dust b tb = do
  abort_if (b.name == "" || b.target == "") bad_bucket
  check_target self b.target
  w ← check_weight b.wbps
  abort_if (not (get "" b.name tb.targets == "")) duplicate_bucket
  ok (record {
    targets = insert b.name b.target tb.targets;
    buckets = tb.buckets ++ record { name = b.name; wbps = w } ∷ [];
    total = tb.total +ℤ w;
    dust_seen = if b.name == dust then true else tb.dust_seen;
  })

unfoldable pub add_buckets : String → String → List BucketText → Table → Outcome Table
add_buckets self dust [] tb = ok tb
add_buckets self dust (b ∷ bs) tb = add_bucket self dust b tb >>= add_buckets self dust bs

unfoldable pub check_buckets : String → Request → Outcome Table
unfolding add_buckets
check_buckets self r = do
  tb ← add_buckets self r.dust_bucket r.buckets empty_table
  require (leb_ℤ tb.total (pos 10000) && leb_ℤ (pos 10000) tb.total) weights_not_full
  require tb.dust_seen dust_bucket_missing
  ok tb

unfoldable pub check_source : Env → String → Outcome String
check_source env source = do
  let src = if source == "" then env.owner else source
  validate_addr src
  require (is_ledger_addr src) bad_source
  abort_if (src == env.self_addr) self_source
  ok src

module _ {L : Type 0} (t : Token L) where
  unfoldable pub init : Env → Request → World State Event L → Outcome (World State Event L)
  unfolding choose_genesis check_schedule check_max_catch check_buckets check_source
  init env r w = do
    abort_if w.state.initialized already_initialized
    require (env.owner == env.caller) not_owner
    require_active_unless_contract env.caller env.required_auths
    validate_addr r.token
    kind ← require_fungible r.kind
    require_no_token_id r.token_id
    genesis ← choose_genesis r.genesis env.height
    schedule ← check_schedule r
    max_catch ← check_max_catch r.max_catch
    table ← check_buckets env.self_addr r
    source ← check_source env r.source
    let max_supply = t.max_supply w.ledger
    require (ltb_ℤ (pos 0) max_supply) bad_max_supply
    ok (record w {
      state = record w.state {
        initialized = true;
        token = r.token;
        kind = kind;
        genesis = genesis;
        schedule = schedule;
        dust_bucket = r.dust_bucket;
        max_catch = max_catch;
        targets = table.targets;
        buckets = table.buckets;
        source = source;
        max_supply = max_supply;
      };
      log =
          c2_init r.token source env.owner genesis schedule r.dust_bucket table.buckets
            (for_epoch schedule 0)
          ∷ w.log;
    })
