-- ===== src/Distributor/Setup.antt =====
-- `init`, `addChannel`, `setPolicy` and the query `channelInfo`: the configuration.
use Prim.Native.Char.{code}
use magi_tokenomics.Common.{
  ℕ, Bool, true, false, ◌||◌, ◌&&◌, not, String, List, [], ◌∷◌, Option, none, some, ltb, leb,
  nat_beq, ◌==◌, string_eq, if◌then◌else◌, get, insert, Outcome, ok, require, abort_if, or_abort,
  ◌>>=◌, ◌>>◌, already_initialized, not_owner, not_initialized, no_treasury, not_ledger_address,
  treasury_is_self, treasury_is_guardian, no_funder_schedule, bad_staked_bps, other_token,
  channel_required, bad_channel_name, channel_exists, bucket_required, bad_bucket, other_funder,
  bucket_taken, bad_window, not_disjoint, bad_role, bad_policy, policy_required,
}
use magi_tokenomics.Chain.{Env, World, validate_addr, is_ledger_addr, contains, mul64}
use magi_tokenomics.Auth.Active.{require_active_unless_contract}
use magi_tokenomics.Auth.Policy.{validate}
use magi_tokenomics.Adapter.{Token, Funder, Staker, require_fungible, require_no_token_id}
use magi_tokenomics.Text.Fields.{split_comma, parse_uint}
use magi_tokenomics.Merkle.Hex.{hex_to_bytes}
use magi_tokenomics.Distributor.State.{
  State, Event, Authority, Channel, c3_init, channel_event, policy_event,
}
use magi_tokenomics.Distributor.Policy.{auth_cfg, must_channel}

-- The payload of `init`, field by field.
pub record Request : Type 0 where
  pub token : String
  pub kind : String
  pub token_id : String
  pub funder : String
  pub guardian : Authority
  pub treasury : String
  pub stake_contract : String
  pub staked_bps : String

abbrev pub is_none : Option Channel → Bool
is_none none = true
is_none (some c) = false

abbrev overlaps : List String → List String → Bool
overlaps [] ys = false
overlaps (x ∷ xs) ys = contains ys x || overlaps xs ys

unfoldable pub check_treasury : Env → Request → Outcome (Unit {0})
unfolding validate_addr is_ledger_addr split_comma contains
check_treasury env r = do
  abort_if (r.treasury == "") no_treasury
  validate_addr r.treasury
  require (is_ledger_addr r.treasury) not_ledger_address
  abort_if (r.treasury == env.self_addr) treasury_is_self
  abort_if (contains (split_comma r.guardian.authorities) r.treasury) treasury_is_guardian

-- The payload of `addChannel`.
pub record ChannelRequest : Type 0 where
  pub bucket : String
  pub window : String
  pub reporter : Authority
  pub role : String
  pub policy : String

unfoldable pub is_channel_name : String → Bool
is_channel_name String.[] = true
is_channel_name (String.◌∷◌ c s) =
    not (nat_beq (code c) 124 || nat_beq (code c) 58 || nat_beq (code c) 44) && is_channel_name s

unfoldable pub check_window : State → String → Outcome ℕ
unfolding parse_uint
check_window s text = do
  n ← or_abort (parse_uint text) bad_window
  abort_if (nat_beq n 0) bad_window
  abort_if (ltb 0 s.epoch_len && ltb (mul64 10 s.epoch_len) n) bad_window
  ok n

-- Reporters, guardians and treasury are disjoint.
unfoldable pub check_reporter : State → Authority → Outcome (Unit {0})
unfolding auth_cfg validate split_comma contains
check_reporter s reporter = do
  cfg ← auth_cfg reporter
  validate cfg
  let names = split_comma reporter.authorities
  abort_if (overlaps names (split_comma s.guardian.authorities)) not_disjoint
  abort_if (not (s.treasury == "") && contains names s.treasury) not_disjoint

unfoldable pub check_role : String → Outcome (Unit {0})
check_role role = require (role == "" || role == "content" || role == "lp") bad_role

-- Required in attest mode.
unfoldable pub check_policy : String → String → Outcome (Unit {0})
unfolding hex_to_bytes
check_policy mode policy =
    if policy == ""
    then abort_if (mode == "2") policy_required
    else (do bytes ← or_abort (hex_to_bytes policy) bad_policy; ok tt)

module _ {R : Type 0} (t : Token R) (funder : Funder R t.balance_of) where
  -- The part of a payout to stake, in basis points; 0 where no stake contract is named.
  unfoldable pub check_staking : Staker R t.balance_of → Request → R → Outcome ℕ
  unfolding validate_addr parse_uint
  check_staking staker r world = if r.stake_contract == "" then ok 0 else (do
    validate_addr r.stake_contract
    bps ← or_abort (parse_uint r.staked_bps) bad_staked_bps
    require (ltb 0 bps && leb bps 10000) bad_staked_bps
    let held = staker.token_of world
    require (held == "" || held == r.token) other_token
    ok bps)

  unfoldable pub init :
      Staker R t.balance_of → Env → Request → World State Event R → Outcome (World State Event R)
  unfolding require_active_unless_contract validate_addr require_fungible require_no_token_id
      auth_cfg validate check_treasury check_staking
  init staker env r w = do
    abort_if w.state.initialized already_initialized
    require (env.owner == env.caller) not_owner
    require_active_unless_contract env.caller env.required_auths
    validate_addr r.token
    validate_addr r.funder
    kind ← require_fungible r.kind
    require_no_token_id r.token_id
    guardian ← auth_cfg r.guardian
    validate guardian
    check_treasury env r
    schedule ← or_abort (funder.schedule_info w.ledger) no_funder_schedule
    bps ← check_staking staker r w.ledger
    ok (record w {
      state = record w.state {
        initialized = true;
        token = r.token;
        kind = kind;
        funder = r.funder;
        guardian = r.guardian;
        treasury = r.treasury;
        genesis = schedule.0;
        epoch_len = schedule.1;
        stake_contract = r.stake_contract;
        staked_bps = bps;
      };
      log = c3_init r.token env.owner r.funder r.treasury schedule.0 schedule.1 r.guardian ∷ w.log;
    })

  unfoldable pub check_bucket : Env → State → String → R → Outcome (Unit {0})
  check_bucket env s bucket world = do
    abort_if (bucket == "") bucket_required
    target ← or_abort (funder.bucket_target world bucket) bad_bucket
    abort_if (target == "") bad_bucket
    require (target == env.self_addr) other_funder
    require (get "" bucket s.for_bucket == "") bucket_taken

  unfoldable pub add_channel :
      Env → String → ChannelRequest → World State Event R → Outcome (World State Event R)
  unfolding require_active_unless_contract is_channel_name check_bucket check_window check_reporter
      check_role check_policy
  add_channel env ch r w = do
    require w.state.initialized not_initialized
    require (env.caller == env.owner) not_owner
    require_active_unless_contract env.caller env.required_auths
    abort_if (ch == "") channel_required
    require (is_channel_name ch) bad_channel_name
    require (is_none (get none ch w.state.channels)) channel_exists
    check_bucket env w.state r.bucket w.ledger
    window ← check_window w.state r.window
    check_reporter w.state r.reporter
    check_role r.role
    check_policy r.reporter.mode r.policy
    let policies = if r.policy == "" then w.state.policies else insert ch r.policy w.state.policies
    let c : Channel = record {
      bucket = r.bucket;
      window = window;
      reporter = r.reporter;
      role = r.role;
    }
    ok (record w {
      state = record w.state {
        channels = insert ch (some c) w.state.channels;
        for_bucket = insert r.bucket ch w.state.for_bucket;
        policies = policies;
      };
      log = channel_event ch r.bucket window r.role r.reporter (get "" ch policies) ∷ w.log;
    })

unfoldable pub set_policy :
    {R : Type 0} → Env → String → String → World State Event R → Outcome (World State Event R)
unfolding require_active_unless_contract must_channel hex_to_bytes
set_policy env ch policy w = do
  require w.state.initialized not_initialized
  require (env.caller == env.owner) not_owner
  require_active_unless_contract env.caller env.required_auths
  c ← must_channel w.state ch
  bytes ← or_abort (hex_to_bytes policy) bad_policy
  ok (record w {
    state = record w.state { policies = insert ch policy w.state.policies };
    log = policy_event ch policy (get "" ch w.state.policies) ∷ w.log;
  })

unfoldable pub channel_info : State → String → Outcome (Option Channel × (ℕ × ℕ))
channel_info s ch = do
  require s.initialized not_initialized
  ok (get none ch s.channels, (s.genesis, s.epoch_len))
