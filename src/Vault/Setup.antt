-- ===== src/Vault/Setup.antt =====
-- `init`, `adoptSchedule` and the query `scheduleInfo`: the configuration. Numbers that the code
-- compares as texts are compared as numbers.
use magi_tokenomics.Common.{
  ℕ, ℤ, pos, ltb_ℤ, Bool, true, false, ◌&&◌, not, String, List, [], ◌∷◌, Option, none, some, ltb,
  nat_beq, ◌==◌, string_eq, nat_eq, if◌then◌else◌, Map, insert, Outcome, ok, require, abort_if,
  or_abort, ◌>>=◌, ◌>>◌, already_initialized, not_owner, not_initialized, token_required, bad_uint,
  cooldown_too_short, no_funder_schedule, schedule_mismatch, not_ledger_address, treasury_is_self,
  treasury_is_guardian, guardian_without_treasury, bad_cap, already_adopted, funder_required,
  other_funder, other_genesis, bad_bucket,
}
use magi_tokenomics.Chain.{Env, World, validate_addr, is_ledger_addr, contains}
use magi_tokenomics.Auth.Active.{require_active_unless_contract}
use magi_tokenomics.Auth.Policy.{validate}
use magi_tokenomics.Adapter.{Token, Funder, require_fungible, require_no_token_id}
use magi_tokenomics.Text.Fields.{split_comma, parse_uint, parse_big}
use magi_tokenomics.Distributor.State.{Authority}
use magi_tokenomics.Distributor.Policy.{auth_cfg}
use magi_tokenomics.Vault.State.{Vault, Logged, c1_init, schedule_adopted}

-- The payload of `init`, field by field.
pub record Request : Type 0 where
  pub token : String
  pub kind : String
  pub token_id : String
  pub cooldown : String
  pub epoch_len : String
  pub funder : String
  pub allow : String
  pub treasury : String
  pub guardian : Authority
  pub max_airdrop : String
  pub airdrop_staked : String

-- The cooldown is longer than an epoch.
unfoldable pub read_lengths : Request → Outcome (ℕ × ℕ)
unfolding parse_uint
read_lengths r = do
  cd ← or_abort (parse_uint r.cooldown) bad_uint
  el ← or_abort (parse_uint r.epoch_len) bad_uint
  require (ltb el cd) cooldown_too_short
  ok (cd, el)

unfoldable pub allow_all : List String → Map String Bool → Outcome (Map String Bool)
unfolding validate_addr
allow_all [] m = ok m
allow_all (a ∷ xs) m = do validate_addr a; allow_all xs (insert a true m)

unfoldable pub check_treasury : Env → Request → Outcome (Unit {0})
unfolding validate_addr is_ledger_addr split_comma contains
check_treasury env r = if r.treasury == "" then ok tt else (do
  validate_addr r.treasury
  require (is_ledger_addr r.treasury) not_ledger_address
  abort_if (r.treasury == env.self_addr) treasury_is_self
  abort_if (contains (split_comma r.guardian.authorities) r.treasury) treasury_is_guardian)

unfoldable pub check_guardian : Request → Outcome (Unit {0})
unfolding auth_cfg validate
check_guardian r = if r.guardian.mode == "" then ok tt else (do
  cfg ← auth_cfg r.guardian
  validate cfg
  abort_if (r.treasury == "") guardian_without_treasury)

unfoldable pub read_cap : (String → ℤ) → String → Outcome (Option ℤ)
unfolding parse_big
read_cap garbled cap = if cap == "" then ok none else (do
  require (ltb_ℤ (pos 0) (parse_big garbled cap)) bad_cap
  ok (some (parse_big garbled cap)))

-- A schedule that was adopted is kept; what may be added once is a bucket.
unfoldable pub check_anchor : Vault → String → String → ℕ → Outcome (Unit {0})
check_anchor v name bucket genesis = elim v.staking.genesis [
  | none ↦ ok tt
  | some g ↦ (do
    require (name == v.funder) other_funder
    require (nat_beq genesis g) other_genesis
    abort_if (bucket == "") already_adopted)
]

abbrev pub is_anchored : Option ℕ → Bool
is_anchored none = false
is_anchored (some g) = true

module _ {R : Type 0} (t : Token R) (funder : Funder R t.balance_of) where
  -- The genesis that a named funder reports; its epochs must be as long as these.
  unfoldable pub read_genesis : Request → ℕ → R → Outcome (Option ℕ)
  unfolding validate_addr
  read_genesis r el ledger = if r.funder == "" then ok none else (do
    validate_addr r.funder
    schedule ← or_abort (funder.schedule_info ledger) no_funder_schedule
    require (nat_beq schedule.1 el) schedule_mismatch
    ok (some schedule.0))

  unfoldable pub init :
      (String → ℤ) → Env → Request → World Vault Logged R → Outcome (World Vault Logged R)
  unfolding require_active_unless_contract validate_addr require_fungible require_no_token_id
      read_lengths read_genesis allow_all check_treasury check_guardian read_cap split_comma
  init garbled env r w = do
    abort_if w.state.staking.initialized already_initialized
    require (env.owner == env.caller) not_owner
    require_active_unless_contract env.caller env.required_auths
    abort_if (r.token == "") token_required
    validate_addr r.token
    kind ← require_fungible r.kind
    require_no_token_id r.token_id
    lengths ← read_lengths r
    genesis ← read_genesis r lengths.1 w.ledger
    allow ← allow_all (split_comma r.allow) w.state.staking.allow
    check_treasury env r
    check_guardian r
    cap ← read_cap garbled r.max_airdrop
    let airdrop_staked = not (r.max_airdrop == "") && r.airdrop_staked == "1"
    let staking = record w.state.staking {
      initialized = true;
      kind = kind;
      cooldown = lengths.0;
      epoch_len = lengths.1;
      genesis = genesis;
      allow = allow;
      total_staked = pos 0;
      ckpts = [];
      unstake_outstanding = pos 0;
    }
    ok (record w {
      state = record w.state {
        staking = staking;
        token = r.token;
        funder = r.funder;
        treasury = r.treasury;
        guardian = r.guardian;
        max_airdrop = cap;
        airdrop_staked = airdrop_staked;
        yield_outstanding = pos 0;
      };
      log =
          c1_init r.token env.owner lengths.0 lengths.1 r.funder genesis r.treasury cap
            airdrop_staked r.allow
          ∷ w.log;
    })

  unfoldable pub adopt_bucket : Env → String → String → R → Outcome String
  adopt_bucket env bucket old ledger = if bucket == "" then ok old else (do
    target ← or_abort (funder.bucket_target ledger bucket) bad_bucket
    abort_if (target == "") bad_bucket
    require (target == env.self_addr) other_funder
    ok bucket)

  unfoldable pub adopt_schedule :
      Env → String → String → World Vault Logged R → Outcome (World Vault Logged R)
  unfolding require_active_unless_contract validate_addr check_anchor adopt_bucket
  adopt_schedule env name bucket w = do
    require w.state.staking.initialized not_initialized
    require (env.owner == env.caller) not_owner
    require_active_unless_contract env.caller env.required_auths
    abort_if (is_anchored w.state.staking.genesis && not (w.state.bucket == "")) already_adopted
    abort_if (name == "") funder_required
    validate_addr name
    schedule ← or_abort (funder.schedule_info w.ledger) no_funder_schedule
    require (nat_beq schedule.1 w.state.staking.epoch_len) schedule_mismatch
    check_anchor w.state name bucket schedule.0
    adopted ← adopt_bucket env bucket w.state.bucket w.ledger
    ok (record w {
      state = record w.state {
        staking = record w.state.staking { genesis = some schedule.0 };
        funder = name;
        bucket = adopted;
      };
      log = schedule_adopted name schedule.0 schedule.1 adopted ∷ w.log;
    })
