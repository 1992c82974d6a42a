-- ===== src/Emission/Tests.antt =====
-- The emission controller on concrete inputs, and its theorems at inputs that meet their hypotheses.
use magi_tokenomics.Common.{
  Aborts, ℕ, pos, ◌+ℤ◌, ◌-ℤ◌, ◌*ℤ◌, ◌/ℤ◌, ◌≡◌, ◌≢◌, refl, arith, List, [], ◌∷◌, String, none, some,
  true, false, get, insert, sum, string_eq, nat_eq, pair_eq, ok, ne_of_beq,
}
use magi_tokenomics.Chain.{
  Env, World, add64, sub64, validate_addr, is_clean, is_ledger_addr, contains,
}
use magi_tokenomics.Adapter.{
  require_fungible, require_no_token_id, transfer, move_out, pull_from, move_in,
}
use magi_tokenomics.Adapter.Simple.{Ledger, simple_token, send, send_from, move}
use magi_tokenomics.Auth.Active.{require_active, require_active_unless_contract}
use magi_tokenomics.Text.Epoch.{must_epoch, is_digit, all_digits, digits_value, leads_with_zero}
use magi_tokenomics.Emission.State.{State, BucketDef, EmissionCfg, Event, deployed}
use magi_tokenomics.Emission.Schedule.{for_epoch, plan_catch_up, no_plan}
use magi_tokenomics.Emission.Init.{
  Request, init, choose_genesis, check_schedule, check_max_catch, check_buckets, add_buckets,
  add_bucket, check_target, check_weight, check_source,
}
use magi_tokenomics.Emission.Allocation.{
  record_epochs, record_epoch, record_allocations, allocate_slices, allocate_dust, add_owed,
  log_alloc, slice_of, is_zero,
}
use magi_tokenomics.Emission.Poke.{
  Report, idle, distribute_epoch, draw, plan_poke, run_plan, pull_plan, record_plan, report_nothing,
  next_epoch, elapsed_epochs, catch_limit, available,
}
use magi_tokenomics.Emission.Catchup.{IsMaximal, plan-IsMaximal}
use magi_tokenomics.Emission.Split.{sum-record_allocations}
use magi_tokenomics.Emission.Solvency.{Solvent}
use magi_tokenomics.Emission.Claiming.{Pays, claim_bucket-Pays, claim_bucket_once}
use magi_tokenomics.Emission.Configured.{IsConfigured, Accepts, init-Accepts}
use magi_tokenomics.Emission.Entries.{Advances, distribute_epoch-Advances}
use magi_tokenomics.Emission.Idle.{distribute_epoch_twice}
use magi_tokenomics.Emission.Reachable.{Step, Reachable, Reachable-Solvent}
use magi_tokenomics.Emission.Claim.{claim_bucket, pay_bucket, owed_of}

abbrev owner_env : Env
owner_env = record {
  owner = "hive:owner";
  caller = "hive:owner";
  self_addr = "contract:c2";
  height = 1000;
  required_auths = "hive:owner" ∷ [];
}

-- The pool is approved for 250 tokens; an epoch emits 100.
abbrev ledger : Ledger
ledger = record {
  balances = ("hive:pool", pos 5000) ∷ [];
  allowances = (("hive:pool", "contract:c2"), pos 250) ∷ [];
}

abbrev request : Request
request = record {
  token = "token1";
  kind = "0";
  token_id = "";
  genesis = none;
  epoch_len = 10;
  base_annual = pos 1003;
  blocks_per_year = 100;
  dust_bucket = "lp";
  max_catch = some 3;
  buckets =
      record { name = "content"; target = "contract:c3"; wbps = some (pos 3333) }
      ∷ record { name = "lp"; target = "contract:c3"; wbps = some (pos 6667) }
      ∷ [];
  source = "hive:pool";
}

abbrev fresh_world : World State Event Ledger
fresh_world = record { state = deployed; ledger = ledger; log = [] }

-- A poke when two epochs have passed.
abbrev poke_env : Env
poke_env = record owner_env { caller = "hive:keeper"; height = 1025; required_auths = [] }

abbrev table : List BucketDef
table = record { name = "content"; wbps = pos 3333 } ∷ record { name = "lp"; wbps = pos 6667 } ∷ []

abbrev schedule : EmissionCfg
schedule = record { epoch_len = 10; base_annual = pos 1003; blocks_per_year = 100 }

abbrev started : World State Event Ledger
started = record fresh_world {
  state = record deployed {
    initialized = true;
    token = "token1";
    genesis = 1000;
    schedule = schedule;
    dust_bucket = "lp";
    max_catch = 3;
    targets = ("content", "contract:c3") ∷ ("lp", "contract:c3") ∷ [];
    buckets = table;
    source = "hive:pool";
    max_supply = pos 1000000;
  };
  log = Event.c2_init "token1" "hive:pool" "hive:owner" 1000 schedule "lp" table (pos 100) ∷ [];
}

init_runs : init simple_token owner_env request fresh_world ≡ ok started
unfolding init validate_addr is_clean is_ledger_addr contains require_fungible require_no_token_id
    require_active require_active_unless_contract choose_genesis check_schedule check_max_catch
    check_buckets add_buckets add_bucket check_target check_weight check_source for_epoch ◌*ℤ◌ ◌/ℤ◌
    ◌+ℤ◌ get insert
init_runs = refl

abbrev poked : World State Event Ledger
poked = record {
  state = record started.state {
    last_epoch = some 1;
    owed =
        (("content", 0), pos 33)
        ∷ (("lp", 0), pos 67)
        ∷ (("content", 1), pos 33)
        ∷ (("lp", 1), pos 67)
        ∷ [];
  };
  ledger = record {
    balances = ("hive:pool", pos 4800) ∷ ("contract:c2", pos 200) ∷ [];
    allowances = (("hive:pool", "contract:c2"), pos 50) ∷ [];
  };
  log =
      Event.poke 0 1 2 (pos 200) false
      ∷ Event.emit 1 (pos 100)
      ∷ Event.alloc "lp" 1 (pos 1) true
      ∷ Event.alloc "lp" 1 (pos 66) false
      ∷ Event.alloc "content" 1 (pos 33) false
      ∷ Event.emit 0 (pos 100)
      ∷ Event.alloc "lp" 0 (pos 1) true
      ∷ Event.alloc "lp" 0 (pos 66) false
      ∷ Event.alloc "content" 0 (pos 33) false
      ∷ started.log;
}

abbrev two_epochs : Report
two_epochs = record { distributed = 2; starved = false }

distribute_runs : distribute_epoch simple_token poke_env started ≡ ok (poked, two_epochs)
unfolding distribute_epoch draw plan_poke run_plan pull_plan record_plan report_nothing next_epoch
    elapsed_epochs catch_limit available add64 sub64 plan_catch_up for_epoch pull_from move_in
    is_clean record_epochs record_epoch record_allocations allocate_slices allocate_dust add_owed
    log_alloc slice_of is_zero ◌*ℤ◌ ◌/ℤ◌ ◌+ℤ◌ ◌-ℤ◌ get insert send_from move
distribute_runs = refl

-- The channel contract claims epoch 1 of the bucket "lp".
abbrev claim_env : Env
claim_env = record poke_env { caller = "contract:c3" }

abbrev claimed : World State Event Ledger
claimed = record {
  state = record poked.state {
    owed =
        (("content", 0), pos 33)
        ∷ (("lp", 0), pos 67)
        ∷ (("content", 1), pos 33)
        ∷ (("lp", 1), pos 0)
        ∷ [];
  };
  ledger = record poked.ledger {
    balances = ("hive:pool", pos 4800) ∷ ("contract:c2", pos 133) ∷ ("contract:c3", pos 67) ∷ [];
  };
  log = Event.bucket_claim "lp" 1 (pos 67) "contract:c3" ∷ poked.log;
}

claim_runs : claim_bucket simple_token claim_env (49 ∷ []) "lp" poked ≡ ok (claimed, pos 67)
unfolding claim_bucket pay_bucket owed_of must_epoch is_digit all_digits digits_value
    leads_with_zero transfer move_out is_clean send move get insert ◌+ℤ◌ ◌-ℤ◌
claim_runs = refl

-- The theorems at these runs.
self_named : owner_env.self_addr ≢ ""
self_named = ne_of_beq "contract:c2" "" refl

not_the_claimer : claim_env.self_addr ≢ claim_env.caller
not_the_claimer = ne_of_beq "contract:c2" "contract:c3" refl

init-Accepts_example : Accepts simple_token owner_env fresh_world started
init-Accepts_example =
    init-Accepts simple_token owner_env request fresh_world started self_named init_runs

started-IsConfigured : IsConfigured poke_env.self_addr started.state
started-IsConfigured = init-Accepts_example.configured

poke-Advances_example : Advances simple_token poke_env started.state poked.state two_epochs
poke-Advances_example =
    distribute_epoch-Advances simple_token poke_env started poked two_epochs started-IsConfigured
      distribute_runs

plan-IsMaximal_example :
    IsMaximal schedule 4 (pos 250) 3 0 (plan_catch_up schedule 4 (pos 250) 3 0 no_plan)
plan-IsMaximal_example = plan-IsMaximal schedule 4 (pos 250) 3 0

poke_twice_example : distribute_epoch simple_token poke_env poked ≡ ok (poked, idle)
unfolding catch_limit
poke_twice_example =
    distribute_epoch_twice simple_token poke_env started poked two_epochs started-IsConfigured
      distribute_runs refl (omega arith)

deployed-Reachable : Reachable simple_token "contract:c2" fresh_world
unfolding get
deployed-Reachable = Reachable.fresh fresh_world refl (omega arith)

claimed-Reachable : Reachable simple_token "contract:c2" claimed
claimed-Reachable =
    Reachable.after
      (Reachable.after
        (Reachable.after deployed-Reachable (Step.initializes owner_env request refl init_runs))
        (Step.pokes poke_env two_epochs refl distribute_runs))
      (Step.claims claim_env (49 ∷ []) "lp" (pos 67) refl claim_runs)

Reachable-Solvent_example : Solvent simple_token "contract:c2" claimed
Reachable-Solvent_example =
    Reachable-Solvent simple_token "contract:c2" claimed self_named claimed-Reachable

claim_bucket-Pays_example :
    (ep : ℕ) × (must_epoch (49 ∷ []) ≡ ok ep)
    × Pays claim_env "lp" ep poked.state claimed.state (pos 67)
    × (simple_token.balance_of claimed.ledger "contract:c2"
        ≡ simple_token.balance_of poked.ledger "contract:c2" -ℤ pos 67)
claim_bucket-Pays_example =
    claim_bucket-Pays simple_token claim_env (49 ∷ []) "lp" poked claimed (pos 67) not_the_claimer
      claim_runs

claim_bucket_once_example : Aborts (claim_bucket simple_token claim_env (49 ∷ []) "lp" claimed)
claim_bucket_once_example =
    claim_bucket_once simple_token claim_env claim_env (49 ∷ []) "lp" poked claimed (pos 67)
      not_the_claimer claim_runs

split_example :
    (sum (record_allocations 5 (pos 100) table "lp" (record { owed = []; log = [] })).owed
      ≡ sum {K = String × ℕ} [] +ℤ pos 100)
unfolding ◌+ℤ◌
split_example =
    sum-record_allocations 5 (pos 100) table "lp" (omega arith) (omega arith) (omega arith)
      (record { owed = []; log = [] })
