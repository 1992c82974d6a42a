-- ===== src/Vault/Tests.antt =====
-- The staking contract with its yield on concrete inputs.
use magi_tokenomics.Common.{
  get, insert, ◌*ℤ◌, ◌+ℤ◌, ◌-ℤ◌, ◌/ℤ◌, ℕ, pos, ◌≡◌, ◌≢◌, refl, arith, [], ◌∷◌, String, none, some,
  true, false, ok, ne_of_beq, string_eq, pair_eq, nat_eq,
}
use magi_tokenomics.Chain.{add64, contains, is_clean, mul64, sub64, validate_addr, Env, World}
use magi_tokenomics.Adapter.{move_in, move_out, pull_from, transfer, fungible}
use magi_tokenomics.Adapter.Simple.{move, send, send_from, Ledger, simple_token}
use magi_tokenomics.Staking.State.{stake_event, via_stake, State, Event}
use magi_tokenomics.Staking.Reachable.{Step as StakingStep}
use magi_tokenomics.Staking.Entrypoints.{credit_for, must_amount, stake}
use magi_tokenomics.Distributor.Peers.{small_funder}
use magi_tokenomics.Vault.State.{
  schedule_adopted, yield_claim, yield_funded, yield_of, Vault, Logged, staking_world, with_staking,
}
use magi_tokenomics.Vault.Setup.{adopt_bucket, check_anchor, adopt_schedule}
use magi_tokenomics.Vault.Yield.{
  book_yield, set_yield, stake_across, yield_due, pull_yield, claim_yield,
}
use magi_tokenomics.Auth.Active.{require_active, require_active_unless_contract}
use magi_tokenomics.Staking.Checkpoints.{amount_at, append_entry, search_loop, search_val}
use magi_tokenomics.Staking.Credit.{
  add_drawdown, apply_credit, ckpt_at, drawdown_of, entries_at, epoch_at, hist_at, hist_of,
  note_drawdown, set_stake, start_of,
}
use magi_tokenomics.Staking.Epochs.{bounds_of, epoch_bounds, min_stake_sum_at}
use magi_tokenomics.Text.Epoch.{all_digits, digits_value, is_digit, leads_with_zero, must_epoch}
use magi_tokenomics.Vault.Reachable.{Step, Reachable, Reachable-Enveloped}
use magi_tokenomics.Vault.YieldKept.{Enveloped}

abbrev no_hash : String → String
no_hash s = s

abbrev env_of : String → ℕ → Env
env_of caller h = record {
  owner = "hive:owner";
  caller = caller;
  self_addr = "contract:c3";
  height = h;
  required_auths = caller ∷ [];
}

abbrev fresh_world : World Vault Logged Ledger
fresh_world = record {
  state = record {
    staking = record {
      initialized = true;
      kind = fungible;
      cooldown = 20;
      epoch_len = 10;
      genesis = none;
      allow = [];
      stake = [];
      total_staked = pos 0;
      hist = [];
      ckpts = [];
      drawdowns = [];
      queue = [];
      us_head = [];
      us_tail = [];
      unstake_outstanding = pos 0;
    };
    token = "vsctoken";
    funder = "";
    bucket = "";
    treasury = "hive:treasury";
    guardian = record { mode = "0"; authorities = "hive:guard"; threshold = "1" };
    yields = [];
    claimed = [];
    yield_outstanding = pos 0;
    max_airdrop = none;
    airdrop_staked = false;
    airdrop_total = pos 0;
    batches = [];
    rounds = [];
  };
  ledger = record {
    balances = ("hive:alice", pos 100) ∷ [];
    allowances = (("hive:alice", "contract:c3"), pos 100) ∷ [];
  };
  log = [];
}

-- Alice stakes, the schedule and a bucket are adopted, the first epoch is funded, and Alice claims.
abbrev alice_staked : World State Event Ledger
alice_staked = record {
  state = record fresh_world.state.staking {
    stake = ("hive:alice", pos 60) ∷ [];
    total_staked = pos 60;
    hist = ("hive:alice", record { height = 990; amount = pos 60 } ∷ []) ∷ [];
    ckpts = record { height = 990; amount = pos 60 } ∷ [];
  };
  ledger = record {
    balances = ("hive:alice", pos 40) ∷ ("contract:c3", pos 60) ∷ [];
    allowances = (("hive:alice", "contract:c3"), pos 40) ∷ [];
  };
  log = stake_event "hive:alice" via_stake (pos 60) (pos 60) (pos 60) 990 ∷ [];
}

stake_runs :
    stake simple_token (env_of "hive:alice" 990) (pos 60) (staking_world fresh_world)
    ≡ ok alice_staked
unfolding stake must_amount credit_for apply_credit set_stake note_drawdown add_drawdown drawdown_of
    epoch_at start_of hist_at hist_of entries_at search_val search_loop amount_at append_entry add64
    sub64 mul64 require_active require_active_unless_contract contains is_clean pull_from move_in
    send_from move get insert ◌+ℤ◌ ◌-ℤ◌
stake_runs = refl

abbrev staked_world : World Vault Logged Ledger
staked_world = with_staking fresh_world alice_staked

abbrev adopted_world : World Vault Logged Ledger
adopted_world = record staked_world {
  state = record staked_world.state {
    staking = record staked_world.state.staking { genesis = some 1000 };
    funder = "vscfunder";
    bucket = "yield";
  };
  log = schedule_adopted "vscfunder" 1000 10 "yield" ∷ staked_world.log;
}

adopt_runs :
    adopt_schedule simple_token small_funder
      (env_of "hive:owner" 995)
      "vscfunder"
      "yield"
      staked_world
    ≡ ok adopted_world
unfolding adopt_schedule check_anchor adopt_bucket require_active_unless_contract require_active
    contains validate_addr is_clean
adopt_runs = refl

abbrev funded_world : World Vault Logged Ledger
funded_world = record adopted_world {
  state = record adopted_world.state {
    yields = (0, record { funded = pos 100; paid = pos 0; swept = false }) ∷ [];
    yield_outstanding = pos 100;
  };
  ledger = record adopted_world.ledger {
    balances = ("hive:alice", pos 40) ∷ ("contract:c3", pos 160) ∷ [];
  };
  log = yield_funded 0 (pos 100) (pos 100) (pos 100) ∷ adopted_world.log;
}

pull_runs :
    pull_yield simple_token small_funder (env_of "hive:bob" 1011) (48 ∷ []) adopted_world
    ≡ ok (funded_world, pos 100)
unfolding pull_yield must_epoch is_digit all_digits digits_value leads_with_zero yield_of set_yield
    get insert ◌+ℤ◌
pull_runs = refl

abbrev claimed_world : World Vault Logged Ledger
claimed_world = record funded_world {
  state = record funded_world.state {
    yields = (0, record { funded = pos 100; paid = pos 100; swept = false }) ∷ [];
    claimed = ((0, "hive:alice"), true) ∷ [];
    yield_outstanding = pos 0;
  };
  ledger = record funded_world.ledger {
    balances = ("hive:alice", pos 140) ∷ ("contract:c3", pos 60) ∷ [];
  };
  log = yield_claim 0 "hive:alice" (pos 100) (pos 60) (pos 60) (pos 100) ∷ funded_world.log;
}

claim_runs :
    claim_yield simple_token (env_of "hive:alice" 1012) (48 ∷ []) funded_world
    ≡ ok (claimed_world, pos 100)
unfolding claim_yield yield_due book_yield stake_across min_stake_sum_at epoch_bounds bounds_of
    hist_at hist_of ckpt_at entries_at search_val search_loop amount_at add64 sub64 mul64 must_epoch
    is_digit all_digits digits_value leads_with_zero validate_addr is_clean yield_of set_yield
    transfer move_out send move get insert ◌+ℤ◌ ◌-ℤ◌ ◌*ℤ◌ ◌/ℤ◌
claim_runs = refl

not_alice : ◌≢◌ {A = String} "contract:c3" "hive:alice"
not_alice = ne_of_beq "contract:c3" "hive:alice" refl

not_treasury : ◌≢◌ {A = String} "hive:treasury" "contract:c3"
not_treasury = ne_of_beq "hive:treasury" "contract:c3" refl

abbrev Reaches : World Vault Logged Ledger → Type 0
Reaches w = Reachable simple_token small_funder no_hash "contract:c3" w

fresh_world-Reaches : Reaches fresh_world
unfolding get
fresh_world-Reaches =
    Reachable.fresh fresh_world
      (record {
        no_stake = refl;
        no_total = refl;
        no_hist = refl;
        no_ckpts = refl;
        no_queue = refl;
        no_outstanding = refl;
      })
      refl refl not_treasury (omega arith)

claimed_world-Reaches : Reaches claimed_world
claimed_world-Reaches =
    Reachable.after (env_of "hive:alice" 1012)
      (Reachable.after (env_of "hive:bob" 1011)
        (Reachable.after (env_of "hive:owner" 995)
          (Reachable.after (env_of "hive:alice" 990) fresh_world-Reaches refl (
            Step.staking alice_staked
              (StakingStep.stakes (env_of "hive:alice" 990) (pos 60) refl refl stake_runs) refl))
          refl (Step.adopts "vscfunder" "yield" adopt_runs))
        refl (Step.pulls (48 ∷ []) (pos 100) pull_runs))
      refl (Step.claims (48 ∷ []) (pos 100) not_alice claim_runs)

Enveloped_example : Enveloped simple_token "contract:c3" claimed_world
Enveloped_example =
    Reachable-Enveloped simple_token small_funder no_hash "contract:c3" claimed_world
      claimed_world-Reaches
