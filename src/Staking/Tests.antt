-- ===== src/Staking/Tests.antt =====
-- The staking contract on concrete inputs, and its theorems at inputs that meet their hypotheses.
use magi_tokenomics.Common.{
  ◌*◌, ◌≤◌, ◌<◌, ◌+◌, ℕ, pos, ◌+ℤ◌, ◌-ℤ◌, ◌≡◌, ◌≢◌, refl, arith, List, [], ◌∷◌, String, none, some,
  true, get, insert, string_eq, nat_eq, pair_eq, ok, ne_of_beq, get_elem?, length, sum_by, get_big,
}
use magi_tokenomics.Chain.{Env, World, add64, sub64, mul64, is_clean, contains}
use magi_tokenomics.Adapter.{fungible, transfer, move_out, pull_from, move_in}
use magi_tokenomics.Adapter.Simple.{Ledger, simple_token, send, send_from, move}
use magi_tokenomics.Auth.Active.{require_active, require_active_unless_contract}
use magi_tokenomics.Text.Epoch.{must_epoch, is_digit, all_digits, digits_value, leads_with_zero}
use magi_tokenomics.Text.Canonical.{must_epoch_injective}
use magi_tokenomics.Staking.State.{
  State, Event, drawdown, stake_event, unstake_event, unstake_claim, via_stake,
}
use magi_tokenomics.Staking.Checkpoints.{
  Ckpt, append_entry, search_loop, search_val, amount_at, value_at,
}
use magi_tokenomics.Staking.Search.{IsSorted, search_val-value_at}
use magi_tokenomics.Staking.Credit.{
  hist_of, hist_at, ckpt_at, entries_at, drawdown_of, epoch_at, start_of, add_drawdown,
  note_drawdown, set_stake, apply_credit,
}
use magi_tokenomics.Staking.Entrypoints.{
  must_amount, take_matured, taken, credit_for, stake, enqueue, unstake, pay_taken, claim_unstaked,
}
use magi_tokenomics.Staking.Epochs.{bounds_of, epoch_bounds, min_stake_sum_at, bounds_of-exact}
use magi_tokenomics.Staking.Custody.{Custody}
use magi_tokenomics.Staking.Taking.{AllTicketsNonneg}
use magi_tokenomics.Staking.Claims.{PaysMatured, claim_unstaked-PaysMatured}
use magi_tokenomics.Staking.Reachable.{Step, Reachable, Reachable-Custody}
use magi_tokenomics.Staking.Answers.{SameAt, Step-SameAt, ckpt_at-sum, hist_at-stake}

abbrev entries : List Ckpt
entries =
    record { height = 5; amount = pos 10 }
    ∷ record { height = 9; amount = pos 4 }
    ∷ record { height = 12; amount = pos 7 }
    ∷ []

entries-IsSorted : IsSorted entries
entries-IsSorted = (omega arith, (omega arith, tt))

search_example : search_val (get_elem? entries) (length entries) 11 ≡ some (value_at 11 entries)
search_example = search_val-value_at entries 11 entries-IsSorted (omega arith)

search_result : search_val (get_elem? entries) 3 11 ≡ some (pos 4)
unfolding search_val search_loop amount_at add64
search_result = refl

abbrev alice_env : ℕ → Env
alice_env h = record {
  owner = "hive:owner";
  caller = "hive:alice";
  self_addr = "contract:c1";
  height = h;
  required_auths = "hive:alice" ∷ [];
}

abbrev deployed_world : World State Event Ledger
deployed_world = record {
  state = record {
    initialized = true;
    kind = fungible;
    cooldown = 20;
    epoch_len = 10;
    genesis = some 1000;
    allow = [];
    stake = [];
    total_staked = pos 0;
    hist = [];
    ckpts = [];
    drawdowns = [];
    queue = [];
    us_head = [];
    us_tail = [];
    unstake_outstanding = pos 0;
  };
  ledger = record {
    balances = ("hive:alice", pos 100) ∷ [];
    allowances = (("hive:alice", "contract:c1"), pos 100) ∷ [];
  };
  log = [];
}

abbrev staked_world : World State Event Ledger
staked_world = record {
  state = record deployed_world.state {
    stake = ("hive:alice", pos 60) ∷ [];
    total_staked = pos 60;
    hist = ("hive:alice", record { height = 1005; amount = pos 60 } ∷ []) ∷ [];
    ckpts = record { height = 1005; amount = pos 60 } ∷ [];
  };
  ledger = record {
    balances = ("hive:alice", pos 40) ∷ ("contract:c1", pos 60) ∷ [];
    allowances = (("hive:alice", "contract:c1"), pos 40) ∷ [];
  };
  log = stake_event "hive:alice" via_stake (pos 60) (pos 60) (pos 60) 1005 ∷ [];
}

stake_runs : stake simple_token (alice_env 1005) (pos 60) deployed_world ≡ ok staked_world
unfolding stake must_amount credit_for apply_credit set_stake note_drawdown add_drawdown drawdown_of
    epoch_at start_of hist_at hist_of entries_at search_val search_loop amount_at append_entry add64
    sub64 mul64 require_active require_active_unless_contract contains is_clean pull_from move_in
    send_from move get insert ◌+ℤ◌ ◌-ℤ◌
stake_runs = refl

-- An unstake in the middle of the next epoch, which counts 20 as that epoch's drawdown.
abbrev unstaked_world : World State Event Ledger
unstaked_world = record staked_world {
  state = record staked_world.state {
    stake = ("hive:alice", pos 40) ∷ [];
    total_staked = pos 40;
    hist =
        (
          "hive:alice",
          record { height = 1005; amount = pos 60 }
              ∷ record { height = 1013; amount = pos 40 }
              ∷ [],
        )
        ∷ [];
    ckpts =
        record { height = 1005; amount = pos 60 } ∷ record { height = 1013; amount = pos 40 } ∷ [];
    drawdowns = (1, pos 20) ∷ [];
    queue = (("hive:alice", 0), some (record { owed = pos 20; ready = 1033 })) ∷ [];
    us_tail = ("hive:alice", 1) ∷ [];
    unstake_outstanding = pos 20;
  };
  log =
      unstake_event "hive:alice" (pos 20) (pos 40) (pos 40) 1013 1033 0
      ∷ drawdown 1 "hive:alice" (pos 20) (pos 20)
      ∷ staked_world.log;
}

unstake_runs : unstake simple_token (alice_env 1013) (pos 20) staked_world ≡ ok unstaked_world
unfolding unstake must_amount enqueue set_stake note_drawdown add_drawdown drawdown_of epoch_at
    start_of hist_at hist_of entries_at search_val search_loop amount_at append_entry add64 sub64
    mul64 require_active require_active_unless_contract contains get insert ◌+ℤ◌ ◌-ℤ◌
unstake_runs = refl

abbrev claimed_world : World State Event Ledger
claimed_world = record {
  state = record unstaked_world.state {
    queue = (("hive:alice", 0), none) ∷ [];
    us_head = ("hive:alice", 1) ∷ [];
    unstake_outstanding = pos 0;
  };
  ledger = record {
    balances = ("hive:alice", pos 60) ∷ ("contract:c1", pos 40) ∷ [];
    allowances = (("hive:alice", "contract:c1"), pos 40) ∷ [];
  };
  log = unstake_claim "hive:alice" (pos 20) 1 1 ∷ unstaked_world.log;
}

claim_runs :
    claim_unstaked simple_token (alice_env 1033) unstaked_world ≡ ok (claimed_world, pos 20)
unfolding claim_unstaked taken take_matured pay_taken transfer move_out send move add64
    require_active require_active_unless_contract contains is_clean get insert ◌+ℤ◌ ◌-ℤ◌
claim_runs = refl

abbrev Reaches : ℕ → World State Event Ledger → Type 0
Reaches h w = Reachable simple_token "contract:c1" h w

deployed_world-Reaches : Reaches 1000 deployed_world
unfolding get
deployed_world-Reaches =
    Reachable.fresh 1000 deployed_world
      (record {
        no_stake = refl;
        no_total = refl;
        no_hist = refl;
        no_ckpts = refl;
        no_queue = refl;
        no_outstanding = refl;
      })
      (omega arith)

staked_world-Reaches : Reaches 1005 staked_world
staked_world-Reaches =
    Reachable.after deployed_world-Reaches (omega arith)
      (Step.stakes (alice_env 1005) (pos 60) refl refl stake_runs)

unstake-Step : Step simple_token "contract:c1" 1013 staked_world unstaked_world
unfolding get
unstake-Step = Step.unstakes (alice_env 1013) (pos 20) refl refl (omega arith) unstake_runs

unstaked_world-Reaches : Reaches 1013 unstaked_world
unstaked_world-Reaches = Reachable.after staked_world-Reaches (omega arith) unstake-Step

not_self : ◌≢◌ {A = String} "contract:c1" "hive:alice"
not_self = ne_of_beq "contract:c1" "hive:alice" refl

claimed_world-Reaches : Reaches 1033 claimed_world
claimed_world-Reaches =
    Reachable.after unstaked_world-Reaches (omega arith)
      (Step.claims (alice_env 1033) (pos 20) refl refl not_self claim_runs)

Custody-example : Custody simple_token "contract:c1" claimed_world
Custody-example =
    Reachable-Custody simple_token "contract:c1" 1033 claimed_world claimed_world-Reaches

past_example : SameAt 1010 staked_world.state unstaked_world.state
past_example =
    Step-SameAt simple_token "contract:c1" 1005 1013 1010 staked_world unstaked_world
      staked_world-Reaches (omega arith) (omega arith) unstake-Step

total_example :
    ckpt_at claimed_world.state 1010 ≡ ok (sum_by (value_at 1010) claimed_world.state.hist)
total_example =
    ckpt_at-sum simple_token "contract:c1" 1033 1010 claimed_world claimed_world-Reaches
      (omega arith)

stake_example :
    hist_at claimed_world.state "hive:alice" 1040
    ≡ ok (get_big "hive:alice" claimed_world.state.stake)
unfolding hist_of get
stake_example =
    hist_at-stake simple_token "contract:c1" 1033 1040 "hive:alice" claimed_world
      claimed_world-Reaches (omega arith) (omega arith)

unstaked_world-Nonneg : AllTicketsNonneg unstaked_world.state.queue
unstaked_world-Nonneg =
    (Reachable-Custody simple_token "contract:c1" 1013 unstaked_world
      unstaked_world-Reaches).tickets

claim_example :
    PaysMatured (alice_env 1033) unstaked_world.state claimed_world.state (pos 60) (pos 40) (pos 20)
unfolding get
claim_example =
    claim_unstaked-PaysMatured simple_token (alice_env 1033) unstaked_world claimed_world (pos 20)
      not_self unstaked_world-Nonneg claim_runs

epoch_runs : must_epoch (49 ∷ 50 ∷ []) ≡ ok 12
unfolding must_epoch is_digit all_digits digits_value leads_with_zero
epoch_runs = refl

epoch_example : ◌≡◌ {A = List ℕ} (49 ∷ 50 ∷ []) (49 ∷ 50 ∷ [])
epoch_example = must_epoch_injective (49 ∷ 50 ∷ []) (49 ∷ 50 ∷ []) 12 epoch_runs epoch_runs

bounds_runs : bounds_of 1000 10 3 ≡ ok (1030, 1039)
unfolding bounds_of add64 sub64 mul64
bounds_runs = refl

bounds_example :
    (1030 ≡ 1000 + 3 * 10) × (1039 + 1 ≡ 1030 + 10) × (1030 ≤ 1039) × (1039 < 18446744073709551616)
bounds_example = bounds_of-exact 1000 10 3 1030 1039 (omega arith) (omega arith) bounds_runs

-- Alice held 60 when the epoch began and 40 when it ended.
denominator_runs : min_stake_sum_at (alice_env 1033) claimed_world.state 1 ≡ ok (pos 40)
unfolding min_stake_sum_at epoch_bounds bounds_of ckpt_at entries_at search_val search_loop
    amount_at add64 sub64 mul64 get ◌-ℤ◌
denominator_runs = refl
