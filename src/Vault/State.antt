-- ===== src/Vault/State.antt =====
-- The staking contract's whole state: the keys of its staking half, and those of its yield and
-- airdrop halves and its configuration.
use magi_tokenomics.Common.{
  ℕ, ℤ, pos, Bool, false, String, List, [], ◌∷◌, ◌++◌, Option, Map, get, nat_eq, Outcome, ok, ◌>>=◌,
}
use magi_tokenomics.Chain.{World}
use magi_tokenomics.Auth.Round.{Round}
use magi_tokenomics.Distributor.State.{Authority}
use magi_tokenomics.Staking.State.{State, Event}

-- `y_funded|ep`, `y_paid|ep`, `y_swept|ep`
pub record Yield : Type 0 where
  pub funded : ℤ
  pub paid : ℤ
  pub swept : Bool

abbrev pub no_yield : Yield
no_yield = record { funded = pos 0; paid = pos 0; swept = false }

pub record Vault : Type 0 where
  pub staking : State
  pub token : String
  -- "" where the key was never written
  pub funder : String
  pub bucket : String
  pub treasury : String
  pub guardian : Authority
  pub yields : Map ℕ Yield
  -- `y_claimed|ep|acct`
  pub claimed : Map (ℕ × String) Bool
  pub yield_outstanding : ℤ
  pub max_airdrop : Option ℤ
  pub airdrop_staked : Bool
  pub airdrop_total : ℤ
  -- `ad_done|batch`
  pub batches : Map String Bool
  pub rounds : Map (String × String) Round

pub data Logged : Type 0 where
  of_staking : Event → Logged
  -- token, owner, cooldown, epoch_len, funder, genesis, treasury, max_airdrop, airdrop_staked, allow
  c1_init : String → String → ℕ → ℕ → String → Option ℕ → String → Option ℤ → Bool → String → Logged
  -- funder, genesis, epoch_len, bucket
  schedule_adopted : String → ℕ → ℕ → String → Logged
  -- epoch, received, cumulative, outstanding
  yield_funded : ℕ → ℤ → ℤ → ℤ → Logged
  -- epoch, acct, payout, stake_used, denominator, funded
  yield_claim : ℕ → String → ℤ → ℤ → ℤ → ℤ → Logged
  -- epoch, residual, funded, to
  yield_sweep : ℕ → ℤ → ℤ → String → Logged
  -- batch, raw_entry, reason
  airdrop_skip : String → String → String → Logged
  -- batch, recipients, sum, cum_total, staked
  airdrop : String → ℕ → ℤ → ℤ → Bool → Logged
  -- amount, to
  sweep_unobligated_event : ℤ → String → Logged

unfoldable pub yield_of : Vault → ℕ → Yield
yield_of v ep = get no_yield ep v.yields

abbrev pub of_staking_log : List Event → List Logged
of_staking_log [] = []
of_staking_log (e ∷ es) = of_staking e ∷ of_staking_log es

module _ {R : Type 0} where
  -- What the staking half sees.
  abbrev pub staking_world : World Vault Logged R → World State Event R
  staking_world w = record { state = w.state.staking; ledger = w.ledger; log = [] }

  abbrev pub with_staking : World Vault Logged R → World State Event R → World Vault Logged R
  with_staking w w' = record {
    state = record w.state { staking = w'.state };
    ledger = w'.ledger;
    log = of_staking_log w'.log ++ w.log;
  }

  -- A handler of the staking half, run in the whole state.
  unfoldable pub in_vault :
      (World State Event R → Outcome (World State Event R))
      → World Vault Logged R
      → Outcome (World Vault Logged R)
  in_vault f w = do w' ← f (staking_world w); ok (with_staking w w')
