-- ===== src/Staking/State.antt =====
-- The staking contract's state: one field for each key or key family that its staking half reads
-- or writes, and the events it logs.
use magi_tokenomics.Common.{ℕ, ℤ, pos, String, List, Option, none, some, Bool, Map}
use magi_tokenomics.Adapter.{Kind}
use magi_tokenomics.Staking.Checkpoints.{Ckpt}

-- `us|acct|i`
pub record Ticket : Type 0 where
  pub owed : ℤ
  pub ready : ℕ

pub record State : Type 0 where
  pub initialized : Bool
  pub kind : Kind
  pub cooldown : ℕ
  -- 0 where the key was never written
  pub epoch_len : ℕ
  pub genesis : Option ℕ
  -- `allow|acct`
  pub allow : Map String Bool
  pub stake : Map String ℤ
  pub total_staked : ℤ
  -- `hist|acct|i`, in order; `hist_n|acct` is the length
  pub hist : Map String (List Ckpt)
  -- `ckpt|i`, in order; `ckpt_n` is the length
  pub ckpts : List Ckpt
  -- `dd|epoch`
  pub drawdowns : Map ℕ ℤ
  -- `us|acct|i`, `us_head|acct`, `us_tail|acct`
  pub queue : Map (String × ℕ) (Option Ticket)
  pub us_head : Map String ℕ
  pub us_tail : Map String ℕ
  pub unstake_outstanding : ℤ

-- The entrypoint that a credit came through.
pub data Via : Type 0 where
  via_stake via_stake_for via_airdrop : Via

pub data Event : Type 0 where
  -- epoch, acct, delta, new_dd
  drawdown : ℕ → String → ℤ → ℤ → Event
  -- acct, via, amount, new_stake, new_total, height
  stake_event : String → Via → ℤ → ℤ → ℤ → ℕ → Event
  -- acct, amount, new_stake, new_total, height, ready_height, queue_idx
  unstake_event : String → ℤ → ℤ → ℤ → ℕ → ℕ → ℕ → Event
  -- acct, amount, entries, new_head
  unstake_claim : String → ℤ → ℕ → ℕ → Event

abbrev pub ticket_owed : Option Ticket → ℤ
ticket_owed none = pos 0
ticket_owed (some k) = k.owed
