-- ===== src/Adapter/Interface.antt =====
-- The token contract, which this repository drives and does not hold: its entrypoints as the
-- adapter calls them, over a ledger of its own, and what its documentation promises of them.
-- `none` is a call that the token refuses, which reverts the caller's transaction.
use magi_tokenomics.Common.{ℕ, ℤ, pos, ◌<ℤ◌, ◌+ℤ◌, ◌-ℤ◌, String, List, Option, some, ◌≡◌, ◌≢◌}

pub record Token (L : Type 0) : Type 0 where
  pub balance_of : L → String → ℤ
  -- owner, then spender
  pub allowance : L → String → String → ℤ
  pub max_supply : L → ℤ
  -- sender, then recipient
  pub transfer : String → String → ℤ → L → Option L
  -- spender, then the account to debit, then the recipient
  pub transfer_from : String → String → String → ℤ → L → Option L
  -- owner, then spender
  pub approve : String → String → ℤ → L → Option L
  -- A transfer to another account debits the sender by its amount,
  pub transfer_debits :
      (from to : String) (x : ℤ) (l l' : L)
      → transfer from to x l ≡ some l'
      → from ≢ to
      → balance_of l' from ≡ balance_of l from -ℤ x
  -- credits the recipient by it,
  pub transfer_credits :
      (from to : String) (x : ℤ) (l l' : L)
      → transfer from to x l ≡ some l'
      → from ≢ to
      → balance_of l' to ≡ balance_of l to +ℤ x
  -- an approval moves nothing,
  pub approve_keeps :
      (owner spender : String) (x : ℤ) (l l' : L)
      → approve owner spender x l ≡ some l'
      → (acct : String) → balance_of l' acct ≡ balance_of l acct
  -- and a transferFrom, which is refused between an account and itself, credits the recipient.
  pub transfer_from_credits :
      (spender from to : String) (x : ℤ) (l l' : L)
      → transfer_from spender from to x l ≡ some l'
      → balance_of l' to ≡ balance_of l to +ℤ x

-- The contract that funds the distributor and the staking contract's yield, as they call it: the
-- emission controller, in a world of its own that holds the token's ledger too.
pub record Funder (R : Type 0) (balance_of : R → String → ℤ) : Type 0 where
  -- caller, the epoch's bytes, bucket; `none` where the call aborts
  pub claim_bucket : String → List ℕ → String → R → Option (R × ℤ)
  -- genesis and epoch length
  pub schedule_info : R → Option (ℕ × ℕ)
  -- "" for an unknown bucket
  pub bucket_target : R → String → Option String
  -- What is claimed is positive and reaches the caller.
  pub claim_credits :
      (caller : String) (epoch : List ℕ) (bucket : String) (r r' : R) (x : ℤ)
      → claim_bucket caller epoch bucket r ≡ some (r', x)
      → (pos 0 <ℤ x) × (balance_of r' caller ≡ balance_of r caller +ℤ x)

-- The staking contract as the distributor calls it.
pub record Staker (R : Type 0) (balance_of : R → String → ℤ) : Type 0 where
  -- caller, account, amount
  pub stake_for : String → String → ℤ → R → Option R
  -- the token that it holds; "" where it does not say
  pub token_of : R → String
  pub stake_for_debits :
      (caller acct : String) (x : ℤ) (r r' : R)
      → stake_for caller acct x r ≡ some r'
      → balance_of r' caller ≡ balance_of r caller -ℤ x
