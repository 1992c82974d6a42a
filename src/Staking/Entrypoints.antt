-- ===== src/Staking/Entrypoints.antt =====
-- `stake`, `stakeFor`, `unstake` and `claimUnstaked`. An amount arrives as the number that the
-- payload's field parses to.
use magi_tokenomics.Common.{
  ℕ, suc, zero, ◌+◌, ℤ, pos, ◌+ℤ◌, ◌-ℤ◌, ltb_ℤ, true, false, ◌∷◌, String, Option, none, some, ltb,
  ◌==◌, string_eq, nat_eq, pair_eq, Map, get, get_big, insert, Outcome, ok, require, abort_if,
  if◌then◌else◌, ◌>>=◌, ◌>>◌, not_initialized, amount_not_positive, not_allowed, acct_required,
  not_ledger_address, insufficient_stake,
}
use magi_tokenomics.Chain.{Env, World, add64, validate_addr, is_ledger_addr}
use magi_tokenomics.Auth.Active.{require_active_unless_contract}
use magi_tokenomics.Adapter.{Token, transfer, pull_from}
use magi_tokenomics.Staking.State.{
  State, Event, Ticket, Via, via_stake, via_stake_for, unstake_event, unstake_claim,
}
use magi_tokenomics.Staking.Credit.{set_stake, apply_credit}

unfoldable pub must_amount : ℤ → Outcome ℤ
must_amount x = do require (ltb_ℤ (pos 0) x) amount_not_positive; ok x

-- The queue of an account and what a claim has taken from it so far.
pub record Taking : Type 0 where
  pub queue : Map (String × ℕ) (Option Ticket)
  pub head : ℕ
  pub paid : ℤ
  pub entries : ℕ

abbrev pub max_claim : ℕ
max_claim = 20

-- The loop of `claimUnstaked`, at most as many steps as its first argument. A slot without an
-- entry is passed over; one that has not matured ends the loop.
unfoldable pub take_matured : ℕ → ℕ → String → ℕ → Taking → Taking
take_matured zero h acct tail k = k
take_matured (suc steps) h acct tail k = elim (ltb k.head tail) [
  | false ↦ k
  | true ↦ elim (get none (acct, k.head) k.queue) [
    | none ↦ take_matured steps h acct tail (record k { head = add64 k.head 1 })
    | some e ↦ elim (ltb h e.ready) [
      | true ↦ k
      | false ↦ take_matured steps h acct tail (record {
        queue = insert (acct, k.head) none k.queue;
        head = add64 k.head 1;
        paid = k.paid +ℤ e.owed;
        entries = k.entries + 1;
      })
    ]
  ]
]

unfoldable pub taken : Env → State → Taking
unfolding take_matured
taken env s =
    take_matured max_claim env.height env.caller (get 0 env.caller s.us_tail)
      (record { queue = s.queue; head = get 0 env.caller s.us_head; paid = pos 0; entries = 0 })

module _ {L : Type 0} (t : Token L) where
  unfoldable pub credit_for :
      Env → String → String → ℤ → Via → World State Event L → Outcome (World State Event L)
  unfolding apply_credit
  credit_for env from acct amt via w =
      pull_from t w.state.kind env from amt w >>= λ w1. apply_credit env acct amt via w1

  unfoldable pub stake : Env → ℤ → World State Event L → Outcome (World State Event L)
  unfolding must_amount credit_for
  stake env amount w = do
    require w.state.initialized not_initialized
    require_active_unless_contract env.caller env.required_auths
    amt ← must_amount amount
    credit_for env env.caller env.caller amt via_stake w

  unfoldable pub stake_for : Env → String → ℤ → World State Event L → Outcome (World State Event L)
  unfolding must_amount credit_for
  stake_for env acct amount w = do
    require w.state.initialized not_initialized
    require (get false env.caller w.state.allow) not_allowed
    require_active_unless_contract env.caller env.required_auths
    abort_if (acct == "") acct_required
    validate_addr acct
    require (is_ledger_addr acct) not_ledger_address
    amt ← must_amount amount
    credit_for env env.caller acct amt via_stake_for w

  -- The amount leaves the stake and enters the queue; no tokens move.
  unfoldable pub enqueue : Env → ℤ → World State Event L → Outcome (World State Event L)
  unfolding set_stake
  enqueue env amt w = do
    let c = env.caller
    let new = get_big c w.state.stake -ℤ amt
    let total = w.state.total_staked -ℤ amt
    d ← set_stake env c new total w.state w.log
    let tail = get 0 c w.state.us_tail
    let ready = add64 env.height w.state.cooldown
    ok (record w {
      state = record d.0 {
        unstake_outstanding = d.0.unstake_outstanding +ℤ amt;
        queue = insert (c, tail) (some (record { owed = amt; ready = ready })) d.0.queue;
        us_tail = insert c (add64 tail 1) d.0.us_tail;
      };
      log = unstake_event c amt new total env.height ready tail ∷ d.1;
    })

  unfoldable pub unstake : Env → ℤ → World State Event L → Outcome (World State Event L)
  unfolding must_amount enqueue
  unstake env amount w = do
    require w.state.initialized not_initialized
    require_active_unless_contract env.caller env.required_auths
    amt ← must_amount amount
    abort_if (ltb_ℤ (get_big env.caller w.state.stake) amt) insufficient_stake
    enqueue env amt w

  -- What the loop took is released and paid in one transfer, after every write to the queue.
  unfoldable pub pay_taken : Env → Taking → World State Event L → Outcome (World State Event L × ℤ)
  pay_taken env k w =
      let s = record w.state {
        queue = k.queue;
        us_head = insert env.caller k.head w.state.us_head;
      } in
      if ltb_ℤ (pos 0) k.paid
      then (do
        w' ← transfer t s.kind env env.caller k.paid (record w {
          state = record s { unstake_outstanding = s.unstake_outstanding -ℤ k.paid };
        })
        ok (record w' { log = unstake_claim env.caller k.paid k.entries k.head ∷ w'.log }, k.paid))
      else ok (record w { state = s }, k.paid)

  unfoldable pub claim_unstaked : Env → World State Event L → Outcome (World State Event L × ℤ)
  unfolding taken pay_taken
  claim_unstaked env w = do
    require w.state.initialized not_initialized
    require_active_unless_contract env.caller env.required_auths
    pay_taken env (taken env w.state) w
