-- ===== src/Staking/Entered.antt =====
-- What an entrypoint that goes through has checked, and the step behind its checks.
use magi_tokenomics.Common.{
  ℤ, pos, ◌<ℤ◌, ◌≤ℤ◌, ltb_ℤ, ◌≡◌, arith, String, string_eq, get, get_big, ok, ok_injective,
  >>=-eq-ok, require-eq-ok, abort_if-eq-ok, false, require, abort_if, ◌==◌, not_initialized,
  amount_not_positive, not_allowed, acct_required, not_ledger_address, insufficient_stake,
}
use magi_tokenomics.Chain.{Env, World, validate_addr, is_ledger_addr}
use magi_tokenomics.Auth.Active.{require_active_unless_contract}
use magi_tokenomics.Adapter.{Token}
use magi_tokenomics.Staking.State.{State, Event, via_stake, via_stake_for}
use magi_tokenomics.Staking.Entrypoints.{
  must_amount, credit_for, stake, stake_for, enqueue, unstake, taken, pay_taken, claim_unstaked,
}

must_amount-eq-ok : (x y : ℤ) → must_amount x ≡ ok y → (x ≡ y) × (pos 0 <ℤ y)
unfolding must_amount
must_amount-eq-ok x y e =
    let (_, e1, e2) = >>=-eq-ok (require (ltb_ℤ (pos 0) x) amount_not_positive) _ e in
    let positive = require-eq-ok (ltb_ℤ (pos 0) x) amount_not_positive e1 in
    (ok_injective e2, rw (← ok_injective e2) (ground arith))

module _ {L : Type 0} (t : Token L) (env : Env) (w w' : World State Event L) where
  pub stake-eq-ok :
      (amt : ℤ)
      → stake t env amt w ≡ ok w'
      → credit_for t env env.caller env.caller amt via_stake w ≡ ok w'
  unfolding stake
  stake-eq-ok amt e =
      let (_, _, e1) = >>=-eq-ok (require w.state.initialized not_initialized) _ e in
      let (_, _, e2) =
        >>=-eq-ok (require_active_unless_contract env.caller env.required_auths) _ e1 in
      let (y, m, e3) = >>=-eq-ok (must_amount amt) _ e2 in rw (must_amount-eq-ok amt y m).0 e3

  pub stake_for-eq-ok :
      (acct : String) (amt : ℤ)
      → stake_for t env acct amt w ≡ ok w'
      → credit_for t env env.caller acct amt via_stake_for w ≡ ok w'
  unfolding stake_for
  stake_for-eq-ok acct amt e =
      let (_, _, e1) = >>=-eq-ok (require w.state.initialized not_initialized) _ e in
      let (_, _, e2) = >>=-eq-ok (require (get false env.caller w.state.allow) not_allowed) _ e1 in
      let (_, _, e3) =
        >>=-eq-ok (require_active_unless_contract env.caller env.required_auths) _ e2 in
      let (_, _, e4) = >>=-eq-ok (abort_if (acct == "") acct_required) _ e3 in
      let (_, _, e5) = >>=-eq-ok (validate_addr acct) _ e4 in
      let (_, _, e6) = >>=-eq-ok (require (is_ledger_addr acct) not_ledger_address) _ e5 in
      let (y, m, e7) = >>=-eq-ok (must_amount amt) _ e6 in rw (must_amount-eq-ok amt y m).0 e7

  pub unstake-eq-ok :
      (amt : ℤ)
      → unstake t env amt w ≡ ok w'
      → (pos 0 <ℤ amt) × (amt ≤ℤ get_big env.caller w.state.stake) × (enqueue t env amt w ≡ ok w')
  unfolding unstake
  unstake-eq-ok amt e =
      let (_, _, e1) = >>=-eq-ok (require w.state.initialized not_initialized) _ e in
      let (_, _, e2) =
        >>=-eq-ok (require_active_unless_contract env.caller env.required_auths) _ e1 in
      let (y, m, e3) = >>=-eq-ok (must_amount amt) _ e2 in
      let (_, a, e4) =
        >>=-eq-ok (abort_if (ltb_ℤ (get_big env.caller w.state.stake) y) insufficient_stake) _ e3 in
      let (same, positive) = must_amount-eq-ok amt y m in
      let enough =
        abort_if-eq-ok (ltb_ℤ (get_big env.caller w.state.stake) y) insufficient_stake a in
      rw same (positive, ground arith, e4)

  pub claim_unstaked-eq-ok :
      (paid : ℤ)
      → claim_unstaked t env w ≡ ok (w', paid)
      → pay_taken t env (taken env w.state) w ≡ ok (w', paid)
  unfolding claim_unstaked
  claim_unstaked-eq-ok paid e =
      let (_, _, e1) = >>=-eq-ok (require w.state.initialized not_initialized) _ e in
      let (_, _, e2) =
        >>=-eq-ok (require_active_unless_contract env.caller env.required_auths) _ e1 in
      e2
