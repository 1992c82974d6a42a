-- ===== src/Staking/Reachable.antt =====
-- The staking contract's life: its calls in any order, by anybody, at heights that never fall, and
-- what others do on the token's ledger in between, which cannot lower the contract's own balance.
use magi_tokenomics.Common.{
  ℕ, ◌≤◌, ℤ, pos, ◌≤ℤ◌, int_laws, IsNonneg, ◌≡◌, ◌≢◌, refl, subst, arith, [], String, get,
  string_eq, nat_eq, pair_eq, ok, sum_by,
}
use magi_tokenomics.Chain.{Env, World}
use magi_tokenomics.Adapter.{Token}
use magi_tokenomics.Staking.State.{State, Event, via_stake, via_stake_for}
use magi_tokenomics.Staking.Checkpoints.{value_after}
use magi_tokenomics.Staking.Credit.{hist_of}
use magi_tokenomics.Staking.Entrypoints.{stake, stake_for, unstake, claim_unstaked}
use magi_tokenomics.Staking.Books.{Books, Books-later}
use magi_tokenomics.Staking.Custody.{CustodyAt, Custody, credit_for-Custody, credit_for-Books}
use magi_tokenomics.Staking.Leaving.{HasRoom, enqueue-Enqueued, Enqueued-Books, Enqueued-Custody}
use magi_tokenomics.Staking.Claims.{pay_taken_lem, pay_taken-Custody}
use magi_tokenomics.Staking.Entered.{
  stake-eq-ok, stake_for-eq-ok, unstake-eq-ok, claim_unstaked-eq-ok,
}

-- Nobody has staked; whatever `init` configured.
pub record IsFresh (s : State) : Type 0 where
  pub no_stake : s.stake ≡ []
  pub no_total : s.total_staked ≡ pos 0
  pub no_hist : s.hist ≡ []
  pub no_ckpts : s.ckpts ≡ []
  pub no_queue : s.queue ≡ []
  pub no_outstanding : s.unstake_outstanding ≡ pos 0

module _ {L : Type 0} (t : Token L) (self : String) where
  -- One transaction that goes through, or one move on the ledger, at a height. A claimant is not the
  -- contract itself.
  pub data Step (h : ℕ) (w w' : World State Event L) : Type 0 where
    stakes :
        (env : Env) (amt : ℤ)
        → env.self_addr ≡ self
        → env.height ≡ h
        → stake t env amt w ≡ ok w'
        → Step h w w'
    stakes_for :
        (env : Env) (acct : String) (amt : ℤ)
        → env.self_addr ≡ self
        → env.height ≡ h
        → stake_for t env acct amt w ≡ ok w'
        → Step h w w'
    unstakes :
        (env : Env) (amt : ℤ)
        → env.self_addr ≡ self
        → env.height ≡ h
        → HasRoom w.state env.caller
        → unstake t env amt w ≡ ok w'
        → Step h w w'
    claims :
        (env : Env) (paid : ℤ)
        → env.self_addr ≡ self
        → env.height ≡ h
        → env.self_addr ≢ env.caller
        → claim_unstaked t env w ≡ ok (w', paid)
        → Step h w w'
    elsewhere :
        w'.state ≡ w.state → t.balance_of w.ledger self ≤ℤ t.balance_of w'.ledger self → Step h w w'

  pub data Reachable : ℕ → World State Event L → Type 0 where
    fresh :
        (h : ℕ) (w : World State Event L)
        → IsFresh w.state
        → IsNonneg (t.balance_of w.ledger self)
        → Reachable h w
    after :
        {now h : ℕ} {w w' : World State Event L}
        → Reachable now w
        → now ≤ h
        → Step h w w'
        → Reachable h w'

  Step-Books :
      (h : ℕ) (w w' : World State Event L)
      → Step h w w'
      → CustodyAt w.state (t.balance_of w.ledger self)
      → Books h w.state
      → Books h w'.state
  unfolding hist_of
  Step-Books h w w' (stakes env amt here at e) v b =
      subst (λ x. Books x w'.state) at
        (credit_for-Books t env env.caller env.caller amt via_stake w w' (rw at b)
          (stake-eq-ok t env w w' amt e))
  Step-Books h w w' (stakes_for env acct amt here at e) v b =
      subst (λ x. Books x w'.state) at
        (credit_for-Books t env env.caller acct amt via_stake_for w w' (rw at b)
          (stake_for-eq-ok t env w w' acct amt e))
  Step-Books h w w' (unstakes env amt here at room e) v b =
      let (_, _, e1) = unstake-eq-ok t env w w' amt e in
      let ((m, q), _) = enqueue-Enqueued t env amt w w' e1 in
      subst (λ x. Books x w'.state) at (Enqueued-Books env amt w.state m w'.state q (rw at b))
  Step-Books h w w' (claims env paid here at other e) v b =
      let (_, state, _) =
        pay_taken_lem t env w w' paid other v.tickets (claim_unstaked-eq-ok t env w w' paid e) in
      rw state
        (record { account = b.account; global = b.global; agree = b.agree; stakes = b.stakes })
  Step-Books h w w' (elsewhere same more) v b = rw same b

  pub Step-Custody :
      (h : ℕ) (w w' : World State Event L) → Step h w w' → Custody t self w → Custody t self w'
  Step-Custody h w w' (stakes env amt here at e) v =
      subst (λ x. Custody t x w') here
        (credit_for-Custody t env env.caller env.caller amt via_stake w w' (rw here v)
          (stake-eq-ok t env w w' amt e))
  Step-Custody h w w' (stakes_for env acct amt here at e) v =
      subst (λ x. Custody t x w') here
        (credit_for-Custody t env env.caller acct amt via_stake_for w w' (rw here v)
          (stake_for-eq-ok t env w w' acct amt e))
  Step-Custody h w w' (unstakes env amt here at room e) v =
      let (positive, enough, e1) = unstake-eq-ok t env w w' amt e in
      let ((m, q), kept) = enqueue-Enqueued t env amt w w' e1 in
      rw kept (
        Enqueued-Custody env amt (t.balance_of w.ledger self) w.state m w'.state room positive
          enough q v)
  Step-Custody h w w' (claims env paid here at other e) v =
      subst (λ x. Custody t x w') here
        (pay_taken-Custody t env w w' paid other (rw here v)
          (claim_unstaked-eq-ok t env w w' paid e))
  Step-Custody h w w' (elsewhere same more) v = rw same (record {
    covered = omega (arith, v.covered);
    queued = v.queued;
    tickets = v.tickets;
    free = v.free;
    stakes = v.stakes;
  })

  pub IsFresh-Custody : (s : State) (held : ℤ) → IsFresh s → IsNonneg held → CustodyAt s held
  unfolding sum_by get
  IsFresh-Custody s held f n = record {
    covered = rw (f.no_total, f.no_outstanding) (omega (int_laws, n));
    queued = rw (f.no_queue, f.no_outstanding) refl;
    tickets = rw f.no_queue (λ c i. omega arith);
    free = rw f.no_queue (λ c i h. refl);
    stakes = rw f.no_stake tt;
  }

  IsFresh-Books : (h : ℕ) (s : State) → IsFresh s → Books h s
  unfolding sum_by get hist_of value_after
  IsFresh-Books h s f = record {
    account =
        rw (f.no_stake, f.no_hist) (λ c. record { sorted = tt; until = tt; latest = λ k l. refl });
    global = rw (f.no_total, f.no_ckpts) (record { sorted = tt; until = tt; latest = λ k l. refl });
    agree = rw (f.no_hist, f.no_ckpts) (λ k. refl);
    stakes = rw (f.no_stake, f.no_total) refl;
  }

  -- From a state in which nobody has staked and with a balance that is not negative, after any
  -- sequence of stake, stakeFor, unstake and claimUnstaked calls that went through at heights
  -- that never fall, and of ledger changes made by others that do not lower the contract's
  -- balance, where the contract is not its own claimant and each unstaking account has unstaked
  -- fewer than 2^64 - 1 times, the contract holds at least the staked total and the outstanding
  -- unstakes together; the latter is the sum of the queue, no stake and no queued amount is
  -- negative, and nothing is queued at or behind a queue's tail.
  pub Reachable-Custody : (h : ℕ) (w : World State Event L) → Reachable h w → Custody t self w
  Reachable-Custody h w (fresh _ _ f n) = IsFresh-Custody w.state (t.balance_of w.ledger self) f n
  Reachable-Custody h w (after r l st) = Step-Custody h _ w st (Reachable-Custody _ _ r)

  pub Reachable-Books : (h : ℕ) (w : World State Event L) → Reachable h w → Books h w.state
  Reachable-Books h w (fresh _ _ f n) = IsFresh-Books h w.state f
  Reachable-Books h w (after r l st) =
      Step-Books h _ w st (Reachable-Custody _ _ r) (Books-later _ h _ l (Reachable-Books _ _ r))
