-- ===== src/Vault/Reachable.antt =====
-- The staking contract's life with its yield: its calls in any order, by anybody, and what
-- others do on the ledgers in between.
use magi_tokenomics.Common.{
  ◌==◌, ◌&&◌, already_adopted, funder_required, nat_beq, no_funder_schedule, not, not_initialized,
  not_owner, schedule_mismatch, ℕ, ℤ, pos, ◌-ℤ◌, ◌≤ℤ◌, int_laws, le_of_eq, IsNonneg, ◌≡◌, ◌≢◌, refl,
  ap, ◌∙◌, subst, [], String, List, Option, string_eq, nat_eq, pair_eq, ok, require, abort_if,
  or_abort, ok_injective, >>=-elim, sum_by,
}
use magi_tokenomics.Chain.{validate_addr, Env, World}
use magi_tokenomics.Adapter.{Token, Funder, transfer, move_out, pull_from, move_in}
use magi_tokenomics.Staking.State.{State, Event}
use magi_tokenomics.Staking.Entrypoints.{
  enqueue, stake, stake_for, unstake, claim_unstaked, credit_for, pay_taken,
}
use magi_tokenomics.Staking.Reachable.{Step as StakingStep, IsFresh, Step-Custody, IsFresh-Custody}
use magi_tokenomics.Vault.State.{Vault, Logged, staking_world, with_staking}
use magi_tokenomics.Auth.Active.{require_active_unless_contract}
use magi_tokenomics.Vault.Airdrop.{airdrop_batch, sweep_unobligated}
use magi_tokenomics.Vault.Setup.{adopt_bucket, adopt_schedule, check_anchor, is_anchored}
use magi_tokenomics.Vault.AirdropKept.{NamesOthers, airdrop_batch-Enveloped}
use magi_tokenomics.Vault.SweepKept.{sweep_empty_epoch-Enveloped, sweep_unobligated-Enveloped}
use magi_tokenomics.Vault.Yield.{claim_yield, pull_yield, sweep_empty_epoch}
use magi_tokenomics.Vault.YieldKept.{Enveloped, claim_yield-Enveloped, pull_yield-Enveloped}

-- The same token with every balance read less a constant.
abbrev shifted : {R : Type 0} → ℤ → Token R → Token R
shifted y t = record t {
  balance_of = λ l a. t.balance_of l a -ℤ y;
  transfer_debits =
      λ from to x l l' e ne. omega (int_laws, le_of_eq (t.transfer_debits from to x l l' e ne));
  transfer_credits =
      λ from to x l l' e ne. omega (int_laws, le_of_eq (t.transfer_credits from to x l l' e ne));
  approve_keeps =
      λ owner spender x l l' e acct. ap (λ b. b -ℤ y) (t.approve_keeps owner spender x l l' e acct);
  transfer_from_credits = λ spender from to x l l' e.
      omega (int_laws, le_of_eq (t.transfer_from_credits spender from to x l l' e));
}

module _ {R : Type 0} (t : Token R) (y : ℤ) where
  stake-shifted :
      (env : Env) (amt : ℤ) (w : World State Event R)
      → stake (shifted y t) env amt w ≡ stake t env amt w
  unfolding stake credit_for pull_from move_in
  stake-shifted env amt w = refl

  stake_for-shifted :
      (env : Env) (acct : String) (amt : ℤ) (w : World State Event R)
      → stake_for (shifted y t) env acct amt w ≡ stake_for t env acct amt w
  unfolding stake_for credit_for pull_from move_in
  stake_for-shifted env acct amt w = refl

  unstake-shifted :
      (env : Env) (amt : ℤ) (w : World State Event R)
      → unstake (shifted y t) env amt w ≡ unstake t env amt w
  unfolding unstake enqueue
  unstake-shifted env amt w = refl

  claim_unstaked-shifted :
      (env : Env) (w : World State Event R)
      → claim_unstaked (shifted y t) env w ≡ claim_unstaked t env w
  unfolding claim_unstaked pay_taken transfer move_out
  claim_unstaked-shifted env w = refl

  Step-shifted :
      (self : String) (h : ℕ) (w w' : World State Event R)
      → StakingStep t self h w w'
      → StakingStep (shifted y t) self h w w'
  Step-shifted self h w w' (StakingStep.stakes env amt here at e) =
      StakingStep.stakes env amt here at (stake-shifted env amt w ∙ e)
  Step-shifted self h w w' (StakingStep.stakes_for env acct amt here at e) =
      StakingStep.stakes_for env acct amt here at (stake_for-shifted env acct amt w ∙ e)
  Step-shifted self h w w' (StakingStep.unstakes env amt here at room e) =
      StakingStep.unstakes env amt here at room (unstake-shifted env amt w ∙ e)
  Step-shifted self h w w' (StakingStep.claims env paid here at other e) =
      StakingStep.claims env paid here at other (claim_unstaked-shifted env w ∙ e)
  Step-shifted self h w w' (StakingStep.elsewhere same more) =
      StakingStep.elsewhere same
        (le_less (t.balance_of w.ledger self) (t.balance_of w'.ledger self) more)
    where
      le_less : (a b : ℤ) → a ≤ℤ b → a -ℤ y ≤ℤ b -ℤ y
      le_less a b l = omega (int_laws, l)

-- A call of the staking half, in the whole state.
staking-Enveloped :
    {R : Type 0} (t : Token R) (self : String) (h : ℕ) (w : World Vault Logged R)
    (s' : World State Event R)
    → StakingStep t self h (staking_world w) s'
    → Enveloped t self w
    → Enveloped t self (with_staking w s')
staking-Enveloped t self h w s' st v = record {
  custody =
      Step-Custody (shifted w.state.yield_outstanding t) self h (staking_world w) s'
        (Step-shifted t w.state.yield_outstanding self h (staking_world w) s' st) v.custody;
  booked = v.booked;
  treasury_other = v.treasury_other;
}

module _ {R : Type 0} (t : Token R) (funder : Funder R t.balance_of) where
  adopt_schedule-Enveloped :
      (self : String) (env : Env) (name bucket : String) (w w' : World Vault Logged R)
      → Enveloped t self w
      → adopt_schedule t funder env name bucket w ≡ ok w'
      → Enveloped t self w'
  unfolding adopt_schedule
  adopt_schedule-Enveloped self env name bucket w w' v e =
      >>=-elim (require w.state.staking.initialized not_initialized) _ e (λ _ _ e1.
        >>=-elim (require (env.owner == env.caller) not_owner) _ e1 (λ _ _ e2.
          >>=-elim (require_active_unless_contract env.caller env.required_auths) _ e2 (λ _ _ e3.
            >>=-elim
              (abort_if (is_anchored w.state.staking.genesis && not (w.state.bucket == ""))
                already_adopted)
              _ e3
              (λ _ _ e4. >>=-elim (abort_if (name == "") funder_required) _ e4 (λ _ _ e5.
                >>=-elim (validate_addr name) _ e5 (λ _ _ e6.
                  >>=-elim (or_abort (funder.schedule_info w.ledger) no_funder_schedule) _ e6
                    (λ schedule _ e7.
                      >>=-elim
                        (require (nat_beq schedule.1 w.state.staking.epoch_len) schedule_mismatch) _
                        e7
                        (λ _ _ e8.
                          >>=-elim (check_anchor w.state name bucket schedule.0) _ e8 (λ _ _ e9.
                            >>=-elim (adopt_bucket t funder env bucket w.state.bucket w.ledger) _ e9
                              (λ adopted _ e10.
                                subst (λ x. Enveloped t self x) (ok_injective e10)
                                  (record {
                                    custody = record {
                                      covered = v.custody.covered;
                                      queued = v.custody.queued;
                                      tickets = v.custody.tickets;
                                      free = v.custody.free;
                                      stakes = v.custody.stakes;
                                    };
                                    booked = v.booked;
                                    treasury_other = v.treasury_other;
                                  })))))))))))

module _ {R : Type 0} (t : Token R) (funder : Funder R t.balance_of) (hash : String → String)
    (self : String) where
  -- One transaction that goes through, or one move on the ledger. Neither a claimant nor an
  -- airdrop's account is the contract itself.
  pub data Step (env : Env) (w w' : World Vault Logged R) : Type 0 where
    staking :
        (s' : World State Event R)
        → StakingStep t env.self_addr env.height (staking_world w) s'
        → w' ≡ with_staking w s'
        → Step env w w'
    adopts :
        (name bucket : String) → adopt_schedule t funder env name bucket w ≡ ok w' → Step env w w'
    pulls : (epoch : List ℕ) (x : ℤ) → pull_yield t funder env epoch w ≡ ok (w', x) → Step env w w'
    claims :
        (epoch : List ℕ) (x : ℤ)
        → env.self_addr ≢ env.caller
        → claim_yield t env epoch w ≡ ok (w', x)
        → Step env w w'
    sweeps_empty :
        (epoch : List ℕ) (x : Option ℤ)
        → sweep_empty_epoch t hash env epoch w ≡ ok (w', x)
        → Step env w w'
    sweeps_free : (x : ℤ) → sweep_unobligated t env w ≡ ok (w', x) → Step env w w'
    airdrops :
        (garbled : String → ℤ) (batch entries : String) (x : ℤ)
        → NamesOthers t garbled env batch entries w.log
        → airdrop_batch t garbled env batch entries w ≡ ok (w', x)
        → Step env w w'

  pub data Reachable : World Vault Logged R → Type 0 where
    fresh :
        (w : World Vault Logged R)
        → IsFresh w.state.staking
        → w.state.yields ≡ []
        → w.state.yield_outstanding ≡ pos 0
        → w.state.treasury ≢ self
        → IsNonneg (t.balance_of w.ledger self)
        → Reachable w
    after :
        (env : Env) {w w' : World Vault Logged R}
        → Reachable w
        → env.self_addr ≡ self
        → Step env w w'
        → Reachable w'

  Step-Enveloped :
      (env : Env) (w w' : World Vault Logged R)
      → Step env w w'
      → Enveloped t env.self_addr w
      → Enveloped t env.self_addr w'
  Step-Enveloped env w w' (staking s' st q) v =
      rw q (staking-Enveloped t env.self_addr env.height w s' st v)
  Step-Enveloped env w w' (adopts name bucket e) v =
      adopt_schedule-Enveloped t funder env.self_addr env name bucket w w' v e
  Step-Enveloped env w w' (pulls epoch x e) v =
      pull_yield-Enveloped t funder env epoch w (w', x) v e
  Step-Enveloped env w w' (claims epoch x other e) v =
      claim_yield-Enveloped t env epoch w (w', x) other v e
  Step-Enveloped env w w' (sweeps_empty epoch x e) v =
      sweep_empty_epoch-Enveloped t hash env epoch w (w', x) v e
  Step-Enveloped env w w' (sweeps_free x e) v = sweep_unobligated-Enveloped t env w (w', x) v e
  Step-Enveloped env w w' (airdrops garbled batch entries x others e) v =
      airdrop_batch-Enveloped t garbled env batch entries w (w', x) others v e

  -- From a state in which nobody has staked and no yield was funded, with a treasury that is
  -- another account and a balance that is not negative, after any sequence of stake, stakeFor,
  -- unstake, claimUnstaked, adoptSchedule, pullFunding, claimYield, sweepEmptyEpoch,
  -- sweepUnobligated and airdropBatch calls that went through, and of ledger changes made by
  -- others that do not lower the contract's balance, where no claimant and no account of an
  -- airdrop is the contract itself and each unstaking account has unstaked fewer than 2^64 - 1
  -- times, the balance less the outstanding yield covers the staked total and the outstanding
  -- unstakes together, the queue and the stakes are as custody requires, and the outstanding
  -- yield is the sum over all epochs of what was funded and is not paid.
  pub Reachable-Enveloped : (w : World Vault Logged R) → Reachable w → Enveloped t self w
  unfolding sum_by
  Reachable-Enveloped w (fresh _ f ys out other n) = record {
    custody = IsFresh-Custody t self w.state.staking _ f (rw out (omega (int_laws, n)));
    booked = rw (ys, out) refl;
    treasury_other = other;
  }
  Reachable-Enveloped w (after env r here st) =
      subst (λ x. Enveloped t x w) here
        (Step-Enveloped env _ w st (rw here (Reachable-Enveloped _ r)))
