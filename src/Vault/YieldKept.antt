-- ===== src/Vault/YieldKept.antt =====
-- The yield handlers keep the envelope.
use magi_tokenomics.Common.{
  ℕ, ℤ, pos, ◌+ℤ◌, ◌*ℤ◌, ◌/ℤ◌, ◌<ℤ◌, int_laws, ltb_ℤ, true, false, ◌≡◌, ◌≢◌, refl, arith, String,
  List, string_eq, nat_eq, pair_eq, get, ◌==◌, ltb, subst, ok, require, abort_if, or_abort,
  ok_injective, >>=-elim, require-eq-ok, or_abort-eq-ok, not_initialized, no_bucket, already_paid,
  funder_refused, already_claimed, not_funded, was_swept, not_elapsed, not_staked, no_stakers,
  rounds_to_zero,
}
use magi_tokenomics.Chain.{Env, World, validate_addr}
use magi_tokenomics.Adapter.{Token, Funder, transfer}
use magi_tokenomics.Adapter.Laws.{transfer_pays}
use magi_tokenomics.Text.Epoch.{must_epoch}
use magi_tokenomics.Staking.Epochs.{epoch_bounds, min_stake_sum_at}
use magi_tokenomics.Vault.State.{Vault, Logged, yield_of}
use magi_tokenomics.Vault.Yield.{
  set_yield, pull_yield, book_yield, claim_yield, yield_due, stake_across,
}
use magi_tokenomics.Vault.Envelope.{Envelope, set_yield-Envelope, spent_yield-Envelope}

module _ {R : Type 0} (t : Token R) where
  abbrev pub Enveloped : String → World Vault Logged R → Type 0
  Enveloped self w = Envelope self w.state (t.balance_of w.ledger self)

  pub pull_yield-Enveloped :
      (funder : Funder R t.balance_of) (env : Env) (epoch : List ℕ) (w : World Vault Logged R)
      (r : World Vault Logged R × ℤ)
      → Enveloped env.self_addr w
      → pull_yield t funder env epoch w ≡ ok r
      → Enveloped env.self_addr r.0
  unfolding pull_yield set_yield
  pull_yield-Enveloped funder env epoch w r v e =
      >>=-elim (require w.state.staking.initialized not_initialized) _ e (λ _ _ e1.
        >>=-elim (abort_if (w.state.bucket == "") no_bucket) _ e1 (λ _ _ e2.
          >>=-elim (must_epoch epoch) _ e2 (λ ep _ e3.
            >>=-elim (abort_if (ltb_ℤ (pos 0) (yield_of w.state ep).paid) already_paid) _ e3
              (λ _ _ e4.
                >>=-elim
                  (or_abort (funder.claim_bucket env.self_addr epoch w.state.bucket w.ledger)
                    funder_refused)
                  _ e4
                  (λ d called e5.
                    let old = yield_of w.state ep in
                    let (_, credited) =
                      funder.claim_credits env.self_addr epoch w.state.bucket w.ledger d.0 d.1 (
                        or_abort-eq-ok
                          (funder.claim_bucket env.self_addr epoch w.state.bucket w.ledger)
                          funder_refused called) in
                    subst (λ (x : World Vault Logged R × ℤ). Enveloped env.self_addr x.0)
                      (ok_injective e5)
                      (rw credited (
                        set_yield-Envelope env.self_addr w.state _ d.1 ep
                          (record old { funded = old.funded +ℤ d.1 }) _ (omega int_laws) refl refl
                          refl refl v)))))))

  -- A due payout is positive.
  yield_due-positive :
      (env : Env) (ep : ℕ) (v : Vault) (d : ℤ × (ℤ × ℤ)) → yield_due env ep v ≡ ok d → pos 0 <ℤ d.0
  unfolding yield_due
  yield_due-positive env ep v d e =
      >>=-elim (abort_if (get false (ep, env.caller) v.claimed) already_claimed) _ e (λ _ _ e1.
        >>=-elim (require (ltb_ℤ (pos 0) (yield_of v ep).funded) not_funded) _ e1 (λ _ _ e2.
          >>=-elim (abort_if (yield_of v ep).swept was_swept) _ e2 (λ _ _ e3.
            >>=-elim (epoch_bounds v.staking ep) _ e3 (λ b _ e4.
              >>=-elim (require (ltb b.1 env.height) not_elapsed) _ e4 (λ _ _ e5.
                >>=-elim (stake_across v env.caller b) _ e5 (λ stake _ e6.
                  >>=-elim (require (ltb_ℤ (pos 0) stake) not_staked) _ e6 (λ _ _ e7.
                    >>=-elim (min_stake_sum_at env v.staking ep) _ e7 (λ total _ e8.
                      >>=-elim (require (ltb_ℤ (pos 0) total) no_stakers) _ e8 (λ _ _ e9.
                        let payout = (yield_of v ep).funded *ℤ stake /ℤ total in
                        >>=-elim (require (ltb_ℤ (pos 0) payout) rounds_to_zero) _ e9
                          (λ _ some_paid e10.
                            subst (λ (x : ℤ × (ℤ × ℤ)). pos 0 <ℤ x.0) (ok_injective e10)
                              (is_positive payout (
                                require-eq-ok (ltb_ℤ (pos 0) payout) rounds_to_zero
                                  some_paid))))))))))))
    where
      is_positive : (x : ℤ) → ltb_ℤ (pos 0) x ≡ true → pos 0 <ℤ x
      is_positive x h = ground (arith, h)

  pub claim_yield-Enveloped :
      (env : Env) (epoch : List ℕ) (w : World Vault Logged R) (r : World Vault Logged R × ℤ)
      → env.self_addr ≢ env.caller
      → Enveloped env.self_addr w
      → claim_yield t env epoch w ≡ ok r
      → Enveloped env.self_addr r.0
  unfolding claim_yield book_yield set_yield
  claim_yield-Enveloped env epoch w r other v e =
      >>=-elim (require w.state.staking.initialized not_initialized) _ e (λ _ _ e1.
        >>=-elim (must_epoch epoch) _ e1 (λ ep _ e2.
          >>=-elim (validate_addr env.caller) _ e2 (λ _ _ e3.
            >>=-elim (yield_due env ep w.state) _ e3 (λ d due e4.
              >>=-elim
                (transfer t w.state.staking.kind env env.caller d.0
                  (record w { state = book_yield env ep d.0 w.state }))
                _ e4
                (λ w' moved e5.
                  let old = yield_of w.state ep in
                  let (same, _, debited) =
                    transfer_pays t w.state.staking.kind env env.caller d.0 _ w' moved
                      (yield_due-positive env ep w.state d due) other in
                  subst (λ (x : World Vault Logged R × ℤ). Enveloped env.self_addr x.0)
                    (ok_injective e5)
                    (rw (same, debited)
                      (spent_yield-Envelope env.self_addr w.state _ d.0 ep
                        (record old { paid = old.paid +ℤ d.0 }) _ (omega int_laws) refl refl refl
                        refl v)))))))
