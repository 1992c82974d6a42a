-- ===== src/Distributor/FundingSound.antt =====
-- The handlers that move an epoch's funding, and the invariant.
use Prim.Native.String.{◌++◌}
use magi_tokenomics.Common.{
  ℕ, ℤ, pos, ◌+ℤ◌, ◌<ℤ◌, leb_ℤ, ltb_ℤ, int_laws, le_of_eq, IsNonneg, Bool, true, ◌&&◌, ◌≡◌, refl,
  sym, ap, ◌∙◌, inl, inr, arith, String, string_eq, pair_eq, get_big, insert, ◌==◌, subst, Option,
  none, ok, require, abort_if, or_abort, ok_injective, >>=-elim, if-elim, require-eq-ok,
  or_abort-eq-ok, abort_if-eq-ok, Bool-cases, not_initialized, epoch_not_open, funder_refused,
  no_treasury, amount_not_positive, pool_changed, leb, window_elapsed,
}
use magi_tokenomics.Chain.{Env, World}
use magi_tokenomics.Adapter.{Token, Funder, transfer}
use magi_tokenomics.Adapter.Laws.{transfer_pays}
use magi_tokenomics.Text.Fields.{canon, codes, show_int}
use magi_tokenomics.Distributor.State.{
  State, Event, Epoch, Key, Channel, Status, open_epoch, finalized, cancelled,
}
use magi_tokenomics.Distributor.Policy.{
  auth_cfg, must_channel, epoch_of, set_epoch, pin_policy, authorize_action,
}
use magi_tokenomics.Distributor.Funding.{
  is_open, add_funding, pull_funding, check_cancel, roll_back, cancel_epoch, sweep_unallocated,
}
use magi_tokenomics.Distributor.Covered.{
  residual, Settled, Settled-open, Covered-roll, Covered-sweep,
}
use magi_tokenomics.Distributor.Sound.{
  Sound, Sound-keep, Sound-set, epoch_of-Settled, authorize_action-Voted, Voted-Sound,
  Voted-epoch_of,
}
use magi_tokenomics.Distributor.BookSound.{pin_policy-Settled, residual-pin_policy, SoundAfter}

add_funding-Settled :
    (now height : ℕ) (got : ℤ) (e : Epoch)
    → pos 0 <ℤ got
    → Settled now e
    → Settled now (add_funding height got e)
unfolding add_funding
add_funding-Settled now height got e p v = record {
  nonneg = v.nonneg;
  within = omega (int_laws, v.within);
  early = v.early;
}

residual-add_funding :
    (height : ℕ) (got : ℤ) (e : Epoch) → residual (add_funding height got e) ≡ residual e +ℤ got
unfolding add_funding
residual-add_funding height got e = omega int_laws

module _ {R : Type 0} (t : Token R) (funder : Funder R t.balance_of) where
  pub pull_funding-Sound :
      (env : Env) (ch epoch : String) (w : World State Event R) (r : World State Event R × ℤ)
      → Sound env.self_addr env.height w.state (t.balance_of w.ledger env.self_addr)
      → pull_funding t funder env ch epoch w ≡ ok r
      → Sound env.self_addr env.height r.0.state (t.balance_of r.0.ledger env.self_addr)
  unfolding pull_funding
  pull_funding-Sound env ch epoch w r v e =
      >>=-elim (require w.state.initialized not_initialized) _ e (λ _ _ e1.
        >>=-elim (must_channel w.state ch) _ e1 (λ c _ e2. >>=-elim (canon epoch) _ e2 (λ ep _ e3.
          >>=-elim (require (is_open (epoch_of w.state (ch, ep)).status) epoch_not_open) _ e3
            (λ _ _ e4.
              >>=-elim
                (or_abort (funder.claim_bucket env.self_addr (codes ep) c.bucket w.ledger)
                  funder_refused)
                _ e4
                (λ d called e5.
                  let old = epoch_of w.state (ch, ep) in
                  let (positive, paid) =
                    funder.claim_credits env.self_addr (codes ep) c.bucket w.ledger d.0 d.1 (
                      or_abort-eq-ok
                        (funder.claim_bucket env.self_addr (codes ep) c.bucket w.ledger)
                        funder_refused called) in
                  let settled = epoch_of-Settled env.self_addr env.height w.state _ (ch, ep) v in
                  let new = pin_policy w.state ch (add_funding env.height d.1 old) in
                  subst
                    (λ (x : World State Event R × ℤ).
                      Sound env.self_addr env.height x.0.state
                        (t.balance_of x.0.ledger env.self_addr))
                    (ok_injective e5)
                    (rw paid (
                      Sound-set env.self_addr env.height (ch, ep) new w.state _ d.1
                        (pin_policy-Settled env.height w.state ch _
                          (add_funding-Settled env.height env.height d.1 old positive settled))
                        (residual-pin_policy w.state ch _ ∙ residual-add_funding env.height d.1 old)
                        v)))))))

-- Where a cancel is let through, nothing was paid.
check_cancel-unpaid :
    (env : Env) (s : State) (c : Channel) (ep : String) (e : Epoch) (u : Unit {0})
    → Settled env.height e
    → check_cancel env s c ep e ≡ ok u
    → e.paid ≡ pos 0
unfolding check_cancel
check_cancel-unpaid env s c ep e u v q = go e.status refl q
  where
    go :
        (st : Status)
        → e.status ≡ st
        → check_cancel env s c ep (record e { status = st }) ≡ ok u
        → e.paid ≡ pos 0
    go open_epoch at q = Settled-open env.height e v (rw at refl)
    go finalized at q =
        v.early (rw at (ground (arith, abort_if-eq-ok (leb e.chal env.height) window_elapsed q)))
    go cancelled at q = cc

some_funded-IsNonneg : (x : ℤ) → ltb_ℤ (pos 0) x ≡ true → IsNonneg x
some_funded-IsNonneg x h = ground (arith, h)

roll_back-Sound :
    (self : String) (now : ℕ) (k : Key) (s : State) (held : ℤ)
    → (epoch_of s k).paid ≡ pos 0
    → Sound self now s held
    → Sound self now (roll_back k s) held
unfolding roll_back epoch_of set_epoch
roll_back-Sound self now k s held unpaid v =
    let old = epoch_of s k in
    let settled = epoch_of-Settled self now s held k v in
    elim (Bool-cases (ltb_ℤ (pos 0) old.funded)) [
      | inl some_funded ↦ rw some_funded (record {
        owed =
            Covered-roll now s.epochs s.unallocated held old.funded k
              (record old { status = cancelled; funded = pos 0 }) k.0
              (record {
                nonneg = settled.nonneg;
                within = omega (int_laws, le_of_eq unpaid);
                early = λ _. unpaid;
              })
              (omega (int_laws, le_of_eq unpaid)) (omega (int_laws, le_of_eq unpaid))
              (some_funded-IsNonneg old.funded some_funded) v.owed;
        treasury_other = v.treasury_other;
        bps_fits = v.bps_fits;
      })
      | inr none_funded ↦ rw none_funded (
          Sound-keep self now k (record old { status = cancelled }) s held
            (record { nonneg = settled.nonneg; within = settled.within; early = λ _. unpaid }) refl
            v)
    ]

-- The pool that is swept is a positive amount.
same_amount :
    (pool amount : ℤ)
    → ltb_ℤ (pos 0) amount ≡ true
    → leb_ℤ pool amount && leb_ℤ amount pool ≡ true
    → pos 0 <ℤ pool
same_amount pool amount p q = ground (arith, p, q)

module _ (hash : String → String) {R : Type 0} where
  pub cancel_epoch-Sound :
      (self : String) (env : Env) (ch epoch : String) (w : World State Event R)
      (r : World State Event R × Bool) (held : ℤ)
      → Sound self env.height w.state held
      → cancel_epoch hash env ch epoch w ≡ ok r
      → SoundAfter self env.height w held r
  unfolding cancel_epoch
  cancel_epoch-Sound self env ch epoch w r held v e =
      >>=-elim (require w.state.initialized not_initialized) _ e (λ _ _ e1.
        >>=-elim (must_channel w.state ch) _ e1 (λ c _ e2. >>=-elim (canon epoch) _ e2 (λ ep _ e3.
          >>=-elim (check_cancel env w.state c ep (epoch_of w.state (ch, ep))) _ e3 (λ u checked e4.
            >>=-elim (auth_cfg w.state.guardian) _ e4 (λ cfg _ e5.
              let action = "cancel:" ++ ch ++ ":" ++ ep in
              >>=-elim (authorize_action hash cfg "grd" action action env w.state) _ e5
                (λ d vote e6.
                  let voted =
                    authorize_action-Voted hash cfg "grd" action action env w.state d vote in
                  let after = Voted-Sound self env.height w.state d.0 held voted v in
                  let settled = epoch_of-Settled self env.height w.state held (ch, ep) v in
                  let unpaid =
                    ap (λ (x : Epoch). x.paid) (Voted-epoch_of w.state d.0 (ch, ep) voted)
                    ∙ check_cancel-unpaid env w.state c ep (epoch_of w.state (ch, ep)) u settled
                        checked in
                  subst (λ x. SoundAfter self env.height w held x) (ok_injective e6)
                    (elim (Bool-cases d.1) [
                      | inl h ↦
                          rw h
                            (refl, roll_back-Sound self env.height (ch, ep) d.0 held unpaid after)
                      | inr h ↦ rw h (refl, after)
                    ])))))))

  pub sweep_unallocated-Sound :
      (t : Token R) (env : Env) (ch nonce : String) (amount : ℤ) (w : World State Event R)
      (r : World State Event R × Option ℤ)
      → Sound env.self_addr env.height w.state (t.balance_of w.ledger env.self_addr)
      → sweep_unallocated hash t env ch nonce amount w ≡ ok r
      → Sound env.self_addr env.height r.0.state (t.balance_of r.0.ledger env.self_addr)
  unfolding sweep_unallocated
  sweep_unallocated-Sound t env ch nonce amount w r v e =
      >>=-elim (require w.state.initialized not_initialized) _ e (λ _ _ e1.
        >>=-elim (must_channel w.state ch) _ e1 (λ c _ e2.
          >>=-elim (abort_if (w.state.treasury == "") no_treasury) _ e2 (λ _ _ e3.
            >>=-elim (canon nonce) _ e3 (λ n _ e4.
              >>=-elim (require (ltb_ℤ (pos 0) amount) amount_not_positive) _ e4 (λ _ asked e5.
                >>=-elim (auth_cfg w.state.guardian) _ e5 (λ cfg _ e6.
                  >>=-elim
                    (authorize_action hash cfg "grd" ("sweep:" ++ ch ++ ":" ++ n) (show_int amount)
                      env w.state)
                    _ e6
                    (λ d vote e7.
                      let voted = authorize_action-Voted hash cfg "grd" _ _ env w.state d vote in
                      let after = Voted-Sound env.self_addr env.height w.state d.0 _ voted v in
                      let pool = get_big ch d.0.unallocated in
                      let positive =
                        require-eq-ok (ltb_ℤ (pos 0) amount) amount_not_positive asked in
                      if-elim d.1 _ (ok (record w { state = d.0 }, none)) e7
                        (λ passed.
                          >>=-elim (require (leb_ℤ pool amount && leb_ℤ amount pool) pool_changed) _
                            passed
                            (λ _ same e8.
                              >>=-elim
                                (transfer t d.0.kind env d.0.treasury pool (record w {
                                  state = record d.0 {
                                    unallocated = insert ch (pos 0) d.0.unallocated;
                                  };
                                }))
                                _ e8
                                (λ w' moved e9.
                                  let kept = same_amount pool amount positive (
                                    require-eq-ok (leb_ℤ pool amount && leb_ℤ amount pool)
                                      pool_changed same) in
                                  let (state_kept, _, debited) =
                                    transfer_pays t d.0.kind env d.0.treasury pool _ w' moved kept
                                      (λ h. after.treasury_other (sym h)) in
                                  subst
                                    (λ (x : World State Event R × Option ℤ).
                                      Sound env.self_addr env.height x.0.state
                                        (t.balance_of x.0.ledger env.self_addr))
                                    (ok_injective e9)
                                    (rw (state_kept, debited)
                                      (record {
                                        owed =
                                            Covered-sweep env.height d.0.epochs d.0.unallocated _ ch
                                              after.owed;
                                        treasury_other = after.treasury_other;
                                        bps_fits = after.bps_fits;
                                      })))))
                        (λ waits.
                          subst
                            (λ (x : World State Event R × Option ℤ).
                              Sound env.self_addr env.height x.0.state
                                (t.balance_of x.0.ledger env.self_addr))
                            (ok_injective waits) after))))))))
