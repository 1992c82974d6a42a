-- ===== src/Distributor/ClaimSound.antt =====
-- The `claim` handler: what it asks of a claimant, what it does, and the invariant.
use Prim.Native.String.{len}
use magi_tokenomics.Common.{
  ℕ, ◌≤◌, ℤ, pos, ◌+ℤ◌, ◌-ℤ◌, ◌<ℤ◌, ◌≤ℤ◌, int_laws, ltb_ℤ, ltb, leb, true, false, ◌&&◌, ◌≡◌, ◌≢◌,
  refl, sym, arith, String, List, string_eq, pair_eq, get, get-insert, beq_refl, ◌==◌, subst, ok,
  require, abort_if, ok_injective, >>=-elim, require-eq-ok, abort_if-eq-ok, Aborts, Aborts-of_ne,
  not_initialized, not_finalized, window_open, already_claimed, not_funded, no_shares, bad_share,
  no_root, bad_proof, epoch_required, epoch_not_numeric, epoch_not_canonical, epoch_out_of_range,
}
use magi_tokenomics.Chain.{Env, World}
use magi_tokenomics.Adapter.{Token, Staker}
use magi_tokenomics.Text.Fields.{canon, parse_big, is_decimal, leading_zero}
use magi_tokenomics.Merkle.Proof.{verify_proof}
use magi_tokenomics.Distributor.State.{State, Event, Key}
use magi_tokenomics.Distributor.Policy.{must_channel, epoch_of, set_epoch}
use magi_tokenomics.Distributor.Claim.{is_finalized, check_claim, claim}
use magi_tokenomics.Distributor.Covered.{is_claimable}
use magi_tokenomics.Distributor.Sound.{Sound, Sound-set, epoch_of-Settled}
use magi_tokenomics.Distributor.Paid.{Paid, settle-Paid, booked}

canon-eq-ok : (s ep : String) → canon s ≡ ok ep → s ≡ ep
unfolding canon
canon-eq-ok s ep e = >>=-elim (abort_if (s == "") epoch_required) _ e (λ _ _ e1.
    >>=-elim (require (is_decimal s) epoch_not_numeric) _ e1 (λ _ _ e2.
      >>=-elim (abort_if (ltb 1 (len s) && leading_zero s) epoch_not_canonical) _ e2 (λ _ _ e3.
        >>=-elim (abort_if (ltb 19 (len s)) epoch_out_of_range) _ e3 (λ _ _ e4. ok_injective e4))))

-- An epoch whose payout is booked within its funding, while claims are open.
booked-Sound :
    (env : Env) (k : Key) (payout : ℤ) (s : State) (held : ℤ)
    → is_claimable env.height (epoch_of s k) ≡ true
    → pos 0 <ℤ payout
    → (epoch_of s k).paid +ℤ payout ≤ℤ (epoch_of s k).funded
    → Sound env.self_addr env.height s held
    → Sound env.self_addr env.height (booked env k payout s) (held -ℤ payout)
booked-Sound env k payout s held open_now positive within v =
    let old = epoch_of s k in
    let settled = epoch_of-Settled env.self_addr env.height s held k v in
    let set =
      Sound-set env.self_addr env.height k (record old { paid = old.paid +ℤ payout }) s held
        (pos 0 -ℤ payout)
        (record {
          nonneg = omega (int_laws, settled.nonneg, positive);
          within = within;
          early = λ shut. cc (open_now, shut);
        })
        (omega int_laws) v in
    subst (λ x. Sound env.self_addr env.height (booked env k payout s) x) (omega int_laws)
      (record { owed = set.owed; treasury_other = set.treasury_other; bps_fits = set.bps_fits })

module _ {R : Type 0} (t : Token R) (staker : Staker R t.balance_of) (garbled : String → ℤ)
    (sha256 : List ℕ → List ℕ) where
  -- What a claimant has shown.
  pub record Entitled (env : Env) (k : Key) (share_text proof : String) (s : State) (share : ℤ)
      : Type 0 where
    pub open_now : is_claimable env.height (epoch_of s k) ≡ true
    pub unclaimed : get false (k, env.caller) s.claimed ≡ false
    pub share_is : share ≡ parse_big garbled share_text
    pub proved : verify_proof sha256 env.caller share_text proof (epoch_of s k).root ≡ true

  check_claim-Entitled :
      (env : Env) (k : Key) (share_text proof : String) (s : State) (share : ℤ)
      → check_claim t staker garbled sha256 env k share_text proof s ≡ ok share
      → Entitled env k share_text proof s share
  unfolding check_claim
  check_claim-Entitled env k share_text proof s share e =
      let old = epoch_of s k in
      >>=-elim (require (is_finalized old.status) not_finalized) _ e (λ _ final e1.
        >>=-elim (abort_if (ltb env.height old.chal) window_open) _ e1 (λ _ elapsed e2.
          >>=-elim (abort_if (get false (k, env.caller) s.claimed) already_claimed) _ e2
            (λ _ fresh e3. >>=-elim (require (ltb_ℤ (pos 0) old.funded) not_funded) _ e3 (λ _ _ e4.
              >>=-elim (require (ltb_ℤ (pos 0) old.total_shares) no_shares) _ e4 (λ _ _ e5.
                >>=-elim (require (ltb_ℤ (pos 0) (parse_big garbled share_text)) bad_share) _ e5
                  (λ _ _ e6. >>=-elim (abort_if (old.root == "") no_root) _ e6 (λ _ _ e7.
                    >>=-elim
                      (require (verify_proof sha256 env.caller share_text proof old.root) bad_proof)
                      _ e7
                      (λ _ shown e8.
                        let f = require-eq-ok (is_finalized old.status) not_finalized final in
                        record {
                          open_now = rw f (
                              elapsed_now env.height old.chal
                                (abort_if-eq-ok (ltb env.height old.chal) window_open elapsed));
                          unclaimed =
                              abort_if-eq-ok (get false (k, env.caller) s.claimed) already_claimed
                                fresh;
                          share_is = sym (ok_injective e8);
                          proved =
                              require-eq-ok
                                (verify_proof sha256 env.caller share_text proof old.root) bad_proof
                                shown;
                        }))))))))
    where
      elapsed_now : (h c : ℕ) → ltb h c ≡ false → leb c h ≡ true
      elapsed_now h c q = ground (arith, q)

  -- A claim that goes through, by a caller that is not the distributor, where at most 10000 basis
  -- points are staked, is of an epoch that is finalized with its challenge window over, by a
  -- caller not marked as having claimed it, with a proof that leads from the caller and the
  -- share's text to the epoch's root; it reports the floor of funded times share over the total
  -- shares, which is positive and with what was paid before at most what was funded; the new
  -- state is the old one with the payout added to what is paid and the caller marked, and the
  -- distributor's balance falls by the payout, the liquid and the staked part together.
  pub claim_lem :
      (env : Env) (ch epoch share_text proof : String) (w w' : World State Event R) (payout : ℤ)
      → w.state.staked_bps ≤ 10000
      → env.self_addr ≢ env.caller
      → claim t staker garbled sha256 env ch epoch share_text proof w ≡ ok (w', payout)
      → Entitled env (ch, epoch) share_text proof w.state (parse_big garbled share_text)
        × Paid t staker garbled sha256 env (ch, epoch) (parse_big garbled share_text) payout w w'
  unfolding claim
  claim_lem env ch epoch share_text proof w w' payout fits other e =
      >>=-elim (require w.state.initialized not_initialized) _ e (λ _ _ e1.
        >>=-elim (must_channel w.state ch) _ e1 (λ c _ e2.
          >>=-elim (canon epoch) _ e2 (λ ep canonical e3.
            >>=-elim (check_claim t staker garbled sha256 env (ch, ep) share_text proof w.state) _
              e3
              (λ share checked e4.
                let entitled =
                  check_claim-Entitled env (ch, ep) share_text proof w.state share checked in
                let paid =
                  settle-Paid t staker garbled sha256 env (ch, ep) share w (w', payout) fits other
                    e4 in
                rw (canon-eq-ok epoch ep canonical, sym entitled.share_is) (entitled, paid)))))

  pub claim-Sound :
      (env : Env) (ch epoch share_text proof : String) (w w' : World State Event R) (payout : ℤ)
      → env.self_addr ≢ env.caller
      → Sound env.self_addr env.height w.state (t.balance_of w.ledger env.self_addr)
      → claim t staker garbled sha256 env ch epoch share_text proof w ≡ ok (w', payout)
      → Sound env.self_addr env.height w'.state (t.balance_of w'.ledger env.self_addr)
  claim-Sound env ch epoch share_text proof w w' payout other v e =
      let (entitled, paid) =
        claim_lem env ch epoch share_text proof w w' payout v.bps_fits other e in
      rw (paid.state, paid.spent)
        (booked-Sound env (ch, epoch) payout w.state _ entitled.open_now paid.positive paid.within
          v)

  -- After a claim that went through, by a caller that is not the distributor, a claim of the same
  -- channel and epoch by the same caller aborts, whatever share and proof it brings, in any later
  -- world that has kept the mark, where at most 10000 basis points are staked in both worlds.
  pub claim_once :
      (env env' : Env) (ch epoch share_text proof share_text' proof' : String)
      (w w' later : World State Event R) (payout : ℤ)
      → w.state.staked_bps ≤ 10000
      → env.self_addr ≢ env.caller
      → claim t staker garbled sha256 env ch epoch share_text proof w ≡ ok (w', payout)
      → env'.caller ≡ env.caller
      → later.state.staked_bps ≤ 10000
      → env'.self_addr ≢ env'.caller
      → get false ((ch, epoch), env.caller) later.state.claimed
        ≡ get false ((ch, epoch), env.caller) w'.state.claimed
      → Aborts (claim t staker garbled sha256 env' ch epoch share_text' proof' later)
  unfolding set_epoch
  claim_once env env' ch epoch share_text proof share_text' proof' w w' later payout fits other e
        caller fits' other' kept =
      Aborts-of_ne (claim t staker garbled sha256 env' ch epoch share_text' proof' later)
        (λ r again.
          let (_, paid) = claim_lem env ch epoch share_text proof w w' payout fits other e in
          let (entitled, _) =
            claim_lem env' ch epoch share_text' proof' later r.0 r.1 fits' other' again in
          let marked : get false ((ch, epoch), env.caller) w'.state.claimed ≡ true =
            rw (paid.state, get-insert, beq_refl) refl in
          cc (entitled.unclaimed, marked, kept, caller))
