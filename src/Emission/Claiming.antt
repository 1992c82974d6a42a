-- ===== src/Emission/Claiming.antt =====
-- What a claim that goes through has done.
use magi_tokenomics.Common.{
  Aborts, Aborts-of_ne, ℕ, ℤ, pos, ◌-ℤ◌, ◌<ℤ◌, ◌≡◌, ◌≢◌, ◌∙◌, sym, ap, subst, arith, int_laws,
  le_of_eq, List, String, get, get-insert, insert, sum-insert, string_eq, nat_eq, pair_eq, ◌==◌,
  ltb_ℤ, ltb→lt, ok, ok_injective, ok_pair, require, abort_if, >>=-eq-ok, require-eq-ok,
  not_initialized, bucket_required, not_bucket_target, nothing_owed, nat_beq_iff, AllNonneg-insert,
}
use magi_tokenomics.Chain.{Env, World}
use magi_tokenomics.Adapter.{Token, transfer}
use magi_tokenomics.Adapter.Laws.{transfer_pays}
use magi_tokenomics.Text.Epoch.{must_epoch}
use magi_tokenomics.Emission.State.{State, Event}
use magi_tokenomics.Emission.Claim.{pay_bucket, claim_bucket, owed_of}
use magi_tokenomics.Emission.Solvency.{Solvent, SolventAt}

-- A payment of `amt` for the bucket's epoch: the caller is the bucket's target, the amount is all
-- that was owed, it is deleted and nothing else in the state changes.
pub record Pays (env : Env) (bucket : String) (ep : ℕ) (s s' : State) (amt : ℤ) : Type 0 where
  pub to_target : get "" bucket s.targets ≡ env.caller
  pub whole : amt ≡ owed_of s bucket ep
  pub positive : pos 0 <ℤ amt
  pub deleted : s' ≡ record s { owed = insert (bucket, ep) (pos 0) s.owed }

-- Paying all that a bucket is owed, and deleting it, keeps the rest covered.
pay-SolventAt :
    (self : String) (s : State) (bucket : String) (ep : ℕ) (held held' : ℤ)
    → SolventAt self s held
    → held' ≡ held -ℤ owed_of s bucket ep
    → SolventAt self (record s { owed = insert (bucket, ep) (pos 0) s.owed }) held'
unfolding owed_of
pay-SolventAt self s bucket ep held held' v e = record {
  covered =
      omega (int_laws, v.covered, le_of_eq e, le_of_eq (sum-insert (bucket, ep) (pos 0) s.owed));
  nonneg = AllNonneg-insert (bucket, ep) (pos 0) s.owed (omega arith) v.nonneg;
  weighed = v.weighed;
  full = v.full;
  emits = v.emits;
  targets_other = v.targets_other;
}

module _ {L : Type 0} (t : Token L) where
  pub claim_bucket-target :
      (env : Env) (epoch : List ℕ) (bucket : String) (w w' : World State Event L) (amt : ℤ)
      → claim_bucket t env epoch bucket w ≡ ok (w', amt)
      → get "" bucket w.state.targets ≡ env.caller
  unfolding claim_bucket
  claim_bucket-target env epoch bucket w w' amt e =
      let (u, ready, e1) = >>=-eq-ok (require w.state.initialized not_initialized) _ e in
      let (ep, parsed, e2) = >>=-eq-ok (must_epoch epoch) _ e1 in
      let (u2, named, e3) = >>=-eq-ok (abort_if (bucket == "") bucket_required) _ e2 in
      let (u3, mine, e4) =
        >>=-eq-ok (require (get "" bucket w.state.targets == env.caller) not_bucket_target) _ e3 in
      (string_eq.beq_iff (get "" bucket w.state.targets) env.caller).0
        (require-eq-ok _ not_bucket_target mine)

  pub pay_bucket-Pays :
      (env : Env) (bucket : String) (ep : ℕ) (w w' : World State Event L) (amt : ℤ)
      → get "" bucket w.state.targets ≡ env.caller
      → env.self_addr ≢ env.caller
      → pay_bucket t env bucket ep w ≡ ok (w', amt)
      → Pays env bucket ep w.state w'.state amt
        × (t.balance_of w'.ledger env.self_addr ≡ t.balance_of w.ledger env.self_addr -ℤ amt)
  unfolding pay_bucket
  pay_bucket-Pays env bucket ep w w' amt target other e =
      let (u, some_owed, sent) =
        >>=-eq-ok (require (ltb_ℤ (pos 0) (owed_of w.state bucket ep)) nothing_owed) _ e in
      let positive = ltb→lt _ _ (require-eq-ok _ nothing_owed some_owed) in
      let (w1, moved, done) = >>=-eq-ok (transfer t w.state.kind env env.caller _ _) _ sent in
      let (same, logged, paid) =
        transfer_pays t w.state.kind env env.caller _ _ w1 moved positive other in
      let (world, amount) = ok_pair done in
      (
        record {
          to_target = target;
          whole = sym amount;
          positive = subst (λ x. pos 0 <ℤ x) amount positive;
          deleted = sym (ap (λ (x : World State Event L). x.state) world) ∙ same;
        },
        sym (ap (λ (x : World State Event L). t.balance_of x.ledger env.self_addr) world)
            ∙ paid
            ∙ ap (λ (x : ℤ). t.balance_of w.ledger env.self_addr -ℤ x) amount,
      )

  -- A claimBucket that goes through, by a caller that is not the controller, had a canonical
  -- epoch text, was made by the bucket's target, pays all that was owed for that bucket and
  -- epoch, which was positive, deletes that entry, changes nothing else of the state, and lowers
  -- the controller's balance by the amount.
  pub claim_bucket-Pays :
      (env : Env) (epoch : List ℕ) (bucket : String) (w w' : World State Event L) (amt : ℤ)
      → env.self_addr ≢ env.caller
      → claim_bucket t env epoch bucket w ≡ ok (w', amt)
      → (ep : ℕ) × (must_epoch epoch ≡ ok ep)
        × Pays env bucket ep w.state w'.state amt
        × (t.balance_of w'.ledger env.self_addr ≡ t.balance_of w.ledger env.self_addr -ℤ amt)
  unfolding claim_bucket
  claim_bucket-Pays env epoch bucket w w' amt other e =
      let (u, ready, e1) = >>=-eq-ok (require w.state.initialized not_initialized) _ e in
      let (ep, parsed, e2) = >>=-eq-ok (must_epoch epoch) _ e1 in
      let (u2, named, e3) = >>=-eq-ok (abort_if (bucket == "") bucket_required) _ e2 in
      let (u3, mine, e4) =
        >>=-eq-ok (require (get "" bucket w.state.targets == env.caller) not_bucket_target) _ e3 in
      let target =
        (string_eq.beq_iff (get "" bucket w.state.targets) env.caller).0
          (require-eq-ok _ not_bucket_target mine) in
      let (pays, balance) = pay_bucket-Pays env bucket ep w w' amt target other e4 in
      (ep, parsed, pays, balance)

  -- The state after a claim holds nothing more for that bucket and epoch.
  pub Pays-deletes :
      (env : Env) (bucket : String) (ep : ℕ) (s s' : State) (amt : ℤ)
      → Pays env bucket ep s s' amt
      → owed_of s' bucket ep ≡ pos 0
  unfolding owed_of
  Pays-deletes env bucket ep s s' amt p =
      rw (p.deleted, get-insert)
        (ground (arith, nat_beq_iff ep ep, string_eq.beq_iff bucket bucket))

  claimed_again :
      (env env2 : Env) (epoch : List ℕ) (bucket : String) (w w' : World State Event L) (amt : ℤ)
      → env.self_addr ≢ env.caller
      → claim_bucket t env epoch bucket w ≡ ok (w', amt)
      → (x : World State Event L × ℤ) → claim_bucket t env2 epoch bucket w' ≢ ok x
  unfolding claim_bucket pay_bucket
  claimed_again env env2 epoch bucket w w' amt other e x again =
      let (ep, parsed, pays, balance) = claim_bucket-Pays env epoch bucket w w' amt other e in
      let (u, ready, e1) = >>=-eq-ok (require w'.state.initialized not_initialized) _ again in
      let (ep2, parsed2, e2) = >>=-eq-ok (must_epoch epoch) _ e1 in
      let (u2, named, e3) = >>=-eq-ok (abort_if (bucket == "") bucket_required) _ e2 in
      let (u3, mine, e4) =
        >>=-eq-ok (require (get "" bucket w'.state.targets == env2.caller) not_bucket_target) _
          e3 in
      let (u4, some_owed, sent) =
        >>=-eq-ok (require (ltb_ℤ (pos 0) (owed_of w'.state bucket ep2)) nothing_owed) _ e4 in
      let zero = Pays-deletes env bucket ep w.state w'.state amt pays in
      let same : ep ≡ ep2 = ok_injective (sym parsed ∙ parsed2) in
      let positive = ltb→lt _ _ (require-eq-ok _ nothing_owed some_owed) in
      absurd (omega (arith, le_of_eq (rw same at zero)))

  -- After a claimBucket that went through, by a caller that is not the controller, a second claim
  -- of the same epoch text and bucket from the world it left, by whoever and at whatever height,
  -- fails.
  pub claim_bucket_once :
      (env env2 : Env) (epoch : List ℕ) (bucket : String) (w w' : World State Event L) (amt : ℤ)
      → env.self_addr ≢ env.caller
      → claim_bucket t env epoch bucket w ≡ ok (w', amt)
      → Aborts (claim_bucket t env2 epoch bucket w')
  claim_bucket_once env env2 epoch bucket w w' amt other e =
      Aborts-of_ne _ (claimed_again env env2 epoch bucket w w' amt other e)

  -- A claim keeps the controller solvent.
  pub claim_bucket-Solvent :
      (env : Env) (epoch : List ℕ) (bucket : String) (w w' : World State Event L) (amt : ℤ)
      → Solvent t env.self_addr w
      → claim_bucket t env epoch bucket w ≡ ok (w', amt)
      → Solvent t env.self_addr w'
  claim_bucket-Solvent env epoch bucket w w' amt v e =
      let target = claim_bucket-target env epoch bucket w w' amt e in
      let other : env.self_addr ≢ env.caller = λ h. v.targets_other bucket (target ∙ sym h) in
      let (ep, parsed, p, paid) = claim_bucket-Pays env epoch bucket w w' amt other e in
      subst (λ (s : State). SolventAt env.self_addr s (t.balance_of w'.ledger env.self_addr))
        (sym p.deleted) (pay-SolventAt env.self_addr w.state bucket ep _ _ v (rw (← p.whole) paid))
