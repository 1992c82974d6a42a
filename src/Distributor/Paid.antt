-- ===== src/Distributor/Paid.antt =====
-- What a claim that goes through does to the state and to the contract's balance.
use Prim.Native.String.{◌++◌}
use magi_tokenomics.Common.{
  ℕ, ◌≤◌, ℤ, pos, ◌+ℤ◌, ◌-ℤ◌, ◌*ℤ◌, ◌/ℤ◌, ◌<ℤ◌, ◌≤ℤ◌, int_laws, le_of_eq, IsNonneg, ltb_ℤ, true,
  false, ◌||◌, ◌≡◌, ◌≢◌, refl, ap, ◌∙◌, inl, inr, arith, String, List, string_eq, pair_eq, insert,
  ◌==◌, nat_beq, if◌then◌else◌, subst, Outcome, ok, require, abort_if, or_abort, ok_injective,
  >>=-elim, require-eq-ok, or_abort-eq-ok, abort_if-eq-ok, Bool-cases, share_within, rounds_to_zero,
  exceeds_funding, stake_refused,
}
use magi_tokenomics.Chain.{Env, World}
use magi_tokenomics.Adapter.{Token, Staker, transfer, approve}
use magi_tokenomics.Adapter.Laws.{transfer_pays, approve_moves_nothing}
use magi_tokenomics.Distributor.State.{State, Event, Key}
use magi_tokenomics.Distributor.Policy.{epoch_of, set_epoch}
use magi_tokenomics.Distributor.Claim.{staked_part, credit_stake, pay_out, settle}

staked_part_bounds :
    (s : State) (payout : ℤ)
    → s.staked_bps ≤ 10000
    → IsNonneg payout
    → IsNonneg (staked_part s payout) × (staked_part s payout ≤ℤ payout)
unfolding staked_part
staked_part_bounds s payout l n =
    elim (Bool-cases (s.stake_contract == "" || nat_beq s.staked_bps 0)) [
      | inl h ↦ rw h (omega arith, n)
      | inr h ↦ rw h (share_within payout s.staked_bps 10000 (omega arith) l n)
    ]

at_zero : (x : ℤ) → IsNonneg x → ltb_ℤ (pos 0) x ≡ false → x ≤ℤ pos 0
at_zero x n h = ground (arith, h)

is_positive : (x : ℤ) → ltb_ℤ (pos 0) x ≡ true → pos 0 <ℤ x
is_positive x h = ground (arith, h)

spends_nothing : (b x : ℤ) → IsNonneg x → x ≤ℤ pos 0 → b ≡ b -ℤ x
spends_nothing b x n z = omega (int_laws, n, z)

module _ {R : Type 0} (t : Token R) (staker : Staker R t.balance_of) where
  -- The state is as before and the balance falls by x.
  abbrev pub Spent : Env → ℤ → World State Event R → World State Event R → Type 0
  Spent env x w w' =
      (w'.state ≡ w.state)
      × (t.balance_of w'.ledger env.self_addr ≡ t.balance_of w.ledger env.self_addr -ℤ x)

  credit_stake-Spent :
      (env : Env) (acct : String) (x : ℤ) (w w' : World State Event R)
      → credit_stake t staker env acct x w ≡ ok w'
      → Spent env x w w'
  unfolding credit_stake
  credit_stake-Spent env acct x w w' e =
      >>=-elim (approve t w.state.kind env ("contract:" ++ w.state.stake_contract) x w) _ e
        (λ w1 approved e1.
          >>=-elim (or_abort (staker.stake_for env.self_addr acct x w1.ledger) stake_refused) _ e1
            (λ l staked e2.
              let (state, _, same) = approve_moves_nothing t w.state.kind env _ x w w1 approved in
              let debited = staker.stake_for_debits env.self_addr acct x w1.ledger l (
                or_abort-eq-ok (staker.stake_for env.self_addr acct x w1.ledger) stake_refused
                  staked) in
              subst (λ v. Spent env x w v) (ok_injective e2)
                (state, debited ∙ ap (λ b. b -ℤ x) (same env.self_addr))))

  when_positive-Spent :
      (env : Env) (x : ℤ) (w w' : World State Event R) (m : Outcome (World State Event R))
      → IsNonneg x
      → (pos 0 <ℤ x → m ≡ ok w' → Spent env x w w')
      → (if ltb_ℤ (pos 0) x then m else ok w) ≡ ok w'
      → Spent env x w w'
  when_positive-Spent env x w w' m n spends e = elim (Bool-cases (ltb_ℤ (pos 0) x)) [
    | inl h ↦ spends (is_positive x h) (rw h at e)
    | inr h ↦
        subst (λ v. Spent env x w v) (ok_injective (rw h at e))
          (refl, spends_nothing (t.balance_of w.ledger env.self_addr) x n (at_zero x n h))
  ]

  pay_out-Spent :
      (env : Env) (liquid staked : ℤ) (w w' : World State Event R)
      → IsNonneg liquid
      → IsNonneg staked
      → env.self_addr ≢ env.caller
      → pay_out t staker env liquid staked w ≡ ok w'
      → Spent env (liquid +ℤ staked) w w'
  unfolding pay_out
  pay_out-Spent env liquid staked w w' n m other e =
      >>=-elim
        (if ltb_ℤ (pos 0) liquid then transfer t w.state.kind env env.caller liquid w else ok w) _ e
        (λ w1 sent e1.
          let (state, debited) =
            when_positive-Spent env liquid w w1 _ n
              (λ p moved.
                let (kept, _, less) =
                  transfer_pays t w.state.kind env env.caller liquid w w1 moved p other in
                (kept, less))
              sent in
          let (state1, more) =
            when_positive-Spent env staked w1 w' _ m
              (λ _. credit_stake-Spent env env.caller staked w1 w') e1 in
          (state1 ∙ state, omega (int_laws, le_of_eq more, le_of_eq debited)))

-- The state after a claim was booked.
abbrev pub booked : Env → Key → ℤ → State → State
booked env k payout s =
    let e = epoch_of s k in
    record (set_epoch k (record e { paid = e.paid +ℤ payout }) s) {
      claimed = insert (k, env.caller) true s.claimed;
    }

module _ {R : Type 0} (t : Token R) (staker : Staker R t.balance_of) (garbled : String → ℤ)
    (sha256 : List ℕ → List ℕ) where
  -- A share of the epoch's funding left the contract and was booked.
  pub record Paid (env : Env) (k : Key) (share payout : ℤ) (w w' : World State Event R)
      : Type 0 where
    pub amount : payout ≡ (epoch_of w.state k).funded *ℤ share /ℤ (epoch_of w.state k).total_shares
    pub positive : pos 0 <ℤ payout
    pub within : (epoch_of w.state k).paid +ℤ payout ≤ℤ (epoch_of w.state k).funded
    pub state : w'.state ≡ booked env k payout w.state
    pub spent : t.balance_of w'.ledger env.self_addr ≡ t.balance_of w.ledger env.self_addr -ℤ payout

  pub settle-Paid :
      (env : Env) (k : Key) (share : ℤ) (w : World State Event R) (r : World State Event R × ℤ)
      → w.state.staked_bps ≤ 10000
      → env.self_addr ≢ env.caller
      → settle t staker garbled sha256 env k share w ≡ ok r
      → Paid env k share r.1 w r.0
  unfolding settle set_epoch
  settle-Paid env k share w r fits other e =
      let old = epoch_of w.state k in
      let payout = old.funded *ℤ share /ℤ old.total_shares in
      let staked = staked_part w.state payout in
      >>=-elim (require (ltb_ℤ (pos 0) payout) rounds_to_zero) _ e (λ _ some e1.
        >>=-elim (abort_if (ltb_ℤ old.funded (old.paid +ℤ payout)) exceeds_funding) _ e1
          (λ _ enough e2.
            >>=-elim
              (pay_out t staker env (payout -ℤ staked) staked
                (record w { state = booked env k payout w.state }))
              _ e2
              (λ w' sent e3.
                let positive =
                  is_positive payout (require-eq-ok (ltb_ℤ (pos 0) payout) rounds_to_zero some) in
                let (n, l) = staked_part_bounds w.state payout fits (omega (int_laws, positive)) in
                let (state, spent) =
                  pay_out-Spent t staker env (payout -ℤ staked) staked _ w' (omega (int_laws, l)) n
                    other sent in
                subst (λ (x : World State Event R × ℤ). Paid env k share x.1 w x.0)
                  (ok_injective e3)
                  (record {
                    amount = refl;
                    positive = positive;
                    within = is_enough old.funded (old.paid +ℤ payout) (
                        abort_if-eq-ok (ltb_ℤ old.funded (old.paid +ℤ payout)) exceeds_funding
                          enough);
                    state = state;
                    spent = omega (int_laws, le_of_eq spent);
                  }))))
    where
      is_enough : (a b : ℤ) → ltb_ℤ a b ≡ false → b ≤ℤ a
      is_enough a b h = ground (arith, h)
