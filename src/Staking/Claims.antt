-- ===== src/Staking/Claims.antt =====
-- What `claimUnstaked` pays and what it leaves.
use magi_tokenomics.Common.{
  ℕ, ℤ, pos, ◌+ℤ◌, ◌-ℤ◌, ◌≤ℤ◌, ltb_ℤ, int_laws, le_of_eq, ◌≡◌, ◌≢◌, refl, sym, ◌∙◌, ap, ◌⊎◌, inl,
  inr, arith, Bool-cases, none, String, string_eq, nat_eq, pair_eq, get, insert, sum_by, ok,
  ok_pair, >>=-eq-ok,
}
use magi_tokenomics.Chain.{Env, World}
use magi_tokenomics.Adapter.{Token, transfer}
use magi_tokenomics.Adapter.Laws.{transfer_pays}
use magi_tokenomics.Staking.State.{State, Event, ticket_owed}
use magi_tokenomics.Staking.Entrypoints.{Taking, taken, pay_taken, claim_unstaked}
use magi_tokenomics.Staking.Taking.{ticket, AllTicketsNonneg, Takes, take_matured-Takes, IsMatured}
use magi_tokenomics.Staking.Entered.{claim_unstaked-eq-ok}
use magi_tokenomics.Staking.Custody.{CustodyAt, Custody}

abbrev pub untaken : Env → State → Taking
untaken env s = record {
  queue = s.queue;
  head = get 0 env.caller s.us_head;
  paid = pos 0;
  entries = 0;
}

pub taken-Takes :
    (env : Env) (s : State)
    → AllTicketsNonneg s.queue
    → Takes env.height env.caller (untaken env s) (taken env s)
unfolding taken
taken-Takes env s n =
    take_matured-Takes 20 env.height env.caller (get 0 env.caller s.us_tail) (untaken env s) n

-- The state that a claim leaves.
abbrev pub after_claim : Env → State → State
after_claim env s = record s {
  queue = (taken env s).queue;
  us_head = insert env.caller (taken env s).head s.us_head;
  unstake_outstanding = s.unstake_outstanding -ℤ (taken env s).paid;
}

after_claim-CustodyAt :
    (env : Env) (s : State) (held : ℤ)
    → CustodyAt s held
    → CustodyAt (after_claim env s) (held -ℤ (taken env s).paid)
after_claim-CustodyAt env s held v =
    let k = taken-Takes env s v.tickets in
    record {
      covered = omega (int_laws, v.covered);
      queued = omega (int_laws, le_of_eq k.conserved, le_of_eq v.queued);
      tickets = λ c i. elim (k.slots c i) [
        | inl same ↦ rw same (v.tickets c i)
        | inr (gone, _) ↦ rw gone (omega arith)
      ];
      free = λ c i h. elim (k.slots c i) [ inl same ↦ same ∙ v.free c i h | inr (gone, _) ↦ gone ];
      stakes = v.stakes;
    }

module _ {L : Type 0} (t : Token L) where
  -- What a claim that goes through does to the state and to the contract's balance.
  pub pay_taken_lem :
      (env : Env) (w w' : World State Event L) (paid : ℤ)
      → env.self_addr ≢ env.caller
      → AllTicketsNonneg w.state.queue
      → pay_taken t env (taken env w.state) w ≡ ok (w', paid)
      → (paid ≡ (taken env w.state).paid)
        × (w'.state ≡ after_claim env w.state)
        × (t.balance_of w'.ledger env.self_addr ≡ t.balance_of w.ledger env.self_addr -ℤ paid)
  unfolding pay_taken
  pay_taken_lem env w w' paid ne n e =
      let k = taken env w.state in
      let grown : pos 0 ≤ℤ k.paid = (taken-Takes env w.state n).grows in
      elim (Bool-cases (ltb_ℤ (pos 0) k.paid)) [
        | inl more ↦
            let s = record w.state {
              queue = k.queue;
              us_head = insert env.caller k.head w.state.us_head;
            } in
            let (w1, e1, e2) =
              >>=-eq-ok
                (transfer t s.kind env env.caller k.paid (record w {
                  state = record s { unstake_outstanding = s.unstake_outstanding -ℤ k.paid };
                }))
                _ (rw more at e) in
            let (done, amount) = ok_pair e2 in
            let (same, _, debited) =
              transfer_pays t s.kind env env.caller k.paid _ w1 e1 (ground arith) ne in
            (
              sym amount,
              (λ i. (sym done i).state) ∙ same,
              (λ i. t.balance_of (sym done i).ledger env.self_addr)
                  ∙ debited
                  ∙ ap (λ x. t.balance_of w.ledger env.self_addr -ℤ x) amount,
            )
        | inr zero_paid ↦
            let (done, amount) = ok_pair (rw zero_paid at e) in
            let nothing : k.paid ≡ pos 0 = grind int_laws in
            let keeps : (x : ℤ) → x ≡ x -ℤ k.paid = λ x. omega (int_laws, le_of_eq nothing) in
            let s = record w.state {
              queue = k.queue;
              us_head = insert env.caller k.head w.state.us_head;
            } in
            (
              sym amount,
              (λ i. (sym done i).state)
                  ∙ ap (λ x. record s { unstake_outstanding = x })
                      (keeps w.state.unstake_outstanding),
              (λ i. t.balance_of (sym done i).ledger env.self_addr)
                  ∙ keeps (t.balance_of w.ledger env.self_addr)
                  ∙ ap (λ x. t.balance_of w.ledger env.self_addr -ℤ x) amount,
            )
      ]

  pub pay_taken-Custody :
      (env : Env) (w w' : World State Event L) (paid : ℤ)
      → env.self_addr ≢ env.caller
      → Custody t env.self_addr w
      → pay_taken t env (taken env w.state) w ≡ ok (w', paid)
      → Custody t env.self_addr w'
  pay_taken-Custody env w w' paid ne v e =
      let (amount, state, balance) = pay_taken_lem env w w' paid ne v.tickets e in
      rw (state, balance, amount)
        (after_claim-CustodyAt env w.state (t.balance_of w.ledger env.self_addr) v)

-- A claim that goes through, with what it paid.
pub record PaysMatured (env : Env) (s s' : State) (before after paid : ℤ) : Type 0 where
  pub released : sum_by ticket_owed s'.queue +ℤ paid ≡ sum_by ticket_owed s.queue
  pub owed : s'.unstake_outstanding ≡ s.unstake_outstanding -ℤ paid
  pub debited : after ≡ before -ℤ paid
  pub slots :
      (c : String) (i : ℕ)
      → (ticket s'.queue c i ≡ ticket s.queue c i)
        ⊎ ((ticket s'.queue c i ≡ none) × IsMatured s.queue env.caller env.height c i)
  pub stake : s'.stake ≡ s.stake
  pub total_staked : s'.total_staked ≡ s.total_staked

module _ {L : Type 0} (t : Token L) where
  -- A claimUnstaked that goes through, by a caller that is not the contract, in a state where no
  -- queued amount is negative, empties only slots of the caller's queue that held a matured
  -- entry, leaves every other slot and the stakes alone, and lowers the contract's balance, the
  -- queue's sum and the outstanding amount each by exactly what it reports as paid.
  pub claim_unstaked-PaysMatured :
      (env : Env) (w w' : World State Event L) (paid : ℤ)
      → env.self_addr ≢ env.caller
      → AllTicketsNonneg w.state.queue
      → claim_unstaked t env w ≡ ok (w', paid)
      → PaysMatured env w.state w'.state
          (t.balance_of w.ledger env.self_addr)
          (t.balance_of w'.ledger env.self_addr)
          paid
  claim_unstaked-PaysMatured env w w' paid ne n e =
      let k = taken-Takes env w.state n in
      let (amount, state, balance) =
        pay_taken_lem t env w w' paid ne n (claim_unstaked-eq-ok t env w w' paid e) in
      rw (state, balance, amount)
        (record {
          released = omega (int_laws, le_of_eq k.conserved);
          owed = refl;
          debited = refl;
          slots = k.slots;
          stake = refl;
          total_staked = refl;
        })
