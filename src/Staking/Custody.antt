-- ===== src/Staking/Custody.antt =====
-- What the staking contract holds against what is staked and on its way out, over a credit.
use magi_tokenomics.Common.{
  ℕ, ◌≤◌, ℤ, pos, ◌+ℤ◌, ◌≤ℤ◌, ◌<ℤ◌, int_laws, ◌≡◌, refl, subst, none, String, string_eq, nat_eq,
  pair_eq, get, get_big, sum_by, AllNonneg, AllNonneg-insert, AllNonneg-get, ok, ok_injective,
  >>=-eq-ok,
}
use magi_tokenomics.Chain.{Env, World}
use magi_tokenomics.Adapter.{Token, pull_from}
use magi_tokenomics.Adapter.Laws.{pull_from_credits}
use magi_tokenomics.Staking.State.{State, Event, ticket_owed, Via}
use magi_tokenomics.Staking.Credit.{set_stake, apply_credit}
use magi_tokenomics.Staking.Books.{Books, SetStake, set_stake-SetStake, SetStake-Books}
use magi_tokenomics.Staking.Entrypoints.{credit_for}
use magi_tokenomics.Staking.Taking.{ticket, AllTicketsNonneg}

pub record CustodyAt (s : State) (held : ℤ) : Type 0 where
  pub covered : s.total_staked +ℤ s.unstake_outstanding ≤ℤ held
  pub queued : sum_by ticket_owed s.queue ≡ s.unstake_outstanding
  pub tickets : AllTicketsNonneg s.queue
  -- Nothing stands at or behind a queue's tail.
  pub free : (c : String) (i : ℕ) → get 0 c s.us_tail ≤ i → ticket s.queue c i ≡ none
  pub stakes : AllNonneg s.stake

module _ {L : Type 0} (t : Token L) where
  abbrev pub Custody : String → World State Event L → Type 0
  Custody self w = CustodyAt w.state (t.balance_of w.ledger self)

-- A credit to `acct` in a state that custody of `held` covers.
pub credited-CustodyAt :
    (env : Env) (acct : String) (amt held : ℤ) (s s' : State)
    → pos 0 <ℤ amt
    → SetStake env acct (get_big acct s.stake +ℤ amt) (s.total_staked +ℤ amt) s s'
    → CustodyAt s held
    → CustodyAt s' (held +ℤ amt)
credited-CustodyAt env acct amt held s s' p r v = record {
  covered = rw (r.total_staked, r.unstake_outstanding) (omega (int_laws, v.covered));
  queued = rw (r.queue, r.unstake_outstanding) v.queued;
  tickets = rw r.queue v.tickets;
  free = rw (r.queue, r.us_tail) v.free;
  stakes = rw r.stake (
      AllNonneg-insert acct _ s.stake (omega (int_laws, AllNonneg-get acct s.stake v.stakes))
        v.stakes);
}

pub apply_credit-SetStake :
    {L : Type 0} (env : Env) (acct : String) (amt : ℤ) (via : Via) (w w' : World State Event L)
    → apply_credit env acct amt via w ≡ ok w'
    → SetStake env acct
        (get_big acct w.state.stake +ℤ amt)
        (w.state.total_staked +ℤ amt)
        w.state
        w'.state
      × (w'.ledger ≡ w.ledger)
unfolding apply_credit
apply_credit-SetStake env acct amt via w w' e =
    let new = get_big acct w.state.stake +ℤ amt in
    let total = w.state.total_staked +ℤ amt in
    let (d, e1, e2) = >>=-eq-ok (set_stake env acct new total w.state w.log) _ e in
    subst
      (λ (a : World State Event _).
        SetStake env acct new total w.state a.state × (a.ledger ≡ w.ledger))
      (ok_injective e2) (set_stake-SetStake env acct new total w.state w.log d e1, refl)

module _ {L : Type 0} (t : Token L) where
  -- Every credit is of a positive amount, which the contract has received.
  pub credit_for-Custody :
      (env : Env) (from acct : String) (amt : ℤ) (via : Via) (w w' : World State Event L)
      → Custody t env.self_addr w
      → credit_for t env from acct amt via w ≡ ok w'
      → Custody t env.self_addr w'
  unfolding credit_for
  credit_for-Custody env from acct amt via w w' v e =
      let (w1, e1, e2) = >>=-eq-ok (pull_from t w.state.kind env from amt w) _ e in
      let (p, same, _, paid) = pull_from_credits t w.state.kind env from amt w w1 e1 in
      let (r, kept) = apply_credit-SetStake env acct amt via w1 w' e2 in
      rw (kept, paid)
        (credited-CustodyAt env acct amt (t.balance_of w.ledger env.self_addr) w1.state w'.state p r
          (rw same v))

  pub credit_for-SetStake :
      (env : Env) (from acct : String) (amt : ℤ) (via : Via) (w w' : World State Event L)
      → credit_for t env from acct amt via w ≡ ok w'
      → SetStake env acct
          (get_big acct w.state.stake +ℤ amt)
          (w.state.total_staked +ℤ amt)
          w.state
          w'.state
  unfolding credit_for
  credit_for-SetStake env from acct amt via w w' e =
      let (w1, e1, e2) = >>=-eq-ok (pull_from t w.state.kind env from amt w) _ e in
      let (p, same, _, paid) = pull_from_credits t w.state.kind env from amt w w1 e1 in
      rw (← same) (apply_credit-SetStake env acct amt via w1 w' e2).0

  pub credit_for-Books :
      (env : Env) (from acct : String) (amt : ℤ) (via : Via) (w w' : World State Event L)
      → Books env.height w.state
      → credit_for t env from acct amt via w ≡ ok w'
      → Books env.height w'.state
  credit_for-Books env from acct amt via w w' b e =
      SetStake-Books env acct _ _ w.state w'.state (omega int_laws)
        (credit_for-SetStake env from acct amt via w w' e) b
