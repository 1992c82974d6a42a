-- ===== src/Staking/Leaving.antt =====
-- What `unstake` moves from the stakes into the queue.
use magi_tokenomics.Common.{
  ℕ, ◌+◌, ◌≤◌, ◌<◌, ℤ, pos, ◌+ℤ◌, ◌-ℤ◌, ◌≤ℤ◌, ◌<ℤ◌, int_laws, le_of_eq, IsNonneg, ◌≡◌, refl, Map,
  sym, ◌∙◌, ap, inl, inr, arith, none, some, String, string_eq, nat_eq, pair_eq, get, get_big,
  insert, get-insert-cases, sum_by, sum_by-insert, AllNonneg-insert, ok, ok_injective, >>=-eq-ok,
}
use magi_tokenomics.Chain.{Env, World, add64}
use magi_tokenomics.Adapter.{Token}
use magi_tokenomics.Staking.State.{State, Event, Ticket, ticket_owed}
use magi_tokenomics.Staking.Credit.{set_stake, hist_of}
use magi_tokenomics.Staking.Books.{Books, SetStake, set_stake-SetStake, SetStake-Books}
use magi_tokenomics.Staking.Entrypoints.{enqueue}
use magi_tokenomics.Staking.Taking.{Queue, ticket, AllTicketsNonneg}
use magi_tokenomics.Staking.Custody.{CustodyAt}

-- What `enqueue` leaves behind.
pub record Enqueued (env : Env) (amt : ℤ) (s m s' : State) : Type 0 where
  pub set : SetStake env env.caller (get_big env.caller s.stake -ℤ amt) (s.total_staked -ℤ amt) s m
  pub entered : s' ≡ record m {
    unstake_outstanding = m.unstake_outstanding +ℤ amt;
    queue =
        insert
          (env.caller, get 0 env.caller s.us_tail)
          (some (record { owed = amt; ready = add64 env.height s.cooldown }))
          m.queue;
    us_tail = insert env.caller (add64 (get 0 env.caller s.us_tail) 1) m.us_tail;
  }

pub enqueue-Enqueued :
    {L : Type 0} (t : Token L) (env : Env) (amt : ℤ) (w w' : World State Event L)
    → enqueue t env amt w ≡ ok w'
    → ((m : State) × Enqueued env amt w.state m w'.state) × (w'.ledger ≡ w.ledger)
unfolding enqueue
enqueue-Enqueued t env amt w w' e =
    let c = env.caller in
    let new = get_big c w.state.stake -ℤ amt in
    let total = w.state.total_staked -ℤ amt in
    let (d, e1, e2) = >>=-eq-ok (set_stake env c new total w.state w.log) _ e in
    let done = ok_injective e2 in
    (
      (
        d.0,
        record {
          set = set_stake-SetStake env c new total w.state w.log d e1;
          entered = λ i. (sym done i).state;
        },
      ),
      λ i. (sym done i).ledger,
    )

pub Enqueued-Books :
    (env : Env) (amt : ℤ) (s m s' : State)
    → Enqueued env amt s m s'
    → Books env.height s
    → Books env.height s'
unfolding hist_of
Enqueued-Books env amt s m s' q b =
    let v = SetStake-Books env env.caller _ _ s m (omega int_laws) q.set b in
    rw q.entered
      (record { account = v.account; global = v.global; agree = v.agree; stakes = v.stakes })

-- The queue's tail can still be counted up.
abbrev pub HasRoom : State → String → Type 0
HasRoom s c = get 0 c s.us_tail < 18446744073709551615

add64-suc : (n : ℕ) → n < 18446744073709551615 → add64 n 1 ≡ n + 1
unfolding add64
add64-suc n h = omega arith

-- A ticket that enters at the tail of its account's queue.
module _ (q : Queue) (tails : Map String ℕ) (acct : String) (k : Ticket) where
  abbrev Free : Queue → Map String ℕ → Type 0
  Free p ts = (c : String) (i : ℕ) → get 0 c ts ≤ i → ticket p c i ≡ none

  abbrev at_tail : Queue
  at_tail = insert (acct, get 0 acct tails) (some k) q

  at_tail-sum : Free q tails → sum_by ticket_owed at_tail ≡ sum_by ticket_owed q +ℤ k.owed
  at_tail-sum free = omega (
    int_laws,
    le_of_eq (sum_by-insert ticket_owed none (acct, get 0 acct tails) (some k) q refl),
    le_of_eq (ap ticket_owed (free acct (get 0 acct tails) (omega arith))),
  )

  at_tail-nonneg : IsNonneg k.owed → AllTicketsNonneg q → AllTicketsNonneg at_tail
  at_tail-nonneg p n c i = elim (get-insert-cases none (c, i) (acct, get 0 acct tails) (some k) q) [
    | inl (new, at) ↦ rw new p
    | inr (same, other) ↦ rw same (n c i)
  ]

  at_tail-Free :
      Free q tails
      → get 0 acct tails < 18446744073709551615
      → Free at_tail (insert acct (add64 (get 0 acct tails) 1) tails)
  at_tail-Free free room c i h =
      elim (get-insert-cases 0 c acct (add64 (get 0 acct tails) 1) tails) [
        | inl (moved, mine) ↦
            let same_tail = ap (λ x. get 0 x tails) mine in
            let behind = rw (moved, add64-suc (get 0 acct tails) room) at h in
            elim (get-insert-cases none (c, i) (acct, get 0 acct tails) (some k) q) [
              | inl (new, at) ↦ absurd (omega (arith, behind, ap (λ (x : String × ℕ). x.1) at))
              | inr (same, other) ↦ same ∙ free c i (omega arith)
            ]
        | inr (kept, theirs) ↦
            elim (get-insert-cases none (c, i) (acct, get 0 acct tails) (some k) q) [
              | inl (new, at) ↦ absurd (theirs (ap (λ (x : String × ℕ). x.0) at))
              | inr (same, other) ↦ same ∙ free c i (rw kept at h)
            ]
      ]

pub Enqueued-Custody :
    (env : Env) (amt held : ℤ) (s m s' : State)
    → HasRoom s env.caller
    → pos 0 <ℤ amt
    → amt ≤ℤ get_big env.caller s.stake
    → Enqueued env amt s m s'
    → CustodyAt s held
    → CustodyAt s' held
Enqueued-Custody env amt held s m s' room p enough q v =
    let r = q.set in
    let k : Ticket = record { owed = amt; ready = add64 env.height s.cooldown } in
    rw q.entered (record {
      covered = rw (r.total_staked, r.unstake_outstanding) (omega (int_laws, v.covered));
      queued =
          rw (r.queue, r.unstake_outstanding)
            (at_tail-sum s.queue s.us_tail env.caller k v.free ∙ ap (λ x. x +ℤ amt) v.queued);
      tickets =
          rw r.queue (at_tail-nonneg s.queue s.us_tail env.caller k (omega (arith, p)) v.tickets);
      free = rw (r.queue, r.us_tail) (at_tail-Free s.queue s.us_tail env.caller k v.free room);
      stakes = rw r.stake (AllNonneg-insert env.caller _ s.stake (omega int_laws) v.stakes);
    })
