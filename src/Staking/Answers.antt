-- ===== src/Staking/Answers.antt =====
-- What the staking contract answers about a height, now and after later transactions.
use magi_tokenomics.Common.{
  ℕ, ◌≤◌, ◌<◌, ℤ, pos, ◌≡◌, refl, sym, ◌∙◌, ap, arith, inl, inr, List, [], String, get-insert-cases,
  string_eq, ok, sum_by, get_big, length, or_abort, out_of_fuel,
}
use magi_tokenomics.Chain.{Env, World}
use magi_tokenomics.Adapter.{Token}
use magi_tokenomics.Staking.State.{State, Event, via_stake, via_stake_for}
use magi_tokenomics.Staking.Checkpoints.{Ckpt, value_at, append_entry}
use magi_tokenomics.Staking.Search.{IsSorted, search_val-value_at}
use magi_tokenomics.Staking.Histories.{AllUntil, value_after-append_entry}
use magi_tokenomics.Staking.Credit.{hist_of, hist_at, ckpt_at, entries_at}
use magi_tokenomics.Staking.Books.{Books, Books-later, SetStake}
use magi_tokenomics.Staking.Custody.{credit_for-SetStake}
use magi_tokenomics.Staking.Leaving.{enqueue-Enqueued}
use magi_tokenomics.Staking.Claims.{pay_taken_lem}
use magi_tokenomics.Staking.Entered.{
  stake-eq-ok, stake_for-eq-ok, unstake-eq-ok, claim_unstaked-eq-ok,
}
use magi_tokenomics.Staking.Reachable.{
  Step, stakes, stakes_for, unstakes, claims, elsewhere, Reachable, Reachable-Books,
  Reachable-Custody,
}

pub entries_at-value_at :
    (es : List Ckpt) (h : ℕ)
    → IsSorted es
    → length es < 9223372036854775808
    → entries_at es h ≡ ok (value_at h es)
unfolding entries_at
entries_at-value_at es h s n = ap (λ x. or_abort x out_of_fuel) (search_val-value_at es h s n)

append_entry-past :
    (k h : ℕ) (v : ℤ) (es : List Ckpt)
    → k < h
    → AllUntil h es
    → value_at k (append_entry h v es) ≡ value_at k es
append_entry-past k h v es l a = ground (arith, value_after-append_entry (pos 0) k h v es a)

-- The values at a height, in all histories.
pub record SameAt (k : ℕ) (s s' : State) : Type 0 where
  pub account : (c : String) → value_at k (hist_of s' c) ≡ value_at k (hist_of s c)
  pub total : value_at k s'.ckpts ≡ value_at k s.ckpts

SetStake-SameAt :
    (k : ℕ) (env : Env) (acct : String) (new total : ℤ) (s s' : State)
    → k < env.height
    → Books env.height s
    → SetStake env acct new total s s'
    → SameAt k s s'
unfolding hist_of
SetStake-SameAt k env acct new total s s' l b r = record {
  account = λ c.
      rw r.hist
        (elim (get-insert-cases [] c acct (append_entry env.height new (hist_of s acct)) s.hist) [
          | inl (changed, mine) ↦
              ap (value_at k) changed
              ∙ append_entry-past k env.height new (hist_of s acct) l (b.account acct).until
              ∙ ap (λ x. value_at k (hist_of s x)) (sym mine)
          | inr (kept, _) ↦ ap (value_at k) kept
        ]);
  total = rw r.ckpts (append_entry-past k env.height total s.ckpts l b.global.until);
}

module _ {L : Type 0} (t : Token L) (self : String) where
  -- For a staking contract that began with no stake, no queue and no history and with a balance
  -- that is not negative, and whose calls since were stake, stakeFor, unstake and claimUnstaked
  -- calls only (no airdrop of stake among them), made in any order at heights that never fall,
  -- beside ledger changes by others that do not lower its balance, where the contract was never
  -- its own claimant and each unstaking account had unstaked fewer than 2^64 - 1 times, one more
  -- stake, stakeFor, unstake or claimUnstaked call that goes through, or ledger change by others,
  -- under the same conditions and at a height not before the last one, leaves the stake of every
  -- account and the total, as the histories record them for any earlier height than its own, as
  -- they were.
  pub Step-SameAt :
      (now h k : ℕ) (w w' : World State Event L)
      → Reachable t self now w
      → now ≤ h
      → k < h
      → Step t self h w w'
      → SameAt k w.state w'.state
  unfolding hist_of
  Step-SameAt now h k w w' r l early (stakes env amt here at e) =
      SetStake-SameAt k env env.caller _ _ w.state w'.state (rw at early)
        (rw at (Books-later now h w.state l (Reachable-Books t self now w r)))
        (credit_for-SetStake t env env.caller env.caller amt via_stake w w'
          (stake-eq-ok t env w w' amt e))
  Step-SameAt now h k w w' r l early (stakes_for env acct amt here at e) =
      SetStake-SameAt k env acct _ _ w.state w'.state (rw at early)
        (rw at (Books-later now h w.state l (Reachable-Books t self now w r)))
        (credit_for-SetStake t env env.caller acct amt via_stake_for w w'
          (stake_for-eq-ok t env w w' acct amt e))
  Step-SameAt now h k w w' r l early (unstakes env amt here at room e) =
      let (_, _, e1) = unstake-eq-ok t env w w' amt e in
      let ((m, q), _) = enqueue-Enqueued t env amt w w' e1 in
      let same =
        SetStake-SameAt k env env.caller _ _ w.state m (rw at early)
          (rw at (Books-later now h w.state l (Reachable-Books t self now w r))) q.set in
      rw q.entered (record { account = same.account; total = same.total })
  Step-SameAt now h k w w' r l early (claims env paid here at other e) =
      let v = Reachable-Custody t self now w r in
      let (_, state, _) =
        pay_taken_lem t env w w' paid other v.tickets (claim_unstaked-eq-ok t env w w' paid e) in
      rw state (record { account = λ c. refl; total = refl })
  Step-SameAt now h k w w' r l early (elsewhere same more) =
      rw same (record { account = λ c. refl; total = refl })

  -- For a staking contract that began with no stake, no queue and no history and with a balance
  -- that is not negative, and whose calls since were stake, stakeFor, unstake and claimUnstaked
  -- calls only (no airdrop of stake among them), made in any order at heights that never fall,
  -- beside ledger changes by others that do not lower its balance, where the contract was never
  -- its own claimant and each unstaking account had unstaked fewer than 2^64 - 1 times, and which
  -- has written fewer than 2^63 checkpoints, the total that the binary search answers for any
  -- height, past or future, is the sum over all accounts of the stake that their histories record
  -- for that height.
  pub ckpt_at-sum :
      (now h : ℕ) (w : World State Event L)
      → Reachable t self now w
      → length w.state.ckpts < 9223372036854775808
      → ckpt_at w.state h ≡ ok (sum_by (value_at h) w.state.hist)
  unfolding ckpt_at
  ckpt_at-sum now h w r n =
      let b = Reachable-Books t self now w r in
      entries_at-value_at w.state.ckpts h b.global.sorted n ∙ ap ok (sym (b.agree h))

  -- For a staking contract that began with no stake, no queue and no history and with a balance
  -- that is not negative, and whose calls since were stake, stakeFor, unstake and claimUnstaked
  -- calls only (no airdrop of stake among them), made in any order at heights that never fall,
  -- beside ledger changes by others that do not lower its balance, where the contract was never
  -- its own claimant and each unstaking account had unstaked fewer than 2^64 - 1 times, the stake
  -- that the binary search answers for an account with fewer than 2^63 history entries at any
  -- height from that of the last call or ledger change on is the account's present stake.
  pub hist_at-stake :
      (now h : ℕ) (c : String) (w : World State Event L)
      → Reachable t self now w
      → now ≤ h
      → length (hist_of w.state c) < 9223372036854775808
      → hist_at w.state c h ≡ ok (get_big c w.state.stake)
  unfolding hist_at
  hist_at-stake now h c w r l n =
      let f = (Reachable-Books t self now w r).account c in
      entries_at-value_at (hist_of w.state c) h f.sorted n ∙ ap ok (f.latest h l)
