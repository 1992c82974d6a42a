-- ===== src/Staking/Epochs.antt =====
-- `epochBounds` and `minStakeSumAt`: an epoch's first and last block, and its exact denominator.
use magi_tokenomics.Common.{
  ℕ, ◌+◌, ◌-◌, ◌*◌, ◌/◌, ◌≤◌, ◌<◌, ℤ, pos, ◌-ℤ◌, ltb_ℤ, ◌≡◌, ◌||◌, false, arith, ltb, nat_beq, none,
  some, nat_eq, get_big, if◌then◌else◌, Outcome, ok, abort_if, require, ok_pair, >>=-eq-ok,
  abort_if-eq-ok, ◌>>=◌, ◌>>◌, no_schedule, epoch_out_of_range, not_elapsed, mul_le_left,
}
use native.Mathlib.Nat.{div-mul-le_self}
use magi_tokenomics.Chain.{Env, add64, sub64, mul64}
use magi_tokenomics.Staking.State.{State}
use magi_tokenomics.Staking.Credit.{ckpt_at}

abbrev genesis_of : State → ℕ
genesis_of s = elim s.genesis [ none ↦ 0 | some g ↦ g ]

unfoldable pub bounds_of : ℕ → ℕ → ℕ → Outcome (ℕ × ℕ)
bounds_of g el ep = do
  abort_if (nat_beq el 0) no_schedule
  abort_if (ltb (add64 ep 1) ep || ltb ((18446744073709551615 - g) / el) (add64 ep 1))
      epoch_out_of_range
  ok (add64 g (mul64 ep el), sub64 (add64 g (mul64 (add64 ep 1) el)) 1)

unfoldable pub epoch_bounds : State → ℕ → Outcome (ℕ × ℕ)
unfolding bounds_of
epoch_bounds s ep = bounds_of (genesis_of s) s.epoch_len ep

unfoldable pub min_stake_sum_at : Env → State → ℕ → Outcome ℤ
unfolding epoch_bounds ckpt_at
min_stake_sum_at env s ep = do
  b ← epoch_bounds s ep
  require (ltb b.1 env.height) not_elapsed
  total ← ckpt_at s b.0
  let v = total -ℤ get_big ep s.drawdowns
  ok (if ltb_ℤ v (pos 0) then pos 0 else v)

add64-next : (n : ℕ) → n < 18446744073709551616 → n ≤ add64 n 1 → add64 n 1 ≡ n + 1
unfolding add64
add64-next n h k = omega arith

product_fits : (n el m : ℕ) → n ≤ m / el → n * el ≤ m
product_fits n el m h = omega (arith, mul_le_left el n (m / el) h, div-mul-le_self m el)

-- Sums and products that fit do not wrap.
exact_bounds :
    (g el ep : ℕ)
    → g < 18446744073709551616
    → 0 < el
    → (ep + 1) * el ≤ 18446744073709551615 - g
    → (add64 g (mul64 ep el) ≡ g + ep * el)
      × (sub64 (add64 g (mul64 (ep + 1) el)) 1 + 1 ≡ add64 g (mul64 ep el) + el)
      × (add64 g (mul64 ep el) ≤ sub64 (add64 g (mul64 (ep + 1) el)) 1)
      × (sub64 (add64 g (mul64 (ep + 1) el)) 1 < 18446744073709551616)
unfolding add64 mul64 sub64
exact_bounds g el ep hg hel h = (omega arith, omega arith, omega arith, omega arith)

-- For a genesis and an epoch index that are 64-bit numbers and any epoch length, bounds that are
-- given are the exact first and last block of the epoch: the first is genesis plus index times
-- length, the last the one before the next epoch begins, not before the first and below 2^64, so
-- that no sum or product has wrapped.
pub bounds_of-exact :
    (g el ep first last : ℕ)
    → g < 18446744073709551616
    → ep < 18446744073709551616
    → bounds_of g el ep ≡ ok (first, last)
    → (first ≡ g + ep * el)
      × (last + 1 ≡ first + el)
      × (first ≤ last)
      × (last < 18446744073709551616)
unfolding bounds_of
bounds_of-exact g el ep first last hg hep e =
    let (_, a, e1) = >>=-eq-ok (abort_if (nat_beq el 0) no_schedule) _ e in
    let nonzero = abort_if-eq-ok (nat_beq el 0) no_schedule a in
    let (_, b, e2) =
      >>=-eq-ok
        (abort_if (ltb (add64 ep 1) ep || ltb ((18446744073709551615 - g) / el) (add64 ep 1))
          epoch_out_of_range)
        _ e1 in
    let within =
      abort_if-eq-ok (ltb (add64 ep 1) ep || ltb ((18446744073709551615 - g) / el) (add64 ep 1))
        epoch_out_of_range b in
    let (p, q) = ok_pair e2 in
    let next = add64-next ep hep (ground arith) in
    let fits =
      product_fits (ep + 1) el (18446744073709551615 - g) (rw next at (not_above within)) in
    let r = exact_bounds g el ep hg (ground arith) fits in rw (← p, ← q, next) r
  where
    not_above :
        ltb (add64 ep 1) ep || ltb ((18446744073709551615 - g) / el) (add64 ep 1) ≡ false
        → add64 ep 1 ≤ (18446744073709551615 - g) / el
    not_above h = ground arith
