-- ===== src/Sharecore/Roots.antt =====
-- The root's loops end, at the integer part of the root.
use magi_tokenomics.Common.{
  ℕ, zero, suc, ◌+◌, ◌-◌, ◌*◌, ◌/◌, ◌≤◌, ◌<◌, ◌≡◌, refl, ◌∙◌, inl, inr, arith, subst, Bool, true,
  false, Option, some, leb, nat_beq, if◌then◌else◌, Bool-cases,
}
use magi_tokenomics.Sharecore.Curve.{
  pow, newton, step_down, step_up, first_guess, refine, int_nth_root, pow_rational,
}

pow-pos : (b n : ℕ) → 0 < b → 0 < pow b n
unfolding pow
pow-pos b zero h = omega arith
pow-pos b (suc n) h = grind (arith, pow-pos b n h)

le-pow : (b n : ℕ) → b ≤ pow b (suc n)
unfolding pow
le-pow zero n = omega arith
le-pow (suc b) n = grind (arith, pow-pos (suc b) n (omega arith))

-- A loop that returns.
abbrev pub Returns : Option ℕ → (ℕ → Type 0) → Type 0
Returns o holds = (r : ℕ) × (o ≡ some r) × holds r

by_test :
    (b : Bool) (o p : Option ℕ) (holds : ℕ → Type 0)
    → (b ≡ true → Returns o holds)
    → (b ≡ false → Returns p holds)
    → Returns (elim b [ true ↦ o | false ↦ p ]) holds
by_test true o p holds f g = f refl
by_test false o p holds f g = g refl

zero_pow : (n : ℕ) → pow 0 (suc n) ≡ 0
unfolding pow
zero_pow n = omega arith

pow_one : (b : ℕ) → pow b 1 ≡ b
unfolding pow
pow_one b = omega arith

pred_suc : (g : ℕ) → g ≡ suc g - 1
pred_suc g = omega arith

newton-Returns : (fuel n x g : ℕ) → g < fuel → Returns (newton fuel n x g) (λ r. Unit)
unfolding newton
newton-Returns zero n x g l = absurd (omega (arith, l))
newton-Returns (suc fuel) n x g l =
    let power = pow g (n - 1) in
    let next = (x / power + (n - 1) * g) / n in
    by_test (nat_beq power 0) _ _ _ (λ _. (g, refl, tt))
      (λ _.
        by_test (leb g next) _ _ _ (λ _. (g, refl, tt))
          (λ falls. newton-Returns fuel n x next (lower next falls)))
  where
    lower : (next : ℕ) → leb g next ≡ false → next < fuel
    lower next falls = ground (arith, falls, l)

at_most : (a x : ℕ) → leb a x ≡ true → a ≤ x
at_most a x h = ground (arith, h)

beyond : (a x : ℕ) → leb a x ≡ false → x < a
beyond a x h = ground (arith, h)

step_down-Returns :
    (fuel n x g : ℕ) → g < fuel → Returns (step_down fuel (suc n) x g) (λ r. pow r (suc n) ≤ x)
unfolding step_down
step_down-Returns zero n x g l = absurd (omega (arith, l))
step_down-Returns (suc fuel) n x zero l =
    by_test (leb (pow 0 (suc n)) x) _ _ _ (λ h. (0, refl, at_most _ x h))
      (λ h. absurd (omega (arith, zero_pow n, beyond _ x h)))
step_down-Returns (suc fuel) n x (suc g) l =
    by_test (leb (pow (suc g) (suc n)) x) _ _ _ (λ h. (suc g, refl, at_most _ x h))
      (λ _.
        subst (λ k. Returns (step_down fuel (suc n) x k) (λ r. pow r (suc n) ≤ x)) (pred_suc g)
          (step_down-Returns fuel n x g (omega (arith, l))))

-- The integer part of the root.
abbrev pub IsRoot : ℕ → ℕ → ℕ → Type 0
IsRoot n x r = (pow r n ≤ x) × (x < pow (r + 1) n)

step_up-Returns :
    (fuel n x g : ℕ)
    → x < g + fuel
    → pow g (suc n) ≤ x
    → Returns (step_up fuel (suc n) x g) (IsRoot (suc n) x)
unfolding step_up
step_up-Returns zero n x g l p = absurd (omega (arith, l, p, le-pow g n))
step_up-Returns (suc fuel) n x g l p =
    by_test (leb (pow (g + 1) (suc n)) x) _ _ _
      (λ h. step_up-Returns fuel n x (g + 1) (omega (arith, l)) (at_most _ x h))
      (λ h. (g, refl, (p, beyond _ x h)))

refine-Returns : (n x g : ℕ) → Returns (refine (suc n) x g) (IsRoot (suc n) x)
unfolding refine
refine-Returns n x g =
    let (a, newton_ends, _) = newton-Returns (g + 1) (suc n) x g (omega arith) in
    let (b, down_ends, fits) = step_down-Returns (a + 1) n x a (omega arith) in
    let (r, up_ends, root) = step_up-Returns (x + 1) n x b (omega arith) fits in
    (r, rw (newton_ends, down_ends) up_ends, root)

-- For every number and every degree from 1 on, the three loops of the integer root end within
-- their fuel and the result is the integer part of the root: its power is at most the number, and
-- the next number's power is greater.
pub int_nth_root-IsRoot : (x n : ℕ) → 0 < n → Returns (int_nth_root x n) (IsRoot n x)
unfolding int_nth_root
int_nth_root-IsRoot x zero h = absurd (omega (arith, h))
int_nth_root-IsRoot x (suc n) h = elim (Bool-cases (nat_beq x 0)) [
  | inl none_left ↦ (0, rw none_left refl, at_zero none_left)
  | inr some_left ↦ elim (Bool-cases (nat_beq (suc n) 1)) [
    | inl whole ↦ (x, rw (some_left, whole) refl, at_one whole)
    | inr deep ↦
        (let (r, e, root) = refine-Returns n x (first_guess x (suc n)) in
          (r, rw (some_left, deep) e, root))
  ]
]
  where
    at_zero : nat_beq x 0 ≡ true → IsRoot (suc n) x 0
    at_zero q =
        (let e : x ≡ 0 = ground (arith, q) in
          (omega (arith, zero_pow n), omega (arith, e, pow-pos 1 (suc n) (omega arith))))

    at_one : nat_beq (suc n) 1 ≡ true → IsRoot (suc n) x x
    at_one q =
        (let e : n ≡ 0 = ground (arith, q) in
          rw e (omega (arith, pow_one x), omega (arith, pow_one (x + 1))))

third :
    (a b : Bool) (o p q : Option ℕ)
    → a ≡ false
    → b ≡ false
    → (if a then o else (if b then p else q)) ≡ q
third a b o p q h k = rw (h, k) refl

-- For every number and every numerator and denominator from 1 on, the rational power returns the
-- integer part of the denominator's root of the number's power to the numerator, also on the
-- paths for 0 and for a whole exponent.
pub pow_rational-IsRoot :
    (x num den : ℕ) → 0 < num → 0 < den → Returns (pow_rational x num den) (IsRoot den (pow x num))
unfolding pow_rational
pow_rational-IsRoot x zero den h k = absurd (omega (arith, h))
pow_rational-IsRoot x (suc m) zero h k = absurd (omega (arith, k))
pow_rational-IsRoot x (suc m) (suc n) h k = elim (Bool-cases (nat_beq x 0)) [
  | inl none_left ↦ (0, rw none_left refl, at_zero none_left)
  | inr some_left ↦ elim (Bool-cases (nat_beq (suc n) 1)) [
    | inl whole ↦ (pow x (suc m), rw (some_left, whole) refl, at_one whole)
    | inr deep ↦
        (let (r, e, root) = int_nth_root-IsRoot (pow x (suc m)) (suc n) k in
          (r, third (nat_beq x 0) (nat_beq (suc n) 1) _ _ _ some_left deep ∙ e, root))
  ]
]
  where
    at_zero : nat_beq x 0 ≡ true → IsRoot (suc n) (pow x (suc m)) 0
    at_zero q =
        (let e : x ≡ 0 = ground (arith, q) in
          rw e
            (omega (arith, zero_pow n), omega (arith, zero_pow m, pow-pos 1 (suc n) (omega arith))))

    at_one : nat_beq (suc n) 1 ≡ true → IsRoot (suc n) (pow x (suc m)) (pow x (suc m))
    at_one q =
        (let e : n ≡ 0 = ground (arith, q) in
          rw e (omega (arith, pow_one (pow x (suc m))), omega (arith, pow_one (pow x (suc m) + 1))))
