-- ===== src/Sharecore/Curve.antt =====
-- reporter/sharecore/curve.go: integer powers and roots. The loops run on fuel; `none` is a loop that
-- ran out of it.
use magi_tokenomics.Common.{
  ℕ, zero, suc, ◌+◌, ◌-◌, ◌*◌, ◌/◌, true, false, Option, none, some, leb, nat_beq, if◌then◌else◌,
}

-- `Exp` without a modulus.
unfoldable pub pow : ℕ → ℕ → ℕ
pow b zero = 1
pow b (suc n) = b * pow b n

-- `BitLen`
unfoldable pub bit_length : ℕ → ℕ → ℕ
bit_length zero x = 0
bit_length (suc fuel) x = elim (nat_beq x 0) [ true ↦ 0 | false ↦ bit_length fuel (x / 2) + 1 ]

-- Newton's method from above; it ends where the guess no longer falls.
unfoldable pub newton : ℕ → ℕ → ℕ → ℕ → Option ℕ
unfolding pow
newton zero n x guess = none
newton (suc fuel) n x guess =
    let power = pow guess (n - 1) in
    let next = (x / power + (n - 1) * guess) / n in
    elim (nat_beq power 0) [
      | true ↦ some guess
      | false ↦ elim (leb guess next) [ true ↦ some guess | false ↦ newton fuel n x next ]
    ]

-- Down to the first guess whose power is at most x.
unfoldable pub step_down : ℕ → ℕ → ℕ → ℕ → Option ℕ
unfolding pow
step_down zero n x guess = none
step_down (suc fuel) n x guess = elim (leb (pow guess n) x) [
  | true ↦ some guess
  | false ↦ step_down fuel n x (guess - 1)
]

-- Up while the next guess's power is still at most x.
unfoldable pub step_up : ℕ → ℕ → ℕ → ℕ → Option ℕ
unfolding pow
step_up zero n x guess = none
step_up (suc fuel) n x guess = elim (leb (pow (guess + 1) n) x) [
  | true ↦ step_up fuel n x (guess + 1)
  | false ↦ some guess
]

unfoldable pub first_guess : ℕ → ℕ → ℕ
unfolding pow bit_length
first_guess x n = pow 2 ((bit_length x x + n - 1) / n + 1)

abbrev pub then_try : Option ℕ → (ℕ → Option ℕ) → Option ℕ
then_try none f = none
then_try (some a) f = f a

unfoldable pub refine : ℕ → ℕ → ℕ → Option ℕ
unfolding newton step_down step_up
refine n x guess =
    then_try (newton (guess + 1) n x guess)
      (λ g. then_try (step_down (g + 1) n x g) (λ h. step_up (x + 1) n x h))

-- For a degree that is at least 1; the code panics otherwise.
unfoldable pub int_nth_root : ℕ → ℕ → Option ℕ
unfolding refine first_guess
int_nth_root x n =
    let refined = refine n x (first_guess x n) in
    if nat_beq x 0 then some 0 else if nat_beq n 1 then some x else refined

-- For a numerator and a denominator that are at least 1.
unfoldable pub pow_rational : ℕ → ℕ → ℕ → Option ℕ
unfolding pow int_nth_root
pow_rational x num den =
    let root = int_nth_root (pow x num) den in
    if nat_beq x 0 then some 0 else if nat_beq den 1 then some (pow x num) else root
