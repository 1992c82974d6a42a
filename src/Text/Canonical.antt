-- ===== src/Text/Canonical.antt =====
-- Epoch texts that `mustEpoch` accepts, and the numbers they stand for.
use magi_tokenomics.Common.{
  ℕ, suc, ◌+◌, ◌-◌, ◌*◌, ◌≤◌, ◌<◌, true, false, ◌&&◌, ◌≡◌, ◌≢◌, ◌∙◌, refl, sym, ap, ap₂, inl, inr,
  ◌⊎◌, arith, Bool-cases, List, [], ◌∷◌, length, ltb, leb, nat_beq, ok, ok_injective, require,
  abort_if, >>=-eq-ok, require-eq-ok, abort_if-eq-ok, epoch_required, epoch_not_numeric,
  epoch_not_canonical, epoch_out_of_range, mul_le_left,
}
use magi_tokenomics.Text.Epoch.{is_digit, all_digits, digits_value, leads_with_zero, must_epoch}

-- 10 to the number of digits.
place : List ℕ → ℕ
place [] = 1
place (c ∷ cs) = 10 * place cs

digits_value-split :
    (acc : ℕ) (cs : List ℕ) → digits_value acc cs ≡ acc * place cs + digits_value 0 cs
unfolding digits_value place
digits_value-split acc [] = omega arith
digits_value-split acc (c ∷ cs) =
    omega (
      arith,
      digits_value-split (acc * 10 + (c - 48)) cs,
      digits_value-split (0 * 10 + (c - 48)) cs,
    )

place_pos : (cs : List ℕ) → 0 < place cs
unfolding place
place_pos [] = omega arith
place_pos (c ∷ cs) = omega (arith, place_pos cs)

-- A leading digit in front of a value below the place is fixed by the sum.
lead_unique : (p c d v w : ℕ) → v < p → w < p → c * p + v ≡ d * p + w → (c ≡ d) × (v ≡ w)
lead_unique p c d v w hv hw e = elim (Bool-cases (ltb c d)) [
  | inl lt ↦ absurd (omega (arith, mul_le_left p (c + 1) d (ltb→le c d lt)))
  | inr ge ↦ elim (Bool-cases (ltb d c)) [
    | inl gt ↦ absurd (omega (arith, mul_le_left p (d + 1) c (ltb→le d c gt)))
    | inr le ↦ let same : c ≡ d = ground arith in (same, omega (arith, ap (λ (x : ℕ). x * p) same))
  ]
]
  where
    ltb→le : (a b : ℕ) → ltb a b ≡ true → a + 1 ≤ b
    ltb→le a b h = ground arith

lead_below : (p c v : ℕ) → c ≤ 9 → v < p → c * p + v < 10 * p
lead_below p c v h hv = grind arith

digits_value-lt-place : (cs : List ℕ) → all_digits cs ≡ true → digits_value 0 cs < place cs
unfolding digits_value place all_digits is_digit
digits_value-lt-place [] h = omega arith
digits_value-lt-place (c ∷ cs) h =
    let rest : all_digits cs ≡ true = ground arith in
    let small : c - 48 ≤ 9 = ground arith in
    omega (
      arith,
      digits_value-split (0 * 10 + (c - 48)) cs,
      lead_below (place cs) (c - 48) (digits_value 0 cs) small (digits_value-lt-place cs rest),
    )

same_place :
    (xs ys : List ℕ)
    → all_digits xs ≡ true
    → all_digits ys ≡ true
    → place xs ≡ place ys
    → digits_value 0 xs ≡ digits_value 0 ys
    → xs ≡ ys
unfolding digits_value place all_digits is_digit
same_place [] [] h k p e = refl
same_place [] (b ∷ ys) h k p e = absurd (omega (arith, place_pos ys))
same_place (a ∷ xs) [] h k p e = absurd (omega (arith, place_pos xs))
same_place (a ∷ xs) (b ∷ ys) h k p e =
    let rest_a : all_digits xs ≡ true = ground arith in
    let rest_b : all_digits ys ≡ true = ground arith in
    let same : place xs ≡ place ys = omega arith in
    let (lead, rest) =
      lead_unique (place ys) (a - 48) (b - 48) (digits_value 0 xs) (digits_value 0 ys)
        (rw same at (digits_value-lt-place xs rest_a)) (digits_value-lt-place ys rest_b)
        (omega (
          arith,
          digits_value-split (0 * 10 + (a - 48)) xs,
          digits_value-split (0 * 10 + (b - 48)) ys,
          ap (λ (x : ℕ). (a - 48) * x) same,
        )) in
    let digit : a ≡ b = ground arith in ap₂ ◌∷◌ digit (same_place xs ys rest_a rest_b same rest)

-- A place that is greater is greater tenfold.
place_gap : (xs ys : List ℕ) → place xs < place ys → 10 * place xs ≤ place ys
unfolding place
place_gap xs [] h = absurd (omega (arith, place_pos xs))
place_gap [] (y ∷ ys) h = omega (arith, place_pos ys)
place_gap (x ∷ xs) (y ∷ ys) h = omega (arith, place_gap xs ys (omega arith))

lead_value : (c : ℕ) (cs : List ℕ) → is_digit c ≡ true → c ≢ 48 → place cs ≤ digits_value 0 (c ∷ cs)
unfolding digits_value is_digit
lead_value c cs d ne =
    let lo : 1 ≤ c - 48 = ground arith in
    omega (arith, digits_value-split (0 * 10 + (c - 48)) cs, mul_le_left (place cs) 1 (c - 48) lo)

-- What `mustEpoch` checks of a text before its range.
record IsCanonical (text : List ℕ) : Type 0 where
  digits : all_digits text ≡ true
  nonempty : text ≢ []
  no_lead : (ltb 1 (length text) && leads_with_zero text) ≡ false

first : (c : ℕ) (cs : List ℕ) → all_digits (c ∷ cs) ≡ true → is_digit c ≡ true
unfolding all_digits
first c cs h = ground arith

no_zero : (c n : ℕ) → (ltb 1 (suc (suc n)) && nat_beq c 48) ≡ false → c ≢ 48
no_zero c n h = ground arith

-- The value of "0" is 0, and that of any other canonical text is at least 1.
lead_cases :
    (c : ℕ) (cs : List ℕ)
    → IsCanonical (c ∷ cs)
    → (place cs ≤ digits_value 0 (c ∷ cs)) ⊎ ((place cs ≡ 1) × (digits_value 0 (c ∷ cs) ≡ 0))
unfolding leads_with_zero digits_value place
lead_cases c [] v = elim (Bool-cases (nat_beq c 48)) [
  | inl zero_text ↦ inr (refl, ground arith)
  | inr other ↦ inl (lead_value c [] (first c [] v.digits) (ground arith))
]
lead_cases c (d ∷ cs) v =
    let other : c ≢ 48 = no_zero c (length cs) v.no_lead in
    inl (lead_value c (d ∷ cs) (first c (d ∷ cs) v.digits) other)

same_place_of_value :
    (xs ys : List ℕ)
    → IsCanonical xs
    → IsCanonical ys
    → digits_value 0 xs ≡ digits_value 0 ys
    → place xs ≡ place ys
unfolding place
same_place_of_value [] ys v w e = absurd (v.nonempty refl)
same_place_of_value (c ∷ cs) [] v w e = absurd (w.nonempty refl)
same_place_of_value (c ∷ cs) (d ∷ ds) v w e = grind (
  arith,
  lead_cases c cs v,
  lead_cases d ds w,
  digits_value-lt-place (c ∷ cs) v.digits,
  digits_value-lt-place (d ∷ ds) w.digits,
  place_gap cs ds,
  place_gap ds cs,
  place_pos cs,
  place_pos ds,
)

same_value :
    (xs ys : List ℕ)
    → IsCanonical xs
    → IsCanonical ys
    → digits_value 0 xs ≡ digits_value 0 ys
    → xs ≡ ys
same_value xs ys v w e = same_place xs ys v.digits w.digits (same_place_of_value xs ys v w e) e

must_epoch-IsCanonical :
    (text : List ℕ) (n : ℕ) → must_epoch text ≡ ok n → IsCanonical text × (digits_value 0 text ≡ n)
unfolding must_epoch
must_epoch-IsCanonical text n e =
    let (u1, sized, e1) =
      >>=-eq-ok (require (ltb 0 (length text) && leb (length text) 19) epoch_required) _ e in
    let (u2, numeric, e2) = >>=-eq-ok (require (all_digits text) epoch_not_numeric) _ e1 in
    let (u3, lead, e3) =
      >>=-eq-ok (abort_if (ltb 1 (length text) && leads_with_zero text) epoch_not_canonical) _ e2 in
    let (u4, range, e4) =
      >>=-eq-ok (require (ltb (digits_value 0 text) 18446744073709551616) epoch_out_of_range) _
        e3 in
    (
      record {
        digits = require-eq-ok _ epoch_not_numeric numeric;
        nonempty = sized_ne text (require-eq-ok _ epoch_required sized);
        no_lead = abort_if-eq-ok _ epoch_not_canonical lead;
      },
      ok_injective e4,
    )
  where
    sized_ne : (xs : List ℕ) → (ltb 0 (length xs) && leb (length xs) 19) ≡ true → xs ≢ []
    sized_ne [] h q = cc
    sized_ne (x ∷ xs) h q = cc

-- Two epoch texts, given as their bytes, that are accepted as the same epoch are the same text.
pub must_epoch_injective :
    (xs ys : List ℕ) (n : ℕ) → must_epoch xs ≡ ok n → must_epoch ys ≡ ok n → xs ≡ ys
must_epoch_injective xs ys n e f =
    let (v, a) = must_epoch-IsCanonical xs n e in
    let (w, b) = must_epoch-IsCanonical ys n f in same_value xs ys v w (a ∙ sym b)
