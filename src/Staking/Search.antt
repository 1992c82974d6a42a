-- ===== src/Staking/Search.antt =====
-- `searchVal` against a scan of the entries in order.
use magi_tokenomics.Common.{
  ℕ, zero, suc, ◌+◌, ◌-◌, ◌/◌, ◌≤◌, ◌<◌, ℤ, pos, false, ◌≡◌, inl, inr, refl, ap, sym, ◌∙◌, arith,
  Bool-cases, List, [], ◌∷◌, Option, none, some, ltb, leb, nat_beq, leb→le, if◌then◌else◌, length,
  get_elem?,
}
use magi_tokenomics.Chain.{add64}
use magi_tokenomics.Staking.Checkpoints.{
  Ckpt, search_loop, search_val, amount_or_zero, amount_at, value_after, value_at,
}

-- Heights rise strictly along the entries.
abbrev pub IsSorted : List Ckpt → Type 0
IsSorted [] = Unit {0}
IsSorted (e ∷ []) = Unit {0}
IsSorted (e ∷ f ∷ rest) = (e.height < f.height) × IsSorted (f ∷ rest)

-- The number of entries from the front whose height is at most the target.
abbrev rank : ℕ → List Ckpt → ℕ
rank target [] = 0
rank target (e ∷ rest) = if leb e.height target then suc (rank target rest) else 0

rank-le-length : (target : ℕ) (es : List Ckpt) → rank target es ≤ length es
rank-le-length target [] = omega arith
rank-le-length target (e ∷ rest) = ground (arith, rank-le-length target rest)

get_below : (es : List Ckpt) (i : ℕ) → i < length es → (e : Ckpt) × (get_elem? es i ≡ some e)
get_below [] i h = elim h [ ]
get_below (e ∷ rest) zero h = (e, refl)
get_below (e ∷ rest) (suc i) h = get_below rest i (omega arith)

-- In a sorted array an entry's height is at most the target exactly below the rank.
IsSorted-tail : (e : Ckpt) (es : List Ckpt) → IsSorted (e ∷ es) → IsSorted es
IsSorted-tail e [] s = tt
IsSorted-tail e (f ∷ rest) s = s.1

IsSorted-above :
    (e f : Ckpt) (es : List Ckpt) (i : ℕ)
    → IsSorted (e ∷ es)
    → get_elem? es i ≡ some f
    → e.height < f.height
IsSorted-above e f [] i s h = cc
IsSorted-above e f (g ∷ rest) zero s h = ground arith
IsSorted-above e f (g ∷ rest) (suc i) s h = omega (arith, s.0, IsSorted-above g f rest i s.1 h)

rank_lem :
    (target : ℕ) (es : List Ckpt) (i : ℕ) (e : Ckpt)
    → IsSorted es
    → get_elem? es i ≡ some e
    → leb e.height target ≡ ltb i (rank target es)
rank_lem target [] i e s h = cc
rank_lem target (f ∷ rest) zero e s h = ground arith
rank_lem target (f ∷ rest) (suc i) e s h =
    ground
      (arith, rank_lem target rest i e (IsSorted-tail f rest s) h, IsSorted-above f e rest i s h)

-- The index just below a number.
abbrev below : ℕ → Option ℕ
below zero = none
below (suc k) = some k

abbrev amount_below : ℤ → List Ckpt → Option ℕ → ℤ
amount_below d es none = d
amount_below d es (some i) = amount_or_zero (get_elem? es i)

amount_below-suc :
    (e : Ckpt) (rest : List Ckpt) (r : ℕ)
    → amount_below e.amount rest (below r) ≡ amount_or_zero (get_elem? (e ∷ rest) r)
amount_below-suc e rest zero = refl
amount_below-suc e rest (suc r) = refl

value_after-rank :
    (d : ℤ) (target : ℕ) (es : List Ckpt)
    → value_after d target es ≡ amount_below d es (below (rank target es))
unfolding value_after
value_after-rank d target [] = refl
value_after-rank d target (e ∷ rest) = elim (Bool-cases (leb e.height target)) [
  | inl h ↦
      rw h (value_after-rank e.amount target rest ∙ amount_below-suc e rest (rank target rest))
  | inr h ↦ rw h refl
]

middle-bounds :
    (lo hi : ℕ)
    → lo ≤ hi
    → hi < 9223372036854775808
    → (lo ≤ add64 lo hi / 2) × (add64 lo hi / 2 ≤ hi)
unfolding add64
middle-bounds lo hi l h = (omega arith, omega arith)

-- The loop invariant: the rank stands in [lo, hi + 1] and the index found is the one below lo.
search_loop_lem :
    (target : ℕ) (es : List Ckpt) (fuel lo hi : ℕ)
    → IsSorted es
    → length es < 9223372036854775808
    → lo ≤ rank target es
    → rank target es ≤ hi + 1
    → hi < length es
    → hi + 1 < fuel + lo
    → search_loop (get_elem? es) (length es) target fuel lo hi (below lo)
      ≡ some (below (rank target es))
unfolding search_loop
search_loop_lem target es zero lo hi s n l r h f = ground arith
search_loop_lem target es (suc fuel) lo hi s n l r h f = elim (Bool-cases (leb lo hi)) [
  | inr c ↦ let q : lo ≡ rank target es = ground arith in rw c (ap (λ k. some (below k)) q)
  | inl c ↦
      let m = add64 lo hi / 2 in
      let (lm, mh) = middle-bounds lo hi (leb→le lo hi c) (omega arith) in
      let (e, ee) = get_below es m (omega arith) in
      rw (c, ee, rank_lem target es m e s ee)
        (elim (Bool-cases (ltb m (rank target es))) [
          | inl b ↦ rw b (elim (Bool-cases (nat_beq m (length es - 1))) [
            | inl z ↦
                let q : suc m ≡ rank target es = ground (arith, rank-le-length target es) in
                rw z (ap (λ k. some (below k)) q)
            | inr z ↦
                rw z
                  (search_loop_lem target es fuel (suc m) hi s n (ground arith) r h (omega arith))
          ])
          | inr b ↦ rw b (elim (Bool-cases (nat_beq m 0)) [
            | inl z ↦
                let q : lo ≡ rank target es = ground arith in rw z (ap (λ k. some (below k)) q)
            | inr z ↦ rw z (
                search_loop_lem target es fuel lo (m - 1) s n l (ground arith) (omega arith)
                  (ground arith))
          ])
        ])
]

amount_below-amount_at :
    (es : List Ckpt) (o : Option ℕ) → amount_at (get_elem? es) o ≡ amount_below (pos 0) es o
unfolding amount_at
amount_below-amount_at es none = refl
amount_below-amount_at es (some i) = refl

-- In an array whose heights rise strictly and which has fewer than 2^63 entries, the binary
-- search ends within its fuel and returns the amount of the last entry whose height is at most
-- the target, 0 where there is none.
pub search_val-value_at :
    (es : List Ckpt) (target : ℕ)
    → IsSorted es
    → length es < 9223372036854775808
    → search_val (get_elem? es) (length es) target ≡ some (value_at target es)
unfolding search_val value_after
search_val-value_at [] target s n = refl
search_val-value_at (e ∷ rest) target s n =
    let es = e ∷ rest in
    let positive : nat_beq (length es) 0 ≡ false = ground arith in
    let loop =
      search_loop_lem target es (length es + 1) 0 (length es - 1) s n (omega arith)
        (ground (arith, rank-le-length target es)) (omega arith) (omega arith) in
    rw (positive, loop)
      (ap some (
        amount_below-amount_at es (below (rank target es))
        ∙ sym (value_after-rank (pos 0) target es)))
