-- ===== src/Sharecore/Climb.antt =====
-- A proof's siblings lead from a leaf's hash to the root.
use magi_tokenomics.Common.{
  subst, ℕ, zero, suc, ◌+◌, ◌/◌, ◌≤◌, ◌≡◌, refl, sym, ◌∙◌, inl, inr, arith, true, false, List, [],
  ◌∷◌, Option, none, some, ltb, nat_beq, length, get_elem?, Bool-cases, All,
}
use magi_tokenomics.Merkle.Proof.{less_hash, node_hash}
use magi_tokenomics.Merkle.Printed.{IsHash}
use magi_tokenomics.Sharecore.Tree.{sibling, pair_level, levels, top_node, path_from}

-- Two lists of one length of which neither is less are the same.
less_hash-total :
    (a b : List ℕ) → length a ≡ length b → less_hash a b ≡ false → less_hash b a ≡ false → a ≡ b
unfolding less_hash
less_hash-total [] [] n p q = refl
less_hash-total [] (y ∷ b) n p q = absurd (omega (arith, n))
less_hash-total (x ∷ a) [] n p q = absurd (omega (arith, n))
less_hash-total (x ∷ a) (y ∷ b) n p q = elim (Bool-cases (nat_beq x y)) [
  | inl same ↦
      (let e : x ≡ y = ground (arith, same) in
        let back : nat_beq y x ≡ true = ground (arith, e) in
        cc (e, less_hash-total a b (omega (arith, n)) (rw same at p) (rw back at q)))
  | inr other ↦
      (let back : nat_beq y x ≡ false = ground (arith, other) in
        absurd (apart other (rw other at p) (rw back at q)))
]
  where
    apart : nat_beq x y ≡ false → ltb x y ≡ false → ltb y x ≡ false → ⊥
    apart other p q = ground arith

less_hash-asym : (a b : List ℕ) → less_hash a b ≡ true → less_hash b a ≡ false
unfolding less_hash
less_hash-asym [] b h = cc
less_hash-asym (x ∷ a) [] h = cc
less_hash-asym (x ∷ a) (y ∷ b) h = elim (Bool-cases (nat_beq x y)) [
  | inl same ↦
      (let back : nat_beq y x ≡ true = ground (arith, same) in
        rw back (less_hash-asym a b (rw same at h)))
  | inr other ↦
      (let back : nat_beq y x ≡ false = ground (arith, other) in rw back (turned (rw other at h)))
]
  where
    turned : ltb x y ≡ true → ltb y x ≡ false
    turned h = ground (arith, h)

sibling-two : (i : ℕ) → sibling (suc (suc i)) ≡ suc (suc (sibling i))
unfolding sibling
sibling-two i = ground arith

half-two : (i : ℕ) → suc (suc i) / 2 ≡ suc (i / 2)
half-two i = omega arith

module _ (sha256 : List ℕ → List ℕ) where
  node_hash_comm :
      (a b : List ℕ) → length a ≡ length b → node_hash sha256 a b ≡ node_hash sha256 b a
  unfolding node_hash
  node_hash_comm a b n = elim (Bool-cases (less_hash a b)) [
    | inl h ↦ rw (h, less_hash-asym a b h) refl
    | inr h ↦ elim (Bool-cases (less_hash b a)) [
      | inl k ↦ rw (h, k) refl
      | inr k ↦ rw (less_hash-total a b n h k) refl
    ]
  ]

  -- The parent of a node, from its sibling if it has one.
  abbrev parent : List ℕ → Option (List ℕ) → List ℕ
  parent h none = h
  parent h (some s) = node_hash sha256 h s

  -- Every node of a level is a hash.
  abbrev pub Sized : List (List ℕ) → Type 0
  Sized level = All IsHash level

  pair_level-get :
      (level : List (List ℕ)) (i : ℕ) (h : List ℕ)
      → Sized level
      → get_elem? level i ≡ some h
      → get_elem? (pair_level sha256 level) (i / 2) ≡ some (parent h (get_elem? level (sibling i)))
  unfolding pair_level sibling
  pair_level-get [] i h z e = cc
  pair_level-get (x ∷ []) zero h z e = cc
  pair_level-get (x ∷ []) (suc i) h z e = cc
  pair_level-get (x ∷ y ∷ rest) zero h z e = cc
  pair_level-get (x ∷ y ∷ rest) (suc zero) h (zx, (zy, zs)) e =
      cc (node_hash_comm x y (zx.0 ∙ sym zy.0), some_injective e)
    where
      some_injective : {a b : List ℕ} → some a ≡ some b → a ≡ b
      some_injective q = cc
  pair_level-get (x ∷ y ∷ rest) (suc (suc i)) h (zx, (zy, zs)) e =
      rw (half-two i, sibling-two i) (pair_level-get rest i h zs e)

  -- The hash that a path of siblings leads to.
  unfoldable pub climb : List ℕ → List (List ℕ) → List ℕ
  unfolding node_hash
  climb h [] = h
  climb h (s ∷ ss) = climb (node_hash sha256 h s) ss

  pair_level-Sized :
      ((bytes : List ℕ) → IsHash (sha256 bytes))
      → (level : List (List ℕ)) → Sized level
      → Sized (pair_level sha256 level)
  unfolding pair_level node_hash
  pair_level-Sized size [] z = tt
  pair_level-Sized size (x ∷ []) z = z
  pair_level-Sized size (x ∷ y ∷ rest) (_, (_, z)) = (size _, pair_level-Sized size rest z)

  length-pair_level :
      (level : List (List ℕ))
      → length (pair_level sha256 level) + length (pair_level sha256 level) ≤ suc (length level)
  unfolding pair_level
  length-pair_level [] = omega arith
  length-pair_level (x ∷ []) = omega arith
  length-pair_level (x ∷ y ∷ rest) = omega (arith, length-pair_level rest)

  levels-many :
      (n : ℕ) (level : List (List ℕ))
      → ltb 1 (length level) ≡ true
      → levels sha256 (suc n) level ≡ level ∷ levels sha256 n (pair_level sha256 level)
  unfolding levels
  levels-many n level h =
      subst
        (λ b.
          (elim b as (λ _. List (List (List ℕ))) [
            | true ↦ level ∷ levels sha256 n (pair_level sha256 level)
            | false ↦ level ∷ []
          ])
          ≡ level ∷ levels sha256 n (pair_level sha256 level))
        (sym h) refl

  levels-few :
      (n : ℕ) (level : List (List ℕ))
      → ltb 1 (length level) ≡ false
      → levels sha256 (suc n) level ≡ level ∷ []
  unfolding levels
  levels-few n level h =
      subst
        (λ b.
          (elim b as (λ _. List (List (List ℕ))) [
            | true ↦ level ∷ levels sha256 n (pair_level sha256 level)
            | false ↦ level ∷ []
          ])
          ≡ level ∷ [])
        (sym h) refl

  levels-cons :
      (n : ℕ) (level : List (List ℕ))
      → (ups : List (List (List ℕ))) × (levels sha256 n level ≡ level ∷ ups)
  unfolding levels
  levels-cons zero level = ([], refl)
  levels-cons (suc n) level = elim (Bool-cases (ltb 1 (length level))) [
    | inl h ↦ (levels sha256 n (pair_level sha256 level), levels-many n level h)
    | inr h ↦ ([], levels-few n level h)
  ]

  climb-path_from :
      (level up : List (List ℕ)) (ups : List (List (List ℕ))) (i : ℕ) (h : List ℕ)
      → climb h (path_from sha256 (level ∷ up ∷ ups) i)
        ≡ climb (parent h (get_elem? level (sibling i))) (path_from sha256 (up ∷ ups) (i / 2))
  unfolding path_from climb
  climb-path_from level up ups i h =
      step (get_elem? level (sibling i)) (path_from sha256 (up ∷ ups) (i / 2))
    where
      step :
          (o : Option (List ℕ)) (rest : List (List ℕ))
          → climb h (elim o [ none ↦ rest | some s ↦ s ∷ rest ]) ≡ climb (parent h o) rest
      step none rest = refl
      step (some s) rest = refl

  single :
      (level : List (List ℕ)) (i : ℕ) (h : List ℕ)
      → length level ≤ 1
      → get_elem? level i ≡ some h
      → get_elem? level 0 ≡ some h
  single [] i h n e = cc
  single (x ∷ xs) zero h n e = e
  single (x ∷ []) (suc i) h n e = cc
  single (x ∷ y ∷ xs) (suc i) h n e = absurd (omega (arith, n))

  pub climb-root :
      ((bytes : List ℕ) → IsHash (sha256 bytes))
      → (n : ℕ) (level : List (List ℕ)) (i : ℕ) (h : List ℕ) → Sized level
      → length level ≤ suc n
      → get_elem? level i ≡ some h
      → top_node sha256 (levels sha256 n level)
        ≡ some (climb h (path_from sha256 (levels sha256 n level) i))
  unfolding levels top_node path_from climb
  climb-root size zero level i h z n e = single level i h n e
  climb-root size (suc m) level i h z n e = elim (Bool-cases (ltb 1 (length level))) [
    | inr few ↦ rw (levels-few m level few) (single level i h (ground (arith, few)) e)
    | inl many ↦
        (let next = pair_level sha256 level in
          let (ups, q) = levels-cons m next in
          let above =
            climb-root size m next (i / 2) (parent h (get_elem? level (sibling i)))
              (pair_level-Sized size level z) (shorter many) (pair_level-get level i h z e) in
          rw (levels-many m level many, q, climb-path_from level next ups i h) (rw q at above))
  ]
    where
      shorter : ltb 1 (length level) ≡ true → length (pair_level sha256 level) ≤ suc m
      shorter many =
          (let l : 2 ≤ length level = ground (arith, many) in
            omega (arith, length-pair_level level, n, l))

  get-Sized :
      (level : List (List ℕ)) (i : ℕ) (h : List ℕ)
      → Sized level
      → get_elem? level i ≡ some h
      → IsHash h
  get-Sized [] i h z e = cc
  get-Sized (x ∷ xs) zero h (z, _) e = subst IsHash (some_injective e) z
    where
      some_injective : {a b : List ℕ} → some a ≡ some b → a ≡ b
      some_injective q = cc
  get-Sized (x ∷ xs) (suc i) h (_, z) e = get-Sized xs i h z e

  pub levels-Sized :
      ((bytes : List ℕ) → IsHash (sha256 bytes))
      → (n : ℕ) (level : List (List ℕ)) → Sized level
      → All Sized (levels sha256 n level)
  unfolding levels
  levels-Sized size zero level z = (z, tt)
  levels-Sized size (suc n) level z = elim (Bool-cases (ltb 1 (length level))) [
    | inl h ↦
        rw (levels-many n level h)
          (z, levels-Sized size n (pair_level sha256 level) (pair_level-Sized size level z))
    | inr h ↦ rw (levels-few n level h) (z, tt)
  ]

  pub path_from-Sized :
      (ups : List (List (List ℕ))) (i : ℕ) → All Sized ups → Sized (path_from sha256 ups i)
  unfolding path_from
  path_from-Sized [] i z = tt
  path_from-Sized (level ∷ []) i z = tt
  path_from-Sized (level ∷ up ∷ ups) i (z, zs) =
      step (get_elem? level (sibling i)) refl (path_from-Sized (up ∷ ups) (i / 2) zs)
    where
      step :
          (o : Option (List ℕ))
          → get_elem? level (sibling i) ≡ o
          → Sized (path_from sha256 (up ∷ ups) (i / 2))
          → Sized (elim o [
            | none ↦ path_from sha256 (up ∷ ups) (i / 2)
            | some s ↦ s ∷ path_from sha256 (up ∷ ups) (i / 2)
          ])
      step none e r = r
      step (some s) e r = (get-Sized level (sibling i) s z e, r)
