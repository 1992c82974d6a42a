-- ===== src/Sharecore/Accepted.antt =====
-- The distributor accepts the proofs that the tree gives.
use Prim.Native.Nat.{Ordering}
use Prim.Native.String.{compare, ◌++◌}
use text.Mathlib.Text.{is_lt}
use text.Mathlib.TextLemmas.{cons-append, nil-append, append-nil}
use text.Mathlib.TextPositions.{compare_refl}
use magi_tokenomics.Common.{
  ◌≢◌, ℕ, suc, ◌≡◌, refl, sym, ap, ◌∙◌, inl, inr, arith, subst, Bool, true, false, ℤ, String, List,
  [], ◌∷◌, Option, none, some, ◌==◌, string_eq, if◌then◌else◌, length, get_elem?, Bool-cases,
  beq_refl,
}
use magi_tokenomics.Text.Fields.{comma_fields, nonempty_fields, split_comma, show_int}
use magi_tokenomics.Merkle.Hex.{bytes_to_hex}
use magi_tokenomics.Merkle.Proof.{leaf_hash, node_hash, fold_proof, verify_proof}
use magi_tokenomics.Merkle.Printed.{
  IsHash, bytes_to_hex-IsPlain, hex_to_bytes-printed, printed-nonempty,
}
use magi_tokenomics.Sharecore.Tree.{
  Leaf, insert_sorted, sorted, leaves_of, index_of, leaf_hashes, Tree, build_tree, build_levels,
  top_node, root_of, path_from, hex_all, proof_of, join_comma, levels,
}
use magi_tokenomics.Sharecore.Climb.{climb, climb-root, levels-Sized, path_from-Sized, Sized}

-- What the map of shares holds for an account.
abbrev pub find_share : String → List (String × ℤ) → Option ℤ
find_share a [] = none
find_share a (e ∷ es) = if e.0 == a then some e.1 else find_share a es

eq_of_beq : (s t : String) → (s == t) ≡ true → s ≡ t
eq_of_beq s t h = (string_eq.beq_iff s t).0 h

-- An account before another one is not it.
lt-ne : (s t : String) → is_lt (compare s t) ≡ true → s ≢ t
lt-ne s t h e = impossible (compare_refl t) (subst (λ u. is_lt (compare u t) ≡ true) e h)
  where
    impossible : compare t t ≡ Ordering.eq → is_lt (compare t t) ≡ true → ⊥
    impossible q h = cc

find_share-insert_sorted :
    (a : String) (e : String × ℤ) (es : List (String × ℤ))
    → find_share a (insert_sorted e es) ≡ find_share a (e ∷ es)
unfolding insert_sorted
find_share-insert_sorted a e [] = refl
find_share-insert_sorted a e (d ∷ ds) = elim (Bool-cases (is_lt (compare d.0 e.0))) [
  | inr h ↦ rw h refl
  | inl h ↦
      rw (h, find_share-insert_sorted a e ds)
        (swapped (d.0 == a) (e.0 == a)
          (λ p q. lt-ne d.0 e.0 h (eq_of_beq d.0 a p ∙ sym (eq_of_beq e.0 a q))))
]
  where
    swapped :
        (b c : Bool)
        → (b ≡ true → c ≡ true → ⊥)
        → (if b then some d.1 else (if c then some e.1 else find_share a ds))
          ≡ (if c then some e.1 else (if b then some d.1 else find_share a ds))
    swapped true true apart = absurd (apart refl refl)
    swapped true false apart = refl
    swapped false true apart = refl
    swapped false false apart = refl

find_share-sorted :
    (a : String) (es : List (String × ℤ)) → find_share a (sorted es) ≡ find_share a es
unfolding sorted
find_share-sorted a [] = refl
find_share-sorted a (e ∷ es) =
    find_share-insert_sorted a e (sorted es)
    ∙ ap (λ r. if e.0 == a then some e.1 else r) (find_share-sorted a es)

comma_fields-comma :
    (t : String) → comma_fields ("," ++ t) ≡ ("", (comma_fields t).0 ∷ (comma_fields t).1)
unfolding comma_fields
comma_fields-comma t = rw (cons-append, nil-append) refl

module _ (sha256 : List ℕ → List ℕ) where
  fields-join_comma :
      (h : List ℕ) (hs : List (List ℕ))
      → Sized sha256 (h ∷ hs)
      → comma_fields (join_comma (hex_all sha256 (h ∷ hs))) ≡ (bytes_to_hex h, hex_all sha256 hs)
  unfolding hex_all join_comma comma_fields
  fields-join_comma h [] (z, _) =
      subst (λ s. comma_fields s ≡ (s, [])) (append-nil (bytes_to_hex h))
        ((bytes_to_hex-IsPlain h z.1).alone "")
  fields-join_comma h (g ∷ gs) (z, zs) =
      rw ((bytes_to_hex-IsPlain h z.1).alone ("," ++ join_comma (hex_all sha256 (g ∷ gs)))) (
        rw
          (
            comma_fields-comma (join_comma (hex_all sha256 (g ∷ gs))),
            fields-join_comma g gs zs,
            append-nil,
          )
          refl)

  nonempty-hex_all :
      (hs : List (List ℕ))
      → Sized sha256 hs
      → nonempty_fields (hex_all sha256 hs) ≡ hex_all sha256 hs
  unfolding hex_all nonempty_fields
  nonempty-hex_all [] z = refl
  nonempty-hex_all (h ∷ hs) (z, zs) = rw (printed-nonempty h z, nonempty-hex_all hs zs) refl

  split_comma-join_comma :
      (hs : List (List ℕ))
      → Sized sha256 hs
      → split_comma (join_comma (hex_all sha256 hs)) ≡ hex_all sha256 hs
  unfolding split_comma hex_all join_comma comma_fields nonempty_fields
  split_comma-join_comma [] z = refl
  split_comma-join_comma (h ∷ hs) z = rw (fields-join_comma h hs z) (nonempty-hex_all (h ∷ hs) z)

  fold_proof-climb :
      (h : List ℕ) (hs : List (List ℕ))
      → Sized sha256 hs
      → fold_proof sha256 h (hex_all sha256 hs) ≡ some (climb sha256 h hs)
  unfolding fold_proof hex_all climb
  fold_proof-climb h [] z = refl
  fold_proof-climb h (s ∷ ss) (z, zs) =
      rw (fold_proof, hex_to_bytes-printed s z) (fold_proof-climb (node_hash sha256 h s) ss zs)

  -- An account's leaf, at the place that `Proof` looks up.
  placed :
      (a : String) (x : ℤ) (es : List (String × ℤ))
      → find_share a es ≡ some x
      → (i : ℕ) × (index_of a (leaves_of es) ≡ some i)
        × (get_elem? (leaf_hashes sha256 (leaves_of es)) i ≡ some (leaf_hash sha256 a (show_int x)))
  unfolding leaves_of index_of leaf_hashes
  placed a x [] f = cc
  placed a x (e ∷ es) f = elim (Bool-cases (e.0 == a)) [
    | inl h ↦
        (let same = eq_of_beq e.0 a h in
          let value : e.1 ≡ x = some_injective (rw h at f) in (0, rw h refl, rw (same, value) refl))
    | inr h ↦ (let (i, at, hash) = placed a x es (rw h at f) in (suc i, rw (h, at) refl, hash))
  ]
    where
      some_injective : {p q : ℤ} → some p ≡ some q → p ≡ q
      some_injective q = cc

  leaf_hashes-Sized :
      ((bytes : List ℕ) → IsHash (sha256 bytes))
      → (ls : List Leaf) → Sized sha256 (leaf_hashes sha256 ls)
  unfolding leaf_hashes leaf_hash
  leaf_hashes-Sized size [] = tt
  leaf_hashes-Sized size (l ∷ ls) = (size _, leaf_hashes-Sized size ls)

  built :
      ((bytes : List ℕ) → IsHash (sha256 bytes))
      → (level : List (List ℕ)) (i : ℕ) (h : List ℕ) → Sized sha256 level
      → get_elem? level i ≡ some h
      → (top_node sha256 (build_levels sha256 level)
          ≡ some (climb sha256 h (path_from sha256 (build_levels sha256 level) i)))
        × Sized sha256 (path_from sha256 (build_levels sha256 level) i)
  unfolding build_levels
  built size [] i h z e = cc
  built size (x ∷ xs) i h z e = (
    climb-root sha256 size (length (x ∷ xs)) (x ∷ xs) i h z (omega arith) e,
    path_from-Sized sha256 (levels sha256 (length (x ∷ xs)) (x ∷ xs)) i
        (levels-Sized sha256 size (length (x ∷ xs)) (x ∷ xs) z),
  )

  proof_of-at :
      (t : Tree sha256) (a : String) (i : ℕ)
      → index_of a t.leaves ≡ some i
      → proof_of sha256 t a ≡ some (hex_all sha256 (path_from sha256 t.levels_up i))
  unfolding proof_of
  proof_of-at t a i at = rw (proof_of, at) refl

  root_of-top :
      (t : Tree sha256) (h : List ℕ)
      → top_node sha256 t.levels_up ≡ some h
      → root_of sha256 t ≡ bytes_to_hex h
  unfolding root_of
  root_of-top t h e = rw (root_of, e) refl

  verify_proof-true :
      (a share proof : String) (ps : List String) (h : List ℕ)
      → split_comma proof ≡ ps
      → fold_proof sha256 (leaf_hash sha256 a share) ps ≡ some h
      → verify_proof sha256 a share proof (bytes_to_hex h) ≡ true
  unfolding verify_proof
  verify_proof-true a share proof ps h split e =
      rw (verify_proof, split, e) (beq_refl (bytes_to_hex h))

  -- Where the hash returns 32 bytes, the tree built from any book of shares has a proof for every
  -- account in the book, and the distributor's check accepts that proof, joined by commas as a
  -- claim carries it, for the account and its share's text against the tree's root.
  pub proof_of-accepted :
      ((bytes : List ℕ) → IsHash (sha256 bytes))
      → (shares : List (String × ℤ)) (acct : String) (x : ℤ) → find_share acct shares ≡ some x
      → (ps : List String) × (proof_of sha256 (build_tree sha256 shares) acct ≡ some ps)
        × (verify_proof sha256 acct
              (show_int x)
              (join_comma ps)
              (root_of sha256 (build_tree sha256 shares))
            ≡ true)
  unfolding build_tree
  proof_of-accepted size shares acct x f =
      let (i, at, hash) = placed acct x (sorted shares) (find_share-sorted acct shares ∙ f) in
      let level = leaf_hashes sha256 (leaves_of (sorted shares)) in
      let h = leaf_hash sha256 acct (show_int x) in
      let path = path_from sha256 (build_levels sha256 level) i in
      let (top, z) =
        built size level i h (leaf_hashes-Sized size (leaves_of (sorted shares))) hash in
      let tree = build_tree sha256 shares in
      (
        hex_all sha256 path,
        proof_of-at tree acct i at,
        rw (root_of-top tree (climb sha256 h path) top) (
            verify_proof-true acct (show_int x) (join_comma (hex_all sha256 path))
              (hex_all sha256 path) (climb sha256 h path) (split_comma-join_comma path z)
              (fold_proof-climb h path z)),
      )
