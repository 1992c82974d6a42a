-- ===== src/Sharecore/Tree.antt =====
-- reporter/sharecore/merkle.go: the tree over an epoch's shares, its root and its proofs. The hashes
-- of leaves and nodes are those that the distributor computes.
use magi_tokenomics.Common.{
  ℕ, zero, suc, ◌+◌, ◌-◌, ◌/◌, ◌%◌, ℤ, true, false, String, List, [], ◌∷◌, Option, none, some, ltb,
  nat_beq, ◌==◌, string_eq, if◌then◌else◌, length, get_elem?,
}
use Prim.Native.String.{compare, ◌++◌}
use text.Mathlib.Text.{is_lt}
use magi_tokenomics.Text.Fields.{show_int}
use magi_tokenomics.Merkle.Hex.{bytes_to_hex}
use magi_tokenomics.Merkle.Proof.{leaf_hash, node_hash}

pub record Leaf : Type 0 where
  pub account : String
  pub share : String

-- `sort.Strings` of the map's keys, with the entries that they belong to.
unfoldable pub insert_sorted : String × ℤ → List (String × ℤ) → List (String × ℤ)
insert_sorted e [] = e ∷ []
insert_sorted e (d ∷ ds) =
    let rest = insert_sorted e ds in if is_lt (compare d.0 e.0) then d ∷ rest else e ∷ d ∷ ds

unfoldable pub sorted : List (String × ℤ) → List (String × ℤ)
unfolding insert_sorted
sorted [] = []
sorted (e ∷ es) = insert_sorted e (sorted es)

unfoldable pub leaves_of : List (String × ℤ) → List Leaf
unfolding show_int
leaves_of [] = []
leaves_of (e ∷ es) = record { account = e.0; share = show_int e.1 } ∷ leaves_of es

-- The place of an account's first leaf.
unfoldable pub index_of : String → List Leaf → Option ℕ
index_of a [] = none
index_of a (l ∷ ls) =
    let rest = index_of a ls in
    if l.account == a then some 0 else elim rest [ none ↦ none | some i ↦ some (suc i) ]

-- `idx ^ 1`
unfoldable pub sibling : ℕ → ℕ
sibling i = if nat_beq (i % 2) 0 then i + 1 else i - 1

module _ (sha256 : List ℕ → List ℕ) where
  -- One level from the one below; a last node without a partner is promoted.
  unfoldable pub pair_level : List (List ℕ) → List (List ℕ)
  unfolding node_hash
  pair_level [] = []
  pair_level (x ∷ []) = x ∷ []
  pair_level (x ∷ y ∷ rest) = node_hash sha256 x y ∷ pair_level rest

  -- The levels above a level and itself, until one has a single node.
  unfoldable pub levels : ℕ → List (List ℕ) → List (List (List ℕ))
  unfolding pair_level
  levels zero level = level ∷ []
  levels (suc fuel) level = elim (ltb 1 (length level)) [
    | true ↦ level ∷ levels fuel (pair_level level)
    | false ↦ level ∷ []
  ]

  unfoldable pub leaf_hashes : List Leaf → List (List ℕ)
  unfolding leaf_hash
  leaf_hashes [] = []
  leaf_hashes (l ∷ ls) = leaf_hash sha256 l.account l.share ∷ leaf_hashes ls

  pub record Tree : Type 0 where
    pub leaves : List Leaf
    pub levels_up : List (List (List ℕ))

  -- An empty tree has no levels.
  unfoldable pub build_levels : List (List ℕ) → List (List (List ℕ))
  unfolding levels
  build_levels [] = []
  build_levels (h ∷ hs) = levels (length (h ∷ hs)) (h ∷ hs)

  unfoldable pub build_tree : List (String × ℤ) → Tree
  unfolding sorted leaves_of leaf_hashes build_levels
  build_tree shares =
      let ls = leaves_of (sorted shares) in
      record { leaves = ls; levels_up = build_levels (leaf_hashes ls) }

  -- The first node of the last level.
  unfoldable pub top_node : List (List (List ℕ)) → Option (List ℕ)
  top_node [] = none
  top_node (level ∷ []) = get_elem? level 0
  top_node (level ∷ up ∷ ups) = top_node (up ∷ ups)

  unfoldable pub root_of : Tree → String
  unfolding top_node bytes_to_hex
  root_of t = elim (top_node t.levels_up) [ none ↦ "" | some h ↦ bytes_to_hex h ]

  -- The siblings on the way from a place to the root.
  unfoldable pub path_from : List (List (List ℕ)) → ℕ → List (List ℕ)
  unfolding sibling
  path_from [] i = []
  path_from (level ∷ []) i = []
  path_from (level ∷ up ∷ ups) i =
      let rest = path_from (up ∷ ups) (i / 2) in
      elim (get_elem? level (sibling i)) [ none ↦ rest | some s ↦ s ∷ rest ]

  unfoldable pub hex_all : List (List ℕ) → List String
  unfolding bytes_to_hex
  hex_all [] = []
  hex_all (h ∷ hs) = bytes_to_hex h ∷ hex_all hs

  unfoldable pub proof_of : Tree → String → Option (List String)
  unfolding index_of path_from hex_all
  proof_of t acct = elim (index_of acct t.leaves) [
    | none ↦ none
    | some i ↦ some (hex_all (path_from t.levels_up i))
  ]

-- `strings.Join(proof, ",")` of a claim's payload.
unfoldable pub join_comma : List String → String
join_comma [] = ""
join_comma (p ∷ []) = p
join_comma (p ∷ q ∷ ps) = p ++ ("," ++ join_comma (q ∷ ps))
