-- ===== src/Merkle/Proof.antt =====
-- The share book's commitment: tagged leaf and node hashes and the check of an inclusion proof.
-- `sha256` is crypto/sha256's Sum256, on bytes.
use magi_tokenomics.Common.{
  ℕ, Bool, false, String, List, [], ◌∷◌, ◌++◌, Option, none, some, ltb, nat_beq, ◌==◌, string_eq,
  if◌then◌else◌,
}
use magi_tokenomics.Text.Fields.{codes, split_comma}
use magi_tokenomics.Merkle.Hex.{hex_to_bytes, bytes_to_hex}

-- The first difference decides.
unfoldable pub less_hash : List ℕ → List ℕ → Bool
less_hash [] b = false
less_hash (x ∷ a) [] = false
less_hash (x ∷ a) (y ∷ b) = if nat_beq x y then less_hash a b else ltb x y

module _ (sha256 : List ℕ → List ℕ) where
  unfoldable pub leaf_hash : String → String → List ℕ
  unfolding codes
  leaf_hash acct share = sha256 (0 ∷ codes acct ++ 124 ∷ codes share)

  unfoldable pub node_hash : List ℕ → List ℕ → List ℕ
  unfolding less_hash
  node_hash a b = sha256 (1 ∷ (if less_hash a b then a ++ b else b ++ a))

  -- The hash that a leaf's siblings lead to; `none` where one is not a hash.
  unfoldable pub fold_proof : List ℕ → List String → Option (List ℕ)
  unfolding node_hash hex_to_bytes
  fold_proof h [] = some h
  fold_proof h (p ∷ ps) = elim (hex_to_bytes p) [
    | none ↦ none
    | some sib ↦ fold_proof (node_hash h sib) ps
  ]

  unfoldable pub verify_proof : String → String → String → String → Bool
  unfolding leaf_hash fold_proof split_comma bytes_to_hex
  verify_proof acct share proof root =
      elim (fold_proof (leaf_hash acct share) (split_comma proof)) [
        | none ↦ false
        | some h ↦ bytes_to_hex h == root
      ]
