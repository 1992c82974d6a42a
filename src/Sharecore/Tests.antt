-- ===== src/Sharecore/Tests.antt =====
-- The share tree on concrete inputs.
use magi_tokenomics.Common.{
  suc, zero, ℕ, ◌<◌, ◌≡◌, refl, arith, ℤ, pos, true, String, List, [], ◌∷◌, some, All,
}
use magi_tokenomics.Text.Fields.{show_int}
use magi_tokenomics.Merkle.Proof.{verify_proof}
use magi_tokenomics.Merkle.Printed.{IsHash}
use magi_tokenomics.Sharecore.Tree.{build_tree, root_of, proof_of, join_comma}
use magi_tokenomics.Sharecore.Accepted.{proof_of-accepted}
use magi_tokenomics.Distributor.Peers.{toy_sha256, checksum, zeros_then}
use magi_tokenomics.Sharecore.Curve.{
  bit_length, first_guess, int_nth_root, newton, pow, pow_rational, refine, step_down, step_up,
}
use magi_tokenomics.Sharecore.Roots.{IsRoot, Returns, int_nth_root-IsRoot, pow_rational-IsRoot}

checksum-byte : (xs : List ℕ) → checksum xs < 256
unfolding checksum
checksum-byte [] = omega arith
checksum-byte (x ∷ xs) = omega arith

zeros_then-bytes : (n c : ℕ) → c < 256 → All (λ b. b < 256) (zeros_then (c ∷ []) n)
unfolding zeros_then
zeros_then-bytes zero c l = (l, tt)
zeros_then-bytes (suc n) c l = (omega arith, zeros_then-bytes n c l)

toy_sha256-IsHash : (bytes : List ℕ) → IsHash (toy_sha256 bytes)
unfolding toy_sha256 zeros_then
toy_sha256-IsHash bytes = (refl, zeros_then-bytes 31 (checksum bytes) (checksum-byte bytes))

abbrev book : List (String × ℤ)
book = ("hive:bob", pos 7) ∷ ("hive:alice", pos 60) ∷ ("hive:carol", pos 5) ∷ []

proof_of-accepted_example :
    (ps : List String) × (proof_of toy_sha256 (build_tree toy_sha256 book) "hive:carol" ≡ some ps)
    × (verify_proof toy_sha256 "hive:carol"
          (show_int (pos 5))
          (join_comma ps)
          (root_of toy_sha256 (build_tree toy_sha256 book))
        ≡ true)
proof_of-accepted_example =
    proof_of-accepted toy_sha256 toy_sha256-IsHash book "hive:carol" (pos 5) refl

int_nth_root-IsRoot_example : Returns (int_nth_root 1001 3) (IsRoot 3 1001)
int_nth_root-IsRoot_example = int_nth_root-IsRoot 1001 3 (omega arith)

cube_root : int_nth_root 1001 3 ≡ some 10
unfolding int_nth_root refine newton step_down step_up first_guess pow bit_length
cube_root = refl

pow_rational-IsRoot_example : Returns (pow_rational 16 7 4) (IsRoot 4 (pow 16 7))
pow_rational-IsRoot_example = pow_rational-IsRoot 16 7 4 (omega arith) (omega arith)

seven_quarters : pow_rational 16 7 4 ≡ some 128
unfolding pow_rational int_nth_root refine newton step_down step_up first_guess pow bit_length
seven_quarters = refl
