-- ===== src/Text/Epoch.antt =====
-- `mustEpoch` of c1-staking/contract/main.go, and the same check at the head of `ClaimBucket` in
-- c2-emission/contract/main.go: an epoch index comes as text, which must be a canonical decimal.
use magi_tokenomics.Common.{
  ℕ, ◌+◌, ◌-◌, ◌*◌, Bool, true, false, ◌&&◌, List, [], ◌∷◌, ltb, leb, nat_beq, length, Outcome, ok,
  abort_if, require, ◌>>◌, epoch_required, epoch_not_numeric, epoch_not_canonical,
  epoch_out_of_range,
}

unfoldable pub is_digit : ℕ → Bool
is_digit c = leb 48 c && leb c 57

unfoldable pub all_digits : List ℕ → Bool
all_digits [] = true
all_digits (c ∷ cs) = is_digit c && all_digits cs

-- The number that a run of digits stands for, after a prefix worth `acc`.
unfoldable pub digits_value : ℕ → List ℕ → ℕ
digits_value acc [] = acc
digits_value acc (c ∷ cs) = digits_value (acc * 10 + (c - 48)) cs

unfoldable pub leads_with_zero : List ℕ → Bool
leads_with_zero [] = false
leads_with_zero (c ∷ cs) = nat_beq c 48

-- At most 19 digits, and then `strconv.ParseUint` to 64 bits.
unfoldable pub must_epoch : List ℕ → Outcome ℕ
must_epoch text = do
  require (ltb 0 (length text) && leb (length text) 19) epoch_required
  require (all_digits text) epoch_not_numeric
  abort_if (ltb 1 (length text) && leads_with_zero text) epoch_not_canonical
  require (ltb (digits_value 0 text) 18446744073709551616) epoch_out_of_range
  ok (digits_value 0 text)
