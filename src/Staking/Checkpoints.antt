-- ===== src/Staking/Checkpoints.antt =====
-- The append-only arrays of "height:amount" entries, `ckpt|i` and `hist|acct|i`, in index order,
-- and the binary search that reads them.
use magi_tokenomics.Common.{
  ℕ, zero, suc, ◌+◌, ◌-◌, ◌/◌, ℤ, pos, List, [], ◌∷◌, Option, none, some, leb, nat_beq,
  if◌then◌else◌,
}
use magi_tokenomics.Chain.{add64}

pub record Ckpt : Type 0 where
  pub height : ℕ
  pub amount : ℤ

-- `appendCkpt` and `appendHist`: an entry of the same height as the last one replaces it.
unfoldable pub append_entry : ℕ → ℤ → List Ckpt → List Ckpt
append_entry h v [] = record { height = h; amount = v } ∷ []
append_entry h v (e ∷ []) =
    if nat_beq e.height h
    then record { height = h; amount = v } ∷ []
    else e ∷ record { height = h; amount = v } ∷ []
append_entry h v (e ∷ f ∷ rest) = e ∷ append_entry h v (f ∷ rest)

-- The loop of `searchVal`: the index found so far, or `none` outside if the fuel ran out.
unfoldable pub search_loop : (ℕ → Option Ckpt) → ℕ → ℕ → ℕ → ℕ → ℕ → Option ℕ → Option (Option ℕ)
search_loop fetch n target zero lo hi found = none
search_loop fetch n target (suc fuel) lo hi found =
    let mid = add64 lo hi / 2 in
    let right = search_loop fetch n target fuel (suc mid) hi (some mid) in
    let left = search_loop fetch n target fuel lo (mid - 1) found in
    if leb lo hi
    then (elim (fetch mid) [
      | none ↦ some found
      | some e ↦
          if leb e.height target
          then (if nat_beq mid (n - 1) then some (some mid) else right)
          else (if nat_beq mid 0 then some found else left)
    ])
    else some found

abbrev pub amount_or_zero : Option Ckpt → ℤ
amount_or_zero none = pos 0
amount_or_zero (some e) = e.amount

unfoldable pub amount_at : (ℕ → Option Ckpt) → Option ℕ → ℤ
amount_at fetch none = pos 0
amount_at fetch (some i) = amount_or_zero (fetch i)

-- The fuel is one round more than there are entries.
unfoldable pub search_val : (ℕ → Option Ckpt) → ℕ → ℕ → Option ℤ
unfolding search_loop amount_at
search_val fetch n target =
    if nat_beq n 0
    then some (pos 0)
    else (elim (search_loop fetch n target (n + 1) 0 (n - 1) none) [
      | none ↦ none
      | some found ↦ some (amount_at fetch found)
    ])

-- A scan in order: the amount before the first entry that is later than the target, or of the
-- last entry.
unfoldable pub value_after : ℤ → ℕ → List Ckpt → ℤ
value_after d target [] = d
value_after d target (e ∷ rest) =
    if leb e.height target then value_after e.amount target rest else d

abbrev pub value_at : ℕ → List Ckpt → ℤ
value_at target entries = value_after (pos 0) target entries
