-- ===== src/Common/Maps.antt =====
-- The contract's state entries of one key family, as an association list with a default for a key
-- that was never written. `insert` overwrites; a deleted entry is one that holds the default again.
use mathlib.Core.Path.{◌≡◌, refl}
use mathlib.Core.Logic.{◌≢◌, ◌⊎◌, inl, inr}
use mathlib.Core.List.{List, [], ◌∷◌}
use native.Mathlib.Omega.{arith}
use magi_tokenomics.Common.Tests.{Eq, ◌==◌, if◌then◌else◌, Bool-cases, ne_of_beq}
use magi_tokenomics.Common.Int.{ℤ, pos, ◌+ℤ◌, ◌≤ℤ◌, int_laws, IsNonneg}

abbrev pub Map : Type 0 → Type 0 → Type 0
Map K V = List (K × V)

module _ {K V : Type 0} ⦃e : Eq K⦄ where
  unfoldable pub get : V → K → Map K V → V
  get d k [] = d
  get d k ((j, v) ∷ m) = if k == j then v else get d k m

  unfoldable pub insert : K → V → Map K V → Map K V
  insert k v [] = (k, v) ∷ []
  insert k v ((j, w) ∷ m) = if k == j then (k, v) ∷ m else (j, w) ∷ insert k v m

  pub get-insert :
      (d : V) (j k : K) (v : V) (m : Map K V)
      → get d j (insert k v m) ≡ (if j == k then v else get d j m)
  unfolding get insert
  get-insert d j k v [] = refl
  get-insert d j k v ((i, w) ∷ m) =
      ground (arith, e.beq_iff j k, e.beq_iff k i, e.beq_iff j i, get-insert d j k v m)

-- What is read after a write: the new value at its own key, the old one elsewhere.
pub get-insert-cases :
    {K V : Type 0} ⦃e : Eq K⦄ (d : V) (j k : K) (v : V) (m : Map K V)
    → ((get d j (insert k v m) ≡ v) × (j ≡ k)) ⊎ ((get d j (insert k v m) ≡ get d j m) × (j ≢ k))
get-insert-cases ⦃e⦄ d j k v m = elim (Bool-cases (j == k)) [
  | inl same ↦ inl (rw (get-insert, same) (refl, (e.beq_iff j k).0 same))
  | inr other ↦ inr (rw (get-insert, other) (refl, ne_of_beq j k other))
]

-- The sum of what a map holds, each value measured by `f`.
module _ {K V : Type 0} where
  unfoldable pub sum_by : (V → ℤ) → Map K V → ℤ
  sum_by f [] = pos 0
  sum_by f ((j, v) ∷ m) = f v +ℤ sum_by f m

-- An entry that replaces another changes the sum by the difference.
pub sum_by-insert :
    {K V : Type 0} ⦃e : Eq K⦄ (f : V → ℤ) (d : V) (k : K) (v : V) (m : Map K V)
    → f d ≡ pos 0
    → sum_by f (insert k v m) +ℤ f (get d k m) ≡ sum_by f m +ℤ f v
unfolding sum_by insert get
sum_by-insert f d k v [] z = rw z (omega int_laws)
sum_by-insert f d k v ((j, w) ∷ m) z = grind (int_laws, sum_by-insert f d k v m z)

abbrev pub amount : ℤ → ℤ
amount v = v

-- The state's amounts: a missing entry reads as 0 (`getBig`).
module _ {K : Type 0} ⦃e : Eq K⦄ where
  abbrev pub get_big : K → Map K ℤ → ℤ
  get_big k m = get (pos 0) k m

abbrev pub sum : {K : Type 0} → Map K ℤ → ℤ
sum m = sum_by amount m

pub sum-insert :
    {K : Type 0} ⦃e : Eq K⦄ (k : K) (v : ℤ) (m : Map K ℤ)
    → sum (insert k v m) +ℤ get_big k m ≡ sum m +ℤ v
sum-insert k v m = sum_by-insert amount (pos 0) k v m refl

-- No entry is negative.
abbrev pub AllNonneg : {K : Type 0} → Map K ℤ → Type 0
AllNonneg [] = Unit {0}
AllNonneg ((j, v) ∷ m) = IsNonneg v × AllNonneg m

module _ {K : Type 0} ⦃e : Eq K⦄ where
  pub AllNonneg-insert :
      (k : K) (v : ℤ) (m : Map K ℤ) → IsNonneg v → AllNonneg m → AllNonneg (insert k v m)
  unfolding insert
  AllNonneg-insert k v [] h hs = (h, tt)
  AllNonneg-insert k v ((j, w) ∷ m) h hs = ground (arith, AllNonneg-insert k v m h hs.1)

  pub AllNonneg-get : (k : K) (m : Map K ℤ) → AllNonneg m → IsNonneg (get_big k m)
  unfolding get
  AllNonneg-get k [] hs = omega arith
  AllNonneg-get k ((j, w) ∷ m) hs = ground (arith, AllNonneg-get k m hs.1)

pub AllNonneg-sum : {K : Type 0} (m : Map K ℤ) → AllNonneg m → IsNonneg (sum m)
unfolding sum_by
AllNonneg-sum [] hs = omega arith
AllNonneg-sum ((j, v) ∷ m) hs = omega (int_laws, AllNonneg-sum m hs.1)

-- One entry is at most the sum.
pub get_big-le-sum :
    {K : Type 0} ⦃e : Eq K⦄ (k : K) (m : Map K ℤ) → AllNonneg m → get_big k m ≤ℤ sum m
unfolding get sum_by
get_big-le-sum k [] hs = omega arith
get_big-le-sum k ((j, w) ∷ m) hs = grind (int_laws, get_big-le-sum k m hs.1, AllNonneg-sum m hs.1)
