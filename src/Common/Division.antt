-- ===== src/Common/Division.antt =====
-- Products and quotients of `big.Int`, with the laws of rounding down.
use Prim.Native.Nat.{ℕ, zero, suc, ◌+◌, ◌*◌, ◌/◌, ◌≤◌, ◌<◌}
use mathlib.Core.Path.{◌≡◌, refl}
use native.Mathlib.Omega.{arith}
use magi_tokenomics.Common.Int.{
  ℤ, pos, negsuc, pos_part, neg_part, sub_ℕ, ◌+ℤ◌, ◌≤ℤ◌, IsNonneg, neg_part-zero,
}

infixl 70 ◌*ℤ◌ ◌/ℤ◌
unfoldable pub ◌*ℤ◌ : ℤ → ℤ → ℤ
a *ℤ b =
    sub_ℕ (pos_part a * pos_part b + neg_part a * neg_part b)
      (pos_part a * neg_part b + neg_part a * pos_part b)

-- `Div` rounds down at a positive divisor and is Euclidean; no code divides by zero.
unfoldable pub ◌/ℤ◌ : ℤ → ℤ → ℤ
a /ℤ pos zero = pos 0
pos n /ℤ pos (suc d) = pos (n / suc d)
negsuc n /ℤ pos (suc d) = negsuc (n / suc d)
pos n /ℤ negsuc d = sub_ℕ 0 (n / suc d)
negsuc n /ℤ negsuc d = pos (suc (n / suc d))

-- On amounts that are not negative these are the operations of ℕ.
pub *ℤ-pos : (m n : ℕ) → pos m *ℤ pos n ≡ pos (m * n)
unfolding ◌*ℤ◌
*ℤ-pos m n = ground arith

pub pos_of_nonneg : (a : ℤ) → IsNonneg a → a ≡ pos (pos_part a)
pos_of_nonneg (pos n) h = refl
pos_of_nonneg (negsuc n) h = absurd (omega arith)

pub suc-*ℤ : (n : ℕ) (e : ℤ) → pos (suc n) *ℤ e ≡ pos n *ℤ e +ℤ e
unfolding ◌*ℤ◌ ◌+ℤ◌
suc-*ℤ n e = ground arith

pub add_one-*ℤ : (n : ℕ) (e : ℤ) → pos (n + 1) *ℤ e ≡ pos n *ℤ e +ℤ e
unfolding ◌*ℤ◌ ◌+ℤ◌
add_one-*ℤ n e = ground arith

pub /ℤ-floor : (n d : ℕ) → 0 < d → pos_part (pos n /ℤ pos d) * d ≤ n
unfolding ◌/ℤ◌
/ℤ-floor n zero h = absurd (omega arith)
/ℤ-floor n (suc d) h = grind arith

pub /ℤ-IsNonneg : (n d : ℕ) → IsNonneg (pos n /ℤ pos d)
unfolding ◌/ℤ◌
/ℤ-IsNonneg n zero = omega arith
/ℤ-IsNonneg n (suc d) = omega arith

-- A share a * b / d of amounts that are not negative, rounded down.
pub share_bounds :
    (a b : ℤ) (d : ℕ)
    → 0 < d
    → IsNonneg a
    → IsNonneg b
    → IsNonneg (a *ℤ b /ℤ pos d) × (pos_part (a *ℤ b /ℤ pos d) * d ≤ pos_part a * pos_part b)
share_bounds (pos m) (pos n) d p h k = rw (*ℤ-pos m n) (/ℤ-IsNonneg (m * n) d, /ℤ-floor (m * n) d p)
share_bounds (pos m) (negsuc n) d p h k = absurd (omega arith)
share_bounds (negsuc m) b d p h k = absurd (omega arith)

pub mul_le_left : (a b c : ℕ) → b ≤ c → a * b ≤ a * c
mul_le_left a b c h = grind arith

pub zero-*ℤ : (e : ℤ) → pos 0 *ℤ e ≡ pos 0
unfolding ◌*ℤ◌
zero-*ℤ e = ground arith

pub *ℤ-IsNonneg : (n : ℕ) (e : ℤ) → IsNonneg e → IsNonneg (pos n *ℤ e)
*ℤ-IsNonneg n (pos m) h = rw (*ℤ-pos n m) (omega arith)
*ℤ-IsNonneg n (negsuc m) h = absurd (omega arith)

le_of_scaled : (k m b d : ℕ) → 0 < d → b ≤ d → k * d ≤ m * b → k ≤ m
le_of_scaled k m b d p l f = grind (arith, mul_le_left m b d l, mul_le_left d (m + 1) k)

-- A share of at most the whole.
pub share_within :
    (a : ℤ) (b d : ℕ)
    → 0 < d
    → b ≤ d
    → IsNonneg a
    → IsNonneg (a *ℤ pos b /ℤ pos d) × (a *ℤ pos b /ℤ pos d ≤ℤ a)
share_within a b d p l n =
    let (nonneg, floor) = share_bounds a (pos b) d p n (omega arith) in
    (nonneg, of_parts (a *ℤ pos b /ℤ pos d) a (le_of_scaled _ _ b d p l floor) nonneg n)
  where
    of_parts : (x y : ℤ) → pos_part x ≤ pos_part y → IsNonneg x → IsNonneg y → x ≤ℤ y
    of_parts x y h m k = omega (arith, neg_part-zero x m, neg_part-zero y k)
