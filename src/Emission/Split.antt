-- ===== src/Emission/Split.antt =====
-- How much of an epoch's emission the split of c2-emission/contract/main.go hands out.
use magi_tokenomics.Common.{
  ℕ, ◌*◌, ◌≤◌, ℤ, pos, pos_part, ◌+ℤ◌, ◌-ℤ◌, ◌≤ℤ◌, IsNonneg, ltb_ℤ, ◌&&◌, nat_beq, ◌≡◌, ◌∙◌, inl,
  inr, arith, int_laws, le_of_eq, share_bounds, +ℤ_assoc, zero-+ℤ, Bool-cases, List, [], ◌∷◌,
  String, Map, sum, sum-insert, get_big, get-insert, string_eq, nat_eq, pair_eq, ◌==◌,
  if◌then◌else◌, pos_part-+ℤ, neg_part-zero, mul_le_left, nat_beq_iff,
}
use magi_tokenomics.Emission.State.{BucketDef}
use magi_tokenomics.Emission.Allocation.{
  is_zero, Book, add_owed, slice_of, allocate_slices, allocate_dust, record_allocations,
}

-- What the buckets of a table get together, and each name of it, before the remainder.
abbrev pub slices : ℤ → List BucketDef → ℤ
slices minted [] = pos 0
slices minted (b ∷ bs) = slice_of minted b +ℤ slices minted bs

abbrev pub slices_of : String → ℤ → List BucketDef → ℤ
slices_of name minted [] = pos 0
slices_of name minted (b ∷ bs) =
    (if name == b.name then slice_of minted b else pos 0) +ℤ slices_of name minted bs

abbrev pub weights : List BucketDef → ℤ
weights [] = pos 0
weights (b ∷ bs) = b.wbps +ℤ weights bs

-- No weight is negative.
abbrev pub AllWeighed : List BucketDef → Type 0
AllWeighed [] = Unit {0}
AllWeighed (b ∷ bs) = IsNonneg b.wbps × AllWeighed bs

pub sum-add_owed :
    (name : String) (epoch : ℕ) (amt : ℤ) (owed : Map (String × ℕ) ℤ)
    → sum (add_owed name epoch amt owed) ≡ sum owed +ℤ amt
unfolding add_owed is_zero
sum-add_owed name epoch amt owed = elim (Bool-cases (is_zero amt)) [
  | inl e ↦ rw e (grind int_laws)
  | inr e ↦ rw e (
      omega
        (int_laws, le_of_eq (sum-insert (name, epoch) (get_big (name, epoch) owed +ℤ amt) owed)))
]

pub get-add_owed :
    (name bucket : String) (epoch ep : ℕ) (amt : ℤ) (owed : Map (String × ℕ) ℤ)
    → get_big (bucket, ep) (add_owed name epoch amt owed)
      ≡ get_big (bucket, ep) owed +ℤ (if bucket == name && nat_beq ep epoch then amt else pos 0)
unfolding add_owed is_zero
get-add_owed name bucket epoch ep amt owed = elim (Bool-cases (is_zero amt)) [
  | inl e ↦ rw e (grind int_laws)
  | inr e ↦
      rw e (rw get-insert (grind (int_laws, string_eq.beq_iff bucket name, nat_beq_iff ep epoch)))
]

pub sum-allocate_slices :
    (epoch : ℕ) (minted : ℤ) (bs : List BucketDef) (d : ℤ) (book : Book)
    → let (d', book') = allocate_slices epoch minted bs d book in
      (d' ≡ d +ℤ slices minted bs) × (sum book'.owed ≡ sum book.owed +ℤ slices minted bs)
unfolding allocate_slices
sum-allocate_slices epoch minted [] d book = (omega int_laws, omega int_laws)
sum-allocate_slices epoch minted (b ∷ bs) d book =
    let (p, q) = sum-allocate_slices epoch minted bs (d +ℤ slice_of minted b) _ in
    (
      p ∙ +ℤ_assoc d (slice_of minted b) (slices minted bs),
      q ∙ rw sum-add_owed (+ℤ_assoc (sum book.owed) (slice_of minted b) (slices minted bs)),
    )

pub get-allocate_slices :
    (epoch : ℕ) (minted : ℤ) (bs : List BucketDef) (d : ℤ) (book : Book) (name : String) (ep : ℕ)
    → get_big (name, ep) (allocate_slices epoch minted bs d book).1.owed
      ≡ get_big (name, ep) book.owed
        +ℤ (if nat_beq ep epoch then slices_of name minted bs else pos 0)
unfolding allocate_slices
get-allocate_slices epoch minted [] d book name ep = grind int_laws
get-allocate_slices epoch minted (b ∷ bs) d book name ep =
    get-allocate_slices epoch minted bs (d +ℤ slice_of minted b) _ name ep
    ∙ rw get-add_owed (grind int_laws)

pub slice_bounds :
    (minted : ℤ) (b : BucketDef)
    → IsNonneg minted
    → IsNonneg b.wbps
    → IsNonneg (slice_of minted b)
      × (pos_part (slice_of minted b) * 10000 ≤ pos_part minted * pos_part b.wbps)
unfolding slice_of
slice_bounds minted b h k = share_bounds minted b.wbps 10000 (omega arith) h k

slices_bounds :
    (minted : ℤ) (bs : List BucketDef)
    → IsNonneg minted
    → AllWeighed bs
    → IsNonneg (slices minted bs)
      × IsNonneg (weights bs)
      × (pos_part (slices minted bs) * 10000 ≤ pos_part minted * pos_part (weights bs))
slices_bounds minted [] h k = (omega arith, omega arith, omega arith)
slices_bounds minted (b ∷ bs) h k =
    let (p, q, r) = slices_bounds minted bs h k.1 in
    let (u, v) = slice_bounds minted b h k.0 in
    (omega int_laws, omega int_laws, rw (pos_part-+ℤ _ _ u p, pos_part-+ℤ _ _ k.0 q) (omega arith))

-- With weights that sum to at most 10000, the slices together are at most what is split.
pub slices-le :
    (minted : ℤ) (bs : List BucketDef)
    → IsNonneg minted
    → AllWeighed bs
    → weights bs ≤ℤ pos 10000
    → slices minted bs ≤ℤ minted
slices-le minted bs h k full =
    let (p, q, r) = slices_bounds minted bs h k in
    omega (
      arith,
      mul_le_left (pos_part minted) (pos_part (weights bs)) 10000
          (omega (arith, neg_part-zero _ q)),
      neg_part-zero minted h,
    )

sum-allocate_dust :
    (epoch : ℕ) (rem : ℤ) (dust : String) (book : Book)
    → IsNonneg rem
    → sum (allocate_dust epoch rem dust book).owed ≡ sum book.owed +ℤ rem
unfolding allocate_dust
sum-allocate_dust epoch rem dust book h = elim (Bool-cases (ltb_ℤ (pos 0) rem)) [
  | inl e ↦ rw e (sum-add_owed dust epoch rem book.owed)
  | inr e ↦ rw e (grind int_laws)
]

get-allocate_dust :
    (epoch : ℕ) (rem : ℤ) (dust : String) (book : Book) (name : String) (ep : ℕ)
    → IsNonneg rem
    → get_big (name, ep) (allocate_dust epoch rem dust book).owed
      ≡ get_big (name, ep) book.owed
        +ℤ (if nat_beq ep epoch then (if name == dust then rem else pos 0) else pos 0)
unfolding allocate_dust
get-allocate_dust epoch rem dust book name ep h = elim (Bool-cases (ltb_ℤ (pos 0) rem)) [
  | inl e ↦ rw e (rw get-add_owed (grind int_laws))
  | inr e ↦ rw e (grind int_laws)
]

-- One bucket's part of the split: its weighted slices, and what is left over if it is the dust
-- bucket.
abbrev pub part_of : String → ℤ → List BucketDef → String → ℤ
part_of name minted bs dust =
    slices_of name minted bs +ℤ (if name == dust then minted -ℤ slices minted bs else pos 0)

module _ (epoch : ℕ) (minted : ℤ) (bs : List BucketDef) (dust : String) (h : IsNonneg minted)
    (k : AllWeighed bs) (full : weights bs ≤ℤ pos 10000) (book : Book) where
  pub rest-IsNonneg : IsNonneg (minted -ℤ (allocate_slices epoch minted bs (pos 0) book).0)
  rest-IsNonneg =
      rw ((sum-allocate_slices epoch minted bs (pos 0) book).0, zero-+ℤ)
        (omega (int_laws, slices-le minted bs h k full))

  -- Splitting an amount that is not negative over a bucket table whose weights are not negative
  -- and sum to at most 10000 raises the sum of the owed entries by exactly that amount.
  pub sum-record_allocations :
      sum (record_allocations epoch minted bs dust book).owed ≡ sum book.owed +ℤ minted
  unfolding record_allocations
  sum-record_allocations =
      let (p, q) = sum-allocate_slices epoch minted bs (pos 0) book in
      sum-allocate_dust epoch _ dust _ rest-IsNonneg ∙ rw (q, p, zero-+ℤ) (omega int_laws)

  pub get-record_allocations :
      (name : String) (ep : ℕ)
      → get_big (name, ep) (record_allocations epoch minted bs dust book).owed
        ≡ get_big (name, ep) book.owed
          +ℤ (if nat_beq ep epoch then part_of name minted bs dust else pos 0)
  unfolding record_allocations
  get-record_allocations name ep =
      let (p, q) = sum-allocate_slices epoch minted bs (pos 0) book in
      get-allocate_dust epoch _ dust _ name ep rest-IsNonneg
      ∙ rw (get-allocate_slices epoch minted bs (pos 0) book name ep, p, zero-+ℤ) (grind int_laws)
