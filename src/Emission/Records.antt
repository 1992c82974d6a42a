-- ===== src/Emission/Records.antt =====
-- What a catch-up of several epochs adds to the books.
use magi_tokenomics.Common.{
  ℕ, zero, suc, ◌+◌, ℤ, pos, ◌+ℤ◌, ◌*ℤ◌, ◌≤ℤ◌, IsNonneg, ltb_ℤ, ◌≡◌, ◌∙◌, inl, inr, arith, int_laws,
  le_of_eq, suc-*ℤ, zero-*ℤ, Bool-cases, List, [], ◌∷◌, String, Map, sum, string_eq, nat_eq,
  pair_eq, AllNonneg, AllNonneg-insert, AllNonneg-get,
}
use magi_tokenomics.Emission.State.{BucketDef, EmissionCfg}
use magi_tokenomics.Emission.Schedule.{for_epoch}
use magi_tokenomics.Emission.Allocation.{
  is_zero, Book, add_owed, slice_of, allocate_slices, allocate_dust, record_allocations,
  record_epoch, record_epochs,
}
use magi_tokenomics.Emission.Split.{
  AllWeighed, weights, sum-record_allocations, slice_bounds, rest-IsNonneg,
}

AllNonneg-add_owed :
    (name : String) (ep : ℕ) (amt : ℤ) (owed : Map (String × ℕ) ℤ)
    → IsNonneg amt
    → AllNonneg owed
    → AllNonneg (add_owed name ep amt owed)
unfolding add_owed
AllNonneg-add_owed name ep amt owed h hs = elim (Bool-cases (is_zero amt)) [
  | inl e ↦ rw e hs
  | inr e ↦
      rw e
        (AllNonneg-insert (name, ep) _ owed (omega (int_laws, AllNonneg-get (name, ep) owed hs)) hs)
]

AllNonneg-allocate_slices :
    (epoch : ℕ) (minted : ℤ) (bs : List BucketDef) (d : ℤ) (book : Book)
    → IsNonneg minted
    → AllWeighed bs
    → AllNonneg book.owed
    → AllNonneg (allocate_slices epoch minted bs d book).1.owed
unfolding allocate_slices
AllNonneg-allocate_slices epoch minted [] d book h k hs = hs
AllNonneg-allocate_slices epoch minted (b ∷ bs) d book h k hs =
    AllNonneg-allocate_slices epoch minted bs _ _ h k.1 (
      AllNonneg-add_owed b.name epoch (slice_of minted b) book.owed (slice_bounds minted b h k.0).0
        hs)

AllNonneg-record_allocations :
    (epoch : ℕ) (minted : ℤ) (bs : List BucketDef) (dust : String) (book : Book)
    → IsNonneg minted
    → AllWeighed bs
    → weights bs ≤ℤ pos 10000
    → AllNonneg book.owed
    → AllNonneg (record_allocations epoch minted bs dust book).owed
unfolding record_allocations allocate_dust
AllNonneg-record_allocations epoch minted bs dust book h k full hs = ground (
  arith,
  rest-IsNonneg epoch minted bs dust h k full book,
  AllNonneg-allocate_slices epoch minted bs (pos 0) book h k hs,
  AllNonneg-add_owed dust epoch _ _ (rest-IsNonneg epoch minted bs dust h k full book)
      (AllNonneg-allocate_slices epoch minted bs (pos 0) book h k hs),
)

-- What a catch-up of `n` epochs adds to the books.
pub record Records (owed owed' : Map (String × ℕ) ℤ) (drawn : ℤ) : Type 0 where
  pub total : sum owed' ≡ sum owed +ℤ drawn
  pub nonneg : AllNonneg owed → AllNonneg owed'

module _ (c : EmissionCfg) (bs : List BucketDef) (dust : String) (h : IsNonneg (for_epoch c 0))
    (k : AllWeighed bs) (full : weights bs ≤ℤ pos 10000) where
  record_epoch-Records :
      (ep : ℕ) (book : Book)
      → Records book.owed (record_epoch c bs dust ep book).owed (for_epoch c 0)
  unfolding record_epoch for_epoch
  record_epoch-Records ep book = elim (Bool-cases (ltb_ℤ (pos 0) (for_epoch c 0))) [
    | inl e ↦ rw e (record {
      total = sum-record_allocations ep (for_epoch c 0) bs dust h k full book;
      nonneg = AllNonneg-record_allocations ep (for_epoch c 0) bs dust book h k full;
    })
    | inr e ↦ rw e (record { total = grind int_laws; nonneg = λ hs. hs })
  ]

  pub record_epochs-Records :
      (n ep : ℕ) (book : Book)
      → Records book.owed (record_epochs c bs dust n ep book).owed (pos n *ℤ for_epoch c 0)
  unfolding record_epochs
  record_epochs-Records zero ep book = record {
    total = rw zero-*ℤ (omega int_laws);
    nonneg = λ hs. hs;
  }
  record_epochs-Records (suc n) ep book =
      let one = record_epoch-Records ep book in
      let more = record_epochs-Records n (ep + 1) (record_epoch c bs dust ep book) in
      record {
        total =
            more.total ∙ omega (int_laws, le_of_eq one.total, le_of_eq (suc-*ℤ n (for_epoch c 0)));
        nonneg = λ hs. more.nonneg (one.nonneg hs);
      }
