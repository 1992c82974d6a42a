-- ===== src/Emission/Allocation.antt =====
-- How an epoch's emission is split over the buckets and recorded as owed.
use magi_tokenomics.Common.{
  ℕ, zero, suc, ◌+◌, ℤ, pos, ◌+ℤ◌, ◌-ℤ◌, ◌*ℤ◌, ◌/ℤ◌, ltb_ℤ, String, List, [], ◌∷◌, Bool, true,
  false, ◌&&◌, leb_ℤ, if◌then◌else◌, Map, get_big, insert, string_eq, nat_eq, pair_eq,
}
use magi_tokenomics.Emission.State.{BucketDef, EmissionCfg, Event, alloc, emit}
use magi_tokenomics.Emission.Schedule.{for_epoch}

-- `amt.Sign() == 0`
unfoldable pub is_zero : ℤ → Bool
is_zero x = leb_ℤ x (pos 0) && leb_ℤ (pos 0) x

-- The `owed|name|epoch` entries and the log, which the split writes.
pub record Book : Type 0 where
  pub owed : Map (String × ℕ) ℤ
  pub log : List Event

unfoldable pub add_owed : String → ℕ → ℤ → Map (String × ℕ) ℤ → Map (String × ℕ) ℤ
add_owed name epoch amt owed =
    if is_zero amt then owed else insert (name, epoch) (get_big (name, epoch) owed +ℤ amt) owed

unfoldable pub log_alloc : String → ℕ → ℤ → Bool → List Event → List Event
log_alloc name epoch amt is_dust log =
    if ltb_ℤ (pos 0) amt then alloc name epoch amt is_dust ∷ log else log

-- minted * wbps / 10000
unfoldable pub slice_of : ℤ → BucketDef → ℤ
slice_of minted b = minted *ℤ b.wbps /ℤ pos 10000

unfoldable pub allocate_slices : ℕ → ℤ → List BucketDef → ℤ → Book → ℤ × Book
allocate_slices epoch minted [] distributed book = (distributed, book)
allocate_slices epoch minted (b ∷ bs) distributed book =
    let slice = slice_of minted b in
    allocate_slices epoch minted bs (distributed +ℤ slice) (record {
      owed = add_owed b.name epoch slice book.owed;
      log = log_alloc b.name epoch slice false book.log;
    })

-- The remainder goes to the dust bucket.
unfoldable pub allocate_dust : ℕ → ℤ → String → Book → Book
allocate_dust epoch rem dust book =
    if ltb_ℤ (pos 0) rem
    then record {
      owed = add_owed dust epoch rem book.owed;
      log = log_alloc dust epoch rem true book.log;
    }
    else book

unfoldable pub record_allocations : ℕ → ℤ → List BucketDef → String → Book → Book
record_allocations epoch minted buckets dust book =
    let (distributed, book') = allocate_slices epoch minted buckets (pos 0) book in
    allocate_dust epoch (minted -ℤ distributed) dust book'

unfoldable pub record_epoch : EmissionCfg → List BucketDef → String → ℕ → Book → Book
unfolding record_allocations
record_epoch c buckets dust ep book =
    let emission = for_epoch c ep in
    let book' =
      if ltb_ℤ (pos 0) emission then record_allocations ep emission buckets dust book else book in
    record book' { log = emit ep emission ∷ book'.log }

-- `for i < plan`: the epochs from `ep` on.
unfoldable pub record_epochs : EmissionCfg → List BucketDef → String → ℕ → ℕ → Book → Book
record_epochs c buckets dust zero ep book = book
record_epochs c buckets dust (suc n) ep book =
    record_epochs c buckets dust n (ep + 1) (record_epoch c buckets dust ep book)
