-- ===== src/Distributor/Covered.antt =====
-- What the distributor owes: each epoch's funding that is not yet paid, and each channel's pool.
use magi_tokenomics.Common.{
  ℕ, ◌≤◌, ℤ, pos, ◌+ℤ◌, ◌-ℤ◌, ◌≤ℤ◌, int_laws, le_of_eq, IsNonneg, Bool, true, false, ◌&&◌, ◌≡◌,
  refl, inl, inr, arith, leb, String, string_eq, pair_eq, Map, get, get_big, insert,
  get-insert-cases, sum, sum_by, sum_by-insert, sum-insert, AllNonneg, AllNonneg-insert,
  AllNonneg-get,
}
use magi_tokenomics.Distributor.State.{
  Epoch, Key, Status, new_epoch, open_epoch, finalized, cancelled,
}
use magi_tokenomics.Distributor.Funding.{is_open}
use magi_tokenomics.Distributor.Claim.{is_finalized}

abbrev pub residual : Epoch → ℤ
residual e = e.funded -ℤ e.paid

residual-new : residual new_epoch ≡ pos 0
residual-new = omega int_laws

-- Claims are open.
abbrev pub is_claimable : ℕ → Epoch → Bool
is_claimable now e = is_finalized e.status && leb e.chal now

-- Nothing is paid before claims open, nor more than was funded.
pub record Settled (now : ℕ) (e : Epoch) : Type 0 where
  pub nonneg : IsNonneg e.paid
  pub within : e.paid ≤ℤ e.funded
  pub early : is_claimable now e ≡ false → e.paid ≡ pos 0

pub record Covered (now : ℕ) (epochs : Map Key Epoch) (pools : Map String ℤ) (held : ℤ)
    : Type 0 where
  pub covered : sum_by residual epochs +ℤ sum pools ≤ℤ held
  pub settled : (k : Key) → Settled now (get new_epoch k epochs)
  pub pooled : AllNonneg pools

pub Settled-new : (now : ℕ) → Settled now new_epoch
Settled-new now = record { nonneg = omega arith; within = omega arith; early = λ h. refl }

pub Settled-later : (now h : ℕ) (e : Epoch) → now ≤ h → Settled now e → Settled h e
Settled-later now h e l v = record {
  nonneg = v.nonneg;
  within = v.within;
  early = λ q. v.early (earlier e.status q);
}
  where
    earlier :
        (s : Status)
        → is_finalized s && leb e.chal h ≡ false
        → is_finalized s && leb e.chal now ≡ false
    earlier open_epoch q = refl
    earlier cancelled q = refl
    earlier finalized q = ground arith

-- An open epoch has paid nothing.
pub Settled-open : (now : ℕ) (e : Epoch) → Settled now e → is_open e.status ≡ true → e.paid ≡ pos 0
Settled-open now e v o = v.early (closed e.status o)
  where
    closed : (s : Status) → is_open s ≡ true → is_finalized s && leb e.chal now ≡ false
    closed open_epoch q = refl
    closed finalized q = cc
    closed cancelled q = cc

pub Covered-later :
    (now h : ℕ) (es : Map Key Epoch) (ps : Map String ℤ) (held : ℤ)
    → now ≤ h
    → Covered now es ps held
    → Covered h es ps held
Covered-later now h es ps held l v = record {
  covered = v.covered;
  settled = λ k. Settled-later now h (get new_epoch k es) l (v.settled k);
  pooled = v.pooled;
}

insert-Settled :
    (now : ℕ) (es : Map Key Epoch) (k : Key) (e : Epoch)
    → Settled now e
    → ((j : Key) → Settled now (get new_epoch j es))
    → (j : Key) → Settled now (get new_epoch j (insert k e es))
insert-Settled now es k e v vs j = elim (get-insert-cases new_epoch j k e es) [
  | inl (set, _) ↦ rw set v
  | inr (kept, _) ↦ rw kept (vs j)
]

-- An epoch whose residual changes by what the contract's balance changes by.
pub Covered-set :
    (now : ℕ) (es : Map Key Epoch) (ps : Map String ℤ) (held x : ℤ) (k : Key) (e : Epoch)
    → Settled now e
    → residual e ≡ residual (get new_epoch k es) +ℤ x
    → Covered now es ps held
    → Covered now (insert k e es) ps (held +ℤ x)
Covered-set now es ps held x k e s r v = record {
  covered = omega (
    int_laws,
    v.covered,
    le_of_eq r,
    le_of_eq (sum_by-insert residual new_epoch k e es residual-new),
  );
  settled = insert-Settled now es k e s v.settled;
  pooled = v.pooled;
}

-- An epoch that gives all its residual to a pool.
pub Covered-roll :
    (now : ℕ) (es : Map Key Epoch) (ps : Map String ℤ) (held x : ℤ) (k : Key) (e : Epoch)
    (ch : String)
    → Settled now e
    → residual e ≡ pos 0
    → residual (get new_epoch k es) ≡ x
    → IsNonneg x
    → Covered now es ps held
    → Covered now (insert k e es) (insert ch (get_big ch ps +ℤ x) ps) held
Covered-roll now es ps held x k e ch s r q n v =
    let moved = get_big ch ps +ℤ x in
    record {
      covered = omega (
        int_laws,
        v.covered,
        le_of_eq r,
        le_of_eq q,
        le_of_eq (sum_by-insert residual new_epoch k e es residual-new),
        le_of_eq (sum-insert ch moved ps),
      );
      settled = insert-Settled now es k e s v.settled;
      pooled =
          AllNonneg-insert ch moved ps (omega (int_laws, n, AllNonneg-get ch ps v.pooled)) v.pooled;
    }

-- A pool that is paid out.
pub Covered-sweep :
    (now : ℕ) (es : Map Key Epoch) (ps : Map String ℤ) (held : ℤ) (ch : String)
    → Covered now es ps held
    → Covered now es (insert ch (pos 0) ps) (held -ℤ get_big ch ps)
Covered-sweep now es ps held ch v = record {
  covered = omega (int_laws, v.covered, le_of_eq (sum-insert ch (pos 0) ps));
  settled = v.settled;
  pooled = AllNonneg-insert ch (pos 0) ps (omega arith) v.pooled;
}
