-- ===== src/Emission/Buckets.antt =====
-- The bucket table that `init` builds, entry by entry.
use magi_tokenomics.Common.{
  ℤ, pos, ◌+ℤ◌, ◌≤ℤ◌, IsNonneg, Bool, true, false, not, ◌||◌, ◌≡◌, ◌≢◌, ◌⊎◌, inl, inr, refl, sym,
  subst, arith, int_laws, le_of_eq, Bool-cases, ne_of_beq, List, [], ◌∷◌, ◌++◌, String, get,
  get-insert, insert, string_eq, ◌==◌, if◌then◌else◌, All, ok, ok_injective, abort_if, require,
  abort_if-eq-ok, >>=-eq-ok, bad_bucket, bad_target, duplicate_bucket, Option, none, some,
}
use text.Mathlib.Text.{starts_with}
use magi_tokenomics.Chain.{validate_addr}
use magi_tokenomics.Emission.State.{BucketDef}
use magi_tokenomics.Emission.Init.{
  BucketText, Table, empty_table, check_target, check_weight, add_bucket, add_buckets,
}
use magi_tokenomics.Emission.Split.{AllWeighed, weights}

-- No bucket of the table has the name.
abbrev pub Fresh : String → List BucketDef → Type 0
Fresh name bs = All (λ b. b.name ≢ name) bs

abbrev pub Distinct : List BucketDef → Type 0
Distinct [] = Unit {0}
Distinct (b ∷ bs) = Fresh b.name bs × Distinct bs

abbrev pub HasName : String → List BucketDef → Type 0
HasName name [] = ⊥
HasName name (b ∷ bs) = (b.name ≡ name) ⊎ HasName name bs

abbrev pub AtMostFull : List BucketDef → Type 0
AtMostFull bs = All (λ b. b.wbps ≤ℤ pos 10000) bs

module _ (b : BucketDef) where
  weights-snoc : (bs : List BucketDef) → weights (bs ++ b ∷ []) ≡ weights bs +ℤ b.wbps
  weights-snoc [] = omega int_laws
  weights-snoc (x ∷ bs) = omega (int_laws, le_of_eq (weights-snoc bs))

  AllWeighed-snoc :
      (bs : List BucketDef) → IsNonneg b.wbps → AllWeighed bs → AllWeighed (bs ++ b ∷ [])
  AllWeighed-snoc [] h hs = (h, tt)
  AllWeighed-snoc (x ∷ bs) h hs = (hs.0, AllWeighed-snoc bs h hs.1)

  All-snoc : (P : BucketDef → Type 0) (bs : List BucketDef) → P b → All P bs → All P (bs ++ b ∷ [])
  All-snoc P [] h hs = (h, tt)
  All-snoc P (x ∷ bs) h hs = (hs.0, All-snoc P bs h hs.1)

  Distinct-snoc : (bs : List BucketDef) → Fresh b.name bs → Distinct bs → Distinct (bs ++ b ∷ [])
  Distinct-snoc [] f d = (tt, tt)
  Distinct-snoc (x ∷ bs) f d =
      (All-snoc (λ y. y.name ≢ x.name) bs (λ e. f.0 (sym e)) d.0, Distinct-snoc bs f.1 d.1)

  HasName-snoc : (bs : List BucketDef) → HasName b.name (bs ++ b ∷ [])
  HasName-snoc [] = inl refl
  HasName-snoc (x ∷ bs) = inr (HasName-snoc bs)

  HasName-weaken :
      (name : String) (bs : List BucketDef) → HasName name bs → HasName name (bs ++ b ∷ [])
  HasName-weaken name [] h = absurd h
  HasName-weaken name (x ∷ bs) (inl e) = inl e
  HasName-weaken name (x ∷ bs) (inr h) = inr (HasName-weaken name bs h)

-- The invariant of the loop over the buckets.
pub record IsTable (self dust : String) (tb : Table) : Type 0 where
  pub summed : tb.total ≡ weights tb.buckets
  pub weighed : AllWeighed tb.buckets
  pub capped : AtMostFull tb.buckets
  pub targets_other : (name : String) → get "" name tb.targets ≢ self
  pub fresh : (name : String) → get "" name tb.targets ≡ "" → Fresh name tb.buckets
  pub distinct : Distinct tb.buckets
  pub dust_named : tb.dust_seen ≡ true → HasName dust tb.buckets

pub empty_table-IsTable : (self dust : String) → self ≢ "" → IsTable self dust empty_table
unfolding get
empty_table-IsTable self dust h = record {
  summed = refl;
  weighed = tt;
  capped = tt;
  targets_other = λ name e. h (sym e);
  fresh = λ name e. tt;
  distinct = tt;
  dust_named = λ e. cc;
}

check_weight_bounds : (o : Option ℤ) (x : ℤ) → check_weight o ≡ ok x → IsNonneg x × (x ≤ℤ pos 10000)
unfolding check_weight
check_weight_bounds none x e = absurd (cc)
check_weight_bounds (some y) x e = ground arith

-- One more bucket, of a new name, with a target that is neither empty nor the contract.
grown-IsTable :
    (self dust name target : String) (x : ℤ) (tb : Table)
    → IsTable self dust tb
    → IsNonneg x × (x ≤ℤ pos 10000)
    → target ≢ self
    → target ≢ ""
    → get "" name tb.targets ≡ ""
    → IsTable self dust (record {
      targets = insert name target tb.targets;
      buckets = tb.buckets ++ record { name = name; wbps = x } ∷ [];
      total = tb.total +ℤ x;
      dust_seen = if name == dust then true else tb.dust_seen;
    })
grown-IsTable self dust name target x tb v bounds other nonempty new =
    let b : BucketDef = record { name = name; wbps = x } in
    record {
      summed = omega (int_laws, le_of_eq v.summed, le_of_eq (weights-snoc b tb.buckets));
      weighed = AllWeighed-snoc b tb.buckets bounds.0 v.weighed;
      capped = All-snoc b (λ y. y.wbps ≤ℤ pos 10000) tb.buckets bounds.1 v.capped;
      targets_other = λ n e. elim (Bool-cases (n == name)) [
        | inl h ↦ other (rw (get-insert, h) at e)
        | inr h ↦ v.targets_other n (rw (get-insert, h) at e)
      ];
      fresh = λ n e. elim (Bool-cases (n == name)) [
        | inl h ↦ absurd (nonempty (rw (get-insert, h) at e))
        | inr h ↦
            All-snoc b (λ y. y.name ≢ n) tb.buckets (λ q. ne_of_beq n name h (sym q))
              (v.fresh n (rw (get-insert, h) at e))
      ];
      distinct = Distinct-snoc b tb.buckets (v.fresh name new) v.distinct;
      dust_named = λ e. elim (Bool-cases (name == dust)) [
        | inl h ↦
            subst (λ (d : String). HasName d (tb.buckets ++ b ∷ []))
              ((string_eq.beq_iff name dust).0 h) (HasName-snoc b tb.buckets)
        | inr h ↦ HasName-weaken b dust tb.buckets (v.dust_named (rw h at e))
      ];
    }

check_target-ne :
    (self target : String) (u : Unit {0}) → check_target self target ≡ ok u → target ≢ self
unfolding check_target
check_target-ne self target u e h =
    let (u1, valid, e1) = >>=-eq-ok (validate_addr target) _ e in
    let (u2, prefixed, e2) =
      >>=-eq-ok
        (require
          (starts_with target "hive:"
            || starts_with target "contract:"
            || starts_with target "did:")
          bad_target)
        _ e1 in
    ground (arith, (string_eq.beq_iff target self).1 h)

second_of_or : (a b : Bool) {P : Type 0} → (a || b) ≡ false → (P → b ≡ true) → ¬ P
second_of_or a b e f h = ground (arith, f h)

not-false : (b : Bool) → not b ≡ false → b ≡ true
not-false b h = ground arith

add_bucket-IsTable :
    (self dust : String) (b : BucketText) (tb tb' : Table)
    → IsTable self dust tb
    → add_bucket self dust b tb ≡ ok tb'
    → IsTable self dust tb'
unfolding add_bucket check_target
add_bucket-IsTable self dust b tb tb' v e =
    let (u1, named, e1) = >>=-eq-ok (abort_if (b.name == "" || b.target == "") bad_bucket) _ e in
    let (u2, aimed, e2) = >>=-eq-ok (check_target self b.target) _ e1 in
    let (x, weighed, e3) = >>=-eq-ok (check_weight b.wbps) _ e2 in
    let (u4, new, e4) =
      >>=-eq-ok (abort_if (not (get "" b.name tb.targets == "")) duplicate_bucket) _ e3 in
    subst (IsTable self dust) (ok_injective e4) (
      grown-IsTable self dust b.name b.target x tb v (check_weight_bounds b.wbps x weighed)
        (check_target-ne self b.target u2 aimed)
        (second_of_or (b.name == "") (b.target == "") (abort_if-eq-ok _ bad_bucket named)
          (string_eq.beq_iff b.target "").1)
        ((string_eq.beq_iff (get "" b.name tb.targets) "").0
          (not-false _ (abort_if-eq-ok _ duplicate_bucket new))))

pub add_buckets-IsTable :
    (self dust : String) (bs : List BucketText) (tb tb' : Table)
    → IsTable self dust tb
    → add_buckets self dust bs tb ≡ ok tb'
    → IsTable self dust tb'
unfolding add_buckets
add_buckets-IsTable self dust [] tb tb' v e = subst (IsTable self dust) (ok_injective e) v
add_buckets-IsTable self dust (b ∷ bs) tb tb' v e =
    let (tb1, one, more) = >>=-eq-ok (add_bucket self dust b tb) _ e in
    add_buckets-IsTable self dust bs tb1 tb' (add_bucket-IsTable self dust b tb tb1 v one) more
