-- ===== src/Emission/Entries.antt =====
-- What a poke writes under each `owed|name|epoch`.
use magi_tokenomics.Common.{
  ℕ, zero, suc, ◌+◌, ◌-◌, ◌/◌, ◌<◌, ◌≤◌, ℤ, pos, ◌+ℤ◌, ◌≤ℤ◌, ◌<ℤ◌, ltb_ℤ, Bool, true, false, ◌&&◌,
  ◌≡◌, ◌∙◌, refl, subst, inl, inr, subst₂, le_of_eq, *ℤ-IsNonneg, ◌⊎◌, arith, int_laws, Bool-cases,
  List, String, get_big, string_eq, nat_eq, pair_eq, if◌then◌else◌, nat_beq, ltb, leb, ok, ok_pair,
  >>=-eq-ok,
}
use native.Mathlib.Nat.{div-le_self}
use magi_tokenomics.Chain.{Env, World, add64, sub64}
use magi_tokenomics.Adapter.{Token}
use magi_tokenomics.Emission.State.{State, BucketDef, EmissionCfg, Event}
use magi_tokenomics.Emission.Schedule.{for_epoch, Plan}
use magi_tokenomics.Emission.Allocation.{Book, record_epoch, record_epochs}
use magi_tokenomics.Emission.Poke.{
  Report, plan_poke, record_plan, run_plan, pull_plan, report_nothing, distribute_epoch, next_epoch,
  elapsed_epochs, catch_limit, available,
}
use magi_tokenomics.Emission.Claim.{owed_of}
use magi_tokenomics.Emission.Split.{AllWeighed, weights, part_of, get-record_allocations}
use magi_tokenomics.Emission.PokeCases.{plan_poke-IsMaximal, distribute_epoch-cases}
use magi_tokenomics.Emission.Catchup.{IsMaximal}
use magi_tokenomics.Emission.Solvency.{pull_plan_lem}
use magi_tokenomics.Emission.Configured.{IsConfigured}

-- Epochs e0 to e0 + n - 1.
abbrev pub in_window : ℕ → ℕ → ℕ → Bool
in_window e0 n ep = leb e0 ep && ltb ep (e0 + n)

empty_window : (a x : ℤ) (e0 ep : ℕ) → a ≡ a +ℤ (if in_window e0 0 ep then x else pos 0)
empty_window a x e0 ep = grind int_laws

join_window :
    (a x : ℤ) (e0 ep n : ℕ)
    → a +ℤ (if nat_beq ep e0 then x else pos 0) +ℤ (if in_window (e0 + 1) n ep then x else pos 0)
      ≡ a +ℤ (if in_window e0 (suc n) ep then x else pos 0)
join_window a x e0 ep n = grind int_laws

module _ (c : EmissionCfg) (bs : List BucketDef) (dust : String) (h : pos 0 <ℤ for_epoch c 0)
    (k : AllWeighed bs) (full : weights bs ≤ℤ pos 10000) (name : String) (ep : ℕ) where
  get-record_epoch :
      (e0 : ℕ) (book : Book)
      → get_big (name, ep) (record_epoch c bs dust e0 book).owed
        ≡ get_big (name, ep) book.owed
          +ℤ (if nat_beq ep e0 then part_of name (for_epoch c 0) bs dust else pos 0)
  unfolding record_epoch for_epoch
  get-record_epoch e0 book =
      let e : ltb_ℤ (pos 0) (for_epoch c 0) ≡ true = ground arith in
      rw e
        (get-record_allocations e0 (for_epoch c 0) bs dust (omega (arith, h)) k full book name ep)

  pub get-record_epochs :
      (n e0 : ℕ) (book : Book)
      → get_big (name, ep) (record_epochs c bs dust n e0 book).owed
        ≡ get_big (name, ep) book.owed
          +ℤ (if in_window e0 n ep then part_of name (for_epoch c 0) bs dust else pos 0)
  unfolding record_epochs
  get-record_epochs zero e0 book = empty_window _ _ e0 ep
  get-record_epochs (suc n) e0 book =
      get-record_epochs n (e0 + 1) (record_epoch c bs dust e0 book)
      ∙ rw get-record_epoch (join_window _ _ e0 ep n)

elapsed_epochs-lt : (s : State) (h : ℕ) → elapsed_epochs s h < 18446744073709551616
unfolding elapsed_epochs sub64
elapsed_epochs-lt s h = div-lt _ s.schedule.epoch_len _ (omega arith)
  where
    div-lt : (a b m : ℕ) → a < m → a / b < m
    div-lt a b m h = omega (arith, div-le_self a b)

next_after :
    (m n : ℕ) → nat_beq n 0 ≡ false → m + n < 18446744073709551616 → add64 (m + n - 1) 1 ≡ m + n
unfolding add64
next_after m n some_due h = ground arith

module _ {L : Type 0} (t : Token L) where
  -- The books and the epoch counter after a poke that distributed `r.distributed` epochs.
  pub record Advances (env : Env) (s s' : State) (r : Report) : Type 0 where
    pub next : next_epoch s' ≡ next_epoch s + r.distributed
    pub due : (r.distributed ≡ 0) ⊎ (next_epoch s + r.distributed ≤ elapsed_epochs s env.height)
    pub frame : s' ≡ record s { last_epoch = s'.last_epoch; owed = s'.owed }
    pub entries :
        (name : String) (ep : ℕ)
        → owed_of s' name ep
          ≡ owed_of s name ep
            +ℤ (if in_window (next_epoch s) r.distributed ep
                then part_of name (for_epoch s.schedule 0) s.buckets s.dust_bucket
                else pos 0)

  stands-Advances :
      (env : Env) (s : State) (starved : Bool)
      → Advances env s s (record { distributed = 0; starved = starved })
  stands-Advances env s starved = record {
    next = omega arith;
    due = inl refl;
    frame = refl;
    entries = λ name ep. empty_window _ _ (next_epoch s) ep;
  }

  record_plan-Advances :
      (env : Env) (p : Plan) (w : World State Event L)
      → IsConfigured env.self_addr w.state
      → nat_beq p.plan 0 ≡ false
      → next_epoch w.state + p.plan ≤ elapsed_epochs w.state env.height
      → Advances env w.state
          (record_plan t p (next_epoch w.state) w).0.state
          (record_plan t p (next_epoch w.state) w).1
  unfolding record_plan owed_of next_epoch
  record_plan-Advances env p w v some_due fits = record {
    next =
        next_after (next_epoch w.state) p.plan some_due
          (omega (arith, elapsed_epochs-lt w.state env.height));
    due = inr fits;
    frame = refl;
    entries = λ name ep.
        get-record_epochs w.state.schedule w.state.buckets w.state.dust_bucket v.emits v.weighed
          (le_of_eq v.full_weights).0 name ep p.plan (next_epoch w.state) _;
  }

  pulled-Advances :
      (env : Env) (p : Plan) (w1 : World State Event L) (s : State)
      → w1.state ≡ s
      → nat_beq p.plan 0 ≡ false
      → IsConfigured env.self_addr s
      → next_epoch s + p.plan ≤ elapsed_epochs s env.height
      → Advances env s
          (record_plan t p (next_epoch s) w1).0.state
          (record_plan t p (next_epoch s) w1).1
  pulled-Advances env p w1 s same some_due =
      subst
        (λ (s : State).
          IsConfigured env.self_addr s
          → next_epoch s + p.plan ≤ elapsed_epochs s env.height
          → Advances env s (record_plan t p (next_epoch s) w1).0.state
              (record_plan t p (next_epoch s) w1).1)
        same (λ v fits. record_plan-Advances env p w1 v some_due fits)

  report_nothing-Advances :
      (env : Env) (p : Plan) (w : World State Event L)
      → Advances env w.state
          (report_nothing t p (next_epoch w.state) w).0.state
          (report_nothing t p (next_epoch w.state) w).1
  unfolding report_nothing
  report_nothing-Advances env p w = elim (Bool-cases p.starved) [
    | inl e ↦ rw e (stands-Advances env w.state true)
    | inr e ↦ rw e (stands-Advances env w.state false)
  ]

  run_plan-Advances :
      (env : Env) (p : Plan) (w w' : World State Event L) (r : Report)
      → IsConfigured env.self_addr w.state
      → IsMaximal w.state.schedule
          (elapsed_epochs w.state env.height)
          (available t env w)
          (catch_limit w.state)
          (next_epoch w.state)
          p
      → run_plan t env p (next_epoch w.state) w ≡ ok (w', r)
      → Advances env w.state w'.state r
  unfolding run_plan report_nothing
  run_plan-Advances env p w w' r v m e = elim (Bool-cases (nat_beq p.plan 0)) [
    | inl nothing ↦
        let (world, report) = ok_pair (rw nothing at e) in
        subst₂ (λ (x : World State Event L) (y : Report). Advances env w.state x.state y) world
          report (report_nothing-Advances env p w)
    | inr something ↦
        let (w1, pulled, done) = >>=-eq-ok (pull_plan t env p w) _ (rw something at e) in
        let (same, paid) =
          pull_plan_lem t env p w w1 (rw m.drawn (*ℤ-IsNonneg p.plan _ (omega (arith, v.emits))))
            pulled in
        let (world, report) = ok_pair done in
        subst₂ (λ (x : World State Event L) (y : Report). Advances env w.state x.state y) world
          report
          (pulled-Advances env p w1 w.state same something v
            (fits _ _ _ something m.within_elapsed))
  ]
    where
      fits : (a b c : ℕ) → nat_beq b 0 ≡ false → (b ≡ 0) ⊎ (a + b ≤ c) → a + b ≤ c
      fits a b c ne h = ground arith

  -- On a configured controller, a distributeEpoch that goes through moves the next epoch on by
  -- exactly the number it reports and, if that is not 0, not past the fully elapsed epochs; each
  -- bucket's owed entry grows by the bucket's part of the emission for each epoch distributed, no
  -- other entry changes, and of the state nothing but the entries and the last epoch changes.
  pub distribute_epoch-Advances :
      (env : Env) (w w' : World State Event L) (r : Report)
      → IsConfigured env.self_addr w.state
      → distribute_epoch t env w ≡ ok (w', r)
      → Advances env w.state w'.state r
  distribute_epoch-Advances env w w' r v e = elim (distribute_epoch-cases t env w w' r e) [
    | inl (same, none_done) ↦ rw (← same, ← none_done) (stands-Advances env w.state false)
    | inr (due, done) ↦
        run_plan-Advances env (plan_poke t env w) w w' r v (plan_poke-IsMaximal t env w) done
  ]
