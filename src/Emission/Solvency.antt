-- ===== src/Emission/Solvency.antt =====
-- Solvency of the emission controller: what it owes against what it holds, over a poke.
use magi_tokenomics.Common.{
  ℕ, ℤ, pos, ◌+ℤ◌, ◌*ℤ◌, ◌≤ℤ◌, IsNonneg, ltb_ℤ, ◌≡◌, ◌≢◌, refl, subst, inl, inr, int_laws,
  Bool-cases, String, sum, get, string_eq, nat_eq, pair_eq, AllNonneg, *ℤ-IsNonneg, ok,
  ok_injective, +ℤ-zero, nat_beq, >>=-eq-ok,
}
use magi_tokenomics.Chain.{Env, World}
use magi_tokenomics.Adapter.{Token}
use magi_tokenomics.Adapter.Laws.{pull_from_credits}
use magi_tokenomics.Emission.State.{State, Event}
use magi_tokenomics.Emission.Schedule.{for_epoch, Plan}
use magi_tokenomics.Emission.Poke.{
  Report, pull_plan, plan_poke, record_plan, run_plan, report_nothing, distribute_epoch, next_epoch,
}
use magi_tokenomics.Emission.PokeCases.{plan_poke-IsMaximal, distribute_epoch-cases}
use magi_tokenomics.Emission.Split.{AllWeighed, weights}
use magi_tokenomics.Emission.Records.{record_epochs-Records}

-- The controller as `self`, holding `held` tokens: what all buckets are owed is covered, and the table is one
-- that `init` lets through.
pub record SolventAt (self : String) (s : State) (held : ℤ) : Type 0 where
  pub covered : sum s.owed ≤ℤ held
  pub nonneg : AllNonneg s.owed
  pub weighed : AllWeighed s.buckets
  pub full : weights s.buckets ≤ℤ pos 10000
  pub emits : IsNonneg (for_epoch s.schedule 0)
  pub targets_other : (name : String) → get "" name s.targets ≢ self

module _ {L : Type 0} (t : Token L) where
  abbrev pub Solvent : String → World State Event L → Type 0
  Solvent self w = SolventAt self w.state (t.balance_of w.ledger self)

  record_plan-Solvent :
      (self : String) (w : World State Event L) (p : Plan) (next : ℕ) (held : ℤ)
      → SolventAt self w.state held
      → sum w.state.owed +ℤ (pos p.plan *ℤ for_epoch w.state.schedule 0)
        ≤ℤ t.balance_of w.ledger self
      → Solvent self (record_plan t p next w).0
  unfolding record_plan
  record_plan-Solvent self w p next held v paid =
      let r =
        record_epochs-Records w.state.schedule w.state.buckets w.state.dust_bucket v.emits v.weighed
          v.full p.plan next (record { owed = w.state.owed; log = w.log }) in
      record {
        covered = rw r.total paid;
        nonneg = r.nonneg v.nonneg;
        weighed = v.weighed;
        full = v.full;
        emits = v.emits;
        targets_other = v.targets_other;
      }

  -- After the pull the contract holds the plan's total more, and nothing else has changed.
  pub pull_plan_lem :
      (env : Env) (p : Plan) (w w' : World State Event L)
      → IsNonneg p.total_pull
      → pull_plan t env p w ≡ ok w'
      → (w'.state ≡ w.state)
        × (t.balance_of w'.ledger env.self_addr
            ≡ t.balance_of w.ledger env.self_addr +ℤ p.total_pull)
  unfolding pull_plan
  pull_plan_lem env p w w' h e = elim (Bool-cases (ltb_ℤ (pos 0) p.total_pull)) [
    | inl more ↦
        let (a, b, c, d) =
          pull_from_credits t w.state.kind env w.state.source p.total_pull w w' (rw more at e) in
        (b, d)
    | inr none_due ↦
        let same : w ≡ w' = ok_injective (rw none_due at e) in
        let zero_pull : p.total_pull ≡ pos 0 = grind int_laws in
        rw (← same, zero_pull, +ℤ-zero) (refl, refl)
  ]

  report_nothing-Solvent :
      (self : String) (p : Plan) (next : ℕ) (w : World State Event L)
      → Solvent self w
      → Solvent self (report_nothing t p next w).0
  unfolding report_nothing
  report_nothing-Solvent self p next w v = elim (Bool-cases p.starved) [
    | inl e ↦ rw e v
    | inr e ↦ rw e v
  ]

  run_plan-Solvent :
      (env : Env) (p : Plan) (next : ℕ) (w : World State Event L) (w' : World State Event L)
      (r : Report)
      → p.total_pull ≡ pos p.plan *ℤ for_epoch w.state.schedule 0
      → IsNonneg p.total_pull
      → Solvent env.self_addr w
      → run_plan t env p next w ≡ ok (w', r)
      → Solvent env.self_addr w'
  unfolding run_plan
  run_plan-Solvent env p next w w' r drawn h v e = elim (Bool-cases (nat_beq p.plan 0)) [
    | inl nothing ↦
        subst (λ (a : World State Event L × Report). Solvent env.self_addr a.0)
          (ok_injective (rw nothing at e)) (report_nothing-Solvent env.self_addr p next w v)
    | inr something ↦
        let (w1, pulled, done) = >>=-eq-ok (pull_plan t env p w) _ (rw something at e) in
        let (same, paid) = pull_plan_lem env p w w1 h pulled in
        subst (λ (a : World State Event L × Report). Solvent env.self_addr a.0) (ok_injective done)
          (record_plan-Solvent env.self_addr w1 p next (t.balance_of w.ledger env.self_addr)
            (rw same v) (rw (same, paid, drawn) (omega (int_laws, v.covered))))
  ]

  -- A poke keeps the controller solvent.
  pub distribute_epoch-Solvent :
      (env : Env) (w w' : World State Event L) (r : Report)
      → Solvent env.self_addr w
      → distribute_epoch t env w ≡ ok (w', r)
      → Solvent env.self_addr w'
  distribute_epoch-Solvent env w w' r v e = elim (distribute_epoch-cases t env w w' r e) [
    | inl (same, none_done) ↦ rw (← same) v
    | inr (due, done) ↦
        let m = plan_poke-IsMaximal t env w in
        run_plan-Solvent env (plan_poke t env w) (next_epoch w.state) w w' r m.drawn
          (rw m.drawn (*ℤ-IsNonneg (plan_poke t env w).plan _ v.emits)) v done
  ]
