-- ===== src/Emission/Idle.antt =====
-- A poke of the emission controller with nothing to do.
use magi_tokenomics.Common.{
  ℕ, ◌+◌, ◌≤◌, true, false, ◌≡◌, ◌⊎◌, inl, inr, sym, subst, ◌∙◌, arith, Bool-cases, ok, nat_beq,
  ok_pair, >>=-eq-ok, ap, ◌≢◌,
}
use magi_tokenomics.Chain.{Env, World}
use magi_tokenomics.Adapter.{Token}
use magi_tokenomics.Emission.State.{State, Event}
use magi_tokenomics.Emission.Poke.{
  Report, idle, plan_poke, run_plan, pull_plan, record_plan, report_nothing, distribute_epoch,
  next_epoch, elapsed_epochs, catch_limit,
}
use magi_tokenomics.Emission.Schedule.{Plan}
use magi_tokenomics.Emission.PokeCases.{distribute_epoch-cases, plan_poke-IsMaximal}
use magi_tokenomics.Emission.Configured.{IsConfigured}
use magi_tokenomics.Emission.Entries.{distribute_epoch-Advances}

module _ {L : Type 0} (t : Token L) where
  -- Caught up, a poke succeeds and changes nothing.
  pub distribute_epoch-idle :
      (env : Env) (w : World State Event L)
      → w.state.initialized ≡ true
      → elapsed_epochs w.state env.height ≤ next_epoch w.state
      → distribute_epoch t env w ≡ ok (w, idle)
  unfolding distribute_epoch
  distribute_epoch-idle env w active caught_up = ground arith

  -- A plan is reported as it was made.
  run_plan-report :
      (env : Env) (p : Plan) (next : ℕ) (w w' : World State Event L) (r : Report)
      → run_plan t env p next w ≡ ok (w', r)
      → (r.distributed ≡ p.plan) × (r.starved ≡ p.starved)
  unfolding run_plan report_nothing record_plan
  run_plan-report env p next w w' r e = elim (Bool-cases (nat_beq p.plan 0)) [
    | inl nothing ↦ (
      elim (Bool-cases p.starved) [ inl starved ↦ ground arith | inr fed ↦ ground arith ],
      elim (Bool-cases p.starved) [ inl starved ↦ ground arith | inr fed ↦ ground arith ],
    )
    | inr something ↦
        let (w1, pulled, done) = >>=-eq-ok (pull_plan t env p w) _ (rw something at e) in
        let report = (ok_pair done).1 in
        (
          sym (ap (λ (x : Report). x.distributed) report),
          sym (ap (λ (x : Report). x.starved) report),
        )
  ]

  -- On a configured controller, after a distributeEpoch that neither ran short nor reached the
  -- catch-up limit, a second one at the same height succeeds, reports 0 epochs and changes
  -- nothing.
  pub distribute_epoch_twice :
      (env : Env) (w w' : World State Event L) (r : Report)
      → IsConfigured env.self_addr w.state
      → distribute_epoch t env w ≡ ok (w', r)
      → r.starved ≡ false
      → r.distributed ≢ catch_limit w.state
      → distribute_epoch t env w' ≡ ok (w', idle)
  unfolding elapsed_epochs
  distribute_epoch_twice env w w' r v e fed below = elim (distribute_epoch-cases t env w w' r e) [
    | inl (same, none_done) ↦
        subst (λ (x : World State Event L). distribute_epoch t env x ≡ ok (x, idle)) same
          (e ∙ λ i. ok (sym same i, sym none_done i))
    | inr (due, done) ↦
        let a = distribute_epoch-Advances t env w w' r v e in
        let m = plan_poke-IsMaximal t env w in
        let (d, s) = run_plan-report env (plan_poke t env w) (next_epoch w.state) w w' r done in
        distribute_epoch-idle env w' (ap (λ (x : State). x.initialized) a.frame ∙ v.active) (
          caught_up _ _ _ _ _ _ _ (m.content (sym s ∙ fed)) d a.next
            (ap (λ (x : State). elapsed_epochs x env.height) a.frame) below)
  ]
    where
      caught_up :
          (plan most current next next' current' n : ℕ)
          → (plan ≡ most) ⊎ (current ≤ next + plan)
          → n ≡ plan
          → next' ≡ next + n
          → current' ≡ current
          → n ≢ most
          → current' ≤ next'
      caught_up plan most current next next' current' n stop d e f ne = ground arith
