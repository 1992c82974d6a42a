-- ===== src/Emission/PokeCases.antt =====
-- What a poke that goes through has done, case by case.
use magi_tokenomics.Common.{
  ◌<◌, ◌≡◌, ◌⊎◌, inl, inr, arith, Bool-cases, ◌==◌, string_eq, ok, require, abort_if,
  not_initialized, no_source, leb, ltb, >>=-eq-ok, ok_pair,
}
use magi_tokenomics.Chain.{Env, World, add64}
use magi_tokenomics.Adapter.{Token}
use magi_tokenomics.Emission.State.{State, Event}
use magi_tokenomics.Emission.Poke.{
  Report, idle, plan_poke, run_plan, draw, distribute_epoch, next_epoch, available, elapsed_epochs,
  catch_limit,
}
use magi_tokenomics.Emission.Catchup.{plan-IsMaximal, IsMaximal}

module _ {L : Type 0} (t : Token L) where
  pub plan_poke-IsMaximal :
      (env : Env) (w : World State Event L)
      → IsMaximal w.state.schedule
          (elapsed_epochs w.state env.height)
          (available t env w)
          (catch_limit w.state)
          (next_epoch w.state)
          (plan_poke t env w)
  unfolding plan_poke
  plan_poke-IsMaximal env w = plan-IsMaximal w.state.schedule _ _ _ _

  -- A poke that goes through does nothing, or runs the plan for the epochs that are due.
  pub distribute_epoch-cases :
      (env : Env) (w w' : World State Event L) (r : Report)
      → distribute_epoch t env w ≡ ok (w', r)
      → ((w ≡ w') × (idle ≡ r))
        ⊎ ((next_epoch w.state < elapsed_epochs w.state env.height)
            × (run_plan t env (plan_poke t env w) (next_epoch w.state) w ≡ ok (w', r)))
  unfolding distribute_epoch draw
  distribute_epoch-cases env w w' r e =
      let (a, b, after) = >>=-eq-ok (require w.state.initialized not_initialized) _ e in
      elim (Bool-cases (ltb env.height (add64 w.state.genesis w.state.schedule.epoch_len))) [
        | inl early ↦ inl (ok_pair (rw early at after))
        | inr late ↦
            elim (Bool-cases (leb (elapsed_epochs w.state env.height) (next_epoch w.state))) [
              | inl up_to_date ↦ inl (ok_pair (rw (late, up_to_date) at after))
              | inr behind ↦
                  let (c, d, done) =
                    >>=-eq-ok (abort_if (w.state.source == "") no_source) _
                      (rw (late, behind) at after) in
                  inr (ground arith, done)
            ]
      ]
