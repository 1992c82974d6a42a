-- ===== src/Emission/Poke.antt =====
-- `distributeEpoch`: the permissionless poke that draws the elapsed epochs' emission.
use magi_tokenomics.Common.{
  ℕ, ◌+◌, ◌-◌, ◌/◌, ℤ, pos, ltb_ℤ, ◌∷◌, Bool, true, false, ltb, leb, nat_beq, ◌==◌, string_eq,
  if◌then◌else◌, none, some, Outcome, ok, require, abort_if, ◌>>=◌, ◌>>◌, not_initialized,
  no_source,
}
use magi_tokenomics.Chain.{Env, World, add64, sub64}
use magi_tokenomics.Adapter.{Token, pull_from}
use magi_tokenomics.Emission.State.{State, Event, poke}
use magi_tokenomics.Emission.Schedule.{Plan, no_plan, plan_catch_up}
use magi_tokenomics.Emission.Allocation.{record_epochs}

-- What the call returns: how many epochs it distributed, and whether the pool ran short.
pub record Report : Type 0 where
  pub distributed : ℕ
  pub starved : Bool

abbrev pub idle : Report
idle = record { distributed = 0; starved = false }

-- One past the last epoch that was distributed.
unfoldable pub next_epoch : State → ℕ
next_epoch s = elim s.last_epoch [ none ↦ 0 | some last ↦ add64 last 1 ]

-- The number of fully elapsed epochs.
unfoldable pub elapsed_epochs : State → ℕ → ℕ
elapsed_epochs s h = sub64 h s.genesis / s.schedule.epoch_len

unfoldable pub catch_limit : State → ℕ
catch_limit s = if nat_beq s.max_catch 0 then 50 else s.max_catch

module _ {L : Type 0} (t : Token L) where
  -- min(what the source approved, what it holds)
  unfoldable pub available : Env → World State Event L → ℤ
  available env w =
      let allowed = t.allowance w.ledger w.state.source env.self_addr in
      let held = t.balance_of w.ledger w.state.source in
      if ltb_ℤ held allowed then held else allowed

  unfoldable pub plan_poke : Env → World State Event L → Plan
  unfolding available next_epoch elapsed_epochs catch_limit
  plan_poke env w =
      plan_catch_up w.state.schedule (elapsed_epochs w.state env.height) (available env w)
        (catch_limit w.state) (next_epoch w.state) no_plan

  -- `plan == 0`: nothing is moved, and only a pool that ran dry is logged.
  unfoldable pub report_nothing : Plan → ℕ → World State Event L → World State Event L × Report
  report_nothing p next w =
      if p.starved
      then (
        record w { log = poke next next 0 (pos 0) true ∷ w.log },
        record { distributed = 0; starved = true },
      )
      else (w, idle)

  unfoldable pub pull_plan : Env → Plan → World State Event L → Outcome (World State Event L)
  pull_plan env p w =
      if ltb_ℤ (pos 0) p.total_pull
      then pull_from t w.state.kind env w.state.source p.total_pull w
      else ok w

  -- The allocations of the planned epochs, and the new last epoch.
  unfoldable pub record_plan : Plan → ℕ → World State Event L → World State Event L × Report
  record_plan p next w =
      let book =
        record_epochs w.state.schedule w.state.buckets w.state.dust_bucket p.plan next
          (record { owed = w.state.owed; log = w.log }) in
      let last = next + p.plan - 1 in
      (
        record w {
          state = record w.state { last_epoch = some last; owed = book.owed };
          log = poke next last p.plan p.total_pull p.starved ∷ book.log;
        },
        record { distributed = p.plan; starved = p.starved },
      )

  unfoldable pub run_plan :
      Env → Plan → ℕ → World State Event L → Outcome (World State Event L × Report)
  unfolding report_nothing pull_plan record_plan
  run_plan env p next w =
      if nat_beq p.plan 0
      then ok (report_nothing p next w)
      else (do w' ← pull_plan env p w; ok (record_plan p next w'))

  unfoldable pub draw : Env → World State Event L → Outcome (World State Event L × Report)
  unfolding plan_poke run_plan next_epoch
  draw env w = do
    abort_if (w.state.source == "") no_source
    run_plan env (plan_poke env w) (next_epoch w.state) w

  unfoldable pub distribute_epoch :
      Env → World State Event L → Outcome (World State Event L × Report)
  unfolding draw next_epoch elapsed_epochs
  distribute_epoch env w = do
    require w.state.initialized not_initialized
    if ltb env.height (add64 w.state.genesis w.state.schedule.epoch_len)
        then ok (w, idle)
        else (if leb (elapsed_epochs w.state env.height) (next_epoch w.state)
            then ok (w, idle)
            else draw env w)
