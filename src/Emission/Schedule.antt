-- ===== src/Emission/Schedule.antt =====
-- The schedule, and how far a catch-up gets with what the pool can give.
use magi_tokenomics.Common.{
  ℕ, zero, suc, ◌+◌, ℤ, pos, ◌+ℤ◌, ◌*ℤ◌, ◌/ℤ◌, leb_ℤ, Bool, true, false, ltb, if◌then◌else◌,
}
use magi_tokenomics.Emission.State.{EmissionCfg}

-- `forEpoch`: flat, so the epoch's index is not used.
unfoldable pub for_epoch : EmissionCfg → ℕ → ℤ
for_epoch c ep = c.base_annual *ℤ pos c.epoch_len /ℤ pos c.blocks_per_year

pub record Plan : Type 0 where
  pub plan : ℕ
  pub total_pull : ℤ
  pub starved : Bool

abbrev pub no_plan : Plan
no_plan = record { plan = 0; total_pull = pos 0; starved = false }

-- The planning loop of `DistributeEpoch`, which has room for `maxCatch - plan` more epochs.
unfoldable pub plan_catch_up : EmissionCfg → ℕ → ℤ → ℕ → ℕ → Plan → Plan
plan_catch_up c current available zero ep p = p
plan_catch_up c current available (suc room) ep p =
    let want = p.total_pull +ℤ for_epoch c ep in
    let rest =
      plan_catch_up c current available room (ep + 1)
        (record p { plan = p.plan + 1; total_pull = want }) in
    if ltb ep current
    then (if leb_ℤ want available then rest else record p { starved = true })
    else p
