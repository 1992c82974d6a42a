-- ===== src/Emission/Claim.antt =====
-- `claimBucket` and the read-only entrypoints.
use magi_tokenomics.Common.{
  ℕ, ℤ, pos, ltb_ℤ, String, List, ◌∷◌, ◌==◌, string_eq, nat_eq, pair_eq, get, get_big, insert,
  Outcome, ok, require, abort_if, ◌>>=◌, ◌>>◌, not_initialized, bucket_required, not_bucket_target,
  nothing_owed,
}
use magi_tokenomics.Chain.{Env, World}
use magi_tokenomics.Adapter.{Token, transfer}
use magi_tokenomics.Text.Epoch.{must_epoch}
use magi_tokenomics.Emission.State.{State, Event, bucket_claim}
use magi_tokenomics.Emission.Schedule.{for_epoch}

unfoldable pub owed_of : State → String → ℕ → ℤ
owed_of s bucket ep = get_big (bucket, ep) s.owed

module _ {L : Type 0} (t : Token L) where
  -- The owed record is deleted before the tokens move.
  unfoldable pub pay_bucket :
      Env → String → ℕ → World State Event L → Outcome (World State Event L × ℤ)
  unfolding owed_of
  pay_bucket env bucket ep w = do
    let amt = owed_of w.state bucket ep
    require (ltb_ℤ (pos 0) amt) nothing_owed
    w' ←
        transfer t w.state.kind env env.caller amt
          (record w { state = record w.state { owed = insert (bucket, ep) (pos 0) w.state.owed } })
    ok (record w' { log = bucket_claim bucket ep amt env.caller ∷ w'.log }, amt)

  unfoldable pub claim_bucket :
      Env → List ℕ → String → World State Event L → Outcome (World State Event L × ℤ)
  unfolding pay_bucket
  claim_bucket env epoch bucket w = do
    require w.state.initialized not_initialized
    ep ← must_epoch epoch
    abort_if (bucket == "") bucket_required
    require (get "" bucket w.state.targets == env.caller) not_bucket_target
    pay_bucket env bucket ep w

unfoldable pub schedule_info : State → Outcome (ℕ × ℕ)
schedule_info s = do require s.initialized not_initialized; ok (s.genesis, s.schedule.epoch_len)

unfoldable pub bucket_target : State → String → Outcome String
bucket_target s bucket = do require s.initialized not_initialized; ok (get "" bucket s.targets)

unfoldable pub emission_for_epoch_q : State → ℕ → Outcome ℤ
emission_for_epoch_q s ep = do require s.initialized not_initialized; ok (for_epoch s.schedule ep)
