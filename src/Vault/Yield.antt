-- ===== src/Vault/Yield.antt =====
-- `pullFunding`, `claimYield`, `sweepEmptyEpoch` and the query `fundedOf`.
use Prim.Native.String.{◌++◌}
use magi_tokenomics.Common.{
  ℕ, ℤ, pos, ◌+ℤ◌, ◌-ℤ◌, ◌*ℤ◌, ◌/ℤ◌, ltb_ℤ, leb_ℤ, Bool, true, false, ◌&&◌, String, List, ◌∷◌,
  Option, none, some, ltb, ◌==◌, string_eq, nat_eq, pair_eq, if◌then◌else◌, get, insert, Outcome,
  ok, require, abort_if, or_abort, ◌>>=◌, ◌>>◌, not_initialized, no_bucket, already_paid,
  funder_refused, already_claimed, not_funded, was_swept, not_elapsed, not_staked, no_stakers,
  rounds_to_zero, has_stakers, nothing_to_sweep,
}
use magi_tokenomics.Chain.{Env, World, validate_addr}
use magi_tokenomics.Adapter.{Token, Funder, transfer}
use magi_tokenomics.Auth.Round.{Config, new_round}
use magi_tokenomics.Auth.Policy.{authorize}
use magi_tokenomics.Text.Epoch.{must_epoch}
use magi_tokenomics.Text.Fields.{show_int}
use magi_tokenomics.Staking.Credit.{hist_at}
use magi_tokenomics.Staking.Epochs.{epoch_bounds, min_stake_sum_at}
use magi_tokenomics.Distributor.Policy.{auth_cfg}
use magi_tokenomics.Vault.State.{
  Vault, Logged, Yield, yield_of, yield_funded, yield_claim, yield_sweep,
}

unfoldable pub set_yield : ℕ → Yield → Vault → Vault
set_yield ep y v = record v { yields = insert ep y v.yields }

unfoldable pub guardian_cfg : Vault → Outcome Config
unfolding auth_cfg
guardian_cfg v = auth_cfg v.guardian

-- `auth.Authorize` for the guardians.
unfoldable pub authorize_guardian :
    (String → String) → Config → String → String → Env → Vault → Outcome (Vault × Bool)
unfolding authorize
authorize_guardian hash cfg action payload env v = do
  d ←
      authorize hash cfg env.height payload env.caller env.required_auths
        (get new_round ("grd", action) v.rounds)
  ok (record v { rounds = insert ("grd", action) d.0 v.rounds }, d.1)

module _ {R : Type 0} (t : Token R) (funder : Funder R t.balance_of) where
  -- An epoch's funding is final once anyone has claimed.
  unfoldable pub pull_yield :
      Env → List ℕ → World Vault Logged R → Outcome (World Vault Logged R × ℤ)
  unfolding must_epoch yield_of set_yield
  pull_yield env epoch w = do
    require w.state.staking.initialized not_initialized
    abort_if (w.state.bucket == "") no_bucket
    ep ← must_epoch epoch
    let y = yield_of w.state ep
    abort_if (ltb_ℤ (pos 0) y.paid) already_paid
    d ← or_abort (funder.claim_bucket env.self_addr epoch w.state.bucket w.ledger) funder_refused
    let funded = y.funded +ℤ d.1
    let outstanding = w.state.yield_outstanding +ℤ d.1
    ok (
      record {
        state = record (set_yield ep (record y { funded = funded }) w.state) {
          yield_outstanding = outstanding;
        };
        ledger = d.0;
        log = yield_funded ep d.1 funded outstanding ∷ w.log;
      },
      funded,
    )

-- The smaller of the stakes at the epoch's two ends.
unfoldable pub stake_across : Vault → String → ℕ × ℕ → Outcome ℤ
unfolding hist_at
stake_across v acct b = do
  s ← hist_at v.staking acct b.0
  e ← hist_at v.staking acct b.1
  ok (if ltb_ℤ e s then e else s)

-- What a claimant is owed: payout, stake and denominator.
unfoldable pub yield_due : Env → ℕ → Vault → Outcome (ℤ × (ℤ × ℤ))
unfolding yield_of epoch_bounds stake_across min_stake_sum_at
yield_due env ep v = do
  let y = yield_of v ep
  abort_if (get false (ep, env.caller) v.claimed) already_claimed
  require (ltb_ℤ (pos 0) y.funded) not_funded
  abort_if y.swept was_swept
  b ← epoch_bounds v.staking ep
  require (ltb b.1 env.height) not_elapsed
  stake ← stake_across v env.caller b
  require (ltb_ℤ (pos 0) stake) not_staked
  total ← min_stake_sum_at env v.staking ep
  require (ltb_ℤ (pos 0) total) no_stakers
  let payout = y.funded *ℤ stake /ℤ total
  require (ltb_ℤ (pos 0) payout) rounds_to_zero
  ok (payout, (stake, total))

-- The claim is marked and booked, to be paid.
unfoldable pub book_yield : Env → ℕ → ℤ → Vault → Vault
unfolding set_yield yield_of
book_yield env ep payout v =
    let y = yield_of v ep in
    record (set_yield ep (record y { paid = y.paid +ℤ payout }) v) {
      claimed = insert (ep, env.caller) true v.claimed;
      yield_outstanding = v.yield_outstanding -ℤ payout;
    }

-- What an epoch without stakers holds; the result is its residual.
unfoldable pub check_empty : Env → ℕ → Vault → Outcome ℤ
unfolding epoch_bounds min_stake_sum_at yield_of
check_empty env ep v = do
  b ← epoch_bounds v.staking ep
  require (ltb b.1 env.height) not_elapsed
  total ← min_stake_sum_at env v.staking ep
  require (leb_ℤ total (pos 0) && leb_ℤ (pos 0) total) has_stakers
  let y = yield_of v ep
  let residual = y.funded -ℤ y.paid
  require (ltb_ℤ (pos 0) residual) nothing_to_sweep
  ok residual

unfoldable pub close_epoch : ℕ → ℤ → Vault → Vault
unfolding set_yield yield_of
close_epoch ep residual v =
    let y = yield_of v ep in
    record (set_yield ep (record y { paid = y.funded; swept = true }) v) {
      yield_outstanding = v.yield_outstanding -ℤ residual;
    }

module _ {R : Type 0} (t : Token R) where
  unfoldable pub claim_yield :
      Env → List ℕ → World Vault Logged R → Outcome (World Vault Logged R × ℤ)
  unfolding must_epoch yield_due book_yield yield_of
  claim_yield env epoch w = do
    require w.state.staking.initialized not_initialized
    ep ← must_epoch epoch
    validate_addr env.caller
    d ← yield_due env ep w.state
    w' ←
        transfer t w.state.staking.kind env env.caller d.0
          (record w { state = book_yield env ep d.0 w.state })
    ok (
      record w' {
        log = yield_claim ep env.caller d.0 d.1.0 d.1.1 (yield_of w.state ep).funded ∷ w'.log;
      },
      d.0,
    )

  unfoldable pub sweep_empty_epoch :
      (String → String)
      → Env
      → List ℕ
      → World Vault Logged R
      → Outcome (World Vault Logged R × Option ℤ)
  unfolding must_epoch check_empty guardian_cfg authorize_guardian close_epoch show_int yield_of
  sweep_empty_epoch hash env epoch w = do
    require w.state.staking.initialized not_initialized
    ep ← must_epoch epoch
    residual ← check_empty env ep w.state
    cfg ← guardian_cfg w.state
    let action = "sweepempty:" ++ show_int (pos ep)
    d ← authorize_guardian hash cfg action action env w.state
    if d.1
        then (do
          w' ←
              transfer t d.0.staking.kind env d.0.treasury residual
                (record w { state = close_epoch ep residual d.0 })
          ok (
            record w' {
              log = yield_sweep ep residual (yield_of w.state ep).funded d.0.treasury ∷ w'.log;
            },
            some residual,
          ))
        else ok (record w { state = d.0 }, none)

unfoldable pub funded_of : Vault → List ℕ → Outcome ℤ
unfolding must_epoch yield_of
funded_of v epoch = do
  require v.staking.initialized not_initialized
  ep ← must_epoch epoch
  ok (yield_of v ep).funded
