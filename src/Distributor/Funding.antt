-- ===== src/Distributor/Funding.antt =====
-- `pullFunding`, `cancelEpoch`, `sweepUnallocated` and `releaseStaleAttest`.
use Prim.Native.String.{◌++◌, len, slice}
use text.Mathlib.Text.{starts_with}
use magi_tokenomics.Common.{
  ℕ, ℤ, pos, ◌+ℤ◌, ltb_ℤ, leb_ℤ, Bool, true, false, ◌&&◌, String, List, [], ◌∷◌, Option, none, some,
  ltb, leb, ◌==◌, string_eq, pair_eq, if◌then◌else◌, get, get_big, insert, Outcome, ok, abort,
  require, abort_if, or_abort, ◌>>=◌, ◌>>◌, not_initialized, epoch_not_open, funder_refused,
  window_elapsed, not_funded, not_stale, already_cancelled, no_treasury, amount_not_positive,
  pool_changed, action_required, unknown_role, not_attest_mode, wrong_channel, unknown_action,
}
use magi_tokenomics.Chain.{Env, World, add64}
use magi_tokenomics.Adapter.{Token, Funder, transfer}
use magi_tokenomics.Text.Fields.{canon, codes, show_int}
use magi_tokenomics.Auth.Round.{Config, Mode, attested, single, cosigned, unknown, new_round}
use magi_tokenomics.Auth.Policy.{sweep_stale}
use magi_tokenomics.Distributor.State.{
  State, Event, Channel, Epoch, Key, Status, open_epoch, finalized, cancelled, pull, epoch_status,
  sweep_unallocated_event, attest_released,
}
use magi_tokenomics.Distributor.Policy.{
  auth_cfg, must_channel, epoch_of, set_epoch, pin_policy, authorize_action, epoch_end,
  stale_blocks,
}

abbrev pub is_open : Status → Bool
is_open open_epoch = true
is_open finalized = false
is_open cancelled = false

-- Funding is added to what the epoch holds; the height of the first funding is kept.
unfoldable pub add_funding : ℕ → ℤ → Epoch → Epoch
add_funding height got e = record e {
  funded = e.funded +ℤ got;
  funded_at = elim e.funded_at [ none ↦ some height | some h ↦ some h ];
}

module _ {R : Type 0} (t : Token R) (funder : Funder R t.balance_of) where
  unfoldable pub pull_funding :
      Env → String → String → World State Event R → Outcome (World State Event R × ℤ)
  unfolding must_channel canon epoch_of pin_policy set_epoch add_funding codes
  pull_funding env ch epoch w = do
    require w.state.initialized not_initialized
    c ← must_channel w.state ch
    ep ← canon epoch
    require (is_open (epoch_of w.state (ch, ep)).status) epoch_not_open
    d ← or_abort (funder.claim_bucket env.self_addr (codes ep) c.bucket w.ledger) funder_refused
    let e = pin_policy w.state ch (add_funding env.height d.1 (epoch_of w.state (ch, ep)))
    ok (
      record {
        state = set_epoch (ch, ep) e w.state;
        ledger = d.0;
        log = pull ch ep d.1 e.funded e.funded_at ∷ w.log;
      },
      e.funded,
    )

-- The veto inside the challenge window, or the rescue of an epoch that was funded and went stale.
unfoldable pub check_cancel : Env → State → Channel → String → Epoch → Outcome (Unit {0})
unfolding epoch_end stale_blocks
check_cancel env s c ep e = elim e.status [
  | finalized ↦ abort_if (leb e.chal env.height) window_elapsed
  | open_epoch ↦ (do
    require (ltb_ℤ (pos 0) e.funded) not_funded
    end ← epoch_end s ep
    abort_if (ltb env.height (add64 (anchor end e.funded_at) (stale_blocks s c))) not_stale)
  | cancelled ↦ abort already_cancelled
]
  where
    anchor : ℕ → Option ℕ → ℕ
    anchor end none = end
    anchor end (some h) = if ltb end h then h else end

-- What the epoch holds is rolled into its channel's pool.
unfoldable pub roll_back : Key → State → State
unfolding set_epoch epoch_of
roll_back k s =
    let e = epoch_of s k in
    let s' = set_epoch k (record e { status = cancelled }) s in
    if ltb_ℤ (pos 0) e.funded
    then record (set_epoch k (record e { status = cancelled; funded = pos 0 }) s) {
      unallocated = insert k.0 (get_big k.0 s.unallocated +ℤ e.funded) s.unallocated;
    }
    else s'

module _ (hash : String → String) {R : Type 0} where
  -- The result is whether the vote was the one that cancelled.
  unfoldable pub cancel_epoch :
      Env → String → String → World State Event R → Outcome (World State Event R × Bool)
  unfolding must_channel canon epoch_of check_cancel auth_cfg authorize_action roll_back
  cancel_epoch env ch epoch w = do
    require w.state.initialized not_initialized
    c ← must_channel w.state ch
    ep ← canon epoch
    check_cancel env w.state c ep (epoch_of w.state (ch, ep))
    cfg ← auth_cfg w.state.guardian
    let action = "cancel:" ++ ch ++ ":" ++ ep
    d ← authorize_action hash cfg "grd" action action env w.state
    let e = epoch_of w.state (ch, ep)
    let rolled = if ltb_ℤ (pos 0) e.funded then e.funded else pos 0
    ok (
        if d.1
        then (
          record w {
            state = roll_back (ch, ep) d.0;
            log = epoch_status ch ep cancelled e.chal e.total_shares (pos 0) rolled ∷ w.log;
          },
          true,
        )
        else (record w { state = d.0 }, false))

  -- `amount` is the number that the payload's field parses to. The result is what was swept.
  unfoldable pub sweep_unallocated :
      Token R
      → Env
      → String
      → String
      → ℤ
      → World State Event R
      → Outcome (World State Event R × Option ℤ)
  unfolding must_channel canon auth_cfg authorize_action show_int
  sweep_unallocated t env ch nonce amount w = do
    require w.state.initialized not_initialized
    c ← must_channel w.state ch
    abort_if (w.state.treasury == "") no_treasury
    n ← canon nonce
    require (ltb_ℤ (pos 0) amount) amount_not_positive
    cfg ← auth_cfg w.state.guardian
    d ← authorize_action hash cfg "grd" ("sweep:" ++ ch ++ ":" ++ n) (show_int amount) env w.state
    if d.1
        then (do
          let pool = get_big ch d.0.unallocated
          require (leb_ℤ pool amount && leb_ℤ amount pool) pool_changed
          w' ←
              transfer t d.0.kind env d.0.treasury pool (record w {
                state = record d.0 { unallocated = insert ch (pos 0) d.0.unallocated };
              })
          ok (
            record w' { log = sweep_unallocated_event ch pool d.0.treasury n ∷ w'.log },
            some pool,
          ))
        else ok (record w { state = d.0 }, none)

-- About 24 hours of blocks.
abbrev pub stale_attest_blocks : ℕ
stale_attest_blocks = 28800

-- The channel is the component of a reporter's action key after its prefix.
unfoldable pub action_in_channel : List String → String → String → Outcome (Unit {0})
action_in_channel [] action ch = abort unknown_action
action_in_channel (prefix ∷ rest) action ch =
    let next = action_in_channel rest action ch in
    let body = slice action (len prefix) (len action) in
    if starts_with action prefix then require (starts_with body (ch ++ ":")) wrong_channel else next

unfoldable pub release_cfg : State → String → String → String → Outcome Config
unfolding auth_cfg must_channel action_in_channel
release_cfg s role ch action =
    if role == "rep"
    then (do
      c ← must_channel s ch
      action_in_channel ("ss:" ∷ "sr:" ∷ "fin:" ∷ []) action ch
      auth_cfg c.reporter)
    else if role == "grd"
    then auth_cfg s.guardian
    else abort unknown_role

abbrev pub is_attested : Mode → Bool
is_attested attested = true
is_attested single = false
is_attested cosigned = false
is_attested unknown = false

unfoldable pub release_stale_attest :
    {R : Type 0}
    → Env
    → String
    → String
    → String
    → World State Event R
    → Outcome (World State Event R × ℕ)
unfolding release_cfg sweep_stale
release_stale_attest env role ch action w = do
  require w.state.initialized not_initialized
  abort_if (action == "") action_required
  cfg ← release_cfg w.state role ch action
  require (is_attested cfg.mode) not_attest_mode
  d ← sweep_stale cfg env.height stale_attest_blocks (get new_round (role, action) w.state.rounds)
  ok (
    record w {
      state = record w.state { rounds = insert (role, action) d.0 w.state.rounds };
      log = attest_released role action d.1 ∷ w.log;
    },
    d.1,
  )
