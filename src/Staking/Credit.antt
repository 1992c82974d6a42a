-- ===== src/Staking/Credit.antt =====
-- Every change of a stake: `applyCredit`, the drawdown accumulator and the two histories.
use magi_tokenomics.Common.{
  ℕ, ◌/◌, ℤ, pos, ◌+ℤ◌, ◌-ℤ◌, ltb_ℤ, leb_ℤ, ◌&&◌, ◌||◌, Map, List, [], ◌∷◌, String, none, some, ltb,
  nat_beq, if◌then◌else◌, length, get_elem?, string_eq, nat_eq, get, get_big, insert, Outcome, ok,
  or_abort, ◌>>=◌, out_of_fuel,
}
use magi_tokenomics.Chain.{Env, World, add64, sub64, mul64}
use magi_tokenomics.Staking.Checkpoints.{Ckpt, append_entry, search_val}
use magi_tokenomics.Staking.State.{State, Event, drawdown, Via, stake_event}

unfoldable pub entries_at : List Ckpt → ℕ → Outcome ℤ
unfolding search_val
entries_at es h = or_abort (search_val (get_elem? es) (length es) h) out_of_fuel

unfoldable pub hist_of : State → String → List Ckpt
hist_of s acct = get [] acct s.hist

unfoldable pub hist_at : State → String → ℕ → Outcome ℤ
unfolding entries_at hist_of
hist_at s acct h = entries_at (hist_of s acct) h

unfoldable pub ckpt_at : State → ℕ → Outcome ℤ
unfolding entries_at
ckpt_at s h = entries_at s.ckpts h

unfoldable pub drawdown_of : ℤ → ℤ → ℤ
drawdown_of a s = if ltb_ℤ (a -ℤ s) (pos 0) then pos 0 else a -ℤ s

-- An epoch and its first block, for a height that lies after genesis.
unfoldable pub epoch_at : ℕ → ℕ → ℕ → ℕ
epoch_at g el h = sub64 h g / el

unfoldable pub start_of : ℕ → ℕ → ℕ → ℕ
start_of g el ep = add64 g (mul64 ep el)

-- What an update of `acct` from `old` to `new` adds to the drawdown of `ep`, `a` being its stake
-- at the start of the epoch.
unfoldable pub add_drawdown : ℕ → String → ℤ → ℤ → ℤ → Map ℕ ℤ × List Event → Map ℕ ℤ × List Event
unfolding drawdown_of
add_drawdown ep acct a old new (dds, log) =
    let delta = drawdown_of a new -ℤ drawdown_of a old in
    let d = get_big ep dds +ℤ delta in
    let clamped = if ltb_ℤ d (pos 0) then pos 0 else d in
    if leb_ℤ (drawdown_of a old) (drawdown_of a new)
      && leb_ℤ (drawdown_of a new) (drawdown_of a old)
    then (dds, log)
    else (insert ep clamped dds, drawdown ep acct delta clamped ∷ log)

unfoldable pub note_drawdown :
    String → ℤ → ℤ → ℕ → State → List Event → Outcome (Map ℕ ℤ × List Event)
unfolding hist_at add_drawdown epoch_at start_of
note_drawdown acct old new h s log = elim s.genesis [
  | none ↦ ok (s.drawdowns, log)
  | some g ↦
      let ep = epoch_at g s.epoch_len h in
      if nat_beq s.epoch_len 0 || ltb h g || nat_beq h (start_of g s.epoch_len ep)
      then ok (s.drawdowns, log)
      else hist_at s acct (start_of g s.epoch_len ep) >>= λ a.
          ok (add_drawdown ep acct a old new (s.drawdowns, log))
]

-- The writes that a credit and an unstake share: the new stake and total, the drawdown, and an
-- entry in each history.
unfoldable pub set_stake : Env → String → ℤ → ℤ → State → List Event → Outcome (State × List Event)
unfolding note_drawdown append_entry hist_of
set_stake env acct new total s log = do
  d ← note_drawdown acct (get_big acct s.stake) new env.height s log
  ok (
    record s {
      stake = insert acct new s.stake;
      total_staked = total;
      drawdowns = d.0;
      hist = insert acct (append_entry env.height new (hist_of s acct)) s.hist;
      ckpts = append_entry env.height total s.ckpts;
    },
    d.1,
  )

module _ {L : Type 0} where
  unfoldable pub apply_credit :
      Env → String → ℤ → Via → World State Event L → Outcome (World State Event L)
  unfolding set_stake
  apply_credit env acct amt via w = do
    let new = get_big acct w.state.stake +ℤ amt
    let total = w.state.total_staked +ℤ amt
    d ← set_stake env acct new total w.state w.log
    ok (record w { state = d.0; log = stake_event acct via amt new total env.height ∷ d.1 })
