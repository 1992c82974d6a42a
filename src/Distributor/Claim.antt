-- ===== src/Distributor/Claim.antt =====
-- `claim` and the query `shareOf`.
use Prim.Native.String.{◌++◌}
use magi_tokenomics.Common.{
  ℕ, ℤ, pos, ◌+ℤ◌, ◌-ℤ◌, ◌*ℤ◌, ◌/ℤ◌, ltb_ℤ, Bool, true, false, ◌||◌, String, List, ◌∷◌, ltb,
  nat_beq, ◌==◌, string_eq, pair_eq, if◌then◌else◌, get, insert, Outcome, ok, require, abort_if,
  or_abort, ◌>>=◌, ◌>>◌, not_initialized, not_finalized, window_open, already_claimed, not_funded,
  no_shares, bad_share, no_root, bad_proof, rounds_to_zero, exceeds_funding, stake_refused,
}
use magi_tokenomics.Chain.{Env, World}
use magi_tokenomics.Adapter.{Token, Staker, transfer, approve}
use magi_tokenomics.Text.Fields.{canon, parse_big}
use magi_tokenomics.Merkle.Proof.{verify_proof}
use magi_tokenomics.Distributor.State.{
  State, Event, Epoch, Key, Status, open_epoch, finalized, cancelled, claim_event,
}
use magi_tokenomics.Distributor.Policy.{must_channel, epoch_of, set_epoch}

abbrev pub is_finalized : Status → Bool
is_finalized open_epoch = false
is_finalized finalized = true
is_finalized cancelled = false

-- Rounding goes to the liquid side.
unfoldable pub staked_part : State → ℤ → ℤ
staked_part s payout =
    if s.stake_contract == "" || nat_beq s.staked_bps 0
    then pos 0
    else payout *ℤ pos s.staked_bps /ℤ pos 10000

module _ {R : Type 0} (t : Token R) (staker : Staker R t.balance_of) where
  -- The staking contract pulls what it is told about.
  unfoldable pub credit_stake :
      Env → String → ℤ → World State Event R → Outcome (World State Event R)
  credit_stake env acct amt w = do
    w' ← approve t w.state.kind env ("contract:" ++ w.state.stake_contract) amt w
    r ← or_abort (staker.stake_for env.self_addr acct amt w'.ledger) stake_refused
    ok (record w' { ledger = r })

  -- The liquid part, then the staked part.
  unfoldable pub pay_out : Env → ℤ → ℤ → World State Event R → Outcome (World State Event R)
  unfolding credit_stake
  pay_out env liquid staked w = do
    w1 ← if ltb_ℤ (pos 0) liquid then transfer t w.state.kind env env.caller liquid w else ok w
    if ltb_ℤ (pos 0) staked then credit_stake env env.caller staked w1 else ok w1

  module _ (garbled : String → ℤ) (sha256 : List ℕ → List ℕ) where
    -- What a claim has to prove before it is paid; the result is the share.
    unfoldable pub check_claim : Env → Key → String → String → State → Outcome ℤ
    unfolding epoch_of parse_big verify_proof
    check_claim env k share_text proof s = do
      let e = epoch_of s k
      require (is_finalized e.status) not_finalized
      abort_if (ltb env.height e.chal) window_open
      abort_if (get false (k, env.caller) s.claimed) already_claimed
      require (ltb_ℤ (pos 0) e.funded) not_funded
      require (ltb_ℤ (pos 0) e.total_shares) no_shares
      let share = parse_big garbled share_text
      require (ltb_ℤ (pos 0) share) bad_share
      abort_if (e.root == "") no_root
      require (verify_proof sha256 env.caller share_text proof e.root) bad_proof
      ok share

    -- The claim is marked and booked before anything moves.
    unfoldable pub settle : Env → Key → ℤ → World State Event R → Outcome (World State Event R × ℤ)
    unfolding epoch_of set_epoch staked_part pay_out
    settle env k share w = do
      let e = epoch_of w.state k
      let payout = e.funded *ℤ share /ℤ e.total_shares
      require (ltb_ℤ (pos 0) payout) rounds_to_zero
      abort_if (ltb_ℤ e.funded (e.paid +ℤ payout)) exceeds_funding
      let booked = set_epoch k (record e { paid = e.paid +ℤ payout }) w.state
      let staked = staked_part w.state payout
      let liquid = payout -ℤ staked
      w' ← pay_out env liquid staked (record w {
        state = record booked { claimed = insert (k, env.caller) true w.state.claimed };
      })
      ok (
        record w' {
          log =
              claim_event k.0 k.1 env.caller payout liquid staked share e.total_shares e.funded
              ∷ w'.log;
        },
        payout,
      )

    unfoldable pub claim :
        Env
        → String
        → String
        → String
        → String
        → World State Event R
        → Outcome (World State Event R × ℤ)
    unfolding must_channel canon check_claim settle
    claim env ch epoch share_text proof w = do
      require w.state.initialized not_initialized
      c ← must_channel w.state ch
      ep ← canon epoch
      share ← check_claim env (ch, ep) share_text proof w.state
      settle env (ch, ep) share w

unfoldable pub share_of : State → String → String → Outcome Epoch
unfolding must_channel canon epoch_of
share_of s ch epoch = do
  require s.initialized not_initialized
  c ← must_channel s ch
  ep ← canon epoch
  ok (epoch_of s (ch, ep))
