-- ===== src/Distributor/Policy.antt =====
-- What every handler of the distributor starts from: the channel, the authorities, the rounds of
-- attestation and the pinned policy. `hash` is the auth package's hash of a payload.
use magi_tokenomics.Common.{
  ℕ, pos, ltb_ℤ, Bool, String, none, ltb, ◌==◌, string_eq, pair_eq, if◌then◌else◌, get, insert,
  Outcome, ok, abort, abort_if, or_abort, ◌>>=◌, ◌>>◌, unknown_mode, bad_threshold,
  channel_required, no_channel,
}
use magi_tokenomics.Chain.{Env, mul64}
use magi_tokenomics.Text.Fields.{split_comma, parse_int, decimal_value}
use magi_tokenomics.Auth.Round.{Mode, single, cosigned, attested, Config, new_round}
use magi_tokenomics.Auth.Policy.{authorize}
use magi_tokenomics.Staking.Epochs.{bounds_of}
use magi_tokenomics.Distributor.State.{State, Authority, Channel, Epoch, Key, new_epoch}

unfoldable pub mode_of : String → Outcome Mode
mode_of m =
    if m == "0"
    then ok single
    else if m == "1"
    then ok cosigned
    else if m == "2"
    then ok attested
    else abort unknown_mode

unfoldable pub auth_cfg : Authority → Outcome Config
unfolding mode_of split_comma parse_int
auth_cfg a = do
  m ← mode_of a.mode
  thr ← or_abort (parse_int a.threshold) bad_threshold
  abort_if (ltb_ℤ thr (pos 1)) bad_threshold
  ok (record { mode = m; authorities = split_comma a.authorities; threshold = thr })

unfoldable pub must_channel : State → String → Outcome Channel
must_channel s ch = do
  abort_if (ch == "") channel_required
  or_abort (get none ch s.channels) no_channel

unfoldable pub epoch_of : State → Key → Epoch
epoch_of s k = get new_epoch k s.epochs

unfoldable pub set_epoch : Key → Epoch → State → State
set_epoch k e s = record s { epochs = insert k e s.epochs }

-- `pinPolicy`: the first call that touches an epoch binds it to the policy in force.
unfoldable pub pin_policy : State → String → Epoch → Epoch
pin_policy s ch e = if e.policy == "" then record e { policy = get "" ch s.policies } else e

-- `auth.Authorize` with the round that the state holds for the role and action.
unfoldable pub authorize_action :
    (String → String) → Config → String → String → String → Env → State → Outcome (State × Bool)
unfolding authorize
authorize_action hash cfg role action payload env s = do
  d ←
      authorize hash cfg env.height payload env.caller env.required_auths
        (get new_round (role, action) s.rounds)
  ok (record s { rounds = insert (role, action) d.0 s.rounds }, d.1)

-- `epochEnd`
unfoldable pub epoch_end : State → String → Outcome ℕ
unfolding bounds_of decimal_value
epoch_end s ep = do b ← bounds_of s.genesis s.epoch_len (decimal_value 0 ep); ok b.1

abbrev at_least : ℕ → ℕ → ℕ
at_least m n = if ltb n m then m else n

unfoldable pub stale_blocks : State → Channel → ℕ
stale_blocks s c = at_least 1000 (at_least (mul64 s.epoch_len 2) (mul64 c.window 10))
