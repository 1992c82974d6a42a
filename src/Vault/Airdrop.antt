-- ===== src/Vault/Airdrop.antt =====
-- `airdropBatch`, `sweepUnobligated` and the query `airdropTotal`.
use magi_tokenomics.Common.{
  ℤ, pos, ◌+ℤ◌, ◌-ℤ◌, ltb_ℤ, leb_ℤ, true, false, not, String, List, [], ◌∷◌, ◌++◌, none, some, ◌==◌,
  string_eq, if◌then◌else◌, get, insert, length, Outcome, ok, abort, require, abort_if, ◌>>=◌, ◌>>◌,
  not_initialized, not_owner, airdrop_off, batch_required, batch_applied, over_cap, over_envelope,
  no_treasury, nothing_to_sweep,
}
use magi_tokenomics.Chain.{Env, World, validate_addr, is_ledger_addr}
use magi_tokenomics.Auth.Active.{require_active}
use magi_tokenomics.Adapter.{Token, transfer, balance_of_self}
use magi_tokenomics.Text.Fields.{split_comma, last_colon, parse_big}
use magi_tokenomics.Staking.State.{via_airdrop}
use magi_tokenomics.Staking.Credit.{apply_credit}
use magi_tokenomics.Vault.State.{
  Vault, Logged, airdrop, airdrop_skip, sweep_unobligated_event, in_vault,
}

-- What the balance already owes: stakes, funded yield and queued unstakes.
unfoldable pub obligations : Vault → ℤ
obligations v = v.staking.total_staked +ℤ v.yield_outstanding +ℤ v.staking.unstake_outstanding

-- The two sides of the last colon; nothing where there is none.
unfoldable pub account_and_amount : String → String × String
unfolding last_colon
account_and_amount s = elim (last_colon s) [ none ↦ ("", "") | some p ↦ p ]

-- The entries of a batch that count, with their sum and the log.
pub record Batch : Type 0 where
  pub entries : List (String × ℤ)
  pub sum : ℤ
  pub log : List Logged

module _ (garbled : String → ℤ) where
  unfoldable pub read_entry : String → String → Batch → Outcome Batch
  unfolding account_and_amount parse_big validate_addr is_ledger_addr
  read_entry batch e b = do
    let (acct, text) = account_and_amount e
    let x = parse_big garbled text
    if acct == "" then ok (record b { log = airdrop_skip batch e "no account" ∷ b.log }) else (do
      validate_addr acct
      ok (
          if not (is_ledger_addr acct)
          then record b { log = airdrop_skip batch e "not a ledger address" ∷ b.log }
          else if leb_ℤ x (pos 0)
          then record b { log = airdrop_skip batch e "amount not positive" ∷ b.log }
          else record b { entries = b.entries ++ (acct, x) ∷ []; sum = b.sum +ℤ x }))

  -- The list keeps the order of the text.
  unfoldable pub read_entries : String → List String → Batch → Outcome Batch
  unfolding read_entry
  read_entries batch [] b = ok b
  read_entries batch (e ∷ es) b = do b' ← read_entry batch e b; read_entries batch es b'

-- What the cap still leaves to be spent.
unfoldable pub reserved : Vault → ℤ
reserved v = elim v.max_airdrop [
  | none ↦ pos 0
  | some cap ↦ if ltb_ℤ (pos 0) (cap -ℤ v.airdrop_total) then cap -ℤ v.airdrop_total else pos 0
]

unfoldable pub check_owner : Env → Vault → Outcome (Unit {0})
unfolding require_active
check_owner env v = do
  require v.staking.initialized not_initialized
  require (env.caller == env.owner) not_owner
  require_active env.caller env.required_auths

unfoldable pub check_batch : String → Vault → Outcome ℤ
unfolding validate_addr
check_batch batch v = elim v.max_airdrop [
  | none ↦ abort airdrop_off
  | some cap ↦ (do
    abort_if (batch == "") batch_required
    validate_addr batch
    abort_if (get false batch v.batches) batch_applied
    ok cap)
]

module _ {R : Type 0} (t : Token R) where
  unfoldable pub unobligated : Env → World Vault Logged R → Outcome ℤ
  unfolding obligations
  unobligated env w = do
    held ← balance_of_self t w.state.staking.kind env w
    ok (held -ℤ obligations w.state)

  -- As stake, which moves nothing, or as tokens.
  unfoldable pub give : Env → String × ℤ → World Vault Logged R → Outcome (World Vault Logged R)
  unfolding in_vault apply_credit
  give env e w =
      if w.state.airdrop_staked
      then in_vault (apply_credit env e.0 e.1 via_airdrop) w
      else transfer t w.state.staking.kind env e.0 e.1 w

  unfoldable pub give_all :
      Env → List (String × ℤ) → World Vault Logged R → Outcome (World Vault Logged R)
  unfolding give
  give_all env [] w = ok w
  give_all env (e ∷ es) w = do w' ← give env e w; give_all env es w'

  -- The result is the total that was ever given out.
  unfoldable pub airdrop_batch :
      (String → ℤ)
      → Env
      → String
      → String
      → World Vault Logged R
      → Outcome (World Vault Logged R × ℤ)
  unfolding check_owner check_batch read_entries split_comma unobligated give_all
  airdrop_batch garbled env batch entries w = do
    check_owner env w.state
    cap ← check_batch batch w.state
    b ←
        read_entries garbled batch (split_comma entries)
          (record { entries = []; sum = pos 0; log = w.log })
    let total = w.state.airdrop_total +ℤ b.sum
    abort_if (ltb_ℤ cap total) over_cap
    let marked = record w {
      state = record w.state { batches = insert batch true w.state.batches };
      log = b.log;
    }
    available ← unobligated env w
    abort_if (ltb_ℤ available b.sum) over_envelope
    w' ← give_all env b.entries marked
    ok (
      record w' {
        state = record w'.state { airdrop_total = total };
        log = airdrop batch (length b.entries) b.sum total w'.state.airdrop_staked ∷ w'.log;
      },
      total,
    )

  unfoldable pub sweep_unobligated : Env → World Vault Logged R → Outcome (World Vault Logged R × ℤ)
  unfolding check_owner unobligated reserved
  sweep_unobligated env w = do
    check_owner env w.state
    abort_if (w.state.treasury == "") no_treasury
    free ← unobligated env w
    let amt = free -ℤ reserved w.state
    require (ltb_ℤ (pos 0) amt) nothing_to_sweep
    w' ← transfer t w.state.staking.kind env w.state.treasury amt w
    ok (record w' { log = sweep_unobligated_event amt w.state.treasury ∷ w'.log }, amt)

  unfoldable pub airdrop_total : Env → World Vault Logged R → Outcome (ℤ × ℤ)
  unfolding unobligated
  airdrop_total env w = do
    require w.state.staking.initialized not_initialized
    free ← unobligated env w
    ok (w.state.airdrop_total, free)
