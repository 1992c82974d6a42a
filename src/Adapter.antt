-- ===== src/Adapter.antt =====
-- adapter/adapter.go: how the contracts reach the token, which is another contract and enters as
-- the parameter `Token`, with what the adapter and the contracts rely on as its laws.
mod Interface
pub mod Laws
pub mod Simple
pub use Interface.{Token, Funder, Staker}
use magi_tokenomics.Common.{
  string_eq, ℤ, pos, ◌≤ℤ◌, ltb_ℤ, leb_ℤ, String, Option, none, some, Outcome, ok, abort, ◌>>=◌,
  ◌>>◌, require, or_abort, abort_if, if◌then◌else◌, ◌==◌, bad_kind, token_id_set, token_refused,
  pull_not_positive, negative_balance, illegal_char, not,
}
use magi_tokenomics.Chain.{Env, World, is_clean}

pub data Kind : Type 0 where
  fungible editioned_nft : Kind

-- Only "0" is accepted.
unfoldable pub require_fungible : String → Outcome Kind
require_fungible kind = if kind == "0" then ok fungible else abort bad_kind

unfoldable pub require_no_token_id : String → Outcome (Unit {0})
require_no_token_id token_id = require (token_id == "") token_id_set

-- `safe` and the call of the token; an amount that is not positive moves nothing.
module _ {S E L : Type 0} (t : Token L) where
  unfoldable pub move_out : String → String → ℤ → World S E L → Outcome (World S E L)
  move_out from to amount w = do
    require (is_clean to) illegal_char
    l ← or_abort (t.transfer from to amount w.ledger) token_refused
    ok (record w { ledger = l })

  unfoldable pub transfer : Kind → Env → String → ℤ → World S E L → Outcome (World S E L)
  unfolding move_out
  transfer fungible env to amount w =
      if leb_ℤ amount (pos 0) then ok w else move_out env.self_addr to amount w
  transfer editioned_nft env to amount w = if leb_ℤ amount (pos 0) then ok w else abort bad_kind

  unfoldable pub move_in : Env → String → ℤ → World S E L → Outcome (World S E L)
  move_in env from amount w = do
    require (is_clean from) illegal_char
    l ← or_abort (t.transfer_from env.self_addr from env.self_addr amount w.ledger) token_refused
    ok (record w { ledger = l })

  unfoldable pub pull_from : Kind → Env → String → ℤ → World S E L → Outcome (World S E L)
  unfolding move_in
  pull_from fungible env from amount w =
      if leb_ℤ amount (pos 0) then abort pull_not_positive else move_in env from amount w
  pull_from editioned_nft env from amount w =
      if leb_ℤ amount (pos 0) then abort pull_not_positive else abort bad_kind

  unfoldable pub approve : Kind → Env → String → ℤ → World S E L → Outcome (World S E L)
  approve fungible env spender amount w = if leb_ℤ amount (pos 0) then ok w else (do
    require (is_clean spender) illegal_char
    l ← or_abort (t.approve env.self_addr spender amount w.ledger) token_refused
    ok (record w { ledger = l }))
  approve editioned_nft env spender amount w = if leb_ℤ amount (pos 0) then ok w else abort bad_kind

  unfoldable pub balance_of_self : Kind → Env → World S E L → Outcome ℤ
  balance_of_self fungible env w = do
    let held = t.balance_of w.ledger env.self_addr
    abort_if (ltb_ℤ held (pos 0)) negative_balance
    ok held
  balance_of_self editioned_nft env w = abort bad_kind
