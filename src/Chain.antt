-- ===== src/Chain.antt =====
-- What the chain's runtime hands a contract (sdk/env.go, sdk/sdk.go): the environment of a call,
-- and the world that a call changes: the contract's state, the token's ledger and the log of
-- events. Addresses are texts, heights are uint64, and the runtime supplies every field.
use Prim.Native.String.{len}
use Prim.Native.Char.{code}
use text.Mathlib.Text.{starts_with}
use magi_tokenomics.Common.{
  string_eq, ℕ, ◌+◌, ◌-◌, ◌*◌, ◌%◌, ◌^◌, String, Bool, true, false, ◌&&◌, ◌||◌, not, List, [], ◌∷◌,
  ltb, leb, ◌==◌, nat_beq, Outcome, require, bad_address, illegal_char, ◌>>◌,
}

pub record Env : Type 0 where
  pub owner : String
  pub caller : String
  -- "contract:" followed by the contract's id, as the token's ledger knows it.
  pub self_addr : String
  pub height : ℕ
  pub required_auths : List String

pub record World (S E L : Type 0) : Type 0 where
  pub state : S
  pub ledger : L
  -- Newest first.
  pub log : List E

abbrev pub uint64_mod : ℕ
uint64_mod = 2 ^ 64

-- uint64 sums, differences and products wrap.
unfoldable pub add64 : ℕ → ℕ → ℕ
add64 a b = (a + b) % 18446744073709551616

unfoldable pub sub64 : ℕ → ℕ → ℕ
sub64 a b = (a + 18446744073709551616 - b) % 18446744073709551616

unfoldable pub mul64 : ℕ → ℕ → ℕ
mul64 a b = (a * b) % 18446744073709551616

-- A byte that the state keys and the payloads cannot hold: '|', '"' or '\'.
unfoldable pub is_clean : String → Bool
is_clean String.[] = true
is_clean (String.◌∷◌ c s) =
    not (nat_beq (code c) 124 || nat_beq (code c) 34 || nat_beq (code c) 92) && is_clean s

-- `validateAddr`
unfoldable pub validate_addr : String → Outcome (Unit {0})
validate_addr a = do
  require (ltb 0 (len a) && leb (len a) 256) bad_address
  require (is_clean a) illegal_char

-- `isLedgerAddr`
unfoldable pub is_ledger_addr : String → Bool
is_ledger_addr a =
    starts_with a "hive:"
    || starts_with a "contract:"
    || starts_with a "did:"
    || starts_with a "system:"

unfoldable pub contains : List String → String → Bool
contains [] x = false
contains (v ∷ vs) x = v == x || contains vs x
