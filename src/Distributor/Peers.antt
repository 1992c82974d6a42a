-- ===== src/Distributor/Peers.antt =====
-- A small funder and a small staking contract on the small token, which meet the laws that the
-- distributor relies on: an instance at which its theorems can be run.
use magi_tokenomics.Common.{
  ℕ, zero, suc, ◌+◌, ◌%◌, ℤ, pos, ◌+ℤ◌, ◌-ℤ◌, ◌<ℤ◌, ◌≡◌, refl, subst, arith, inl, inr, String, List,
  [], ◌∷◌, get_big, insert, get-insert, beq_refl, string_eq, ◌==◌, if◌then◌else◌, Option, none,
  some, Bool-cases, ne_of_beq,
}
use magi_tokenomics.Adapter.{Funder, Staker}
use magi_tokenomics.Adapter.Simple.{Ledger, simple_token, send, send_debits}

abbrev granted : String → Ledger → Ledger
granted acct l = record l { balances = insert acct (get_big acct l.balances +ℤ pos 100) l.balances }

-- Every claim of a bucket is granted 100.
abbrev claim_hundred : String → List ℕ → String → Ledger → Option (Ledger × ℤ)
claim_hundred caller epoch bucket l = some (granted caller l, pos 100)

pub claim_hundred_credits :
    (caller : String) (epoch : List ℕ) (bucket : String) (l l' : Ledger) (x : ℤ)
    → claim_hundred caller epoch bucket l ≡ some (l', x)
    → (pos 0 <ℤ x) × (get_big caller l'.balances ≡ get_big caller l.balances +ℤ x)
claim_hundred_credits caller epoch bucket l l' x e =
    subst
      (λ (r : Ledger × ℤ).
        (pos 0 <ℤ r.1) × (get_big caller r.0.balances ≡ get_big caller l.balances +ℤ r.1))
      (some_injective e) (omega arith, rw (get-insert, beq_refl) refl)
  where
    some_injective : {a b : Ledger × ℤ} → some a ≡ some b → a ≡ b
    some_injective h = cc

abbrev pub small_funder : Funder Ledger simple_token.balance_of
small_funder = record {
  claim_bucket = claim_hundred;
  schedule_info = λ l. some (1000, 10);
  bucket_target = λ l bucket. some "contract:c3";
  claim_credits = claim_hundred_credits;
}

-- What is staked goes to the staking contract's own account.
unfoldable pub stake_for_account : String → String → ℤ → Ledger → Option Ledger
unfolding send
stake_for_account caller acct x l =
    if caller == "contract:c1" then none else send caller "contract:c1" x l

pub stake_for_account_debits :
    (caller acct : String) (x : ℤ) (l l' : Ledger)
    → stake_for_account caller acct x l ≡ some l'
    → get_big caller l'.balances ≡ get_big caller l.balances -ℤ x
unfolding stake_for_account
stake_for_account_debits caller acct x l l' e = elim (Bool-cases (caller == "contract:c1")) [
  | inl same ↦ absurd (none_ne_some (rw same at e))
  | inr other ↦
      send_debits caller "contract:c1" x l l' (rw other at e) (ne_of_beq caller "contract:c1" other)
]
  where
    none_ne_some : {a : Ledger} → none ≡ some a → ⊥
    none_ne_some h = cc

abbrev pub small_staker : Staker Ledger simple_token.balance_of
small_staker = record {
  stake_for = stake_for_account;
  token_of = λ l. "vsctoken";
  stake_for_debits = stake_for_account_debits;
}

unfoldable pub checksum : List ℕ → ℕ
checksum [] = 0
checksum (x ∷ xs) = (x + checksum xs) % 256

unfoldable pub zeros_then : List ℕ → ℕ → List ℕ
zeros_then xs zero = xs
zeros_then xs (suc n) = 0 ∷ zeros_then xs n

-- In place of SHA-256: the sum of the bytes, in 32 bytes.
unfoldable pub toy_sha256 : List ℕ → List ℕ
unfolding checksum zeros_then
toy_sha256 xs = zeros_then (checksum xs ∷ []) 31
