-- ===== src/Adapter/Simple.antt =====
-- A small token with balances and allowances, which meets the laws of `Token`: an instance at which
-- the theorems about the contracts can be run.
use magi_tokenomics.Common.{
  ℤ, pos, ◌+ℤ◌, ◌-ℤ◌, ltb_ℤ, ◌||◌, ◌≡◌, ◌≢◌, sym, ap, subst, String, Map, get_big, get-insert,
  insert, string_eq, pair_eq, ◌==◌, if◌then◌else◌, Option, none, some, beq_refl, beq_ne, Bool-cases,
  ne_of_beq, inl, inr,
}
use magi_tokenomics.Adapter.Interface.{Token}

pub record Ledger : Type 0 where
  pub balances : Map String ℤ
  pub allowances : Map (String × String) ℤ

unfoldable pub move : String → String → ℤ → Ledger → Ledger
move from to x l =
    let debited = insert from (get_big from l.balances -ℤ x) l.balances in
    record l { balances = insert to (get_big to debited +ℤ x) debited }

unfoldable pub send : String → String → ℤ → Ledger → Option Ledger
unfolding move
send from to x l =
    if ltb_ℤ (get_big from l.balances) x || ltb_ℤ x (pos 0) then none else some (move from to x l)

unfoldable pub send_from : String → String → String → ℤ → Ledger → Option Ledger
unfolding move
send_from spender from to x l =
    if from == to
      || ltb_ℤ (get_big (from, spender) l.allowances) x
      || ltb_ℤ (get_big from l.balances) x
      || ltb_ℤ x (pos 0)
    then none
    else some (record (move from to x l) {
      allowances = insert (from, spender) (get_big (from, spender) l.allowances -ℤ x) l.allowances;
    })

some_injective : {A : Type 0} {a b : A} → some a ≡ some b → a ≡ b
some_injective h = cc

move_debits :
    (from to : String) (x : ℤ) (l : Ledger)
    → from ≢ to
    → get_big from (move from to x l).balances ≡ get_big from l.balances -ℤ x
unfolding move
move_debits from to x l ne =
    simp (get-insert, beq_refl from, beq_ne from to ne, beq_ne to from (λ e. ne (sym e)))

move_credits :
    (from to : String) (x : ℤ) (l : Ledger)
    → from ≢ to
    → get_big to (move from to x l).balances ≡ get_big to l.balances +ℤ x
unfolding move
move_credits from to x l ne = simp (get-insert, beq_refl to, beq_ne to from (λ e. ne (sym e)))

pub send_debits :
    (from to : String) (x : ℤ) (l l' : Ledger)
    → send from to x l ≡ some l'
    → from ≢ to
    → get_big from l'.balances ≡ get_big from l.balances -ℤ x
unfolding send
send_debits from to x l l' e ne =
    elim (Bool-cases (ltb_ℤ (get_big from l.balances) x || ltb_ℤ x (pos 0))) [
      | inl refused ↦ absurd (none_ne_some (rw refused at e))
      | inr sent ↦
          subst (λ (y : Ledger). get_big from y.balances ≡ get_big from l.balances -ℤ x)
            (some_injective (rw sent at e)) (move_debits from to x l ne)
    ]
  where
    none_ne_some : {a : Ledger} → none ≡ some a → ⊥
    none_ne_some h = cc

pub send_from_credits :
    (spender from to : String) (x : ℤ) (l l' : Ledger)
    → send_from spender from to x l ≡ some l'
    → get_big to l'.balances ≡ get_big to l.balances +ℤ x
unfolding send_from
send_from_credits spender from to x l l' e = elim (Bool-cases (from == to)) [
  | inl same ↦ absurd (none_ne_some (rw same at e))
  | inr other ↦
      elim (Bool-cases (
        ltb_ℤ (get_big (from, spender) l.allowances) x
        || ltb_ℤ (get_big from l.balances) x
        || ltb_ℤ x (pos 0))) [
          | inl refused ↦ absurd (none_ne_some (rw (other, refused) at e))
          | inr sent ↦
              subst (λ (y : Ledger). get_big to y.balances ≡ get_big to l.balances +ℤ x)
                (some_injective (rw (other, sent) at e))
                (move_credits from to x l (ne_of_beq from to other))
        ]
]
  where
    none_ne_some : {a : Ledger} → none ≡ some a → ⊥
    none_ne_some h = cc

pub send_credits :
    (from to : String) (x : ℤ) (l l' : Ledger)
    → send from to x l ≡ some l'
    → from ≢ to
    → get_big to l'.balances ≡ get_big to l.balances +ℤ x
unfolding send
send_credits from to x l l' e ne =
    elim (Bool-cases (ltb_ℤ (get_big from l.balances) x || ltb_ℤ x (pos 0))) [
      | inl refused ↦ absurd (none_ne_some (rw refused at e))
      | inr sent ↦
          subst (λ (y : Ledger). get_big to y.balances ≡ get_big to l.balances +ℤ x)
            (some_injective (rw sent at e)) (move_credits from to x l ne)
    ]
  where
    none_ne_some : {a : Ledger} → none ≡ some a → ⊥
    none_ne_some h = cc

unfoldable pub allow : String → String → ℤ → Ledger → Option Ledger
allow owner spender x l = some (record l { allowances = insert (owner, spender) x l.allowances })

pub allow_keeps :
    (owner spender : String) (x : ℤ) (l l' : Ledger)
    → allow owner spender x l ≡ some l'
    → (acct : String) → get_big acct l'.balances ≡ get_big acct l.balances
unfolding allow
allow_keeps owner spender x l l' e acct =
    ap (λ (y : Ledger). get_big acct y.balances) (sym (some_injective e))

abbrev pub simple_token : Token Ledger
simple_token = record {
  balance_of = λ l a. get_big a l.balances;
  allowance = λ l owner spender. get_big (owner, spender) l.allowances;
  max_supply = λ l. pos 1000000;
  transfer = send;
  transfer_from = send_from;
  approve = allow;
  transfer_debits = send_debits;
  transfer_credits = send_credits;
  approve_keeps = allow_keeps;
  transfer_from_credits = send_from_credits;
}
