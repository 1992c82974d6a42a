-- ===== src/Adapter/Laws.antt =====
-- What a movement of the value asset does to the world, for any token.
use magi_tokenomics.Common.{
  ℤ, pos, ◌+ℤ◌, ◌-ℤ◌, ◌<ℤ◌, String, ◌≡◌, ◌≢◌, ok, arith, inl, inr, Option-cases,
}
use magi_tokenomics.Chain.{Env, World}
use magi_tokenomics.Adapter.Interface.{Token}
use magi_tokenomics.Adapter.{
  Kind, fungible, editioned_nft, transfer, pull_from, approve, move_out, move_in,
}

module _ {S E L : Type 0} (t : Token L) where
  -- A positive payment to another account leaves state and log alone and debits the contract.
  pub transfer_pays :
      (k : Kind) (env : Env) (to : String) (x : ℤ) (w w' : World S E L)
      → transfer t k env to x w ≡ ok w'
      → pos 0 <ℤ x
      → env.self_addr ≢ to
      → (w'.state ≡ w.state)
        × (w'.log ≡ w.log)
        × (t.balance_of w'.ledger env.self_addr ≡ t.balance_of w.ledger env.self_addr -ℤ x)
  unfolding transfer move_out
  transfer_pays fungible env to x w w' h p ne =
      elim (Option-cases (t.transfer env.self_addr to x w.ledger)) [
        | inl e ↦ ground arith
        | inr (l, e) ↦ ground (arith, t.transfer_debits env.self_addr to x w.ledger l e ne)
      ]
  transfer_pays editioned_nft env to x w w' h p ne = ground arith

  -- A pull leaves state and log alone, is of a positive amount, and credits the contract.
  pub pull_from_credits :
      (k : Kind) (env : Env) (from : String) (x : ℤ) (w w' : World S E L)
      → pull_from t k env from x w ≡ ok w'
      → (pos 0 <ℤ x)
        × (w'.state ≡ w.state)
        × (w'.log ≡ w.log)
        × (t.balance_of w'.ledger env.self_addr ≡ t.balance_of w.ledger env.self_addr +ℤ x)
  unfolding pull_from move_in
  pull_from_credits fungible env from x w w' h =
      elim (Option-cases (t.transfer_from env.self_addr from env.self_addr x w.ledger)) [
        | inl e ↦ ground arith
        | inr (l, e) ↦
            ground (arith, t.transfer_from_credits env.self_addr from env.self_addr x w.ledger l e)
      ]
  pull_from_credits editioned_nft env from x w w' h = ground arith

  -- An approval changes no balance.
  pub approve_moves_nothing :
      (k : Kind) (env : Env) (spender : String) (x : ℤ) (w w' : World S E L)
      → approve t k env spender x w ≡ ok w'
      → (w'.state ≡ w.state)
        × (w'.log ≡ w.log)
        × ((acct : String) → t.balance_of w'.ledger acct ≡ t.balance_of w.ledger acct)
  unfolding approve
  approve_moves_nothing fungible env spender x w w' h =
      elim (Option-cases (t.approve env.self_addr spender x w.ledger)) [
        | inl e ↦ ground arith
        | inr (l, e) ↦ ground (arith, t.approve_keeps env.self_addr spender x w.ledger l e)
      ]
  approve_moves_nothing editioned_nft env spender x w w' h = ground arith
