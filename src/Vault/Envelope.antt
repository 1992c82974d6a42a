-- ===== src/Vault/Envelope.antt =====
-- What the staking contract's balance covers: the stakes, the queued unstakes and the funded yield.
use magi_tokenomics.Common.{
  ℕ, ℤ, pos, ◌+ℤ◌, ◌-ℤ◌, ◌≤ℤ◌, int_laws, le_of_eq, ◌≡◌, ◌≢◌, arith, String, string_eq, nat_eq,
  pair_eq, insert, subst, sum_by, sum_by-insert,
}
use magi_tokenomics.Staking.State.{State}
use magi_tokenomics.Staking.Custody.{CustodyAt}
use magi_tokenomics.Vault.State.{Vault, Yield, no_yield, yield_of}

abbrev pub unpaid : Yield → ℤ
unpaid y = y.funded -ℤ y.paid

-- The contract as `self`, holding `held` tokens.
pub record Envelope (self : String) (v : Vault) (held : ℤ) : Type 0 where
  pub custody : CustodyAt v.staking (held -ℤ v.yield_outstanding)
  pub booked : v.yield_outstanding ≡ sum_by unpaid v.yields
  pub treasury_other : v.treasury ≢ self

pub CustodyAt-more : (s : State) (a b : ℤ) → a ≤ℤ b → CustodyAt s a → CustodyAt s b
CustodyAt-more s a b l v = record {
  covered = omega (arith, v.covered, l);
  queued = v.queued;
  tickets = v.tickets;
  free = v.free;
  stakes = v.stakes;
}

unpaid-none : unpaid no_yield ≡ pos 0
unpaid-none = omega int_laws

-- An epoch whose yield changes by what the outstanding yield and the balance change by.
pub set_yield-Envelope :
    (self : String) (v : Vault) (held x : ℤ) (ep : ℕ) (y : Yield) (v' : Vault)
    → unpaid y ≡ unpaid (yield_of v ep) +ℤ x
    → v'.yields ≡ insert ep y v.yields
    → v'.yield_outstanding ≡ v.yield_outstanding +ℤ x
    → v'.staking ≡ v.staking
    → v'.treasury ≡ v.treasury
    → Envelope self v held
    → Envelope self v' (held +ℤ x)
unfolding yield_of
set_yield-Envelope self v held x ep y v' u ys out st tr e = record {
  custody =
      rw (st, out)
        (CustodyAt-more v.staking (held -ℤ v.yield_outstanding)
          (held +ℤ x -ℤ (v.yield_outstanding +ℤ x)) (omega int_laws) e.custody);
  booked =
      rw (ys, out)
        (omega (
          int_laws,
          le_of_eq u,
          le_of_eq e.booked,
          le_of_eq (sum_by-insert unpaid no_yield ep y v.yields unpaid-none),
        ));
  treasury_other = rw tr e.treasury_other;
}

-- The same for an amount that leaves.
pub spent_yield-Envelope :
    (self : String) (v : Vault) (held x : ℤ) (ep : ℕ) (y : Yield) (v' : Vault)
    → unpaid y ≡ unpaid (yield_of v ep) -ℤ x
    → v'.yields ≡ insert ep y v.yields
    → v'.yield_outstanding ≡ v.yield_outstanding -ℤ x
    → v'.staking ≡ v.staking
    → v'.treasury ≡ v.treasury
    → Envelope self v held
    → Envelope self v' (held -ℤ x)
spent_yield-Envelope self v held x ep y v' u ys out st tr e =
    subst (λ h. Envelope self v' h) (omega int_laws)
      (set_yield-Envelope self v held (pos 0 -ℤ x) ep y v' (omega (int_laws, le_of_eq u)) ys
        (omega (int_laws, le_of_eq out)) st tr e)
