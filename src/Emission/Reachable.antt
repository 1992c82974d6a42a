-- ===== src/Emission/Reachable.antt =====
-- The controller's life as a sequence of steps: its calls in any order, by anybody, at any height, and what
-- others do on the token's ledger in between, which cannot lower the contract's own balance.
use magi_tokenomics.Common.{
  ℕ, ℤ, ◌≤ℤ◌, IsNonneg, ◌≡◌, ◌≢◌, sym, subst, ◌∙◌, arith, List, String, get, string_eq, ok, ◌*ℤ◌,
  ◌/ℤ◌, sum_by,
}
use magi_tokenomics.Chain.{Env, World}
use magi_tokenomics.Adapter.{Token}
use magi_tokenomics.Emission.State.{State, Event, deployed}
use magi_tokenomics.Emission.Schedule.{for_epoch}
use magi_tokenomics.Emission.Init.{Request, init}
use magi_tokenomics.Emission.Poke.{Report, distribute_epoch}
use magi_tokenomics.Emission.Claim.{claim_bucket}
use magi_tokenomics.Emission.Solvency.{Solvent, SolventAt, distribute_epoch-Solvent}
use magi_tokenomics.Emission.Claiming.{claim_bucket-Solvent}
use magi_tokenomics.Emission.Configured.{init-Solvent}

module _ {L : Type 0} (t : Token L) (self : String) where
  pub data Step (w w' : World State Event L) : Type 0 where
    initializes :
        (env : Env) (r : Request) → env.self_addr ≡ self → init t env r w ≡ ok w' → Step w w'
    pokes :
        (env : Env) (r : Report)
        → env.self_addr ≡ self
        → distribute_epoch t env w ≡ ok (w', r)
        → Step w w'
    claims :
        (env : Env) (epoch : List ℕ) (bucket : String) (amt : ℤ)
        → env.self_addr ≡ self
        → claim_bucket t env epoch bucket w ≡ ok (w', amt)
        → Step w w'
    elsewhere :
        w'.state ≡ w.state → t.balance_of w.ledger self ≤ℤ t.balance_of w'.ledger self → Step w w'

  pub data Reachable : World State Event L → Type 0 where
    fresh :
        (w : World State Event L)
        → w.state ≡ deployed
        → IsNonneg (t.balance_of w.ledger self)
        → Reachable w
    after : {w w' : World State Event L} → Reachable w → Step w w' → Reachable w'

  Step-Solvent :
      (w w' : World State Event L) → self ≢ "" → Step w w' → Solvent t self w → Solvent t self w'
  Step-Solvent w w' named (initializes env r at e) v =
      subst (λ (s : String). Solvent t s w') at
        (init-Solvent t env r w w' (λ h. named (sym at ∙ h)) (rw at v) e)
  Step-Solvent w w' named (pokes env r at e) v =
      subst (λ (s : String). Solvent t s w') at (distribute_epoch-Solvent t env w w' r (rw at v) e)
  Step-Solvent w w' named (claims env epoch bucket amt at e) v =
      subst (λ (s : String). Solvent t s w') at
        (claim_bucket-Solvent t env epoch bucket w w' amt (rw at v) e)
  Step-Solvent w w' named (elsewhere same more) v =
      subst (λ (s : State). SolventAt self s (t.balance_of w'.ledger self)) (sym same)
        (record {
          covered = omega (arith, v.covered);
          nonneg = v.nonneg;
          weighed = v.weighed;
          full = v.full;
          emits = v.emits;
          targets_other = v.targets_other;
        })

  deployed-SolventAt : (held : ℤ) → self ≢ "" → IsNonneg held → SolventAt self deployed held
  unfolding sum_by get for_epoch ◌*ℤ◌ ◌/ℤ◌
  deployed-SolventAt held named h = record {
    covered = h;
    nonneg = tt;
    weighed = tt;
    full = omega arith;
    emits = omega arith;
    targets_other = λ name e. named (sym e);
  }

  -- From deployment on, after any sequence of init, distributeEpoch and claimBucket calls and of
  -- ledger changes made by others that do not lower the controller's balance, the controller
  -- holds at least the sum of everything its buckets are owed; no owed amount is negative, the
  -- weights sum to at most 10000 and none is negative, the emission is not negative, and no
  -- bucket's target is the controller itself.
  pub Reachable-Solvent : (w : World State Event L) → self ≢ "" → Reachable w → Solvent t self w
  Reachable-Solvent w named (fresh _ e h) =
      subst (λ (s : State). SolventAt self s (t.balance_of w.ledger self)) (sym e)
        (deployed-SolventAt _ named h)
  Reachable-Solvent w named (after r st) = Step-Solvent _ w named st (Reachable-Solvent _ named r)
