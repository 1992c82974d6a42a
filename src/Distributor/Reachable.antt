-- ===== src/Distributor/Reachable.antt =====
-- The distributor's life from its deployment: its calls in any order, by anybody, at heights that
-- never fall, and what others do on the ledgers in between, which cannot lower its own balance.
use magi_tokenomics.Common.{
  ℕ, ◌≤◌, ℤ, ◌≤ℤ◌, int_laws, IsNonneg, Bool, ◌≡◌, ◌≢◌, sym, subst, arith, String, List, Option, get,
  string_eq, pair_eq, ok, sum_by,
}
use magi_tokenomics.Chain.{Env, World}
use magi_tokenomics.Adapter.{Token, Funder, Staker}
use magi_tokenomics.Distributor.State.{State, Event, deployed}
use magi_tokenomics.Distributor.Funding.{
  pull_funding, cancel_epoch, sweep_unallocated, release_stale_attest,
}
use magi_tokenomics.Distributor.Book.{submit_shares, submit_root, finalize_epoch}
use magi_tokenomics.Distributor.Claim.{claim}
use magi_tokenomics.Distributor.Setup.{Request, ChannelRequest, init, add_channel, set_policy}
use magi_tokenomics.Distributor.Covered.{Settled-new}
use magi_tokenomics.Distributor.Sound.{Sound, Sound-later}
use magi_tokenomics.Distributor.BookSound.{
  submit_shares-Sound, submit_root-Sound, finalize_epoch-Sound,
}
use magi_tokenomics.Distributor.FundingSound.{
  pull_funding-Sound, cancel_epoch-Sound, sweep_unallocated-Sound,
}
use magi_tokenomics.Distributor.ClaimSound.{claim-Sound}
use magi_tokenomics.Distributor.SetupSound.{
  init-Sound, add_channel-Sound, set_policy-Sound, release_stale_attest-Sound,
}

module _ {R : Type 0} (t : Token R) (funder : Funder R t.balance_of)
    (staker : Staker R t.balance_of) (garbled : String → ℤ) (hash : String → String)
    (sha256 : List ℕ → List ℕ) (self : String) where
  -- A handler's run that goes through and leaves the world w', or a move elsewhere. No claimant is
  -- the contract itself.
  pub data Step (env : Env) (w w' : World State Event R) : Type 0 where
    inits : (r : Request) → init t funder staker env r w ≡ ok w' → Step env w w'
    adds_channel :
        (ch : String) (r : ChannelRequest) → add_channel t funder env ch r w ≡ ok w' → Step env w w'
    sets_policy : (ch policy : String) → set_policy env ch policy w ≡ ok w' → Step env w w'
    pulls :
        (ch epoch : String) (x : ℤ)
        → pull_funding t funder env ch epoch w ≡ ok (w', x)
        → Step env w w'
    submits_shares :
        (ch epoch page entries : String) (b : Bool)
        → submit_shares garbled hash env ch epoch page entries w ≡ ok (w', b)
        → Step env w w'
    submits_root :
        (ch epoch root total accounts policy : String) (b : Bool)
        → submit_root garbled hash env ch epoch root total accounts policy w ≡ ok (w', b)
        → Step env w w'
    finalizes :
        (ch epoch : String) (b : Bool)
        → finalize_epoch hash env ch epoch w ≡ ok (w', b)
        → Step env w w'
    cancels :
        (ch epoch : String) (b : Bool)
        → cancel_epoch hash env ch epoch w ≡ ok (w', b)
        → Step env w w'
    sweeps :
        (ch nonce : String) (amount : ℤ) (swept : Option ℤ)
        → sweep_unallocated hash t env ch nonce amount w ≡ ok (w', swept)
        → Step env w w'
    releases :
        (role ch action : String) (n : ℕ)
        → release_stale_attest env role ch action w ≡ ok (w', n)
        → Step env w w'
    claims :
        (ch epoch share proof : String) (payout : ℤ)
        → env.self_addr ≢ env.caller
        → claim t staker garbled sha256 env ch epoch share proof w ≡ ok (w', payout)
        → Step env w w'
    elsewhere :
        w'.state ≡ w.state
        → t.balance_of w.ledger env.self_addr ≤ℤ t.balance_of w'.ledger env.self_addr
        → Step env w w'

  pub data Reachable : ℕ → World State Event R → Type 0 where
    fresh :
        (h : ℕ) (w : World State Event R)
        → w.state ≡ deployed
        → IsNonneg (t.balance_of w.ledger self)
        → Reachable h w
    after :
        {now : ℕ} (env : Env) {w w' : World State Event R}
        → Reachable now w
        → now ≤ env.height
        → env.self_addr ≡ self
        → Step env w w'
        → Reachable env.height w'

  abbrev SoundWorld : Env → World State Event R → Type 0
  SoundWorld env w = Sound env.self_addr env.height w.state (t.balance_of w.ledger env.self_addr)

  -- A handler that leaves the ledger alone.
  of_same_ledger :
      (env : Env) (w w' : World State Event R)
      → (w'.ledger ≡ w.ledger)
        × Sound env.self_addr env.height w'.state (t.balance_of w.ledger env.self_addr)
      → SoundWorld env w'
  of_same_ledger env w w' (same, v) = rw same v

  Step-Sound :
      (env : Env) (w w' : World State Event R)
      → Step env w w'
      → SoundWorld env w
      → SoundWorld env w'
  Step-Sound env w w' (inits r e) v =
      of_same_ledger env w w' (init-Sound t funder staker env r w w' _ v e)
  Step-Sound env w w' (adds_channel ch r e) v =
      of_same_ledger env w w' (add_channel-Sound t funder _ env.height env ch r w w' _ v e)
  Step-Sound env w w' (sets_policy ch policy e) v =
      of_same_ledger env w w' (set_policy-Sound t funder _ env.height env ch policy w w' _ v e)
  Step-Sound env w w' (pulls ch epoch x e) v =
      pull_funding-Sound t funder env ch epoch w (w', x) v e
  Step-Sound env w w' (submits_shares ch epoch page entries b e) v =
      of_same_ledger env w w'
        (submit_shares-Sound garbled hash _ env ch epoch page entries w (w', b) _ v e)
  Step-Sound env w w' (submits_root ch epoch root total accounts policy b e) v =
      of_same_ledger env w w'
        (submit_root-Sound garbled hash _ env ch epoch root total accounts policy w (w', b) _ v e)
  Step-Sound env w w' (finalizes ch epoch b e) v =
      of_same_ledger env w w' (finalize_epoch-Sound hash _ env ch epoch w (w', b) _ v e)
  Step-Sound env w w' (cancels ch epoch b e) v =
      of_same_ledger env w w' (cancel_epoch-Sound hash _ env ch epoch w (w', b) _ v e)
  Step-Sound env w w' (sweeps ch nonce amount swept e) v =
      sweep_unallocated-Sound hash t env ch nonce amount w (w', swept) v e
  Step-Sound env w w' (releases role ch action n e) v =
      of_same_ledger env w w'
        (release_stale_attest-Sound t funder _ env.height env role ch action w (w', n) _ v e)
  Step-Sound env w w' (claims ch epoch share proof payout other e) v =
      claim-Sound t staker garbled sha256 env ch epoch share proof w w' payout other v e
  Step-Sound env w w' (elsewhere same more) v = rw same (record {
    owed = record {
      covered = omega (arith, v.owed.covered);
      settled = v.owed.settled;
      pooled = v.owed.pooled;
    };
    treasury_other = v.treasury_other;
    bps_fits = v.bps_fits;
  })

  deployed-Sound : (h : ℕ) (held : ℤ) → self ≢ "" → IsNonneg held → Sound self h deployed held
  unfolding sum_by get
  deployed-Sound h held named n = record {
    owed = record { covered = omega (int_laws, n); settled = λ k. Settled-new h; pooled = tt };
    treasury_other = λ e. named (sym e);
    bps_fits = omega arith;
  }

  -- For a distributor with a name that was deployed with a balance that is not negative, after
  -- any sequence of its calls (init, addChannel, setPolicy, pullFunding, submitShares,
  -- submitRoot, finalizeEpoch, cancelEpoch, sweepUnallocated, releaseStaleAttest and claim) that
  -- went through at heights that never fall, and of moves by others that leave its state and do
  -- not lower its balance, where no claimant is the distributor itself, its balance is at least
  -- the sum over all epochs of what was funded and is not paid and over all channels of what is
  -- unallocated; in each epoch what is paid is not negative, is at most what was funded, and is 0
  -- unless the epoch is finalized with its challenge window over; no pool is negative, the
  -- treasury is another account, and at most 10000 basis points are staked.
  pub Reachable-Sound :
      (h : ℕ) (w : World State Event R)
      → self ≢ ""
      → Reachable h w
      → Sound self h w.state (t.balance_of w.ledger self)
  Reachable-Sound h w named (fresh _ _ s n) = rw s (deployed-Sound h _ named n)
  Reachable-Sound h w named (after env r l here st) =
      subst (λ x. Sound x env.height w.state (t.balance_of w.ledger x)) here
        (Step-Sound env _ w st
          (rw here (Sound-later self _ env.height _ _ l (Reachable-Sound _ _ named r))))
