-- ===== src/Distributor/Book.antt =====
-- The share book of an epoch: `submitShares`, `submitRoot` and `finalizeEpoch`. `garbled` is what
-- big.Int's SetString leaves of a text that it refuses.
use Prim.Native.String.{◌++◌}
use magi_tokenomics.Common.{
  ℕ, ◌+◌, ℤ, pos, ◌+ℤ◌, ltb_ℤ, leb_ℤ, Bool, true, false, ◌&&◌, not, String, List, [], ◌∷◌, ◌==◌,
  string_eq, pair_eq, if◌then◌else◌, get, insert, Outcome, ok, require, abort_if, or_abort, ◌>>=◌,
  ◌>>◌, not_initialized, epoch_not_open, page_applied, beyond_total, root_submitted, bad_root,
  upper_case_root, bad_total, policy_mismatch, not_funded, no_root, no_shares, total_mismatch,
}
use magi_tokenomics.Chain.{Env, World, add64, validate_addr, is_ledger_addr}
use magi_tokenomics.Text.Fields.{canon, split_comma, split2, parse_big, show_int}
use magi_tokenomics.Merkle.Hex.{hex_to_bytes, has_upper_hex}
use magi_tokenomics.Distributor.State.{
  State, Event, Channel, Epoch, Key, finalized, skip, shares, root_event, epoch_status,
}
use magi_tokenomics.Distributor.Policy.{
  auth_cfg, must_channel, epoch_of, set_epoch, pin_policy, authorize_action,
}
use magi_tokenomics.Distributor.Funding.{is_open}

-- What a page adds up to so far.
pub record Tally : Type 0 where
  pub counted : ℕ
  pub total : ℤ
  pub log : List Event

-- The commitment, under the policy that the epoch is pinned to.
unfoldable pub commit_root :
    {R : Type 0}
    → Key
    → String
    → ℤ
    → String
    → Epoch
    → World State Event R
    → State
    → World State Event R × Bool
unfolding set_epoch
commit_root k root total accounts pinned w s =
    let named = if accounts == "" then pinned else record pinned { accounts = accounts } in
    (
      record w {
        state = set_epoch k (record named { root = root; total_shares = total }) s;
        log = root_event k.0 k.1 root total accounts ∷ w.log;
      },
      true,
    )

module _ (garbled : String → ℤ) where
  -- A malformed entry is skipped and named in the log; an address that could forge a key aborts.
  unfoldable pub count_entry : Key → String → String → Tally → Outcome Tally
  unfolding split2 parse_big
  count_entry k page entry y = do
    let (acct, sh) = split2 entry
    let s = parse_big garbled sh
    if acct == "" then ok (record y { log = skip k.0 k.1 page entry "no account" ∷ y.log }) else (do
      validate_addr acct
      ok (
          if not (is_ledger_addr acct)
          then record y { log = skip k.0 k.1 page entry "not a ledger address" ∷ y.log }
          else if leb_ℤ s (pos 0)
          then record y { log = skip k.0 k.1 page entry "shares not positive" ∷ y.log }
          else record y { counted = y.counted + 1; total = y.total +ℤ s }))

  unfoldable pub count_entries : Key → String → List String → Tally → Outcome Tally
  unfolding count_entry
  count_entries k page [] y = ok y
  count_entries k page (e ∷ es) y = count_entry k page e y >>= λ z. count_entries k page es z

  -- `applyEntries`: the page is published and its shares are added to what the epoch's pages hold.
  unfoldable pub apply_entries :
      Key → String → String → State → List Event → Outcome (State × List Event)
  unfolding count_entries split_comma epoch_of set_epoch
  apply_entries k page entries s log = do
    y ←
        count_entries k page (split_comma entries)
          (record { counted = 0; total = pos 0; log = log })
    let e = epoch_of s k
    let sum = e.page_sum +ℤ y.total
    abort_if (ltb_ℤ (pos 0) e.total_shares && ltb_ℤ e.total_shares sum) beyond_total
    ok (
      set_epoch k (record e { page_sum = sum }) s,
      shares k.0 k.1 page y.counted y.total entries ∷ y.log,
    )

  -- A page that has its votes is applied once.
  unfoldable pub apply_page :
      {R : Type 0}
      → Key
      → String
      → String
      → World State Event R
      → State
      → Outcome (World State Event R × Bool)
  unfolding apply_entries
  apply_page k page entries w s = do
    abort_if (get false (k, page) s.pages) page_applied
    r ← apply_entries k page entries (record s { pages = insert (k, page) true s.pages }) w.log
    ok (record w { state = r.0; log = r.1 }, true)

  module _ (hash : String → String) {R : Type 0} where
    -- The result is whether the page was applied.
    unfoldable pub submit_shares :
        Env
        → String
        → String
        → String
        → String
        → World State Event R
        → Outcome (World State Event R × Bool)
    unfolding must_channel canon epoch_of auth_cfg authorize_action apply_page
    submit_shares env ch epoch page_text entries w = do
      require w.state.initialized not_initialized
      c ← must_channel w.state ch
      ep ← canon epoch
      require (is_open (epoch_of w.state (ch, ep)).status) epoch_not_open
      page ← canon page_text
      cfg ← auth_cfg c.reporter
      let action = "ss:" ++ ch ++ ":" ++ ep ++ ":" ++ page
      d ← authorize_action hash cfg "rep" action entries env w.state
      if d.1 then apply_page (ch, ep) page entries w d.0 else ok (record w { state = d.0 }, false)

    -- The commitment to an epoch's share book, once.
    unfoldable pub submit_root :
        Env
        → String
        → String
        → String
        → String
        → String
        → String
        → World State Event R
        → Outcome (World State Event R × Bool)
    unfolding must_channel canon epoch_of set_epoch hex_to_bytes has_upper_hex parse_big pin_policy
        auth_cfg authorize_action show_int commit_root
    submit_root env ch epoch root total_text accounts policy w = do
      require w.state.initialized not_initialized
      c ← must_channel w.state ch
      ep ← canon epoch
      let e = epoch_of w.state (ch, ep)
      require (is_open e.status) epoch_not_open
      require (e.root == "") root_submitted
      bytes ← or_abort (hex_to_bytes root) bad_root
      abort_if (has_upper_hex root) upper_case_root
      let total = parse_big garbled total_text
      require (ltb_ℤ (pos 0) total) bad_total
      let pinned = pin_policy w.state ch e
      abort_if (not (pinned.policy == "") && not (policy == pinned.policy)) policy_mismatch
      cfg ← auth_cfg c.reporter
      d ←
          authorize_action hash cfg "rep" ("sr:" ++ ch ++ ":" ++ ep) (root ++ ":" ++ show_int total)
            env (set_epoch (ch, ep) pinned w.state)
      if d.1
          then ok (commit_root (ch, ep) root total accounts pinned w d.0)
          else ok (record w { state = d.0 }, false)

-- The reporter freezes the epoch and opens the challenge window.
unfoldable pub freeze :
    {R : Type 0}
    → ℕ
    → Channel
    → Key
    → Epoch
    → World State Event R
    → State
    → Outcome (World State Event R × Bool)
unfolding set_epoch
freeze height c k e w s = do
  require (leb_ℤ e.page_sum e.total_shares && leb_ℤ e.total_shares e.page_sum) total_mismatch
  let chal = add64 height c.window
  ok (
    record w {
      state = set_epoch k (record e { status = finalized; chal = chal }) s;
      log = epoch_status k.0 k.1 finalized chal e.total_shares e.funded (pos 0) ∷ w.log;
    },
    true,
  )

module _ (hash : String → String) {R : Type 0} where
  unfoldable pub finalize_epoch :
      Env → String → String → World State Event R → Outcome (World State Event R × Bool)
  unfolding must_channel canon epoch_of auth_cfg authorize_action freeze
  finalize_epoch env ch epoch w = do
    require w.state.initialized not_initialized
    c ← must_channel w.state ch
    ep ← canon epoch
    let e = epoch_of w.state (ch, ep)
    require (is_open e.status) epoch_not_open
    require (ltb_ℤ (pos 0) e.funded) not_funded
    abort_if (e.root == "") no_root
    require (ltb_ℤ (pos 0) e.total_shares) no_shares
    cfg ← auth_cfg c.reporter
    let action = "fin:" ++ ch ++ ":" ++ ep
    d ← authorize_action hash cfg "rep" action action env w.state
    if d.1 then freeze env.height c (ch, ep) e w d.0 else ok (record w { state = d.0 }, false)
