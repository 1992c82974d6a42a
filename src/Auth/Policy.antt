-- ===== src/Auth/Policy.antt =====
-- `Validate`, `Authorize` and the attest mode. The hash of a payload is a parameter: an
-- attested payload is also compared with the one that its hash stands for.
use Prim.Native.String.{len}
use Prim.Native.Char.{code}
use magi_tokenomics.Common.{
  ℕ, ◌+◌, pos, ltb_ℤ, leb_ℤ, Bool, true, false, ◌||◌, not, String, List, [], ◌∷◌, ◌++◌, none, some,
  ltb, nat_beq, ◌==◌, string_eq, get, insert, if◌then◌else◌, length, Outcome, ok, abort, require,
  abort_if, ◌>>=◌, ◌>>◌, no_authorities, empty_authority, illegal_char, duplicate_authority,
  single_takes_one, bad_threshold, not_authorized, not_authority, threshold_not_met,
  already_committed, payload_too_large, payload_mismatch, already_attested, no_round, not_stale,
  unknown_mode, Map,
}
use magi_tokenomics.Chain.{contains, add64}
use magi_tokenomics.Auth.Active.{require_active}
use magi_tokenomics.Auth.Round.{single, cosigned, attested, unknown, Config, Round}

unfoldable pub has_bar : String → Bool
has_bar String.[] = false
has_bar (String.◌∷◌ c s) = nat_beq (code c) 124 || has_bar s

-- Each authority is checked against those before it.
unfoldable pub check_authorities : List String → List String → Outcome (Unit {0})
unfolding has_bar
check_authorities before [] = ok tt
check_authorities before (a ∷ rest) = do
  abort_if (a == "") empty_authority
  abort_if (has_bar a) illegal_char
  abort_if (contains before a) duplicate_authority
  check_authorities (before ++ a ∷ []) rest

unfoldable pub check_mode : Config → Outcome (Unit {0})
check_mode cfg = elim cfg.mode [
  | single ↦ abort_if (ltb 1 (length cfg.authorities)) single_takes_one
  | cosigned ↦ check_threshold
  | attested ↦ check_threshold
  | unknown ↦ abort unknown_mode
]
  where
    check_threshold : Outcome (Unit {0})
    check_threshold =
        abort_if (ltb_ℤ cfg.threshold (pos 1) || ltb_ℤ (pos (length cfg.authorities)) cfg.threshold)
          bad_threshold

unfoldable pub validate : Config → Outcome (Unit {0})
unfolding check_authorities check_mode
validate cfg = do
  abort_if (nat_beq (length cfg.authorities) 0) no_authorities
  check_authorities [] cfg.authorities
  check_mode cfg

unfoldable pub count_present : List String → List String → ℕ
count_present [] auths = 0
count_present (a ∷ rest) auths =
    let others = count_present rest auths in if contains auths a then others + 1 else others

-- The payload that the hash stands for, written by its first submitter.
unfoldable pub note_payload : String → String → Round → Outcome Round
note_payload h payload r =
    if get "" h r.canon == ""
    then ok (record r {
      canon = insert h payload r.canon;
      hashes = if contains r.hashes h then r.hashes else r.hashes ++ h ∷ [];
    })
    else (do abort_if (not (get "" h r.canon == payload)) payload_mismatch; ok r)

unfoldable pub note_start : ℕ → Round → Round
note_start height r = record r { start = elim r.start [ none ↦ some height | some s ↦ some s ] }

-- `clearRound`: all that is left is whether the action was committed.
unfoldable pub clear_all : {V : Type 0} → V → List String → Map String V → Map String V
clear_all d [] m = m
clear_all d (k ∷ ks) m = clear_all d ks (insert k d m)

unfoldable pub clear_round : List String → Round → Round
unfolding clear_all
clear_round authorities r = record r {
  canon = clear_all "" r.hashes r.canon;
  tally = clear_all 0 r.hashes r.tally;
  seen = clear_all false authorities r.seen;
  hashes = [];
  start = none;
}

module _ (hash : String → String) where
  -- The submission is counted; it commits the action when the tally reaches the threshold.
  unfoldable pub count_submission : Config → String → String → Round → Round × Bool
  unfolding clear_round
  count_submission cfg caller payload r =
      let tally = get 0 (hash payload) r.tally + 1 in
      let counted = record r {
        seen = insert caller true r.seen;
        tally = insert (hash payload) tally r.tally;
      } in
      if leb_ℤ cfg.threshold (pos tally)
      then (clear_round cfg.authorities (record counted { committed = true }), true)
      else (counted, false)

  unfoldable pub attest : Config → ℕ → String → String → Round → Outcome (Round × Bool)
  unfolding note_payload note_start count_submission
  attest cfg height payload caller r = do
    require (contains cfg.authorities caller) not_authority
    abort_if r.committed already_committed
    abort_if (ltb 4096 (len payload)) payload_too_large
    r1 ← note_payload (hash payload) payload r
    abort_if (get false caller r1.seen) already_attested
    ok (count_submission cfg caller payload (note_start height r1))

  unfoldable pub authorize :
      Config → ℕ → String → String → List String → Round → Outcome (Round × Bool)
  unfolding require_active count_present attest
  authorize cfg height payload caller auths r = do
    require_active caller auths
    elim cfg.mode [
      | single ↦ (elim cfg.authorities [
        | [] ↦ abort not_authorized
        | a ∷ rest ↦ if caller == a then ok (r, true) else abort not_authorized
      ])
      | cosigned ↦ (do
        require (contains cfg.authorities caller) not_authority
        abort_if (ltb_ℤ (pos (count_present cfg.authorities auths)) cfg.threshold) threshold_not_met
        ok (r, true))
      | attested ↦ attest cfg height payload caller r
      | unknown ↦ abort unknown_mode
    ]

-- The number of payloads that the abandoned round held.
unfoldable pub sweep_stale : Config → ℕ → ℕ → Round → Outcome (Round × ℕ)
unfolding clear_round
sweep_stale cfg height min_age r = do
  abort_if r.committed already_committed
  elim r.start [
    | none ↦ abort no_round
    | some s ↦ (do
      abort_if (ltb height (add64 s min_age)) not_stale
      ok (clear_round cfg.authorities r, length r.hashes))
  ]
