-- ===== src/Auth/Tests.antt =====
-- The authorization package on concrete inputs, and its theorem at a run that meets its hypotheses.
use magi_tokenomics.Common.{
  pos, ◌≡◌, ◌≢◌, refl, String, [], ◌∷◌, none, some, true, false, get, insert, string_eq, ok,
  ne_of_beq,
}
use magi_tokenomics.Chain.{contains, add64}
use magi_tokenomics.Auth.Round.{attested, Config, Round, new_round}
use magi_tokenomics.Auth.Policy.{
  attest, note_payload, note_start, count_submission, clear_round, clear_all, validate,
  check_authorities, has_bar, check_mode, sweep_stale,
}
use magi_tokenomics.Auth.Attestation.{Run, Supported, attest-Supported}

abbrev two_of_two : Config
two_of_two = record { mode = attested; authorities = "hive:a" ∷ "hive:b" ∷ []; threshold = pos 2 }

abbrev same : String → String
same s = s

validate_runs : validate two_of_two ≡ ok tt
unfolding validate check_authorities has_bar check_mode contains
validate_runs = refl

abbrev one_round : Round
one_round = record {
  committed = false;
  canon = ("p", "p") ∷ [];
  hashes = "p" ∷ [];
  start = some 7;
  seen = ("hive:a", true) ∷ [];
  tally = ("p", 1) ∷ [];
}

abbrev closed_round : Round
closed_round = record {
  committed = true;
  canon = ("p", "") ∷ [];
  hashes = [];
  start = none;
  seen = ("hive:a", false) ∷ ("hive:b", false) ∷ [];
  tally = ("p", 0) ∷ [];
}

first_runs : attest same two_of_two 7 "p" "hive:a" new_round ≡ ok (one_round, false)
unfolding attest note_payload note_start count_submission contains get insert
first_runs = refl

second_runs : attest same two_of_two 8 "p" "hive:b" one_round ≡ ok (closed_round, true)
unfolding attest note_payload note_start count_submission clear_round clear_all contains get insert
second_runs = refl

sweep_runs :
    sweep_stale two_of_two 20 10 one_round ≡ ok (clear_round two_of_two.authorities one_round, 1)
unfolding sweep_stale clear_round add64
sweep_runs = refl

nonempty : ◌≢◌ {A = String} "p" ""
nonempty = ne_of_beq "p" "" refl

one_round-Run : Run same two_of_two (("hive:a", "p") ∷ []) one_round
one_round-Run = Run.submitted [] new_round one_round 7 "hive:a" "p" Run.opened nonempty first_runs

attest_example : Supported same two_of_two (("hive:b", "p") ∷ ("hive:a", "p") ∷ []) "p"
attest_example =
    attest-Supported same two_of_two (("hive:a", "p") ∷ []) one_round closed_round 8 "hive:b" "p"
      one_round-Run nonempty second_runs
