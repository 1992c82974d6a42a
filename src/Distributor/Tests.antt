-- ===== src/Distributor/Tests.antt =====
-- The distributor on concrete inputs, and its theorems at inputs that meet their hypotheses.
use magi_tokenomics.Common.{
  string_eq, pair_eq, Aborts, get, insert, ◌*ℤ◌, ◌+ℤ◌, ◌-ℤ◌, ◌/ℤ◌, ℕ, ℤ, pos, ◌≡◌, ◌≢◌, refl, arith,
  [], ◌∷◌, String, some, true, ok, ne_of_beq,
}
use magi_tokenomics.Adapter.{approve, move_out, require_fungible, require_no_token_id, transfer}
use magi_tokenomics.Adapter.Simple.{Ledger, allow, move, send, simple_token}
use magi_tokenomics.Auth.Active.{require_active, require_active_unless_contract}
use magi_tokenomics.Auth.Policy.{authorize, check_authorities, check_mode, has_bar, validate}
use magi_tokenomics.Auth.Round.{new_round}
use magi_tokenomics.Chain.{
  mul64, Env, World, add64, contains, is_clean, is_ledger_addr, validate_addr,
}
use magi_tokenomics.Distributor.Book.{
  apply_entries, apply_page, commit_root, count_entries, count_entry, finalize_epoch, freeze,
  submit_root, submit_shares,
}
use magi_tokenomics.Distributor.Claim.{
  check_claim, claim, credit_stake, pay_out, settle, staked_part,
}
use magi_tokenomics.Distributor.Funding.{add_funding, pull_funding}
use magi_tokenomics.Distributor.Peers.{
  checksum, small_funder, small_staker, stake_for_account, toy_sha256, zeros_then,
}
use magi_tokenomics.Distributor.Policy.{
  auth_cfg, authorize_action, epoch_of, mode_of, must_channel, pin_policy, set_epoch,
}
use magi_tokenomics.Distributor.Setup.{
  ChannelRequest, Request, add_channel, check_bucket, check_policy, check_reporter, check_role,
  check_staking, check_treasury, check_window, init, is_channel_name,
}
use magi_tokenomics.Distributor.State.{
  Authority, Epoch, Event, State, c3_init, channel_event, claim_event, deployed, epoch_status,
  finalized, new_epoch, pull, root_event, shares,
}
use magi_tokenomics.Merkle.Hex.{
  bytes_to_hex, has_upper_hex, hex_digit, hex_nibble, hex_pairs, hex_to_bytes,
}
use magi_tokenomics.Merkle.Proof.{fold_proof, leaf_hash, verify_proof}
use magi_tokenomics.Text.Fields.{
  canon, codes, comma_fields, decimal_value, is_decimal, last_colon, leading_zero, nonempty_fields,
  parse_big, parse_int, parse_uint, show_int, show_nat, signed, split2, split_comma,
}
use magi_tokenomics.Distributor.ClaimSound.{Entitled, claim_lem, claim_once}
use magi_tokenomics.Distributor.Paid.{Paid}
use magi_tokenomics.Distributor.Reachable.{Reachable, Reachable-Sound, Step}
use magi_tokenomics.Distributor.Sound.{Sound}

abbrev env_of : String → ℕ → Env
env_of caller h = record {
  owner = "hive:owner";
  caller = caller;
  self_addr = "contract:c3";
  height = h;
  required_auths = caller ∷ [];
}

abbrev one_of : String → Authority
one_of name = record { mode = "0"; authorities = name; threshold = "1" }

abbrev request : Request
request = record {
  token = "vsctoken";
  kind = "0";
  token_id = "";
  funder = "vscfunder";
  guardian = one_of "hive:guard";
  treasury = "hive:treasury";
  stake_contract = "vscstake";
  staked_bps = "2500";
}

abbrev channel_request : ChannelRequest
channel_request = record {
  bucket = "authors";
  window = "10";
  reporter = one_of "hive:rep";
  role = "";
  policy = "";
}

abbrev fresh_world : World State Event Ledger
fresh_world = record {
  state = deployed;
  ledger = record { balances = []; allowances = [] };
  log = [];
}

abbrev no_hash : String → String
no_hash s = s

abbrev garbage : String → ℤ
garbage s = pos 0

-- The distributor's life: configured, funded, its share book committed and frozen, and one claim.
abbrev initialized_world : World State Event Ledger
initialized_world = record fresh_world {
  state = record deployed {
    initialized = true;
    token = "vsctoken";
    funder = "vscfunder";
    guardian = one_of "hive:guard";
    treasury = "hive:treasury";
    genesis = 1000;
    epoch_len = 10;
    stake_contract = "vscstake";
    staked_bps = 2500;
  };
  log =
      c3_init "vsctoken" "hive:owner" "vscfunder" "hive:treasury" 1000 10 (one_of "hive:guard")
      ∷ [];
}

init_runs :
    init simple_token small_funder small_staker (env_of "hive:owner" 900) request fresh_world
    ≡ ok initialized_world
unfolding init require_active_unless_contract require_active contains validate_addr is_clean
    is_ledger_addr require_fungible require_no_token_id auth_cfg mode_of validate check_mode
    check_authorities has_bar check_treasury check_staking check_bucket check_window check_reporter
    check_role check_policy split_comma comma_fields nonempty_fields parse_int parse_uint signed
    is_decimal decimal_value
init_runs = refl

abbrev channel_world : World State Event Ledger
channel_world = record initialized_world {
  state = record initialized_world.state {
    channels =
        (
          "hv",
          some
              (record { bucket = "authors"; window = 10; reporter = one_of "hive:rep"; role = "" }),
        )
        ∷ [];
    for_bucket = ("authors", "hv") ∷ [];
  };
  log = channel_event "hv" "authors" 10 "" (one_of "hive:rep") "" ∷ initialized_world.log;
}

add_channel_runs :
    add_channel simple_token small_funder
      (env_of "hive:owner" 901)
      "hv"
      channel_request
      initialized_world
    ≡ ok channel_world
unfolding add_channel is_channel_name require_active_unless_contract require_active contains
    validate_addr is_clean is_ledger_addr require_fungible require_no_token_id auth_cfg mode_of
    validate check_mode check_authorities has_bar check_treasury check_staking check_bucket
    check_window check_reporter check_role check_policy split_comma comma_fields nonempty_fields
    parse_int parse_uint signed is_decimal decimal_value get insert mul64
add_channel_runs = refl

abbrev funded_epoch : Epoch
funded_epoch = record new_epoch { funded = pos 100; funded_at = some 1011 }

abbrev funded_world : World State Event Ledger
funded_world = record channel_world {
  state = record channel_world.state { epochs = (("hv", "0"), funded_epoch) ∷ [] };
  ledger = record { balances = ("contract:c3", pos 100) ∷ []; allowances = [] };
  log = pull "hv" "0" (pos 100) (pos 100) (some 1011) ∷ channel_world.log;
}

pull_runs :
    pull_funding simple_token small_funder (env_of "hive:bob" 1011) "hv" "0" channel_world
    ≡ ok (funded_world, pos 100)
unfolding pull_funding add_funding pin_policy epoch_of set_epoch must_channel canon is_decimal
    leading_zero decimal_value get insert ◌+ℤ◌
pull_runs = refl

abbrev book_root : String
book_root = "00000000000000000000000000000000000000000000000000000000000000c6"

abbrev rooted_epoch : Epoch
rooted_epoch = record funded_epoch { root = book_root; total_shares = pos 60; accounts = "1" }

abbrev rooted_world : World State Event Ledger
rooted_world = record funded_world {
  state = record funded_world.state {
    epochs = (("hv", "0"), rooted_epoch) ∷ [];
    rounds = (("rep", "sr:hv:0"), new_round) ∷ [];
  };
  log = root_event "hv" "0" book_root (pos 60) "1" ∷ funded_world.log;
}

submit_root_runs :
    submit_root garbage no_hash (env_of "hive:rep" 1012) "hv" "0" book_root "60" "1" "" funded_world
    ≡ ok (rooted_world, true)
unfolding submit_root commit_root hex_to_bytes hex_pairs hex_nibble has_upper_hex parse_big signed
    pin_policy show_int show_nat auth_cfg mode_of split_comma comma_fields nonempty_fields parse_int
    authorize_action authorize require_active contains must_channel canon is_decimal leading_zero
    decimal_value epoch_of set_epoch get insert
submit_root_runs = refl

abbrev booked_world : World State Event Ledger
booked_world = record rooted_world {
  state = record rooted_world.state {
    epochs = (("hv", "0"), record rooted_epoch { page_sum = pos 60 }) ∷ [];
    pages = ((("hv", "0"), "0"), true) ∷ [];
    rounds = (("rep", "sr:hv:0"), new_round) ∷ (("rep", "ss:hv:0:0"), new_round) ∷ [];
  };
  log = shares "hv" "0" "0" 1 (pos 60) "hive:alice:60" ∷ rooted_world.log;
}

submit_shares_runs :
    submit_shares garbage no_hash (env_of "hive:rep" 1013) "hv" "0" "0" "hive:alice:60" rooted_world
    ≡ ok (booked_world, true)
unfolding submit_shares apply_page apply_entries count_entries count_entry split2 last_colon
    parse_big signed validate_addr is_clean is_ledger_addr auth_cfg mode_of split_comma comma_fields
    nonempty_fields parse_int authorize_action authorize require_active contains must_channel canon
    is_decimal leading_zero decimal_value epoch_of set_epoch get insert ◌+ℤ◌
submit_shares_runs = refl

abbrev frozen_epoch : Epoch
frozen_epoch = record rooted_epoch { page_sum = pos 60; status = finalized; chal = 1024 }

abbrev frozen_world : World State Event Ledger
frozen_world = record booked_world {
  state = record booked_world.state {
    epochs = (("hv", "0"), frozen_epoch) ∷ [];
    rounds =
        (("rep", "sr:hv:0"), new_round)
        ∷ (("rep", "ss:hv:0:0"), new_round)
        ∷ (("rep", "fin:hv:0"), new_round)
        ∷ [];
  };
  log = epoch_status "hv" "0" finalized 1024 (pos 60) (pos 100) (pos 0) ∷ booked_world.log;
}

finalize_runs :
    finalize_epoch no_hash (env_of "hive:rep" 1014) "hv" "0" booked_world ≡ ok (frozen_world, true)
unfolding finalize_epoch freeze add64 auth_cfg mode_of split_comma comma_fields nonempty_fields
    parse_int signed authorize_action authorize require_active contains must_channel canon
    is_decimal leading_zero decimal_value epoch_of set_epoch get insert
finalize_runs = refl

abbrev claimed_world : World State Event Ledger
claimed_world = record frozen_world {
  state = record frozen_world.state {
    epochs = (("hv", "0"), record frozen_epoch { paid = pos 100 }) ∷ [];
    claimed = ((("hv", "0"), "hive:alice"), true) ∷ [];
  };
  ledger = record {
    balances = ("contract:c3", pos 0) ∷ ("hive:alice", pos 75) ∷ ("contract:c1", pos 25) ∷ [];
    allowances = (("contract:c3", "contract:vscstake"), pos 25) ∷ [];
  };
  log =
      claim_event "hv" "0" "hive:alice" (pos 100) (pos 75) (pos 25) (pos 60) (pos 60) (pos 100)
      ∷ frozen_world.log;
}

claim_runs :
    claim simple_token small_staker garbage toy_sha256
      (env_of "hive:alice" 1024)
      "hv"
      "0"
      "60"
      ""
      frozen_world
    ≡ ok (claimed_world, pos 100)
unfolding claim check_claim settle staked_part pay_out credit_stake verify_proof leaf_hash
    fold_proof bytes_to_hex hex_digit toy_sha256 checksum zeros_then stake_for_account transfer
    move_out approve send move allow parse_big signed codes is_clean must_channel canon is_decimal
    leading_zero decimal_value epoch_of set_epoch get insert ◌+ℤ◌ ◌-ℤ◌ ◌*ℤ◌ ◌/ℤ◌
claim_runs = refl

abbrev Reaches : ℕ → World State Event Ledger → Type 0
Reaches h w =
    Reachable simple_token small_funder small_staker garbage no_hash toy_sha256 "contract:c3" h w

funded_world-Reaches : Reaches 1011 funded_world
unfolding get
funded_world-Reaches =
    Reachable.after (env_of "hive:bob" 1011)
      (Reachable.after (env_of "hive:owner" 901)
        (Reachable.after (env_of "hive:owner" 900)
          (Reachable.fresh 800 fresh_world refl (omega arith)) (omega arith) refl
          (Step.inits request init_runs))
        (omega arith) refl (Step.adds_channel "hv" channel_request add_channel_runs))
      (omega arith) refl (Step.pulls "hv" "0" (pos 100) pull_runs)

frozen_world-Reaches : Reaches 1014 frozen_world
frozen_world-Reaches =
    Reachable.after (env_of "hive:rep" 1014)
      (Reachable.after (env_of "hive:rep" 1013)
        (Reachable.after (env_of "hive:rep" 1012) funded_world-Reaches (omega arith) refl
          (Step.submits_root "hv" "0" book_root "60" "1" "" true submit_root_runs))
        (omega arith) refl
        (Step.submits_shares "hv" "0" "0" "hive:alice:60" true submit_shares_runs))
      (omega arith) refl (Step.finalizes "hv" "0" true finalize_runs)

not_alice : ◌≢◌ {A = String} "contract:c3" "hive:alice"
not_alice = ne_of_beq "contract:c3" "hive:alice" refl

named : ◌≢◌ {A = String} "contract:c3" ""
named = ne_of_beq "contract:c3" "" refl

claimed_world-Reaches : Reaches 1024 claimed_world
claimed_world-Reaches =
    Reachable.after (env_of "hive:alice" 1024) frozen_world-Reaches (omega arith) refl
      (Step.claims "hv" "0" "60" "" (pos 100) not_alice claim_runs)

Reachable-Sound_example : Sound "contract:c3" 1024 claimed_world.state (pos 0)
unfolding get
Reachable-Sound_example =
    Reachable-Sound simple_token small_funder small_staker garbage no_hash toy_sha256 "contract:c3"
      1024 claimed_world named claimed_world-Reaches

claim_lem_example :
    Entitled simple_token small_staker garbage toy_sha256
      (env_of "hive:alice" 1024)
      ("hv", "0")
      "60"
      ""
      frozen_world.state
      (parse_big garbage "60")
    × Paid simple_token small_staker garbage toy_sha256
        (env_of "hive:alice" 1024)
        ("hv", "0")
        (parse_big garbage "60")
        (pos 100)
        frozen_world
        claimed_world
claim_lem_example =
    claim_lem simple_token small_staker garbage toy_sha256 (env_of "hive:alice" 1024) "hv" "0" "60"
      "" frozen_world claimed_world (pos 100) (omega arith) not_alice claim_runs

claim_once_example : Aborts (
    claim simple_token small_staker garbage toy_sha256
      (env_of "hive:alice" 1030)
      "hv"
      "0"
      "99"
      ""
      claimed_world)
claim_once_example =
    claim_once simple_token small_staker garbage toy_sha256 (env_of "hive:alice" 1024)
      (env_of "hive:alice" 1030) "hv" "0" "60" "" "99" "" frozen_world claimed_world claimed_world
      (pos 100) (omega arith) not_alice claim_runs refl (omega arith) not_alice refl
