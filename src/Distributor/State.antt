-- ===== src/Distributor/State.antt =====
-- The distributor's state: one field for each key or key family, and the events that it logs.
use magi_tokenomics.Common.{ℕ, ℤ, pos, String, [], Option, none, Bool, false, Map}
use magi_tokenomics.Adapter.{Kind, fungible}
use magi_tokenomics.Auth.Round.{Round}

-- An authority policy as it is stored: mode, authorities and threshold, as texts.
pub record Authority : Type 0 where
  pub mode : String
  pub authorities : String
  pub threshold : String

-- `ch_bucket|ch`, `ch_window|ch`, `ch_rMode|ch` and its like, `ch_role|ch`
pub record Channel : Type 0 where
  pub bucket : String
  pub window : ℕ
  pub reporter : Authority
  pub role : String

pub data Status : Type 0 where
  open_epoch finalized cancelled : Status

-- The keys of one channel and epoch, each 0 or "" where it was never written.
pub record Epoch : Type 0 where
  pub status : Status
  pub funded : ℤ
  pub funded_at : Option ℕ
  pub policy : String
  pub root : String
  pub total_shares : ℤ
  pub accounts : String
  pub page_sum : ℤ
  pub chal : ℕ
  pub paid : ℤ

abbrev pub new_epoch : Epoch
new_epoch = record {
  status = open_epoch;
  funded = pos 0;
  funded_at = none;
  policy = "";
  root = "";
  total_shares = pos 0;
  accounts = "";
  page_sum = pos 0;
  chal = 0;
  paid = pos 0;
}

-- A channel and an epoch's text.
abbrev pub Key : Type 0
Key = String × String

pub record State : Type 0 where
  pub initialized : Bool
  pub token : String
  pub kind : Kind
  pub funder : String
  pub guardian : Authority
  pub treasury : String
  pub genesis : ℕ
  pub epoch_len : ℕ
  -- "" where no payout is staked
  pub stake_contract : String
  pub staked_bps : ℕ
  pub channels : Map String (Option Channel)
  -- `ch_forbucket|bucket`
  pub for_bucket : Map String String
  -- `ch_policy|ch`
  pub policies : Map String String
  pub epochs : Map Key Epoch
  -- `ssdone|ch|ep|page`
  pub pages : Map (Key × String) Bool
  -- `claimed|ch|ep|acct`
  pub claimed : Map (Key × String) Bool
  -- `unalloc|ch`
  pub unallocated : Map String ℤ
  -- by role ("rep" or "grd") and action key
  pub rounds : Map (String × String) Round

pub data Event : Type 0 where
  -- token, owner, funder, treasury, genesis, epoch_len, guardian
  c3_init : String → String → String → String → ℕ → ℕ → Authority → Event
  -- channel, bucket, window, role, reporter, policy
  channel_event : String → String → ℕ → String → Authority → String → Event
  -- channel, policy, previous
  policy_event : String → String → String → Event
  -- channel, epoch, received, cumulative, funded_at
  pull : String → String → ℤ → ℤ → Option ℕ → Event
  -- channel, epoch, page, raw_entry, reason
  skip : String → String → String → String → String → Event
  -- channel, epoch, page, entries, page_total, submitted
  shares : String → String → String → ℕ → ℤ → String → Event
  -- channel, epoch, root, total_shares, accounts
  root_event : String → String → String → ℤ → String → Event
  -- channel, epoch, status, challenge_height, total_shares, funded, rolled_amount
  epoch_status : String → String → Status → ℕ → ℤ → ℤ → ℤ → Event
  -- role, action, payloads
  attest_released : String → String → ℕ → Event
  -- channel, amount, to, nonce
  sweep_unallocated_event : String → ℤ → String → String → Event
  -- channel, epoch, acct, payout, liquid, staked, share, total_shares, funded
  claim_event : String → String → String → ℤ → ℤ → ℤ → ℤ → ℤ → ℤ → Event

-- A contract that was deployed and not initialised.
abbrev pub deployed : State
deployed = record {
  initialized = false;
  token = "";
  kind = fungible;
  funder = "";
  guardian = record { mode = ""; authorities = ""; threshold = "" };
  treasury = "";
  genesis = 0;
  epoch_len = 0;
  stake_contract = "";
  staked_bps = 0;
  channels = [];
  for_bucket = [];
  policies = [];
  epochs = [];
  pages = [];
  claimed = [];
  unallocated = [];
  rounds = [];
}
