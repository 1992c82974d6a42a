-- ===== src/Auth/Round.antt =====
-- An attestation round: the working state that `attest` keeps under one action key.
use magi_tokenomics.Common.{ℕ, ℤ, String, List, [], Option, none, Bool, false, Map}

-- `single` holds one authority; `unknown` is every other value of the byte.
pub data Mode : Type 0 where
  single cosigned attested unknown : Mode

pub record Config : Type 0 where
  pub mode : Mode
  pub authorities : List String
  pub threshold : ℤ

pub record Round : Type 0 where
  -- `adone`
  pub committed : Bool
  -- `acanon|hash`, the payload that a hash stands for
  pub canon : Map String String
  -- `ahashes`
  pub hashes : List String
  -- `astart`
  pub start : Option ℕ
  -- `aseen|caller`
  pub seen : Map String Bool
  -- `atally|hash`
  pub tally : Map String ℕ

abbrev pub new_round : Round
new_round = record {
  committed = false;
  canon = [];
  hashes = [];
  start = none;
  seen = [];
  tally = [];
}
