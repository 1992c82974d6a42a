-- ===== src/Auth/Active.antt =====
-- A privileged or fund-moving call wants the caller among the transaction's active authorities.
use text.Mathlib.Text.{starts_with}
use magi_tokenomics.Common.{
  String, List, ok, Outcome, require, if◌then◌else◌, active_authority_required,
}
use magi_tokenomics.Chain.{contains}

unfoldable pub require_active : String → List String → Outcome (Unit {0})
require_active caller auths = require (contains auths caller) active_authority_required

-- A contract has no key, and is exempt.
unfoldable pub require_active_unless_contract : String → List String → Outcome (Unit {0})
unfolding require_active
require_active_unless_contract caller auths =
    if starts_with caller "contract:" then ok tt else require_active caller auths
