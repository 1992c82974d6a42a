-- ===== src/Common/Results.antt =====
-- `sdk.Abort` ends a transaction and undoes its writes: an entrypoint returns its new world and
-- result, or the reason of an abort.
use mathlib.Core.Path.{◌≡◌, refl}
use mathlib.Core.Bool.{Bool, true, false}
use mathlib.Core.Option.{Option, none, some}
use magi_tokenomics.Common.Tests.{if◌then◌else◌}

-- One constructor for each abort that a contract's code distinguishes.
pub data Reason : Type 0 where
  already_initialized not_initialized not_owner active_authority_required : Reason
  bad_kind token_id_set bad_address illegal_char : Reason
  bad_uint genesis_in_past bad_epoch_len bad_base_annual bad_blocks_per_year zero_emission : Reason
  bad_max_catch bad_bucket bad_target self_target bad_weight duplicate_bucket : Reason
  weights_not_full dust_bucket_missing bad_source self_source bad_max_supply no_source : Reason
  epoch_required epoch_not_numeric epoch_not_canonical epoch_out_of_range : Reason
  bucket_required not_bucket_target nothing_owed token_refused pull_not_positive : Reason
  no_authorities empty_authority duplicate_authority single_takes_one bad_threshold : Reason
  not_authorized unknown_mode not_authority threshold_not_met already_committed payload_too_large :
      Reason
  payload_mismatch already_attested no_round not_stale : Reason
  amount_not_positive not_allowed acct_required not_ledger_address insufficient_stake : Reason
  no_bucket already_paid already_claimed not_funded was_swept not_elapsed not_staked : Reason
  no_stakers rounds_to_zero has_stakers nothing_to_sweep no_schedule : Reason
  airdrop_off batch_required batch_applied over_cap over_envelope no_treasury : Reason
  cooldown_too_short schedule_mismatch no_funder_schedule already_adopted other_funder : Reason
  other_genesis funder_refused treasury_is_self treasury_is_guardian bad_cap : Reason
  channel_required no_channel channel_exists bad_channel_name bad_window bad_role bad_policy :
      Reason
  policy_required not_disjoint bad_staked_bps other_token stake_refused bucket_taken : Reason
  epoch_not_open page_applied beyond_total root_submitted bad_root upper_case_root : Reason
  bad_total policy_mismatch no_root no_shares total_mismatch window_elapsed : Reason
  already_cancelled pool_changed not_finalized window_open bad_share bad_proof : Reason
  exceeds_funding action_required unknown_role not_attest_mode wrong_channel unknown_action : Reason
  token_required funder_required negative_balance guardian_without_treasury : Reason
  -- no abort of the code: a loop of the model that was given too little fuel
  out_of_fuel : Reason

pub data Outcome {ℓ} (A : Type ℓ) : Type ℓ where
  ok : A → Outcome A
  abort : Reason → Outcome A

infixl 5 ◌>>=◌ ◌>>◌
abbrev pub ◌>>=◌ {ℓ κ} : {A : Type ℓ} {B : Type κ} → Outcome A → (A → Outcome B) → Outcome B
ok a >>= f = f a
abort e >>= f = abort e

abbrev pub ◌>>◌ {ℓ} : {B : Type ℓ} → Outcome (Unit {0}) → Outcome B → Outcome B
m >> k = m >>= λ _. k

-- `if !test { sdk.Abort(why) }`
abbrev pub require : Bool → Reason → Outcome (Unit {0})
require true why = ok tt
require false why = abort why

-- `if test { sdk.Abort(why) }`
abbrev pub abort_if : Bool → Reason → Outcome (Unit {0})
abort_if true why = abort why
abort_if false why = ok tt

abbrev pub or_abort {ℓ} : {A : Type ℓ} → Option A → Reason → Outcome A
or_abort none why = abort why
or_abort (some a) why = ok a

-- Inversion of a step that went through, for proofs where the parts stay shut.
pub >>=-eq-ok {ℓ κ} :
    {A : Type ℓ} {B : Type κ} (step : Outcome A) (next : A → Outcome B) {result : B}
    → (step >>= next) ≡ ok result
    → (x : A) × (step ≡ ok x) × (next x ≡ ok result)
>>=-eq-ok (ok x) next e = (x, refl, e)
>>=-eq-ok (abort why) next e = cc

-- The same for a long chain of steps, where each part is a variable of the rest.
pub >>=-elim {ℓ κ μ} :
    {A : Type ℓ} {B : Type κ} {C : Type μ} (step : Outcome A) (next : A → Outcome B) {result : B}
    → (step >>= next) ≡ ok result
    → ((x : A) → step ≡ ok x → next x ≡ ok result → C)
    → C
>>=-elim (ok x) next e then_c = then_c x refl e
>>=-elim (abort why) next e then_c = cc

pub if-elim {ℓ μ} :
    {A : Type ℓ} {C : Type μ} (b : Bool) (m k : Outcome A) {result : A}
    → (if b then m else k) ≡ ok result
    → (m ≡ ok result → C)
    → (k ≡ ok result → C)
    → C
if-elim true m k e on_true on_false = on_true e
if-elim false m k e on_true on_false = on_false e

pub or_abort-eq-ok {ℓ} :
    {A : Type ℓ} (o : Option A) (why : Reason) {x : A} → or_abort o why ≡ ok x → o ≡ some x
or_abort-eq-ok none why e = cc
or_abort-eq-ok (some a) why e = cc

pub require-eq-ok : (b : Bool) (why : Reason) {u : Unit {0}} → require b why ≡ ok u → b ≡ true
require-eq-ok true why h = refl
require-eq-ok false why h = cc

pub ok_injective {ℓ} : {A : Type ℓ} {a b : A} → ok a ≡ ok b → a ≡ b
ok_injective h = cc

pub ok_pair {ℓ κ} :
    {A : Type ℓ} {B : Type κ} {p q : A × B} → ok p ≡ ok q → (p.0 ≡ q.0) × (p.1 ≡ q.1)
ok_pair h = let e = ok_injective h in (λ i. (e i).0, λ i. (e i).1)

pub abort_if-eq-ok : (b : Bool) (why : Reason) {u : Unit {0}} → abort_if b why ≡ ok u → b ≡ false
abort_if-eq-ok true why h = cc
abort_if-eq-ok false why h = refl

-- The transaction is undone, for whatever reason.
abbrev pub Aborts {ℓ} : {A : Type ℓ} → Outcome A → Type 0
Aborts (ok a) = ⊥
Aborts (abort why) = Unit

pub Aborts-of_ne {ℓ} : {A : Type ℓ} (o : Outcome A) → ((a : A) → ¬ (o ≡ ok a)) → Aborts o
Aborts-of_ne (ok a) h = h a refl
Aborts-of_ne (abort why) h = tt
