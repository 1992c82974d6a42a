-- ===== src/Emission/Configured.antt =====
-- The configuration that the emission controller's `init` accepts.
use magi_tokenomics.Common.{
  ℤ, pos, ◌<ℤ◌, true, false, ◌&&◌, not, ◌≡◌, ◌≢◌, refl, subst, sym, ◌∙◌, arith, le_of_eq, ne_of_beq,
  String, get, string_eq, ◌==◌, if◌then◌else◌, ltb_ℤ, leb_ℤ, ltb→lt, nat_beq, ok, ok_injective,
  abort_if, require, require-eq-ok, abort_if-eq-ok, >>=-eq-ok, bad_epoch_len, bad_base_annual,
  bad_blocks_per_year, zero_emission, weights_not_full, dust_bucket_missing, already_initialized,
  not_owner, bad_source, self_source, bad_max_supply,
}
use magi_tokenomics.Chain.{Env, World, validate_addr, is_ledger_addr}
use magi_tokenomics.Adapter.{Token, require_fungible, require_no_token_id}
use magi_tokenomics.Auth.Active.{require_active_unless_contract}
use magi_tokenomics.Emission.State.{State, EmissionCfg, Event}
use magi_tokenomics.Emission.Schedule.{for_epoch}
use magi_tokenomics.Emission.Init.{
  Request, Table, empty_table, add_buckets, check_buckets, check_schedule, check_source,
  check_max_catch, choose_genesis, init,
}
use magi_tokenomics.Emission.Split.{AllWeighed, weights}
use magi_tokenomics.Emission.Solvency.{Solvent}
use magi_tokenomics.Emission.Buckets.{
  IsTable, Distinct, HasName, AtMostFull, add_buckets-IsTable, empty_table-IsTable,
}

pub record IsConfigured (self : String) (s : State) : Type 0 where
  pub active : s.initialized ≡ true
  pub full_weights : weights s.buckets ≡ pos 10000
  pub weighed : AllWeighed s.buckets
  pub capped : AtMostFull s.buckets
  pub distinct : Distinct s.buckets
  pub dust_named : HasName s.dust_bucket s.buckets
  pub targets_other : (name : String) → get "" name s.targets ≢ self
  pub emits : pos 0 <ℤ for_epoch s.schedule 0
  pub source_other : s.source ≢ self

check_schedule-emits :
    (r : Request) (c : EmissionCfg) → check_schedule r ≡ ok c → pos 0 <ℤ for_epoch c 0
unfolding check_schedule
check_schedule-emits r c e =
    let (u1, h1, e1) = >>=-eq-ok (require (not (nat_beq r.epoch_len 0)) bad_epoch_len) _ e in
    let (u2, h2, e2) = >>=-eq-ok (require (ltb_ℤ (pos 0) r.base_annual) bad_base_annual) _ e1 in
    let (u3, h3, e3) =
      >>=-eq-ok (require (not (nat_beq r.blocks_per_year 0)) bad_blocks_per_year) _ e2 in
    let (u4, h4, e4) = >>=-eq-ok (require _ zero_emission) _ e3 in
    subst (λ (c : EmissionCfg). pos 0 <ℤ for_epoch c 0) (ok_injective e4)
      (ltb→lt _ _ (require-eq-ok _ zero_emission h4))

check_source-ne :
    (env : Env) (source src : String) → check_source env source ≡ ok src → src ≢ env.self_addr
unfolding check_source
check_source-ne env source src e =
    let pick : String = if source == "" then env.owner else source in
    let (u1, h1, e1) = >>=-eq-ok (validate_addr pick) _ e in
    let (u2, h2, e2) = >>=-eq-ok (require (is_ledger_addr pick) bad_source) _ e1 in
    let (u3, h3, e3) = >>=-eq-ok (abort_if (pick == env.self_addr) self_source) _ e2 in
    subst (λ (x : String). x ≢ env.self_addr) (ok_injective e3)
      (ne_of_beq pick env.self_addr (abort_if-eq-ok _ self_source h3))

check_buckets-IsTable :
    (self : String) (r : Request) (tb : Table)
    → self ≢ ""
    → check_buckets self r ≡ ok tb
    → IsTable self r.dust_bucket tb × (tb.total ≡ pos 10000) × (tb.dust_seen ≡ true)
unfolding check_buckets
check_buckets-IsTable self r tb h e =
    let (tb1, looped, e1) = >>=-eq-ok (add_buckets self r.dust_bucket r.buckets empty_table) _ e in
    let (u2, full, e2) =
      >>=-eq-ok
        (require (leb_ℤ tb1.total (pos 10000) && leb_ℤ (pos 10000) tb1.total) weights_not_full) _
        e1 in
    let (u3, seen, e3) = >>=-eq-ok (require tb1.dust_seen dust_bucket_missing) _ e2 in
    subst
      (λ (x : Table). IsTable self r.dust_bucket x × (x.total ≡ pos 10000) × (x.dust_seen ≡ true))
      (ok_injective e3)
      (
        add_buckets-IsTable self r.dust_bucket r.buckets empty_table tb1
            (empty_table-IsTable self r.dust_bucket h) looped,
        equal_of_tests tb1.total (require-eq-ok _ weights_not_full full),
        require-eq-ok _ dust_bucket_missing seen,
      )
  where
    equal_of_tests : (x : ℤ) → (leb_ℤ x (pos 10000) && leb_ℤ (pos 10000) x) ≡ true → x ≡ pos 10000
    equal_of_tests x h = ground arith

module _ {L : Type 0} (t : Token L) where
  -- An accepted `init`: it was the first, by the owner, the configuration is sound, and neither
  -- the ledger nor the books were touched.
  pub record Accepts (env : Env) (w w' : World State Event L) : Type 0 where
    pub first : w.state.initialized ≡ false
    pub by_owner : env.owner ≡ env.caller
    pub configured : IsConfigured env.self_addr w'.state
    pub same_ledger : w'.ledger ≡ w.ledger
    pub same_owed : w'.state.owed ≡ w.state.owed
    pub same_last : w'.state.last_epoch ≡ w.state.last_epoch

  -- An init that goes through, on a contract with an address, was the first and made by the
  -- owner; the bucket weights sum to 10000, each is 0 to 10000, the names are distinct, the dust
  -- bucket is one of them, no target and not the source is the controller itself, and an epoch's
  -- emission is positive; the ledger, the owed entries and the last epoch are as before.
  pub init-Accepts :
      (env : Env) (r : Request) (w w' : World State Event L)
      → env.self_addr ≢ ""
      → init t env r w ≡ ok w'
      → Accepts env w w'
  unfolding init
  init-Accepts env r w w' named e =
      let (u1, new, e1) = >>=-eq-ok (abort_if w.state.initialized already_initialized) _ e in
      let (u2, owner, e2) = >>=-eq-ok (require (env.owner == env.caller) not_owner) _ e1 in
      let (u3, keyed, e3) =
        >>=-eq-ok (require_active_unless_contract env.caller env.required_auths) _ e2 in
      let (u4, addressed, e4) = >>=-eq-ok (validate_addr r.token) _ e3 in
      let (kind, kinded, e5) = >>=-eq-ok (require_fungible r.kind) _ e4 in
      let (u6, untokened, e6) = >>=-eq-ok (require_no_token_id r.token_id) _ e5 in
      let (genesis, started, e7) = >>=-eq-ok (choose_genesis r.genesis env.height) _ e6 in
      let (schedule, scheduled, e8) = >>=-eq-ok (check_schedule r) _ e7 in
      let (max_catch, capped, e9) = >>=-eq-ok (check_max_catch r.max_catch) _ e8 in
      let (table, tabled, e10) = >>=-eq-ok (check_buckets env.self_addr r) _ e9 in
      let (source, sourced, e11) = >>=-eq-ok (check_source env r.source) _ e10 in
      let (u12, supplied, e12) =
        >>=-eq-ok (require (ltb_ℤ (pos 0) (t.max_supply w.ledger)) bad_max_supply) _ e11 in
      let (v, total, dust) = check_buckets-IsTable env.self_addr r table named tabled in
      subst (Accepts env w) (ok_injective e12) (record {
        first = abort_if-eq-ok _ already_initialized new;
        by_owner = (string_eq.beq_iff env.owner env.caller).0 (require-eq-ok _ not_owner owner);
        configured = record {
          active = refl;
          full_weights = sym v.summed ∙ total;
          weighed = v.weighed;
          capped = v.capped;
          distinct = v.distinct;
          dust_named = v.dust_named dust;
          targets_other = v.targets_other;
          emits = check_schedule-emits r schedule scheduled;
          source_other = check_source-ne env r.source source sourced;
        };
        same_ledger = refl;
        same_owed = refl;
        same_last = refl;
      })

  -- An `init` keeps the controller solvent.
  pub init-Solvent :
      (env : Env) (r : Request) (w w' : World State Event L)
      → env.self_addr ≢ ""
      → Solvent t env.self_addr w
      → init t env r w ≡ ok w'
      → Solvent t env.self_addr w'
  init-Solvent env r w w' named v e =
      let a = init-Accepts env r w w' named e in
      let c = a.configured in
      record {
        covered = rw (a.same_owed, a.same_ledger) v.covered;
        nonneg = rw a.same_owed v.nonneg;
        weighed = c.weighed;
        full = (le_of_eq c.full_weights).0;
        emits = omega (arith, c.emits);
        targets_other = c.targets_other;
      }
