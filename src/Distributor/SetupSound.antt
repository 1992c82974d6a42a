-- ===== src/Distributor/SetupSound.antt =====
-- The configuration handlers and the invariant.
use magi_tokenomics.Common.{
  ℕ, ◌≤◌, ℤ, true, false, ◌&&◌, ◌||◌, ◌≡◌, ◌≢◌, refl, arith, String, string_eq, pair_eq, ltb, leb,
  ◌==◌, beq_refl, subst, get, none, ok, require, abort_if, or_abort, ok_injective, >>=-elim,
  if-elim, require-eq-ok, abort_if-eq-ok, already_initialized, not_owner, not_initialized,
  no_treasury, not_ledger_address, treasury_is_self, no_funder_schedule, bad_staked_bps,
  other_token, channel_required, bad_channel_name, channel_exists, bad_policy, action_required,
  not_attest_mode,
}
use magi_tokenomics.Chain.{Env, World, validate_addr, is_ledger_addr}
use magi_tokenomics.Auth.Active.{require_active_unless_contract}
use magi_tokenomics.Auth.Round.{new_round}
use magi_tokenomics.Auth.Policy.{validate, sweep_stale}
use magi_tokenomics.Adapter.{Token, Funder, Staker, require_fungible, require_no_token_id}
use magi_tokenomics.Text.Fields.{parse_uint}
use magi_tokenomics.Merkle.Hex.{hex_to_bytes}
use magi_tokenomics.Distributor.State.{State, Event}
use magi_tokenomics.Distributor.Policy.{auth_cfg, must_channel}
use magi_tokenomics.Distributor.Funding.{
  release_cfg, is_attested, stale_attest_blocks, release_stale_attest,
}
use magi_tokenomics.Distributor.Setup.{
  Request, check_treasury, check_staking, init, ChannelRequest, is_channel_name, is_none,
  check_bucket, check_window, check_reporter, check_role, check_policy, add_channel, set_policy,
}
use magi_tokenomics.Distributor.Sound.{Sound}

check_treasury-other :
    (env : Env) (r : Request) (u : Unit {0})
    → check_treasury env r ≡ ok u
    → r.treasury ≢ env.self_addr
unfolding check_treasury
check_treasury-other env r u e = >>=-elim (abort_if (r.treasury == "") no_treasury) _ e (λ _ _ e1.
    >>=-elim (validate_addr r.treasury) _ e1 (λ _ _ e2.
      >>=-elim (require (is_ledger_addr r.treasury) not_ledger_address) _ e2 (λ _ _ e3.
        >>=-elim (abort_if (r.treasury == env.self_addr) treasury_is_self) _ e3 (λ _ other e4.
          λ same.
            is_other r.treasury env.self_addr
              (abort_if-eq-ok (r.treasury == env.self_addr) treasury_is_self other) same))))
  where
    is_other : (a b : String) → (a == b) ≡ false → ¬ (a ≡ b)
    is_other a b h same = cc (h, same, beq_refl b)

module _ {R : Type 0} (t : Token R) (funder : Funder R t.balance_of) where
  check_staking-fits :
      (staker : Staker R t.balance_of) (r : Request) (world : R) (bps : ℕ)
      → check_staking t funder staker r world ≡ ok bps
      → bps ≤ 10000
  unfolding check_staking
  check_staking-fits staker r world bps e =
      if-elim (r.stake_contract == "") (ok 0) _ e
        (λ none_named. subst (λ n. n ≤ 10000) (ok_injective none_named) (omega arith))
        (λ named. >>=-elim (validate_addr r.stake_contract) _ named (λ _ _ e1.
          >>=-elim (or_abort (parse_uint r.staked_bps) bad_staked_bps) _ e1 (λ n _ e2.
            >>=-elim (require (ltb 0 n && leb n 10000) bad_staked_bps) _ e2 (λ _ fits e3.
              >>=-elim
                (require (staker.token_of world == "" || staker.token_of world == r.token)
                  other_token)
                _ e3
                (λ _ _ e4.
                  subst (λ n. n ≤ 10000) (ok_injective e4)
                    (at_most n (require-eq-ok (ltb 0 n && leb n 10000) bad_staked_bps fits)))))))
    where
      at_most : (n : ℕ) → ltb 0 n && leb n 10000 ≡ true → n ≤ 10000
      at_most n h = ground (arith, h)

  -- Whatever a handler leaves alone but the configuration.
  abbrev pub Reconfigured : String → ℕ → World State Event R → ℤ → World State Event R → Type 0
  Reconfigured self now w held w' = (w'.ledger ≡ w.ledger) × Sound self now w'.state held

  pub init-Sound :
      (staker : Staker R t.balance_of) (env : Env) (r : Request) (w w' : World State Event R)
      (held : ℤ)
      → Sound env.self_addr env.height w.state held
      → init t funder staker env r w ≡ ok w'
      → Reconfigured env.self_addr env.height w held w'
  unfolding init
  init-Sound staker env r w w' held v e =
      >>=-elim (abort_if w.state.initialized already_initialized) _ e (λ _ _ e1.
        >>=-elim (require (env.owner == env.caller) not_owner) _ e1 (λ _ _ e2.
          >>=-elim (require_active_unless_contract env.caller env.required_auths) _ e2 (λ _ _ e3.
            >>=-elim (validate_addr r.token) _ e3 (λ _ _ e4.
              >>=-elim (validate_addr r.funder) _ e4 (λ _ _ e5.
                >>=-elim (require_fungible r.kind) _ e5 (λ kind _ e6.
                  >>=-elim (require_no_token_id r.token_id) _ e6 (λ _ _ e7.
                    >>=-elim (auth_cfg r.guardian) _ e7 (λ guardian _ e8.
                      >>=-elim (validate guardian) _ e8 (λ _ _ e9.
                        >>=-elim (check_treasury env r) _ e9 (λ u treasury e10.
                          >>=-elim (or_abort (funder.schedule_info w.ledger) no_funder_schedule) _
                            e10
                            (λ schedule _ e11.
                              >>=-elim (check_staking t funder staker r w.ledger) _ e11
                                (λ bps staking e12.
                                  subst (λ x. Reconfigured env.self_addr env.height w held x)
                                    (ok_injective e12)
                                    (
                                      refl,
                                      record {
                                        owed = v.owed;
                                        treasury_other = check_treasury-other env r u treasury;
                                        bps_fits = check_staking-fits staker r w.ledger bps staking;
                                      },
                                    )))))))))))))

  pub add_channel-Sound :
      (self : String) (now : ℕ) (env : Env) (ch : String) (r : ChannelRequest)
      (w w' : World State Event R) (held : ℤ)
      → Sound self now w.state held
      → add_channel t funder env ch r w ≡ ok w'
      → Reconfigured self now w held w'
  unfolding add_channel
  add_channel-Sound self now env ch r w w' held v e =
      >>=-elim (require w.state.initialized not_initialized) _ e (λ _ _ e1.
        >>=-elim (require (env.caller == env.owner) not_owner) _ e1 (λ _ _ e2.
          >>=-elim (require_active_unless_contract env.caller env.required_auths) _ e2 (λ _ _ e3.
            >>=-elim (abort_if (ch == "") channel_required) _ e3 (λ _ _ e4.
              >>=-elim (require (is_channel_name ch) bad_channel_name) _ e4 (λ _ _ e5.
                >>=-elim (require (is_none (get none ch w.state.channels)) channel_exists) _ e5
                  (λ _ _ e6.
                    >>=-elim (check_bucket t funder env w.state r.bucket w.ledger) _ e6 (λ _ _ e7.
                      >>=-elim (check_window w.state r.window) _ e7 (λ window _ e8.
                        >>=-elim (check_reporter w.state r.reporter) _ e8 (λ _ _ e9.
                          >>=-elim (check_role r.role) _ e9 (λ _ _ e10.
                            >>=-elim (check_policy r.reporter.mode r.policy) _ e10 (λ _ _ e11.
                              subst (λ x. Reconfigured self now w held x) (ok_injective e11)
                                (
                                  refl,
                                  record {
                                    owed = v.owed;
                                    treasury_other = v.treasury_other;
                                    bps_fits = v.bps_fits;
                                  },
                                ))))))))))))

  pub set_policy-Sound :
      (self : String) (now : ℕ) (env : Env) (ch policy : String) (w w' : World State Event R)
      (held : ℤ)
      → Sound self now w.state held
      → set_policy env ch policy w ≡ ok w'
      → Reconfigured self now w held w'
  unfolding set_policy
  set_policy-Sound self now env ch policy w w' held v e =
      >>=-elim (require w.state.initialized not_initialized) _ e (λ _ _ e1.
        >>=-elim (require (env.caller == env.owner) not_owner) _ e1 (λ _ _ e2.
          >>=-elim (require_active_unless_contract env.caller env.required_auths) _ e2 (λ _ _ e3.
            >>=-elim (must_channel w.state ch) _ e3 (λ c _ e4.
              >>=-elim (or_abort (hex_to_bytes policy) bad_policy) _ e4 (λ _ _ e5.
                subst (λ x. Reconfigured self now w held x) (ok_injective e5)
                  (
                    refl,
                    record {
                      owed = v.owed;
                      treasury_other = v.treasury_other;
                      bps_fits = v.bps_fits;
                    },
                  ))))))

  pub release_stale_attest-Sound :
      (self : String) (now : ℕ) (env : Env) (role ch action : String) (w : World State Event R)
      (r : World State Event R × ℕ) (held : ℤ)
      → Sound self now w.state held
      → release_stale_attest env role ch action w ≡ ok r
      → Reconfigured self now w held r.0
  unfolding release_stale_attest
  release_stale_attest-Sound self now env role ch action w r held v e =
      >>=-elim (require w.state.initialized not_initialized) _ e (λ _ _ e1.
        >>=-elim (abort_if (action == "") action_required) _ e1 (λ _ _ e2.
          >>=-elim (release_cfg w.state role ch action) _ e2 (λ cfg _ e3.
            >>=-elim (require (is_attested cfg.mode) not_attest_mode) _ e3 (λ _ _ e4.
              >>=-elim
                (sweep_stale cfg env.height stale_attest_blocks
                  (get new_round (role, action) w.state.rounds))
                _ e4
                (λ d _ e5.
                  subst (λ (x : World State Event R × ℕ). Reconfigured self now w held x.0)
                    (ok_injective e5)
                    (
                      refl,
                      record {
                        owed = v.owed;
                        treasury_other = v.treasury_other;
                        bps_fits = v.bps_fits;
                      },
                    ))))))
