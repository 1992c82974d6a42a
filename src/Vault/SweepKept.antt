-- ===== src/Vault/SweepKept.antt =====
-- The sweeps keep the envelope.
use Prim.Native.String.{◌++◌}
use magi_tokenomics.Common.{
  negative_balance, ℕ, ℤ, pos, ◌-ℤ◌, ◌<ℤ◌, ◌≤ℤ◌, int_laws, le_of_eq, IsNonneg, ltb_ℤ, leb_ℤ, Bool,
  true, ◌&&◌, ◌≡◌, refl, sym, ap, ◌∙◌, arith, String, List, Option, none, some, string_eq, nat_eq,
  pair_eq, get, insert, ◌==◌, ltb, if◌then◌else◌, subst, ok, ◌>>=◌, require, abort_if, ok_injective,
  >>=-eq-ok, >>=-elim, if-elim, require-eq-ok, not_initialized, not_elapsed, has_stakers,
  nothing_to_sweep, no_treasury,
}
use magi_tokenomics.Chain.{Env, World}
use magi_tokenomics.Adapter.{Token, Kind, fungible, editioned_nft, transfer, balance_of_self}
use magi_tokenomics.Adapter.Laws.{transfer_pays}
use magi_tokenomics.Auth.Round.{Config, Round, new_round}
use magi_tokenomics.Auth.Policy.{authorize}
use magi_tokenomics.Text.Epoch.{must_epoch}
use magi_tokenomics.Text.Fields.{show_int}
use magi_tokenomics.Staking.Epochs.{epoch_bounds, min_stake_sum_at}
use magi_tokenomics.Vault.State.{Vault, Logged, yield_of}
use magi_tokenomics.Vault.Yield.{
  set_yield, check_empty, close_epoch, guardian_cfg, authorize_guardian, sweep_empty_epoch,
}
use magi_tokenomics.Vault.Airdrop.{
  obligations, unobligated, reserved, check_owner, sweep_unobligated,
}
use magi_tokenomics.Vault.Envelope.{Envelope, spent_yield-Envelope, unpaid}
use magi_tokenomics.Vault.YieldKept.{Enveloped}

-- A vote changes nothing but the rounds.
record Voted (v v' : Vault) : Type 0 where
  votes : List ((String × String) × Round)
  same : v' ≡ record v { rounds = votes }

authorize_guardian-Voted :
    (hash : String → String) (cfg : Config) (action payload : String) (env : Env) (v : Vault)
    (d : Vault × Bool)
    → authorize_guardian hash cfg action payload env v ≡ ok d
    → Voted v d.0
unfolding authorize_guardian
authorize_guardian-Voted hash cfg action payload env v d e =
    let (r, _, done) =
      >>=-eq-ok
        (authorize hash cfg env.height payload env.caller env.required_auths
          (get new_round ("grd", action) v.rounds))
        _ e in
    record {
      votes = insert ("grd", action) r.0 v.rounds;
      same = λ i. (sym (ok_injective done) i).0;
    }

Voted-Envelope :
    (self : String) (v v' : Vault) (held : ℤ)
    → Voted v v'
    → Envelope self v held
    → Envelope self v' held
Voted-Envelope self v v' held d e =
    rw d.same (record { custody = e.custody; booked = e.booked; treasury_other = e.treasury_other })

Voted-yield_of : (v v' : Vault) (ep : ℕ) → Voted v v' → yield_of v' ep ≡ yield_of v ep
unfolding yield_of
Voted-yield_of v v' ep d = rw d.same refl

-- What an empty epoch gives back is its positive residual.
check_empty-residual :
    (env : Env) (ep : ℕ) (v : Vault) (residual : ℤ)
    → check_empty env ep v ≡ ok residual
    → (pos 0 <ℤ residual) × (residual ≡ unpaid (yield_of v ep))
unfolding check_empty
check_empty-residual env ep v residual e = >>=-elim (epoch_bounds v.staking ep) _ e (λ b _ e1.
    >>=-elim (require (ltb b.1 env.height) not_elapsed) _ e1 (λ _ _ e2.
      >>=-elim (min_stake_sum_at env v.staking ep) _ e2 (λ total _ e3.
        >>=-elim (require (leb_ℤ total (pos 0) && leb_ℤ (pos 0) total) has_stakers) _ e3 (λ _ _ e4.
          let x = unpaid (yield_of v ep) in
          >>=-elim (require (ltb_ℤ (pos 0) x) nothing_to_sweep) _ e4 (λ _ left e5.
            subst (λ y. (pos 0 <ℤ y) × (y ≡ x)) (ok_injective e5)
              (is_positive x (require-eq-ok (ltb_ℤ (pos 0) x) nothing_to_sweep left), refl))))))
  where
    is_positive : (x : ℤ) → ltb_ℤ (pos 0) x ≡ true → pos 0 <ℤ x
    is_positive x h = ground (arith, h)

module _ {R : Type 0} (t : Token R) where
  pub sweep_empty_epoch-Enveloped :
      (hash : String → String) (env : Env) (epoch : List ℕ) (w : World Vault Logged R)
      (r : World Vault Logged R × Option ℤ)
      → Enveloped t env.self_addr w
      → sweep_empty_epoch t hash env epoch w ≡ ok r
      → Enveloped t env.self_addr r.0
  unfolding sweep_empty_epoch close_epoch set_yield
  sweep_empty_epoch-Enveloped hash env epoch w r v e =
      >>=-elim (require w.state.staking.initialized not_initialized) _ e (λ _ _ e1.
        >>=-elim (must_epoch epoch) _ e1 (λ ep _ e2.
          >>=-elim (check_empty env ep w.state) _ e2 (λ residual empty e3.
            >>=-elim (guardian_cfg w.state) _ e3 (λ cfg _ e4.
              let action = "sweepempty:" ++ show_int (pos ep) in
              >>=-elim (authorize_guardian hash cfg action action env w.state) _ e4 (λ d vote e5.
                let voted = authorize_guardian-Voted hash cfg action action env w.state d vote in
                let after = Voted-Envelope env.self_addr w.state d.0 _ voted v in
                let (positive, residual_is) = check_empty-residual env ep w.state residual empty in
                if-elim d.1 _ (ok (record w { state = d.0 }, none)) e5
                  (λ passed.
                    >>=-elim
                      (transfer t d.0.staking.kind env d.0.treasury residual
                        (record w { state = close_epoch ep residual d.0 }))
                      _ passed
                      (λ w' moved e6.
                        let old = yield_of d.0 ep in
                        let (same, _, debited) =
                          transfer_pays t d.0.staking.kind env d.0.treasury residual _ w' moved
                            positive (λ h. after.treasury_other (sym h)) in
                        let rest =
                          residual_is ∙ ap unpaid (sym (Voted-yield_of w.state d.0 ep voted)) in
                        subst
                          (λ (x : World Vault Logged R × Option ℤ). Enveloped t env.self_addr x.0)
                          (ok_injective e6)
                          (rw (same, debited)
                            (spent_yield-Envelope env.self_addr d.0 _ residual ep
                              (record old { paid = old.funded; swept = true }) _
                              (omega (int_laws, le_of_eq rest)) refl refl refl refl after))))
                  (λ waits.
                    subst (λ (x : World Vault Logged R × Option ℤ). Enveloped t env.self_addr x.0)
                      (ok_injective waits) after))))))

  pub unobligated-free :
      (env : Env) (w : World Vault Logged R) (x : ℤ)
      → unobligated t env w ≡ ok x
      → x ≡ t.balance_of w.ledger env.self_addr -ℤ obligations w.state
  unfolding unobligated balance_of_self
  unobligated-free env w x e = free w.state.staking.kind e
    where
      free :
          (k : Kind)
          → (balance_of_self t k env w >>= λ held. ok (held -ℤ obligations w.state)) ≡ ok x
          → x ≡ t.balance_of w.ledger env.self_addr -ℤ obligations w.state
      free fungible e = >>=-elim (balance_of_self t fungible env w) _ e (λ held read e1.
          >>=-elim (abort_if (ltb_ℤ (t.balance_of w.ledger env.self_addr) (pos 0)) negative_balance)
            _ read
            (λ _ _ is_held.
              sym (ok_injective e1)
              ∙ ap (λ b. b -ℤ obligations w.state) (sym (ok_injective is_held))))
      free editioned_nft e = cc

  reserved-IsNonneg : (v : Vault) → IsNonneg (reserved v)
  unfolding reserved
  reserved-IsNonneg v = go v.max_airdrop
    where
      go :
          (cap : Option ℤ)
          → IsNonneg (elim cap [
            | none ↦ pos 0
            | some c ↦ if ltb_ℤ (pos 0) (c -ℤ v.airdrop_total) then c -ℤ v.airdrop_total else pos 0
          ])
      go none = omega arith
      go (some c) = at_least (c -ℤ v.airdrop_total)
        where
          at_least : (x : ℤ) → IsNonneg (if ltb_ℤ (pos 0) x then x else pos 0)
          at_least x = ground arith

  -- Free tokens leave.
  pub spent_free-Envelope :
      (self : String) (v : Vault) (held x : ℤ)
      → x ≤ℤ held -ℤ obligations v
      → Envelope self v held
      → Envelope self v (held -ℤ x)
  unfolding obligations
  spent_free-Envelope self v held x l e = record {
    custody = record {
      covered = omega (int_laws, l);
      queued = e.custody.queued;
      tickets = e.custody.tickets;
      free = e.custody.free;
      stakes = e.custody.stakes;
    };
    booked = e.booked;
    treasury_other = e.treasury_other;
  }

  pub sweep_unobligated-Enveloped :
      (env : Env) (w : World Vault Logged R) (r : World Vault Logged R × ℤ)
      → Enveloped t env.self_addr w
      → sweep_unobligated t env w ≡ ok r
      → Enveloped t env.self_addr r.0
  unfolding sweep_unobligated
  sweep_unobligated-Enveloped env w r v e = >>=-elim (check_owner env w.state) _ e (λ _ _ e1.
      >>=-elim (abort_if (w.state.treasury == "") no_treasury) _ e1 (λ _ _ e2.
        >>=-elim (unobligated t env w) _ e2 (λ free is_free e3.
          let amt = free -ℤ reserved w.state in
          >>=-elim (require (ltb_ℤ (pos 0) amt) nothing_to_sweep) _ e3 (λ _ some_free e4.
            >>=-elim (transfer t w.state.staking.kind env w.state.treasury amt w) _ e4
              (λ w' moved e5.
                let positive =
                  is_positive amt (require-eq-ok (ltb_ℤ (pos 0) amt) nothing_to_sweep some_free) in
                let (same, _, debited) =
                  transfer_pays t w.state.staking.kind env w.state.treasury amt w w' moved positive
                    (λ h. v.treasury_other (sym h)) in
                let enough : amt ≤ℤ t.balance_of w.ledger env.self_addr -ℤ obligations w.state =
                  omega (
                    int_laws,
                    reserved-IsNonneg w.state,
                    le_of_eq (unobligated-free env w free is_free),
                  ) in
                subst (λ (x : World Vault Logged R × ℤ). Enveloped t env.self_addr x.0)
                  (ok_injective e5)
                  (rw (same, debited)
                    (spent_free-Envelope env.self_addr w.state _ amt enough v)))))))
    where
      is_positive : (x : ℤ) → ltb_ℤ (pos 0) x ≡ true → pos 0 <ℤ x
      is_positive x h = ground (arith, h)
