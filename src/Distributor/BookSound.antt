-- ===== src/Distributor/BookSound.antt =====
-- The share book's handlers and the invariant.
use Prim.Native.String.{◌++◌}
use magi_tokenomics.Common.{
  ℕ, ℤ, pos, ◌+ℤ◌, leb_ℤ, ltb_ℤ, Bool, true, false, not, ◌&&◌, ◌≡◌, refl, sym, ap, ◌∙◌, inl, inr,
  String, List, string_eq, pair_eq, get, insert, ◌==◌, subst, ok, require, abort_if, or_abort,
  ok_injective, >>=-eq-ok, >>=-elim, if-elim, require-eq-ok, Bool-cases, not_initialized,
  epoch_not_open, page_applied, beyond_total, root_submitted, bad_root, upper_case_root, bad_total,
  policy_mismatch, not_funded, no_root, no_shares, total_mismatch,
}
use magi_tokenomics.Chain.{Env, World, add64}
use magi_tokenomics.Text.Fields.{canon, parse_big, show_int, split_comma}
use magi_tokenomics.Merkle.Hex.{hex_to_bytes, has_upper_hex}
use magi_tokenomics.Distributor.State.{State, Event, Epoch, Key, Channel, finalized}
use magi_tokenomics.Distributor.Policy.{
  auth_cfg, must_channel, epoch_of, set_epoch, pin_policy, authorize_action,
}
use magi_tokenomics.Distributor.Funding.{is_open}
use magi_tokenomics.Distributor.Book.{
  count_entries, apply_entries, apply_page, commit_root, freeze, submit_shares, submit_root,
  finalize_epoch,
}
use magi_tokenomics.Distributor.Covered.{residual, Settled, Settled-open}
use magi_tokenomics.Distributor.Sound.{
  Sound, Sound-keep, epoch_of-Settled, epoch_of-set_epoch, authorize_action-Voted, Voted-Sound,
  Voted-epoch_of, Voted, Settled-same,
}

pub pin_policy-Settled :
    (now : ℕ) (s : State) (ch : String) (e : Epoch)
    → Settled now e
    → Settled now (pin_policy s ch e)
unfolding pin_policy
pin_policy-Settled now s ch e v = elim (Bool-cases (e.policy == "")) [
  | inl h ↦ rw h (Settled-same now e _ refl refl refl refl v)
  | inr h ↦ rw h v
]

pub residual-pin_policy :
    (s : State) (ch : String) (e : Epoch) → residual (pin_policy s ch e) ≡ residual e
unfolding pin_policy
residual-pin_policy s ch e = elim (Bool-cases (e.policy == "")) [
  | inl h ↦ rw h refl
  | inr h ↦ rw h refl
]

-- A page changes only what the epoch's pages add up to.
apply_entries-Sound :
    (garbled : String → ℤ) (self : String) (now : ℕ) (k : Key) (page entries : String) (s : State)
    (log : List Event) (held : ℤ) (r : State × List Event)
    → Sound self now s held
    → apply_entries garbled k page entries s log ≡ ok r
    → Sound self now r.0 held
unfolding apply_entries
apply_entries-Sound garbled self now k page entries s log held r v e =
    let (y, _, e1) =
      >>=-eq-ok
        (count_entries garbled k page (split_comma entries)
          (record { counted = 0; total = pos 0; log = log }))
        _ e in
    let old = epoch_of s k in
    let sum = old.page_sum +ℤ y.total in
    let over = ltb_ℤ (pos 0) old.total_shares && ltb_ℤ old.total_shares sum in
    let (_, _, e2) = >>=-eq-ok (abort_if over beyond_total) _ e1 in
    subst (λ (x : State × List Event). Sound self now x.0 held) (ok_injective e2)
      (Sound-keep self now k (record old { page_sum = sum }) s held
        (Settled-same now old _ refl refl refl refl (epoch_of-Settled self now s held k v)) refl v)

marked-Sound :
    (self : String) (now : ℕ) (k : Key × String) (s : State) (held : ℤ)
    → Sound self now s held
    → Sound self now (record s { pages = insert k true s.pages }) held
marked-Sound self now k s held v = record {
  owed = v.owed;
  treasury_other = v.treasury_other;
  bps_fits = v.bps_fits;
}

-- The ledger is as before and the invariant holds of the new state.
abbrev pub SoundAfter :
    {R : Type 0} → String → ℕ → World State Event R → ℤ → World State Event R × Bool → Type 0
SoundAfter self now w held r = (r.0.ledger ≡ w.ledger) × Sound self now r.0.state held

pub waiting-SoundAfter :
    {R : Type 0} (self : String) (now : ℕ) (w : World State Event R) (held : ℤ) (s : State)
    (r : World State Event R × Bool)
    → Sound self now s held
    → ok (record w { state = s }, false) ≡ ok r
    → SoundAfter self now w held r
waiting-SoundAfter self now w held s r v e =
    subst (λ x. SoundAfter self now w held x) (ok_injective e) (refl, v)

apply_page-SoundAfter :
    (garbled : String → ℤ) {R : Type 0} (self : String) (now : ℕ) (k : Key) (page entries : String)
    (w : World State Event R) (s : State) (held : ℤ) (r : World State Event R × Bool)
    → Sound self now s held
    → apply_page garbled k page entries w s ≡ ok r
    → SoundAfter self now w held r
unfolding apply_page
apply_page-SoundAfter garbled self now k page entries w s held r v e =
    >>=-elim (abort_if (get false (k, page) s.pages) page_applied) _ e (λ _ _ e1.
      >>=-elim
        (apply_entries garbled k page entries (record s { pages = insert (k, page) true s.pages })
          w.log)
        _ e1
        (λ d applied e2.
          subst (λ x. SoundAfter self now w held x) (ok_injective e2)
            (
              refl,
              apply_entries-Sound garbled self now k page entries _ w.log held d
                  (marked-Sound self now (k, page) s held v) applied,
            )))

module _ (garbled : String → ℤ) (hash : String → String) {R : Type 0} where
  pub submit_shares-Sound :
      (self : String) (env : Env) (ch epoch page_text entries : String) (w : World State Event R)
      (r : World State Event R × Bool) (held : ℤ)
      → Sound self env.height w.state held
      → submit_shares garbled hash env ch epoch page_text entries w ≡ ok r
      → SoundAfter self env.height w held r
  unfolding submit_shares
  submit_shares-Sound self env ch epoch page_text entries w r held v e =
      >>=-elim (require w.state.initialized not_initialized) _ e (λ _ _ e1.
        >>=-elim (must_channel w.state ch) _ e1 (λ c _ e2. >>=-elim (canon epoch) _ e2 (λ ep _ e3.
          >>=-elim (require (is_open (epoch_of w.state (ch, ep)).status) epoch_not_open) _ e3
            (λ _ _ e4. >>=-elim (canon page_text) _ e4 (λ page _ e5.
              >>=-elim (auth_cfg c.reporter) _ e5 (λ cfg _ e6.
                >>=-elim
                  (authorize_action hash cfg "rep" ("ss:" ++ ch ++ ":" ++ ep ++ ":" ++ page) entries
                    env w.state)
                  _ e6
                  (λ d vote e7.
                    let voted =
                      Voted-Sound self env.height w.state d.0 held
                        (authorize_action-Voted hash cfg "rep" _ entries env w.state d vote) v in
                    if-elim d.1 (apply_page garbled (ch, ep) page entries w d.0)
                      (ok (record w { state = d.0 }, false)) e7
                      (λ commits.
                        apply_page-SoundAfter garbled self env.height (ch, ep) page entries w d.0
                          held r voted commits)
                      (waiting-SoundAfter self env.height w held d.0 r voted))))))))

commit_root-SoundAfter :
    {R : Type 0} (self : String) (now : ℕ) (k : Key) (root : String) (total : ℤ) (accounts : String)
    (pinned : Epoch) (w : World State Event R) (s : State) (held : ℤ)
    (r : World State Event R × Bool)
    → epoch_of s k ≡ pinned
    → Sound self now s held
    → ok (commit_root k root total accounts pinned w s) ≡ ok r
    → SoundAfter self now w held r
unfolding commit_root
commit_root-SoundAfter self now k root total accounts pinned w s held r at v e =
    let settled : Settled now pinned =
      subst (λ x. Settled now x) at (epoch_of-Settled self now s held k v) in
    subst (λ x. SoundAfter self now w held x) (ok_injective e)
      (
        refl,
        elim (Bool-cases (accounts == "")) [
          | inl h ↦ rw h (
              Sound-keep self now k (record pinned { root = root; total_shares = total }) s held
                (Settled-same now pinned _ refl refl refl refl settled) (ap residual (sym at)) v)
          | inr h ↦ rw h (
              Sound-keep self now k
                (record pinned { accounts = accounts; root = root; total_shares = total }) s held
                (Settled-same now pinned _ refl refl refl refl settled) (ap residual (sym at)) v)
        ],
      )

freeze-SoundAfter :
    {R : Type 0} (self : String) (now : ℕ) (c : Channel) (k : Key) (w : World State Event R)
    (s s' : State) (held : ℤ) (r : World State Event R × Bool)
    → Voted s s'
    → is_open (epoch_of s k).status ≡ true
    → Sound self now s held
    → freeze now c k (epoch_of s k) w s' ≡ ok r
    → SoundAfter self now w held r
unfolding freeze
freeze-SoundAfter self now c k w s s' held r voted is_open_now v e =
    let old = epoch_of s k in
    let settled = epoch_of-Settled self now s held k v in
    let unpaid = Settled-open now old settled is_open_now in
    let frozen : Epoch = record old { status = finalized; chal = add64 now c.window } in
    >>=-elim
      (require (leb_ℤ old.page_sum old.total_shares && leb_ℤ old.total_shares old.page_sum)
        total_mismatch)
      _ e
      (λ _ _ e1.
        subst (λ x. SoundAfter self now w held x) (ok_injective e1)
          (
            refl,
            Sound-keep self now k frozen s' held
                (record { nonneg = settled.nonneg; within = settled.within; early = λ _. unpaid })
                (ap residual (sym (Voted-epoch_of s s' k voted)))
                (Voted-Sound self now s s' held voted v),
          ))

module _ (hash : String → String) {R : Type 0} where
  pub finalize_epoch-Sound :
      (self : String) (env : Env) (ch epoch : String) (w : World State Event R)
      (r : World State Event R × Bool) (held : ℤ)
      → Sound self env.height w.state held
      → finalize_epoch hash env ch epoch w ≡ ok r
      → SoundAfter self env.height w held r
  unfolding finalize_epoch
  finalize_epoch-Sound self env ch epoch w r held v e =
      >>=-elim (require w.state.initialized not_initialized) _ e (λ _ _ e1.
        >>=-elim (must_channel w.state ch) _ e1 (λ c _ e2. >>=-elim (canon epoch) _ e2 (λ ep _ e3.
          >>=-elim (require (is_open (epoch_of w.state (ch, ep)).status) epoch_not_open) _ e3
            (λ _ o e4.
              >>=-elim (require (ltb_ℤ (pos 0) (epoch_of w.state (ch, ep)).funded) not_funded) _ e4
                (λ _ _ e5.
                  >>=-elim (abort_if ((epoch_of w.state (ch, ep)).root == "") no_root) _ e5
                    (λ _ _ e6.
                      >>=-elim
                        (require (ltb_ℤ (pos 0) (epoch_of w.state (ch, ep)).total_shares) no_shares)
                        _ e6
                        (λ _ _ e7. >>=-elim (auth_cfg c.reporter) _ e7 (λ cfg _ e8.
                          >>=-elim
                            (authorize_action hash cfg "rep" ("fin:" ++ ch ++ ":" ++ ep)
                              ("fin:" ++ ch ++ ":" ++ ep) env w.state)
                            _ e8
                            (λ d vote e9.
                              let voted =
                                authorize_action-Voted hash cfg "rep" _ _ env w.state d vote in
                              if-elim d.1
                                (freeze env.height c (ch, ep) (epoch_of w.state (ch, ep)) w d.0)
                                (ok (record w { state = d.0 }, false)) e9
                                (freeze-SoundAfter self env.height c (ch, ep) w w.state d.0 held r
                                  voted
                                  (require-eq-ok (is_open (epoch_of w.state (ch, ep)).status)
                                    epoch_not_open o)
                                  v)
                                (waiting-SoundAfter self env.height w held d.0 r
                                  (Voted-Sound self env.height w.state d.0 held voted v)))))))))))

module _ (garbled : String → ℤ) (hash : String → String) {R : Type 0} where
  pub submit_root-Sound :
      (self : String) (env : Env) (ch epoch root total_text accounts policy : String)
      (w : World State Event R) (r : World State Event R × Bool) (held : ℤ)
      → Sound self env.height w.state held
      → submit_root garbled hash env ch epoch root total_text accounts policy w ≡ ok r
      → SoundAfter self env.height w held r
  unfolding submit_root
  submit_root-Sound self env ch epoch root total_text accounts policy w r held v e =
      let total = parse_big garbled total_text in
      >>=-elim (require w.state.initialized not_initialized) _ e (λ _ _ e1.
        >>=-elim (must_channel w.state ch) _ e1 (λ c _ e2. >>=-elim (canon epoch) _ e2 (λ ep _ e3.
          let old = epoch_of w.state (ch, ep) in
          let pinned = pin_policy w.state ch old in
          >>=-elim (require (is_open old.status) epoch_not_open) _ e3 (λ _ _ e4.
            >>=-elim (require (old.root == "") root_submitted) _ e4 (λ _ _ e5.
              >>=-elim (or_abort (hex_to_bytes root) bad_root) _ e5 (λ _ _ e6.
                >>=-elim (abort_if (has_upper_hex root) upper_case_root) _ e6 (λ _ _ e7.
                  >>=-elim (require (ltb_ℤ (pos 0) total) bad_total) _ e7 (λ _ _ e8.
                    >>=-elim
                      (abort_if (not (pinned.policy == "") && not (policy == pinned.policy))
                        policy_mismatch)
                      _ e8
                      (λ _ _ e9. >>=-elim (auth_cfg c.reporter) _ e9 (λ cfg _ e10.
                        >>=-elim
                          (authorize_action hash cfg "rep" ("sr:" ++ ch ++ ":" ++ ep)
                            (root ++ ":" ++ show_int total) env (set_epoch (ch, ep) pinned w.state))
                          _ e10
                          (λ d vote e11.
                            let voted =
                              authorize_action-Voted hash cfg "rep" _ _ env
                                (set_epoch (ch, ep) pinned w.state) d vote in
                            let settled =
                              epoch_of-Settled self env.height w.state held (ch, ep) v in
                            let pins =
                              Sound-keep self env.height (ch, ep) pinned w.state held
                                (pin_policy-Settled env.height w.state ch old settled)
                                (residual-pin_policy w.state ch old) v in
                            let after =
                              Voted-Sound self env.height (set_epoch (ch, ep) pinned w.state) d.0
                                held voted pins in
                            let at =
                              Voted-epoch_of (set_epoch (ch, ep) pinned w.state) d.0 (ch, ep) voted
                              ∙ epoch_of-set_epoch (ch, ep) pinned w.state in
                            if-elim d.1 (ok (commit_root (ch, ep) root total accounts pinned w d.0))
                              (ok (record w { state = d.0 }, false)) e11
                              (commit_root-SoundAfter self env.height (ch, ep) root total accounts
                                pinned w d.0 held r at after)
                              (waiting-SoundAfter self env.height w held d.0 r after))))))))))))
