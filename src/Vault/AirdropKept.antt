-- ===== src/Vault/AirdropKept.antt =====
-- An airdrop keeps the envelope: what it gives comes from the free balance.
use magi_tokenomics.Common.{
  ℤ, pos, ◌+ℤ◌, ◌-ℤ◌, ◌<ℤ◌, ◌≤ℤ◌, int_laws, le_of_eq, IsNonneg, ltb_ℤ, leb_ℤ, true, false, not, ◌≡◌,
  ◌≢◌, refl, inl, inr, arith, String, List, [], ◌∷◌, ◌++◌, All, string_eq, insert, ◌==◌, subst, sum,
  sum_by, ok, abort_if, ok_injective, >>=-elim, if-elim, abort_if-eq-ok, Bool-cases, over_cap,
  over_envelope,
}
use magi_tokenomics.Chain.{Env, World, validate_addr, is_ledger_addr}
use magi_tokenomics.Adapter.{Token, transfer}
use magi_tokenomics.Adapter.Laws.{transfer_pays}
use magi_tokenomics.Text.Fields.{split_comma, parse_big}
use magi_tokenomics.Staking.State.{via_airdrop}
use magi_tokenomics.Staking.Credit.{apply_credit}
use magi_tokenomics.Staking.Custody.{apply_credit-SetStake, credited-CustodyAt}
use magi_tokenomics.Vault.State.{Vault, Logged, in_vault, staking_world}
use magi_tokenomics.Vault.Airdrop.{
  obligations, Batch, account_and_amount, read_entry, read_entries, unobligated, give, give_all,
  check_owner, check_batch, airdrop_batch,
}
use magi_tokenomics.Vault.YieldKept.{Enveloped}
use magi_tokenomics.Vault.SweepKept.{spent_free-Envelope, unobligated-free}

abbrev AllPositive : List (String × ℤ) → Type 0
AllPositive es = All (λ e. pos 0 <ℤ e.1) es

sum-IsNonneg : (es : List (String × ℤ)) → AllPositive es → IsNonneg (sum es)
unfolding sum_by
sum-IsNonneg [] p = omega arith
sum-IsNonneg (e ∷ es) (p, ps) = omega (int_laws, p, sum-IsNonneg es ps)

sum-append : (xs ys : List (String × ℤ)) → sum (xs ++ ys) ≡ sum xs +ℤ sum ys
unfolding sum_by
sum-append [] ys = omega int_laws
sum-append (x ∷ xs) ys = omega (int_laws, le_of_eq (sum-append xs ys))

AllPositive-append :
    (xs ys : List (String × ℤ)) → AllPositive xs → AllPositive ys → AllPositive (xs ++ ys)
AllPositive-append [] ys p q = q
AllPositive-append (x ∷ xs) ys (p, ps) q = (p, AllPositive-append xs ys ps q)

-- A batch that was read holds positive amounts and their sum.
record IsRead (b : Batch) : Type 0 where
  positive : AllPositive b.entries
  summed : b.sum ≡ sum b.entries

module _ (garbled : String → ℤ) where
  read_entry-IsRead :
      (batch e : String) (b b' : Batch)
      → IsRead b
      → read_entry garbled batch e b ≡ ok b'
      → IsRead b'
  unfolding read_entry sum_by
  read_entry-IsRead batch e b b' v h =
      let acct = (account_and_amount e).0 in
      let x = parse_big garbled (account_and_amount e).1 in
      if-elim (acct == "") _ _ h
        (λ skipped.
          subst IsRead (ok_injective skipped) (record { positive = v.positive; summed = v.summed }))
        (λ named. >>=-elim (validate_addr acct) _ named (λ _ _ h1.
          subst IsRead (ok_injective h1) (elim (Bool-cases (not (is_ledger_addr acct))) [
            | inl bad ↦ rw bad (record { positive = v.positive; summed = v.summed })
            | inr good ↦ rw good (elim (Bool-cases (leb_ℤ x (pos 0))) [
              | inl low ↦ rw low (record { positive = v.positive; summed = v.summed })
              | inr high ↦ rw high (record {
                positive =
                    AllPositive-append b.entries ((acct, x) ∷ []) v.positive
                      (is_positive x high, tt);
                summed =
                    omega (
                      int_laws,
                      le_of_eq v.summed,
                      le_of_eq (sum-append b.entries ((acct, x) ∷ [])),
                    );
              })
            ])
          ])))
    where
      is_positive : (x : ℤ) → leb_ℤ x (pos 0) ≡ false → pos 0 <ℤ x
      is_positive x h = ground (arith, h)

  read_entries-IsRead :
      (batch : String) (es : List String) (b b' : Batch)
      → IsRead b
      → read_entries garbled batch es b ≡ ok b'
      → IsRead b'
  unfolding read_entries
  read_entries-IsRead batch [] b b' v h = subst IsRead (ok_injective h) v
  read_entries-IsRead batch (e ∷ es) b b' v h =
      >>=-elim (read_entry garbled batch e b) _ h (λ b1 read h1.
        read_entries-IsRead batch es b1 b' (read_entry-IsRead batch e b b1 v read) h1)

module _ {R : Type 0} (t : Token R) where
  -- The balance that nothing is owed of.
  abbrev free_of : String → World Vault Logged R → ℤ
  free_of self w = t.balance_of w.ledger self -ℤ obligations w.state

  -- What is given to one account, out of the free balance.
  give-Enveloped :
      (env : Env) (e : String × ℤ) (w w' : World Vault Logged R)
      → pos 0 <ℤ e.1
      → env.self_addr ≢ e.0
      → e.1 ≤ℤ free_of env.self_addr w
      → Enveloped t env.self_addr w
      → give t env e w ≡ ok w'
      → Enveloped t env.self_addr w' × (free_of env.self_addr w' ≡ free_of env.self_addr w -ℤ e.1)
  unfolding give in_vault obligations
  give-Enveloped env e w w' p other l v h =
      let self = env.self_addr in
      let held = t.balance_of w.ledger self in
      if-elim w.state.airdrop_staked _ (transfer t w.state.staking.kind env e.0 e.1 w) h
        (λ as_stake.
          >>=-elim (apply_credit env e.0 e.1 via_airdrop (staking_world w)) _ as_stake
            (λ s' applied h1.
              let (r, kept) =
                apply_credit-SetStake env e.0 e.1 via_airdrop (staking_world w) s' applied in
              let credited =
                credited-CustodyAt env e.0 e.1 (held -ℤ w.state.yield_outstanding) w.state.staking
                  s'.state p r v.custody in
              subst
                (λ (x : World Vault Logged R).
                  Enveloped t self x × (free_of self x ≡ free_of self w -ℤ e.1))
                (ok_injective h1)
                (
                  record {
                    custody = record {
                      covered =
                          rw (kept, r.total_staked, r.unstake_outstanding) (omega (int_laws, l));
                      queued = credited.queued;
                      tickets = credited.tickets;
                      free = credited.free;
                      stakes = credited.stakes;
                    };
                    booked = v.booked;
                    treasury_other = v.treasury_other;
                  },
                  rw (kept, r.total_staked, r.unstake_outstanding) (omega int_laws),
                )))
        (λ as_tokens.
          let (same, _, debited) =
            transfer_pays t w.state.staking.kind env e.0 e.1 w w' as_tokens p other in
          (
            rw (same, debited) (spent_free-Envelope t self w.state held e.1 l v),
            rw (same, debited) (omega int_laws),
          ))

  give_all-Enveloped :
      (env : Env) (es : List (String × ℤ)) (w w' : World Vault Logged R)
      → AllPositive es
      → All (λ e. env.self_addr ≢ e.0) es
      → sum es ≤ℤ free_of env.self_addr w
      → Enveloped t env.self_addr w
      → give_all t env es w ≡ ok w'
      → Enveloped t env.self_addr w'
  unfolding give_all sum_by
  give_all-Enveloped env [] w w' p other l v h =
      subst (λ x. Enveloped t env.self_addr x) (ok_injective h) v
  give_all-Enveloped env (e ∷ es) w w' (p, ps) (other, others) l v h =
      >>=-elim (give t env e w) _ h (λ w1 given h1.
        let (v1, less) =
          give-Enveloped env e w w1 p other (omega (int_laws, l, sum-IsNonneg es ps)) v given in
        give_all-Enveloped env es w1 w' ps others (omega (int_laws, l, le_of_eq less)) v1 h1)

  -- The accounts that a batch names are others.
  abbrev pub NamesOthers : (String → ℤ) → Env → String → String → List Logged → Type 0
  NamesOthers garbled env batch entries log =
      (b : Batch)
      → read_entries garbled batch (split_comma entries)
          (record { entries = []; sum = pos 0; log = log })
        ≡ ok b
      → All (λ e. env.self_addr ≢ e.0) b.entries

  pub airdrop_batch-Enveloped :
      (garbled : String → ℤ) (env : Env) (batch entries : String) (w : World Vault Logged R)
      (r : World Vault Logged R × ℤ)
      → NamesOthers garbled env batch entries w.log
      → Enveloped t env.self_addr w
      → airdrop_batch t garbled env batch entries w ≡ ok r
      → Enveloped t env.self_addr r.0
  unfolding airdrop_batch sum_by
  airdrop_batch-Enveloped garbled env batch entries w r others v h =
      let self = env.self_addr in
      let start : Batch = record { entries = []; sum = pos 0; log = w.log } in
      >>=-elim (check_owner env w.state) _ h (λ _ _ h1.
        >>=-elim (check_batch batch w.state) _ h1 (λ cap _ h2.
          >>=-elim (read_entries garbled batch (split_comma entries) start) _ h2 (λ b read h3.
            let total = w.state.airdrop_total +ℤ b.sum in
            let v_read =
              read_entries-IsRead garbled batch (split_comma entries) start b
                (record { positive = tt; summed = refl }) read in
            >>=-elim (abort_if (ltb_ℤ cap total) over_cap) _ h3 (λ _ _ h4.
              >>=-elim (unobligated t env w) _ h4 (λ available is_free h5.
                >>=-elim (abort_if (ltb_ℤ available b.sum) over_envelope) _ h5 (λ _ fits h6.
                  let marked = record w {
                    state = record w.state { batches = insert batch true w.state.batches };
                    log = b.log;
                  } in
                  >>=-elim (give_all t env b.entries marked) _ h6 (λ w' given h7.
                    let enough =
                      is_enough available b.sum
                        (abort_if-eq-ok (ltb_ℤ available b.sum) over_envelope fits) in
                    let kept =
                      give_all-Enveloped env b.entries marked w' v_read.positive (others b read)
                        (omega (
                          int_laws,
                          enough,
                          le_of_eq v_read.summed,
                          le_of_eq (unobligated-free t env w available is_free),
                        ))
                        (record {
                          custody = v.custody;
                          booked = v.booked;
                          treasury_other = v.treasury_other;
                        })
                        given in
                    subst (λ (x : World Vault Logged R × ℤ). Enveloped t self x.0) (ok_injective h7)
                      (record {
                        custody = kept.custody;
                        booked = kept.booked;
                        treasury_other = kept.treasury_other;
                      }))))))))
    where
      is_enough : (a b : ℤ) → ltb_ℤ a b ≡ false → b ≤ℤ a
      is_enough a b h = ground (arith, h)
