-- ===== src/Auth/Attestation.antt =====
-- The submissions behind an attested action of auth/auth.go.
use magi_tokenomics.Common.{
  ℕ, ◌+◌, ◌≤◌, pos, ◌≤ℤ◌, leb_ℤ, Bool, true, false, String, [], ◌∷◌, All, ◌≡◌, ◌≢◌, refl, sym, ap,
  ◌∙◌, inl, inr, arith, Bool-cases, get, insert, get-insert, string_eq, ◌==◌, if◌then◌else◌,
  beq_refl, ok, require, abort_if, ok_injective, >>=-eq-ok, require-eq-ok, abort_if-eq-ok,
  not_authority, already_committed, payload_too_large, already_attested, ltb, subst,
}
use Prim.Native.String.{len}
use magi_tokenomics.Chain.{contains}
use magi_tokenomics.Auth.Round.{Config, Round, new_round}
use magi_tokenomics.Auth.Policy.{note_payload, note_start, count_submission, attest}
use magi_tokenomics.Auth.Submissions.{
  Submissions, has_caller, count_payload, AllDistinct, Noted, note_payload-Noted,
}

module _ (hash : String → String) (cfg : Config) where
  abbrev count_hash : String → Submissions → ℕ
  count_hash h [] = 0
  count_hash h (x ∷ g) = if h == hash x.1 then count_hash h g + 1 else count_hash h g

  -- An open round, whose tallies are backed by the submissions.
  pub record Backed (g : Submissions) (r : Round) : Type 0 where
    pub tallies : (h : String) → get 0 h r.tally ≡ count_hash h g
    pub callers : (c : String) → get false c r.seen ≡ has_caller c g
    pub stands : All (λ (x : String × String). get "" (hash x.1) r.canon ≡ x.1) g
    pub nonempty : All (λ (x : String × String). x.1 ≢ "") g
    pub distinct : AllDistinct g
    pub members : All (λ (x : String × String). contains cfg.authorities x.0 ≡ true) g

  -- A payload has as many supporters as its hash.
  count_hash-count_payload :
      (r : Round) (p : String) (g : Submissions)
      → get "" (hash p) r.canon ≡ p
      → All (λ (x : String × String). get "" (hash x.1) r.canon ≡ x.1) g
      → count_hash (hash p) g ≤ count_payload p g
  count_hash-count_payload r p [] s ss = omega arith
  count_hash-count_payload r p (x ∷ g) s ss = elim (Bool-cases (hash p == hash x.1)) [
    | inr other ↦ rw other (ground (arith, count_hash-count_payload r p g s ss.1))
    | inl same ↦
        let h = (string_eq.beq_iff (hash p) (hash x.1)).0 same in
        let q : x.1 ≡ p = sym ss.0 ∙ ap (λ k. get "" k r.canon) (sym h) ∙ s in
        rw (same, (string_eq.beq_iff x.1 p).1 q)
          (omega (arith, count_hash-count_payload r p g s ss.1))
  ]

  abbrev counted : String → String → Round → Round
  counted caller payload r = record r {
    seen = insert caller true r.seen;
    tally = insert (hash payload) (get 0 (hash payload) r.tally + 1) r.tally;
  }

  stands-kept :
      (r r1 : Round) (g : Submissions)
      → ((k : String) → get "" k r.canon ≢ "" → get "" k r1.canon ≡ get "" k r.canon)
      → All (λ (x : String × String). x.1 ≢ "") g
      → All (λ (x : String × String). get "" (hash x.1) r.canon ≡ x.1) g
      → All (λ (x : String × String). get "" (hash x.1) r1.canon ≡ x.1) g
  stands-kept r r1 [] k n s = tt
  stands-kept r r1 (x ∷ g) k n s =
      (k (hash x.1) (λ e. n.0 (sym s.0 ∙ e)) ∙ s.0, stands-kept r r1 g k n.1 s.1)

  counted-Backed :
      (g : Submissions) (height : ℕ) (caller payload : String) (r r1 : Round)
      → payload ≢ ""
      → contains cfg.authorities caller ≡ true
      → get false caller r1.seen ≡ false
      → Noted (hash payload) payload r r1
      → Backed g r
      → Backed ((caller, payload) ∷ g) (counted caller payload (note_start height r1))
  unfolding note_start
  counted-Backed g height caller payload r r1 full member unseen n b = record {
    tallies = λ h.
        rw (get-insert, n.tally, b.tallies (hash payload), b.tallies h)
          (elim (Bool-cases (h == hash payload)) [
            | inl same ↦
                rw same
                  (ap (λ k. count_hash k g + 1) (sym ((string_eq.beq_iff h (hash payload)).0 same)))
            | inr other ↦ rw other refl
          ]);
    callers = λ c. rw (get-insert, n.seen, b.callers c) refl;
    stands = (n.stands, stands-kept r r1 g n.kept b.nonempty b.stands);
    nonempty = (full, b.nonempty);
    distinct = (sym (b.callers caller) ∙ ap (get false caller) (sym n.seen) ∙ unseen, b.distinct);
    members = (member, b.members);
  }

  -- What an attestation that goes through has checked, and the count behind it.
  attest-eq-ok :
      (height : ℕ) (payload caller : String) (r : Round) (d : Round × Bool)
      → attest hash cfg height payload caller r ≡ ok d
      → (r1 : Round) × (note_payload (hash payload) payload r ≡ ok r1)
        × (contains cfg.authorities caller ≡ true)
        × (get false caller r1.seen ≡ false)
        × (count_submission hash cfg caller payload (note_start height r1) ≡ d)
  unfolding attest
  attest-eq-ok height payload caller r d e =
      let (_, a, e1) = >>=-eq-ok (require (contains cfg.authorities caller) not_authority) _ e in
      let (_, _, e2) = >>=-eq-ok (abort_if r.committed already_committed) _ e1 in
      let (_, _, e3) = >>=-eq-ok (abort_if (ltb 4096 (len payload)) payload_too_large) _ e2 in
      let (r1, n, e4) = >>=-eq-ok (note_payload (hash payload) payload r) _ e3 in
      let (_, u, e5) = >>=-eq-ok (abort_if (get false caller r1.seen) already_attested) _ e4 in
      (
        r1,
        n,
        require-eq-ok (contains cfg.authorities caller) not_authority a,
        abort_if-eq-ok (get false caller r1.seen) already_attested u,
        ok_injective e5,
      )

  -- The submissions since the round was opened, none of an empty payload and none of which
  -- committed the action.
  pub data Run : Submissions → Round → Type 0 where
    opened : Run [] new_round
    submitted :
        (g : Submissions) (r r' : Round) (height : ℕ) (caller payload : String)
        → Run g r
        → payload ≢ ""
        → attest hash cfg height payload caller r ≡ ok (r', false)
        → Run ((caller, payload) ∷ g) r'

  pub record Supported (g : Submissions) (payload : String) : Type 0 where
    pub enough : cfg.threshold ≤ℤ pos (count_payload payload g)
    pub distinct : AllDistinct g
    pub members : All (λ (x : String × String). contains cfg.authorities x.0 ≡ true) g

  count_submission-open :
      (caller payload : String) (r r' : Round)
      → count_submission hash cfg caller payload r ≡ (r', false)
      → counted caller payload r ≡ r'
  unfolding count_submission
  count_submission-open caller payload r r' e =
      elim (Bool-cases (leb_ℤ cfg.threshold (pos (get 0 (hash payload) r.tally + 1)))) [
        | inl enough ↦ absurd (true_false (ap (λ (x : Round × Bool). x.1) (rw enough at e)))
        | inr few ↦ ap (λ (x : Round × Bool). x.0) (rw few at e)
      ]
    where
      true_false : true ≡ false → ⊥
      true_false q = cc

  count_submission-committed :
      (caller payload : String) (r r' : Round)
      → count_submission hash cfg caller payload r ≡ (r', true)
      → cfg.threshold ≤ℤ pos (get 0 (hash payload) r.tally + 1)
  unfolding count_submission
  count_submission-committed caller payload r r' e =
      elim (Bool-cases (leb_ℤ cfg.threshold (pos (get 0 (hash payload) r.tally + 1)))) [
        | inl enough ↦ ground arith
        | inr few ↦ absurd (false_true (ap (λ (x : Round × Bool). x.1) (rw few at e)))
      ]
    where
      false_true : false ≡ true → ⊥
      false_true q = cc

  Run-Backed : (g : Submissions) (r : Round) → Run g r → Backed g r
  unfolding get
  Run-Backed _ _ opened = record {
    tallies = λ h. refl;
    callers = λ c. refl;
    stands = tt;
    nonempty = tt;
    distinct = tt;
    members = tt;
  }
  Run-Backed _ _ (submitted g r r' height caller payload run full e) =
      let (r1, n, member, unseen, done) = attest-eq-ok height payload caller r (r', false) e in
      subst (λ x. Backed ((caller, payload) ∷ g) x)
        (count_submission-open caller payload (note_start height r1) r' done)
        (counted-Backed g height caller payload r r1 full member unseen
          (note_payload-Noted (hash payload) payload r r1 n) (Run-Backed g r run))

  -- In a round that was opened empty and in which no submission has committed the action so far,
  -- none of the payloads being empty, a submission of a payload that is not empty commits the
  -- action only if at least as many of the submissions, this one included, carried the identical
  -- payload as the threshold asks for; all submissions are of distinct callers and each caller is
  -- one of the authorities. This holds for any hash of a payload.
  pub attest-Supported :
      (g : Submissions) (r r' : Round) (height : ℕ) (caller payload : String)
      → Run g r
      → payload ≢ ""
      → attest hash cfg height payload caller r ≡ ok (r', true)
      → Supported ((caller, payload) ∷ g) payload
  attest-Supported g r r' height caller payload run full e =
      let (r1, n, member, unseen, done) = attest-eq-ok height payload caller r (r', true) e in
      let noted = note_payload-Noted (hash payload) payload r r1 n in
      let b =
        counted-Backed g height caller payload r r1 full member unseen noted (Run-Backed g r run) in
      let reached = count_submission-committed caller payload (note_start height r1) r' done in
      let tallied = rw (get-insert, beq_refl (hash payload)) at (b.tallies (hash payload)) in
      let counts =
        count_hash-count_payload (counted caller payload (note_start height r1)) payload
          ((caller, payload) ∷ g) b.stands.0 b.stands in
      record {
        enough = omega (arith, reached, tallied, rw (beq_refl (hash payload)) at counts);
        distinct = b.distinct;
        members = b.members;
      }
