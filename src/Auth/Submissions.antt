-- ===== src/Auth/Submissions.antt =====
-- Who has submitted what in a round, and what a submission notes of its payload.
use magi_tokenomics.Common.{
  ℕ, ◌+◌, Bool, true, false, not, String, List, [], ◌∷◌, ◌≡◌, ◌≢◌, refl, ap, ◌∙◌, inl, inr, arith,
  Bool-cases, get, get-insert, get-insert-cases, string_eq, ◌==◌, if◌then◌else◌, beq_refl, ok,
  abort_if, ok_injective, >>=-eq-ok, abort_if-eq-ok, payload_mismatch, subst,
}
use magi_tokenomics.Auth.Round.{Round}
use magi_tokenomics.Auth.Policy.{note_payload}

-- Who submitted what, newest first.
abbrev pub Submissions : Type 0
Submissions = List (String × String)

abbrev pub has_caller : String → Submissions → Bool
has_caller c [] = false
has_caller c (x ∷ g) = if c == x.0 then true else has_caller c g

abbrev pub count_payload : String → Submissions → ℕ
count_payload p [] = 0
count_payload p (x ∷ g) = if x.1 == p then count_payload p g + 1 else count_payload p g

abbrev pub AllDistinct : Submissions → Type 0
AllDistinct [] = Unit {0}
AllDistinct (x ∷ g) = (has_caller x.0 g ≡ false) × AllDistinct g

-- What `note_payload` leaves for a payload that is not empty.
pub record Noted (h payload : String) (r r1 : Round) : Type 0 where
  pub seen : r1.seen ≡ r.seen
  pub tally : r1.tally ≡ r.tally
  pub stands : get "" h r1.canon ≡ payload
  pub kept : (k : String) → get "" k r.canon ≢ "" → get "" k r1.canon ≡ get "" k r.canon

pub note_payload-Noted :
    (h payload : String) (r r1 : Round) → note_payload h payload r ≡ ok r1 → Noted h payload r r1
unfolding note_payload
note_payload-Noted h payload r r1 e = elim (Bool-cases (get "" h r.canon == "")) [
  | inl empty ↦
      subst (λ x. Noted h payload r x) (ok_injective (rw empty at e))
        (record {
          seen = refl;
          tally = refl;
          stands = rw (get-insert, beq_refl h) refl;
          kept = λ k full. elim (get-insert-cases "" k h payload r.canon) [
            | inl (_, same) ↦ absurd (
                full (
                  ap (λ x. get "" x r.canon) same
                  ∙ (string_eq.beq_iff (get "" h r.canon) "").0 empty))
            | inr (q, _) ↦ q
          ];
        })
  | inr full ↦
      let (_, a, e1) =
        >>=-eq-ok (abort_if (not (get "" h r.canon == payload)) payload_mismatch) _
          (rw full at e) in
      let same = abort_if-eq-ok (not (get "" h r.canon == payload)) payload_mismatch a in
      subst (λ x. Noted h payload r x) (ok_injective e1)
        (record {
          seen = refl;
          tally = refl;
          stands = (string_eq.beq_iff (get "" h r.canon) payload).0 (ground arith);
          kept = λ k _. refl;
        })
]
