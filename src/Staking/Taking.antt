-- ===== src/Staking/Taking.antt =====
-- What the loop of `claimUnstaked` takes from the queue.
use magi_tokenomics.Common.{
  ℕ, zero, suc, ◌+◌, ◌≤◌, ◌+ℤ◌, ◌≤ℤ◌, int_laws, le_of_eq, IsNonneg, ◌≡◌, refl, sym, ◌∙◌, ap, ◌⊎◌,
  inl, inr, arith, Bool-cases, Option, none, some, Option-cases, String, string_eq, nat_eq, pair_eq,
  Map, get, insert, get-insert-cases, sum_by, sum_by-insert, ltb,
}
use magi_tokenomics.Chain.{add64}
use magi_tokenomics.Staking.State.{Ticket, ticket_owed}
use magi_tokenomics.Staking.Entrypoints.{Taking, take_matured}

abbrev pub Queue : Type 0
Queue = Map (String × ℕ) (Option Ticket)

abbrev pub ticket : Queue → String → ℕ → Option Ticket
ticket q c i = get none (c, i) q

abbrev pub AllTicketsNonneg : Queue → Type 0
AllTicketsNonneg q = (c : String) (i : ℕ) → IsNonneg (ticket_owed (ticket q c i))

-- A slot of the claimant's that stood between two heads and held a matured entry.
pub record IsMatured (q : Queue) (acct : String) (h : ℕ) (c : String) (i : ℕ) : Type 0 where
  pub entry : Ticket
  pub held : ticket q c i ≡ some entry
  pub mine : c ≡ acct
  pub ripe : entry.ready ≤ h

pub record Takes (h : ℕ) (acct : String) (k k' : Taking) : Type 0 where
  pub conserved : sum_by ticket_owed k'.queue +ℤ k'.paid ≡ sum_by ticket_owed k.queue +ℤ k.paid
  pub grows : k.paid ≤ℤ k'.paid
  pub slots :
      (c : String) (i : ℕ)
      → (ticket k'.queue c i ≡ ticket k.queue c i)
        ⊎ ((ticket k'.queue c i ≡ none) × IsMatured k.queue acct h c i)

Takes-refl : (h : ℕ) (acct : String) (k : Taking) → Takes h acct k k
Takes-refl h acct k = record { conserved = refl; grows = omega arith; slots = λ c i. inl refl }

-- One step of the loop, then the rest.
abbrev took : String → Ticket → Taking → Taking
took acct e k = record {
  queue = insert (acct, k.head) none k.queue;
  head = add64 k.head 1;
  paid = k.paid +ℤ e.owed;
  entries = k.entries + 1;
}

took-Takes :
    (h : ℕ) (acct : String) (e : Ticket) (k : Taking)
    → ticket k.queue acct k.head ≡ some e
    → e.ready ≤ h
    → AllTicketsNonneg k.queue
    → Takes h acct k (took acct e k)
took-Takes h acct e k held ripe n = record {
  conserved = omega (
    int_laws,
    le_of_eq (sum_by-insert ticket_owed none (acct, k.head) none k.queue refl),
    le_of_eq (ap ticket_owed held),
  );
  grows = omega (int_laws, n acct k.head, le_of_eq (ap ticket_owed held));
  slots = λ c i. elim (get-insert-cases none (c, i) (acct, k.head) none k.queue) [
    | inl (gone, at) ↦ inr (
      gone,
      record {
        entry = e;
        held = ap (λ (x : String × ℕ). ticket k.queue x.0 x.1) at ∙ held;
        mine = ap (λ (x : String × ℕ). x.0) at;
        ripe = ripe;
      },
    )
    | inr (same, other) ↦ inl same
  ];
}

trans_slot :
    (h : ℕ) (acct : String) (p q r : Queue) (c : String) (i : ℕ)
    → (ticket q c i ≡ ticket p c i) ⊎ ((ticket q c i ≡ none) × IsMatured p acct h c i)
    → (ticket r c i ≡ ticket q c i) ⊎ ((ticket r c i ≡ none) × IsMatured q acct h c i)
    → (ticket r c i ≡ ticket p c i) ⊎ ((ticket r c i ≡ none) × IsMatured p acct h c i)
trans_slot h acct p q r c i (inl a) (inl b) = inl (b ∙ a)
trans_slot h acct p q r c i (inr (gone, m)) (inl b) = inr (b ∙ gone, m)
trans_slot h acct p q r c i (inr (_, m)) (inr (gone, _)) = inr (gone, m)
trans_slot h acct p q r c i (inl a) (inr (gone, m)) =
    inr (gone, record { entry = m.entry; held = sym a ∙ m.held; mine = m.mine; ripe = m.ripe })

Takes-trans :
    (h : ℕ) (acct : String) (k l m : Taking)
    → Takes h acct k l
    → Takes h acct l m
    → Takes h acct k m
Takes-trans h acct k l m a b = record {
  conserved = b.conserved ∙ a.conserved;
  grows = omega (int_laws, a.grows, b.grows);
  slots = λ c i. trans_slot h acct k.queue l.queue m.queue c i (a.slots c i) (b.slots c i);
}

passed_over :
    (h : ℕ) (acct : String) (k k' : Taking)
    → Takes h acct (record k { head = add64 k.head 1 }) k'
    → Takes h acct k k'
passed_over h acct k k' t = record { conserved = t.conserved; grows = t.grows; slots = t.slots }

took-nonneg :
    (acct : String) (e : Ticket) (k : Taking)
    → AllTicketsNonneg k.queue
    → AllTicketsNonneg (took acct e k).queue
took-nonneg acct e k n c i = elim (get-insert-cases none (c, i) (acct, k.head) none k.queue) [
  | inl (gone, at) ↦ rw gone (omega arith)
  | inr (same, other) ↦ rw same (n c i)
]

pub take_matured-Takes :
    (steps h : ℕ) (acct : String) (tail : ℕ) (k : Taking)
    → AllTicketsNonneg k.queue
    → Takes h acct k (take_matured steps h acct tail k)
unfolding take_matured
take_matured-Takes zero h acct tail k n = Takes-refl h acct k
take_matured-Takes (suc steps) h acct tail k n = elim (Bool-cases (ltb k.head tail)) [
  | inr end ↦ rw (end, take_matured) (Takes-refl h acct k)
  | inl more ↦ elim (Option-cases (ticket k.queue acct k.head)) [
    | inl missing ↦
        rw (more, missing, take_matured)
          (passed_over h acct k
            (take_matured steps h acct tail (record k { head = add64 k.head 1 }))
            (take_matured-Takes steps h acct tail (record k { head = add64 k.head 1 }) n))
    | inr (e, held) ↦ elim (Bool-cases (ltb h e.ready)) [
      | inl early ↦ rw (more, held, early, take_matured) (Takes-refl h acct k)
      | inr ripe ↦
          rw (more, held, ripe, take_matured)
            (Takes-trans h acct k (took acct e k) _ (took-Takes h acct e k held (ground arith) n)
              (take_matured-Takes steps h acct tail (took acct e k) (took-nonneg acct e k n)))
    ]
  ]
]
