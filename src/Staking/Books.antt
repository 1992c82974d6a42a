-- ===== src/Staking/Books.antt =====
-- The accounts' histories of the staking contract against its checkpointed total.
use magi_tokenomics.Common.{
  ℕ, ◌≤◌, ℤ, pos, ◌+ℤ◌, ◌-ℤ◌, int_laws, ◌≡◌, refl, inl, inr, arith, Bool-cases, List, [], leb,
  String, string_eq, get, get_big, insert, get-insert, sum, sum_by, sum_by-insert, sum-insert,
  le_of_eq, ok, ok_injective, >>=-eq-ok, subst, ◌==◌,
}
use magi_tokenomics.Chain.{Env}
use magi_tokenomics.Staking.Checkpoints.{Ckpt, append_entry, value_after, value_at}
use magi_tokenomics.Staking.Search.{IsSorted}
use magi_tokenomics.Staking.Histories.{
  AllUntil, AllUntil-later, append_entry-AllUntil, append_entry-IsSorted, value_after-append_entry,
}
use magi_tokenomics.Staking.State.{State, Event}
use magi_tokenomics.Staking.Credit.{hist_of, set_stake, note_drawdown}

-- One history, whose last value is the current one, as of a height.
pub record Follows (now : ℕ) (es : List Ckpt) (current : ℤ) : Type 0 where
  pub sorted : IsSorted es
  pub until : AllUntil now es
  pub latest : (h : ℕ) → now ≤ h → value_at h es ≡ current

pub record Books (now : ℕ) (s : State) : Type 0 where
  pub account : (c : String) → Follows now (hist_of s c) (get_big c s.stake)
  pub global : Follows now s.ckpts s.total_staked
  pub agree : (h : ℕ) → sum_by (value_at h) s.hist ≡ value_at h s.ckpts
  pub stakes : sum s.stake ≡ s.total_staked

pub Follows-later :
    (now h : ℕ) (es : List Ckpt) (x : ℤ) → now ≤ h → Follows now es x → Follows h es x
Follows-later now h es x l f = record {
  sorted = f.sorted;
  until = AllUntil-later now h es l f.until;
  latest = λ k m. f.latest k (omega (arith, l, m));
}

pub Follows-append_entry :
    (now : ℕ) (es : List Ckpt) (x y : ℤ) → Follows now es x → Follows now (append_entry now y es) y
Follows-append_entry now es x y f = record {
  sorted = append_entry-IsSorted now y es f.sorted f.until;
  until = append_entry-AllUntil now y es f.until;
  latest = λ h l. ground (arith, value_after-append_entry (pos 0) h now y es f.until);
}

pub Books-later : (now h : ℕ) (s : State) → now ≤ h → Books now s → Books h s
Books-later now h s l b = record {
  account = λ c. Follows-later now h (hist_of s c) (get_big c s.stake) l (b.account c);
  global = Follows-later now h s.ckpts s.total_staked l b.global;
  agree = b.agree;
  stakes = b.stakes;
}

-- An append to one account's history moves the sum of the values at a height by its change there.
sum_values-insert :
    (env : Env) (acct : String) (new total : ℤ) (s : State) (h : ℕ)
    → total ≡ s.total_staked +ℤ (new -ℤ get_big acct s.stake)
    → Books env.height s
    → sum_by (value_at h) (insert acct (append_entry env.height new (hist_of s acct)) s.hist)
      ≡ value_at h (append_entry env.height total s.ckpts)
unfolding hist_of value_after
sum_values-insert env acct new total s h t b =
    let moved =
      sum_by-insert (value_at h) [] acct (append_entry env.height new (hist_of s acct)) s.hist
        refl in
    let mine =
      value_after-append_entry (pos 0) h env.height new (hist_of s acct) (b.account acct).until in
    let all = value_after-append_entry (pos 0) h env.height total s.ckpts b.global.until in
    elim (Bool-cases (leb env.height h)) [
      | inl late ↦ grind (int_laws, b.account acct, b.global, b.agree h)
      | inr early ↦ grind int_laws
    ]

account_book :
    (env : Env) (acct : String) (new : ℤ) (s : State) (c : String)
    → Books env.height s
    → Follows env.height
        (get [] c (insert acct (append_entry env.height new (hist_of s acct)) s.hist))
        (get_big c (insert acct new s.stake))
unfolding hist_of
account_book env acct new s c b = elim (Bool-cases (c == acct)) [
  | inl same ↦
      rw (get-insert, get-insert, same)
        (Follows-append_entry env.height (hist_of s acct) (get_big acct s.stake) new
          (b.account acct))
  | inr other ↦ rw (get-insert, get-insert, other) (b.account c)
]

pub set-Books :
    (env : Env) (acct : String) (new total : ℤ) (s s' : State)
    → total ≡ s.total_staked +ℤ (new -ℤ get_big acct s.stake)
    → s'.stake ≡ insert acct new s.stake
    → s'.total_staked ≡ total
    → s'.hist ≡ insert acct (append_entry env.height new (hist_of s acct)) s.hist
    → s'.ckpts ≡ append_entry env.height total s.ckpts
    → Books env.height s
    → Books env.height s'
unfolding hist_of
set-Books env acct new total s s' t h1 h2 h3 h4 b = record {
  account = λ c. rw (h1, h3) (account_book env acct new s c b);
  global = rw (h2, h4) (Follows-append_entry env.height s.ckpts s.total_staked total b.global);
  agree = λ h. rw (h3, h4) (sum_values-insert env acct new total s h t b);
  stakes =
      rw (h1, h2, t) (omega (int_laws, le_of_eq (sum-insert acct new s.stake), le_of_eq b.stakes));
}

-- What `set_stake` leaves behind.
pub record SetStake (env : Env) (acct : String) (new total : ℤ) (s s' : State) : Type 0 where
  pub stake : s'.stake ≡ insert acct new s.stake
  pub total_staked : s'.total_staked ≡ total
  pub hist : s'.hist ≡ insert acct (append_entry env.height new (hist_of s acct)) s.hist
  pub ckpts : s'.ckpts ≡ append_entry env.height total s.ckpts
  pub queue : s'.queue ≡ s.queue
  pub us_head : s'.us_head ≡ s.us_head
  pub us_tail : s'.us_tail ≡ s.us_tail
  pub unstake_outstanding : s'.unstake_outstanding ≡ s.unstake_outstanding
  pub kind : s'.kind ≡ s.kind

pub set_stake-SetStake :
    (env : Env) (acct : String) (new total : ℤ) (s : State) (log : List Event)
    (d : State × List Event)
    → set_stake env acct new total s log ≡ ok d
    → SetStake env acct new total s d.0
unfolding set_stake
set_stake-SetStake env acct new total s log d e =
    let (dds, e1, e2) =
      >>=-eq-ok (note_drawdown acct (get_big acct s.stake) new env.height s log) _ e in
    subst (λ (a : State × List Event). SetStake env acct new total s a.0) (ok_injective e2)
      (record {
        stake = refl;
        total_staked = refl;
        hist = refl;
        ckpts = refl;
        queue = refl;
        us_head = refl;
        us_tail = refl;
        unstake_outstanding = refl;
        kind = refl;
      })

pub SetStake-Books :
    (env : Env) (acct : String) (new total : ℤ) (s s' : State)
    → total ≡ s.total_staked +ℤ (new -ℤ get_big acct s.stake)
    → SetStake env acct new total s s'
    → Books env.height s
    → Books env.height s'
SetStake-Books env acct new total s s' t r b =
    set-Books env acct new total s s' t r.stake r.total_staked r.hist r.ckpts b
