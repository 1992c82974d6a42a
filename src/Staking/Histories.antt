-- ===== src/Staking/Histories.antt =====
-- What an entry that `appendHist` or `appendCkpt` writes does to the values of a history.
use magi_tokenomics.Common.{ℕ, ◌≤◌, ◌<◌, ℤ, ◌≡◌, refl, arith, List, [], ◌∷◌, leb, if◌then◌else◌}
use magi_tokenomics.Staking.Checkpoints.{Ckpt, append_entry, value_after}
use magi_tokenomics.Staking.Search.{IsSorted}

-- No entry is later than a height.
abbrev pub AllUntil : ℕ → List Ckpt → Type 0
AllUntil h [] = Unit {0}
AllUntil h (e ∷ es) = (e.height ≤ h) × AllUntil h es

pub AllUntil-later : (h k : ℕ) (es : List Ckpt) → h ≤ k → AllUntil h es → AllUntil k es
AllUntil-later h k [] l a = tt
AllUntil-later h k (e ∷ es) l a = (omega (arith, a.0), AllUntil-later h k es l a.1)

pub append_entry-AllUntil :
    (h : ℕ) (v : ℤ) (es : List Ckpt) → AllUntil h es → AllUntil h (append_entry h v es)
unfolding append_entry
append_entry-AllUntil h v [] a = (omega arith, tt)
append_entry-AllUntil h v (e ∷ []) a = ground (arith, a.0)
append_entry-AllUntil h v (e ∷ f ∷ rest) a = (a.0, append_entry-AllUntil h v (f ∷ rest) a.1)

-- An append does not change the height of the first entry of two or more.
append_entry-IsSorted-step :
    (h : ℕ) (v : ℤ) (e f : Ckpt) (rest : List Ckpt)
    → e.height < f.height
    → AllUntil h (f ∷ rest)
    → IsSorted (append_entry h v (f ∷ rest))
    → IsSorted (e ∷ append_entry h v (f ∷ rest))
unfolding append_entry
append_entry-IsSorted-step h v e f [] l a s = ground (arith, a.0)
append_entry-IsSorted-step h v e f (g ∷ rest) l a s = (l, s)

pub append_entry-IsSorted :
    (h : ℕ) (v : ℤ) (es : List Ckpt) → IsSorted es → AllUntil h es → IsSorted (append_entry h v es)
unfolding append_entry
append_entry-IsSorted h v [] s a = tt
append_entry-IsSorted h v (e ∷ []) s a = ground (arith, a.0)
append_entry-IsSorted h v (e ∷ f ∷ rest) s a =
    append_entry-IsSorted-step h v e f rest s.0 a.1 (append_entry-IsSorted h v (f ∷ rest) s.1 a.1)

pub value_after-append_entry :
    (d : ℤ) (target h : ℕ) (v : ℤ) (es : List Ckpt)
    → AllUntil h es
    → value_after d target (append_entry h v es)
      ≡ (if leb h target then v else value_after d target es)
unfolding append_entry value_after
value_after-append_entry d target h v [] a = refl
value_after-append_entry d target h v (e ∷ []) a = ground (arith, a.0)
value_after-append_entry d target h v (e ∷ f ∷ rest) a =
    ground (arith, a.0, value_after-append_entry e.amount target h v (f ∷ rest) a.1)
