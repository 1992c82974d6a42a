-- ===== src/Emission/Catchup.antt =====
-- How far the planning loop of `DistributeEpoch` gets.
use magi_tokenomics.Common.{
  ℕ, zero, suc, ◌+◌, ◌≤◌, ◌<◌, ℤ, pos, ◌+ℤ◌, ◌*ℤ◌, ◌≤ℤ◌, ◌<ℤ◌, leb_ℤ, ltb, Bool, true, false, ◌≡◌,
  ◌⊎◌, inl, inr, arith, int_laws, add_one-*ℤ, le_of_eq, ap, subst, sym, ltb→lt, leb→le, Bool-cases,
  refl,
}
use magi_tokenomics.Emission.State.{EmissionCfg}
use magi_tokenomics.Emission.Schedule.{for_epoch, Plan, no_plan, plan_catch_up}

-- The schedule is flat.
pub for_epoch-flat : (c : EmissionCfg) (a b : ℕ) → for_epoch c a ≡ for_epoch c b
unfolding for_epoch
for_epoch-flat c a b = refl

-- A plan that continues `p0` from epoch `ep` with at most `room` epochs more.
pub record Continues (c : EmissionCfg) (current : ℕ) (available : ℤ) (room ep : ℕ) (p0 p : Plan)
    : Type 0 where
  pub grows : p0.plan ≤ p.plan
  pub within_room : p.plan ≤ p0.plan + room
  pub within_elapsed : (p.plan ≡ p0.plan) ⊎ (ep + p.plan ≤ current + p0.plan)
  pub drawn :
      p.total_pull +ℤ (pos p0.plan *ℤ for_epoch c 0)
      ≡ p0.total_pull +ℤ (pos p.plan *ℤ for_epoch c 0)
  pub covered : (p.plan ≡ p0.plan) ⊎ (p.total_pull ≤ℤ available)
  pub hungry :
      p.starved ≡ true
      → (available <ℤ p.total_pull +ℤ for_epoch c 0)
        × (p.plan < p0.plan + room)
        × (ep + p.plan < current + p0.plan)
  pub content : p.starved ≡ false → (p.plan ≡ p0.plan + room) ⊎ (current + p0.plan ≤ ep + p.plan)

stays :
    (c : EmissionCfg) (current : ℕ) (available : ℤ) (room ep : ℕ) (p0 : Plan) (b : Bool)
    → (b ≡ true → (available <ℤ p0.total_pull +ℤ for_epoch c 0) × (0 < room) × (ep < current))
    → (b ≡ false → (room ≡ 0) ⊎ (current ≤ ep))
    → Continues c current available room ep p0 (record p0 { starved = b })
stays c current available room ep p0 b h k = record {
  grows = omega arith;
  within_room = omega arith;
  within_elapsed = inl refl;
  drawn = refl;
  covered = inl refl;
  hungry = λ e. let f = h e in omega arith;
  content = λ e. let f = k e in omega arith;
}

goes :
    (c : EmissionCfg) (current : ℕ) (available : ℤ) (room ep : ℕ) (p0 p : Plan)
    → ep < current
    → p0.total_pull +ℤ for_epoch c 0 ≤ℤ available
    → Continues c current available room
        (ep + 1)
        (record p0 { plan = p0.plan + 1; total_pull = p0.total_pull +ℤ for_epoch c 0 })
        p
    → Continues c current available (suc room) ep p0 p
goes c current available room ep p0 p lt fits v = record {
  grows = omega (arith, v.grows);
  within_room = omega (arith, v.within_room);
  within_elapsed = omega (arith, v.within_elapsed, v.grows);
  drawn = omega (int_laws, le_of_eq (add_one-*ℤ p0.plan (for_epoch c 0)), le_of_eq v.drawn);
  covered = elim v.covered [
    | inl e ↦ inr (
        omega (
          int_laws,
          le_of_eq (add_one-*ℤ p0.plan (for_epoch c 0)),
          le_of_eq v.drawn,
          le_of_eq (ap (λ (n : ℕ). pos n *ℤ for_epoch c 0) e),
        ))
    | inr f ↦ inr f
  ];
  hungry = λ e. let f = v.hungry e in omega arith;
  content = λ e. let f = v.content e in omega arith;
}

zero_drawn : (x y e : ℤ) → x +ℤ (pos 0 *ℤ e) ≡ pos 0 +ℤ y → x ≡ y
unfolding ◌*ℤ◌
zero_drawn x y e h = grind (int_laws, le_of_eq h)

stays_done :
    (c : EmissionCfg) (current : ℕ) (available : ℤ) (room ep : ℕ) (p0 : Plan)
    → p0.starved ≡ false
    → ((room ≡ 0) ⊎ (current ≤ ep))
    → Continues c current available room ep p0 p0
stays_done c current available room ep p0 h done =
    subst (Continues c current available room ep p0) (λ i. record p0 { starved = sym h i })
      (stays c current available room ep p0 false (λ e. cc) (λ e. done))

plan-Continues :
    (c : EmissionCfg) (current : ℕ) (available : ℤ) (room ep : ℕ) (p0 : Plan)
    → p0.starved ≡ false
    → Continues c current available room ep p0 (plan_catch_up c current available room ep p0)
unfolding plan_catch_up for_epoch
plan-Continues c current available zero ep p0 h =
    stays_done c current available 0 ep p0 h (inl refl)
plan-Continues c current available (suc room) ep p0 h = elim (Bool-cases (ltb ep current)) [
  | inr e ↦ rw e (stays_done c current available (suc room) ep p0 h (inr (ground arith)))
  | inl e ↦ rw e (elim (Bool-cases (leb_ℤ (p0.total_pull +ℤ for_epoch c ep) available)) [
    | inl f ↦ rw f (
        goes c current available room ep p0 _ (ltb→lt _ _ e) (leb→le _ _ f)
          (plan-Continues c current available room (ep + 1) _ h))
    | inr f ↦ rw f (
        stays c current available (suc room) ep p0 true
          (λ t. (ground arith, omega arith, ltb→lt _ _ e)) (λ t. cc))
  ])
]

-- The plan of a poke: it stays within the catch-up limit and the elapsed epochs, asks for exactly
-- the emission of the epochs that it covers, and for no more than the pool gives. It stops only
-- because the pool cannot cover one more epoch, which it reports, or because there is none left.
pub record IsMaximal (c : EmissionCfg) (current : ℕ) (available : ℤ) (most ep : ℕ) (p : Plan)
    : Type 0 where
  pub within_limit : p.plan ≤ most
  pub within_elapsed : (p.plan ≡ 0) ⊎ (ep + p.plan ≤ current)
  pub drawn : p.total_pull ≡ pos p.plan *ℤ for_epoch c 0
  pub covered : (p.plan ≡ 0) ⊎ (p.total_pull ≤ℤ available)
  pub hungry :
      p.starved ≡ true
      → (available <ℤ p.total_pull +ℤ for_epoch c 0) × (p.plan < most) × (ep + p.plan < current)
  pub content : p.starved ≡ false → (p.plan ≡ most) ⊎ (current ≤ ep + p.plan)

-- The planning loop stays within the catch-up limit and, if it plans any epoch, within the
-- elapsed ones; it asks for exactly the planned epochs' emission and, if it plans any, for no
-- more than is available; where it reports starvation one more epoch was due and would not have
-- fitted, and where it does not, the limit or the last elapsed epoch is reached.
pub plan-IsMaximal :
    (c : EmissionCfg) (current : ℕ) (available : ℤ) (most ep : ℕ)
    → IsMaximal c current available most ep (plan_catch_up c current available most ep no_plan)
plan-IsMaximal c current available most ep =
    let v = plan-Continues c current available most ep no_plan refl in
    record {
      within_limit = omega (arith, v.within_room);
      within_elapsed = omega (arith, v.within_elapsed);
      drawn = zero_drawn _ _ (for_epoch c 0) v.drawn;
      covered = v.covered;
      hungry = λ e. let f = v.hungry e in omega arith;
      content = λ e. let f = v.content e in omega arith;
    }
