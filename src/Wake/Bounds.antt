-- ===== src/Wake/Bounds.antt =====
-- What a wake plan grants: `wake_plan` of src/kernel.cpp.
use cogg_cpp.Base.{ℕ, ◌+◌, ◌-◌, ◌≤◌, ◌≡◌, max, min, Option, some, List, ok, arith, >>=-eq-ok}
use cogg_cpp.Budget.{Config, Budget, Admission, budget}
use cogg_cpp.Wake.{WakePlan, plan_of, wake_plan}

-- Held between the subject's minimum and maximum, as an order: never below the one, never above the
-- other, and as it was where it is neither.
abbrev pub held : Config → ℕ → ℕ
held c delay = min c.max_wake_ms (max c.min_wake_ms delay)

abbrev pub Grants : Config → ℕ → ℕ → Option ℕ → List Admission → WakePlan → Type 0
Grants c delay now through rows p =
    (granted : ℕ) × (p.granted_at ≡ some granted)
    × (p.granted_after_ms ≡ some (granted - now))
    × (granted ≡ max (now + held c delay) p.budget.eligible_at)
    × (c.min_wake_ms ≤ delay → delay ≤ c.max_wake_ms → held c delay ≡ delay)
    × (now + c.min_wake_ms ≤ granted)
    × (budget c now through rows ≡ ok p.budget)

-- When the subject's minimum is at most its maximum, the instant that a plan grants for a requested
-- delay is that delay, held between the minimum and the maximum, and put off until the budget is
-- eligible if that is later; so it never lies nearer than the minimum, and a delay that lies between
-- the two counts as it is.
pub wake_plan_granted :
    (c : Config) (delay now : ℕ) (through : Option ℕ) (rows : List Admission) {p : WakePlan}
    → c.min_wake_ms ≤ c.max_wake_ms
    → wake_plan c (some delay) now through rows ≡ ok p
    → Grants c delay now through rows p
unfolding wake_plan
wake_plan_granted c delay now through rows {p} valid e =
    let (b, eb, ep) = >>=-eq-ok (budget c now through rows) (plan_of c (some delay) now) e in
    (
      max (now + held c delay) b.eligible_at,
      granted b ep,
      after b ep,
      ground (arith, ep),
      λ low high. omega (arith, low, high),
      omega (arith, valid),
      ground (arith, eb, ep),
    )
  where
    granted :
        (b : Budget)
        → plan_of c (some delay) now b ≡ ok p
        → p.granted_at ≡ some (max (now + held c delay) b.eligible_at)
    granted b ep = ground arith

    after :
        (b : Budget)
        → plan_of c (some delay) now b ≡ ok p
        → p.granted_after_ms ≡ some (max (now + held c delay) b.eligible_at - now)
    after b ep = ground arith
