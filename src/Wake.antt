-- ===== src/Wake.antt =====
-- The wake policy: `Store::Impl::wake_plan` of src/kernel.cpp.
pub mod Bounds
use cogg_cpp.Base.{
  ℕ, ◌+◌, ◌-◌, ◌≤◌, ◌≡◌, Option, none, some, List, [], ◌∷◌, ◌++◌, ltb, leb, if◌then◌else◌, ℤ,
  pos_part, Result, ok, ◌>>=◌,
}
use cogg_cpp.Budget.{Config, Budget, Admission, budget, add}

-- The texts of `reasons`.
pub data Reason : Type 0 where
  minimum_interval maximum_interval attempt_budget waiting_external : Reason

pub record WakePlan : Type 0 where
  pub decided_at : ℕ
  pub requested_after_ms : Option ℕ
  pub requested_at : Option ℕ
  pub granted_at : Option ℕ
  pub granted_after_ms : Option ℕ
  pub reasons : List Reason
  pub budget : Budget

-- The delay after the minimum and the maximum of the subject.
abbrev pub clamp_delay : Config → ℕ → ℕ
clamp_delay c delay =
    let raised = if ltb delay c.min_wake_ms then c.min_wake_ms else delay in
    if ltb c.max_wake_ms raised then c.max_wake_ms else raised

abbrev clamp_reasons : Config → ℕ → List Reason
clamp_reasons c delay =
    let raised = if ltb delay c.min_wake_ms then c.min_wake_ms else delay in
    (if ltb delay c.min_wake_ms then minimum_interval ∷ [] else [])
    ++ (if ltb c.max_wake_ms raised then maximum_interval ∷ [] else [])

-- `wake` is the proposal's delay, which `validate` has found to be at least 0.
unfoldable pub plan_of : Config → Option ℕ → ℕ → Budget → Result WakePlan
unfolding add
plan_of c none now b = ok (record {
  decided_at = now;
  requested_after_ms = none;
  requested_at = none;
  granted_at = none;
  granted_after_ms = none;
  reasons = waiting_external ∷ [];
  budget = b;
})
plan_of c (some delay) now b = do
  requested ← add now delay
  clamped ← add now (clamp_delay c delay)
  let granted = if ltb clamped b.eligible_at then b.eligible_at else clamped
  ok (record {
    decided_at = now;
    requested_after_ms = some delay;
    requested_at = some requested;
    granted_at = some granted;
    granted_after_ms = some (granted - now);
    reasons =
        clamp_reasons c delay ++ (if ltb clamped b.eligible_at then attempt_budget ∷ [] else []);
    budget = b;
  })

unfoldable pub wake_plan : Config → Option ℕ → ℕ → Option ℕ → List Admission → Result WakePlan
unfolding plan_of
wake_plan c wake now through rows = do b ← budget c now through rows; plan_of c wake now b
