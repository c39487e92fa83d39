-- ===== src/Runtime/Always.antt =====
-- Every way through `execute_attempt` of src/kernel.cpp.
use cogg_cpp.Base.{
  ◌≡◌, refl, subst, ap, Option, none, some, Bool, true, false, if◌then◌else◌, Text, codes, ℤ,
  Failure, error, overflow, conflict, Result, ok, err, >>=-eq-ok,
}
use cogg_cpp.Budget.{check_time}
use cogg_cpp.Proposal.{Abstention, Outcome, proposes, abstains, validate_outcome, is_empty}
use cogg_cpp.Store.{State, Execution, Snapshot, AttemptRow, attempt_row}
use cogg_cpp.Store.Commit.{commit}
use cogg_cpp.Store.Settle.{abstain, FailureScope, transient, occasion}
use cogg_cpp.Runtime.{respond, Backend, StepResult, Response, empty_result}
use cogg_cpp.Runtime.Execute.{
  Run, Session, finish_failure, settle_failure, then_return, handle_conflict, handle_overflow,
  handle_exception, handle_failure, finish_abstention, finish_commit, settle_outcome, guard_outcome,
  check_json, settle_response, rejection, in_conflict, raised, emission_of, execute_attempt,
  ProposalGuard, is_late,
}
use cogg_cpp.Runtime.Settled.{
  IsSettled, fail-IsSettled, abstain-IsSettled, commit_locked-IsSettled, mark_failed-IsSettled,
}

-- A run that returns leaves the attempt settled.
abbrev pub Settles : Text → Run → Type 0
Settles id run = (out : StepResult) → run.1 ≡ ok out → IsSettled run.0 id

module _ (x : Session) where
  finish_failure-Settles :
      (out : StepResult) (reason : Text) (s : State) (r : Result (State × Option Snapshot))
      → ((t : State) (snap : Option Snapshot) → r ≡ ok (t, snap) → IsSettled t x.attempt.id)
      → Settles x.attempt.id (finish_failure out reason s r)
  unfolding finish_failure
  finish_failure-Settles out reason s (err e) h o q = cc
  finish_failure-Settles out reason s (ok (t, some snap)) h o q = h t (some snap) refl
  finish_failure-Settles out reason s (ok (t, none)) h o q = h t none refl

  settle_failure-Settles :
      (s : State) (out : StepResult) (reason : Text) (scope : FailureScope)
      → Settles x.attempt.id (settle_failure x s out reason scope)
  unfolding settle_failure
  settle_failure-Settles s out reason scope = finish_failure-Settles out reason s _ (λ t snap q.
      let (at, w, e) = >>=-eq-ok x.clocks.wall_at_failure _ q in
      fail-IsSettled x.codec x.capacity s t x.attempt.id reason scope at snap e)

  then_return-Settles :
      (f : StepResult → Result StepResult) (run : Run)
      → Settles x.attempt.id run
      → Settles x.attempt.id (then_return f run)
  unfolding then_return
  then_return-Settles f (s, ok o) h out q = h o refl
  then_return-Settles f (s, err e) h out q = cc

  if-Settles :
      (b : Bool) (m n : Run)
      → Settles x.attempt.id m
      → Settles x.attempt.id n
      → Settles x.attempt.id (if b then m else n)
  if-Settles true m n h k = h
  if-Settles false m n h k = k

  handle_failure-Settles :
      (s : State) (out : StepResult) (a : AttemptRow) (e : Failure)
      → attempt_row s x.attempt.id ≡ some a
      → Settles x.attempt.id (handle_failure x s out e)
  unfolding handle_failure handle_conflict handle_overflow handle_exception
  handle_failure-Settles s out a (conflict m) found =
      if-Settles x.options.redact_diagnostics _ _
        (then_return-Settles in_conflict _
          (settle_failure-Settles s out (codes "conflict") transient))
        (λ o q. mark_failed-IsSettled s x.attempt.id (codes "stale transition") a found)
  handle_failure-Settles s out a (overflow m) found =
      if-Settles x.options.redact_diagnostics _ _
        (if-Settles x.options.rethrow_commit_overflow _ _
          (then_return-Settles (λ r. err (overflow m)) _
            (settle_failure-Settles s out (codes "commit_rejected") transient))
          (settle_failure-Settles s out (codes "memory_pressure") transient))
        (then_return-Settles raised _ (settle_failure-Settles s out (codes m) transient))
  handle_failure-Settles s out a (error m) found =
      if-Settles x.options.redact_diagnostics _ _
        (then_return-Settles (λ r. err (error m)) _
          (settle_failure-Settles s out (codes "commit_rejected") transient))
        (then_return-Settles raised _ (settle_failure-Settles s out (codes m) transient))

  finish_abstention-Settles :
      (s : State) (out : StepResult) (a : AttemptRow) (v : Abstention) (r : Result (State × Text))
      → attempt_row s x.attempt.id ≡ some a
      → ((t : State) (receipt : Text) → r ≡ ok (t, receipt) → IsSettled t x.attempt.id)
      → Settles x.attempt.id (finish_abstention x s out v r)
  unfolding finish_abstention
  finish_abstention-Settles s out a v (ok (t, receipt)) found h o q = h t receipt refl
  finish_abstention-Settles s out a v (err e) found h o q =
      handle_failure-Settles s out a e found o q

  finish_commit-Settles :
      (b : Backend) (s : State) (out : StepResult) (a : AttemptRow) (r : Result (State × Snapshot))
      → attempt_row s x.attempt.id ≡ some a
      → ((t : State) (snap : Snapshot) → r ≡ ok (t, snap) → IsSettled t x.attempt.id)
      → Settles x.attempt.id (finish_commit x b s out r)
  unfolding finish_commit
  finish_commit-Settles b s out a (ok (t, snap)) found h o q = h t snap refl
  finish_commit-Settles b s out a (err e) found h o q = handle_failure-Settles s out a e found o q

  settle_outcome-Settles :
      (b : Backend) (execution : Option Execution) (s : State) (out : StepResult) (v : Outcome)
      (a : AttemptRow)
      → attempt_row s x.attempt.id ≡ some a
      → Settles x.attempt.id (settle_outcome x b execution s out v)
  unfolding settle_outcome commit
  settle_outcome-Settles b execution s out (abstains v) a found =
      finish_abstention-Settles s out a v _ found (λ t receipt q.
        let (telemetry, told, e) = >>=-eq-ok b.telemetry (abstain x.codec s x.attempt.id v) q in
        abstain-IsSettled x.codec s t x.attempt.id v telemetry receipt e)
  settle_outcome-Settles b execution s out (proposes p) a found =
      finish_commit-Settles b s out a _ found (λ t snap q.
        let (emission, made, e0) = >>=-eq-ok (emission_of x b execution p) _ q in
        let (at, w, e) = >>=-eq-ok x.clocks.wall_at_commit _ e0 in
        let (now, n, e1) = >>=-eq-ok (check_time at) _ e in
        commit_locked-IsSettled x.codec x.guard x.capacity s t x.attempt.id p now
          (some x.clocks.duration) emission none snap e1)

  guard_outcome-Settles :
      (g : Option Text) (b : Backend) (execution : Option Execution) (s : State) (out : StepResult)
      (v : Outcome) (a : AttemptRow)
      → attempt_row s x.attempt.id ≡ some a
      → Settles x.attempt.id (guard_outcome g x b execution s out v)
  unfolding guard_outcome
  guard_outcome-Settles (some rejected) b execution s out v a found =
      settle_failure-Settles s out rejected occasion
  guard_outcome-Settles none b execution s out v a found =
      settle_outcome-Settles b execution s out v a found

  check_json-Settles :
      (r : Result (Unit {0})) (s : State) (run : Run)
      → Settles x.attempt.id run
      → Settles x.attempt.id (check_json r s run)
  unfolding check_json
  check_json-Settles (ok u) s run h o q = h o q
  check_json-Settles (err e) s run h o q = cc

-- Whatever the backend does, returning, failing in any way or running late, and whatever the clocks
-- say, a run that returns a result, on an attempt that the store has, leaves that attempt settled:
-- no longer reserved.
pub execute_attempt-IsSettled :
    (x : Session) (b : Backend) (execution : Option Execution) (guard : Option ProposalGuard)
    (timeout_ms : ℤ) (s t : State) (a : AttemptRow) (out : StepResult)
    → attempt_row s x.attempt.id ≡ some a
    → execute_attempt x b execution guard timeout_ms s ≡ (t, ok out)
    → IsSettled t x.attempt.id
unfolding execute_attempt settle_response
execute_attempt-IsSettled x b execution guard timeout_ms s t a out found e =
    let r : Response = respond x.options b x.attempt timeout_ms in
    let start = empty_result x.attempt.id in
    let all : Settles x.attempt.id (execute_attempt x b execution guard timeout_ms s) =
      if-Settles x x.clocks.is_cancelled _ _
        (settle_failure-Settles x s start (codes "cancelled") transient)
        (if-Settles x (is_late timeout_ms x.clocks.duration) _ _
          (settle_failure-Settles x s start (codes "timeout") transient)
          (if-Settles x (is_empty r.failure) _ _
            (check_json-Settles x (validate_outcome r.outcome) s _ (
              guard_outcome-Settles x (rejection guard r.outcome) b execution s start r.outcome a
                found))
            (then_return-Settles x (λ o. ok (record o { exception = r.captured })) _
              (settle_failure-Settles x s start r.failure r.scope)))) in
    subst (λ y. IsSettled y x.attempt.id) (ap (λ (run : Run). run.0) e)
      (all out (ap (λ (run : Run). run.1) e))
