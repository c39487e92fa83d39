-- ===== src/Runtime/Endings.antt =====
-- How a run of `execute_attempt` of src/kernel.cpp ends in particular cases.
use cogg_cpp.Base.{
  ℕ, ◌≡◌, refl, map, Text, Result, Option, none, some, [], true, false, codes, leb, text_eq, ℤ, pos,
  ok, arith,
}
use cogg_cpp.Budget.{check_time}
use cogg_cpp.Proposal.{
  proposes, null_proposal, validate_outcome, validate, validate_memory_notes, validate_writes,
}
use cogg_cpp.Store.{State, Body, Execution, AttemptRow, attempt_row, is_reserved, failed}
use cogg_cpp.Store.Settle.{fail, fail_reserved, fail_scoped, mark_failed}
use cogg_cpp.Runtime.{Backend, throws, respond, handle, empty_result, StepResult}
use cogg_cpp.Runtime.Execute.{
  Session, settle_failure, finish_failure, settle_outcome, settle_response, guard_outcome,
  check_json, execute_attempt, ProposalGuard, is_late,
}

pub execute_attempt-mark_failed :
    (x : Session) (b : Backend) (execution : Option Execution) (guard : Option ProposalGuard)
    (timeout_ms : ℤ) (s : State) (row : AttemptRow) (at : ℕ)
    → x.clocks.is_cancelled ≡ true
    → x.clocks.wall_at_failure ≡ ok (pos at)
    → attempt_row s x.attempt.id ≡ some row
    → is_reserved row.status ≡ true
    → text_eq (x.codec.hash (Body.attempt row.body)) x.attempt.id ≡ true
    → execute_attempt x b execution guard timeout_ms s ≡ (
      mark_failed x.attempt.id (codes "cancelled") s,
      ok (record (empty_result x.attempt.id) {
        status = codes "cancelled";
        error_reason = codes "cancelled";
      }),
    )
unfolding execute_attempt settle_response settle_failure finish_failure fail fail_reserved
    fail_scoped check_time
execute_attempt-mark_failed x b execution guard timeout_ms s row at cancelled wall found open_row
      hashed =
    rw (cancelled, wall, found, open_row, hashed)

-- The second state is the first, but for the row of the attempt, which is failed with the reason.
abbrev pub FailsOnly : Text → Text → AttemptRow → State → State → Type 0
FailsOnly attempt reason row s t =
    (t.subjects ≡ s.subjects)
    × (t.occasions ≡ s.occasions)
    × (t.commits ≡ s.commits)
    × (t.abstentions ≡ s.abstentions)
    × (t.failures ≡ s.failures)
    × (t.memory_db ≡ s.memory_db)
    × (map (λ a. a.id) t.attempts ≡ map (λ a. a.id) s.attempts)
    × (attempt_row t attempt ≡ some (record row { status = failed; error = reason }))
    × ((other : Text) → text_eq attempt other ≡ false → attempt_row t other ≡ attempt_row s other)

-- How a cancelled run ends: with the result "cancelled", and with the attempt failed for that reason.
abbrev pub Cancels : Text → AttemptRow → State → State × Result StepResult → Type 0
Cancels attempt row s (t, r) =
    (r
      ≡ ok (record (empty_result attempt) {
        status = codes "cancelled";
        error_reason = codes "cancelled";
      }))
    × FailsOnly attempt (codes "cancelled") row s t

-- When diagnostics are not redacted, a backend that throws an exception without a text, in a run that
-- is neither cancelled nor late and has no guard on proposals, is taken for one that returned the
-- null proposal: the run goes on to commit it.
pub execute_attempt_unnamed :
    (x : Session) (b : Backend) (execution : Option Execution) (timeout_ms : ℕ) (s : State)
    → x.options.redact_diagnostics ≡ false
    → b.respond_attempt x.attempt (pos timeout_ms) ≡ throws []
    → x.clocks.is_cancelled ≡ false
    → is_late (pos timeout_ms) x.clocks.duration ≡ false
    → execute_attempt x b execution none (pos timeout_ms) s
      ≡ settle_outcome x b execution s (empty_result x.attempt.id) (proposes null_proposal)
unfolding execute_attempt settle_response respond handle guard_outcome check_json validate_outcome
    validate validate_memory_notes validate_writes text_eq
execute_attempt_unnamed x b execution timeout_ms s plain thrown running early =
    rw (running, early, positive timeout_ms x.clocks.duration early, thrown, plain) refl
  where
    positive : (t d : ℕ) → leb t d ≡ false → leb t 0 ≡ false
    positive t d h = ground arith
