-- ===== src/Runtime/Execute.antt =====
-- The settlement of an attempt by `execute_attempt` of src/kernel.cpp.
use cogg_cpp.Base.{
  ℕ, Option, none, some, [], Bool, true, leb, if◌then◌else◌, Text, codes, ℤ, pos, negsuc, Failure,
  error, overflow, conflict, Result, ok, err, ◌>>=◌,
}
use cogg_cpp.Proposal.{
  Proposal, Abstention, Outcome, proposes, abstains, validate_outcome, is_empty,
}
use cogg_cpp.Evidence.{make_emission}
use cogg_cpp.Store.{State, Codec, Execution, Emission, Snapshot}
use cogg_cpp.Store.Admit.{Attempt}
use cogg_cpp.Store.Commit.{TransitionGuard, CapacityCheck, commit}
use cogg_cpp.Store.Settle.{FailureScope, transient, occasion, abstain, mark_failed, fail}
use cogg_cpp.Runtime.{
  Backend, Clocks, Options, StepResult, Response, empty_result, respond, diagnostic,
}

-- What a run leaves, and what it returns or throws.
abbrev pub Run : Type 0
Run = State × Result StepResult

-- What the four lambdas and the handlers share: the store, the attempt and its clocks.
pub record Session : Type 0 where
  pub codec : Codec
  pub guard : Option TransitionGuard
  pub capacity : CapacityCheck
  pub attempt : Attempt
  pub clocks : Clocks
  pub options : Options

unfoldable pub finish_failure : StepResult → Text → State → Result (State × Option Snapshot) → Run
finish_failure out reason s (err e) = (s, err e)
finish_failure out reason s (ok (t, some snap)) =
    (t, ok (record out { status = codes "disposed"; error_reason = reason; snapshot = some snap }))
finish_failure out reason s (ok (t, none)) =
    (t, ok (record out { status = reason; error_reason = reason }))

-- settle_failure(reason, scope)
unfoldable pub settle_failure : Session → State → StepResult → Text → FailureScope → Run
unfolding finish_failure
settle_failure x s out reason scope =
    finish_failure out reason s
      (x.clocks.wall_at_failure >>= (λ at. fail x.codec x.capacity s x.attempt.id reason scope at))

-- What follows a settlement that did not throw.
unfoldable pub then_return : (StepResult → Result StepResult) → Run → Run
then_return f (s, ok out) = (s, f out)
then_return f (s, err e) = (s, err e)

abbrev pub raised : StepResult → Result StepResult
raised out = ok (record out { exception = true })

abbrev pub in_conflict : StepResult → Result StepResult
in_conflict out = ok (record out { status = codes "conflict"; error_reason = codes "conflict" })

-- catch (const Conflict&)
unfoldable pub handle_conflict : Session → State → StepResult → Run
unfolding then_return settle_failure
handle_conflict x s out =
    if x.options.redact_diagnostics
    then then_return in_conflict (settle_failure x s out (codes "conflict") transient)
    else (mark_failed x.attempt.id (codes "stale transition") s, in_conflict out)

-- catch (const ContextOverflow& error)
unfoldable pub handle_overflow : Session → State → StepResult → Text → Failure → Run
unfolding then_return settle_failure
handle_overflow x s out what e =
    if x.options.redact_diagnostics
    then if x.options.rethrow_commit_overflow
      then then_return (λ r. err e) (settle_failure x s out (codes "commit_rejected") transient)
      else settle_failure x s out (codes "memory_pressure") transient
    else then_return raised (settle_failure x s out what transient)

-- catch (const std::exception& error)
unfoldable pub handle_exception : Session → State → StepResult → Text → Failure → Run
unfolding then_return settle_failure
handle_exception x s out what e =
    if x.options.redact_diagnostics
    then then_return (λ r. err e) (settle_failure x s out (codes "commit_rejected") transient)
    else then_return raised (settle_failure x s out what transient)

unfoldable pub handle_failure : Session → State → StepResult → Failure → Run
unfolding handle_conflict handle_overflow handle_exception
handle_failure x s out (conflict m) = handle_conflict x s out
handle_failure x s out (overflow m) = handle_overflow x s out (codes m) (overflow m)
handle_failure x s out (error m) = handle_exception x s out (codes m) (error m)

unfoldable pub finish_abstention :
    Session → State → StepResult → Abstention → Result (State × Text) → Run
unfolding handle_failure
finish_abstention x s out a (err e) = handle_failure x s out e
finish_abstention x s out a (ok (t, receipt)) = (
  t,
  ok (record out { abstention_receipt = receipt; abstained = some a; status = codes "abstained" }),
)

abbrev pub maintenance_text : Options → Option Text → Text
maintenance_text o none = []
maintenance_text o (some what) = diagnostic o (codes "backend maintenance failed") what

unfoldable pub finish_commit :
    Session → Backend → State → StepResult → Result (State × Snapshot) → Run
unfolding handle_failure
finish_commit x b s out (err e) = handle_failure x s out e
finish_commit x b s out (ok (t, snap)) = (
  t,
  ok (record out {
    snapshot = some snap;
    status = codes "committed";
    maintenance_error = maintenance_text x.options (b.committed x.attempt.present snap);
  }),
)

-- The emission, for which the backend is asked for its telemetry where an execution is given.
abbrev pub emission_of : Session → Backend → Option Execution → Proposal → Result (Option Emission)
emission_of x b none p = ok none
emission_of x b (some e) p = b.telemetry >>= (λ telemetry. ok (
    some (
      make_emission x.attempt.id x.attempt.present.state.subject x.attempt.present.state.head
        x.attempt.present.occasion.id e p telemetry)))

-- The try block around abstain and commit.
unfoldable pub settle_outcome :
    Session → Backend → Option Execution → State → StepResult → Outcome → Run
unfolding finish_abstention finish_commit
settle_outcome x b execution s out (abstains a) =
    finish_abstention x s out a (b.telemetry >>= abstain x.codec s x.attempt.id a)
settle_outcome x b execution s out (proposes p) = finish_commit x b s out (
    emission_of x b execution p >>= (λ emission. x.clocks.wall_at_commit >>= (λ at.
      commit x.codec x.guard x.capacity s x.attempt.id p at (some (pos x.clocks.duration))
        emission)))

abbrev pub ProposalGuard : Type 0
ProposalGuard = Proposal → Option Text

abbrev pub rejection : Option ProposalGuard → Outcome → Option Text
rejection none v = none
rejection (some g) (proposes p) = g p
rejection (some g) (abstains a) = none

unfoldable pub guard_outcome :
    Option Text → Session → Backend → Option Execution → State → StepResult → Outcome → Run
unfolding settle_failure settle_outcome
guard_outcome (some rejected) x b execution s out v = settle_failure x s out rejected occasion
guard_outcome none x b execution s out v = settle_outcome x b execution s out v

-- out.outcome = outcome_json(outcome), outside the try block.
unfoldable pub check_json : Result (Unit {0}) → State → Run → Run
check_json (ok u) s run = run
check_json (err e) s run = (s, err e)

-- duration >= timeout_ms
abbrev pub is_late : ℤ → ℕ → Bool
is_late (pos t) duration = leb t duration
is_late (negsuc t) duration = true

-- From the cancellation on, given what the backend left. The duration is compared with a timeout that
-- may be negative.
unfoldable pub settle_response :
    Session → Backend → Option Execution → Option ProposalGuard → ℤ → State → Response → Run
unfolding settle_failure then_return check_json guard_outcome
settle_response x b execution guard timeout_ms s r =
    let out = empty_result x.attempt.id in
    if x.clocks.is_cancelled
    then settle_failure x s out (codes "cancelled") transient
    else if is_late timeout_ms x.clocks.duration
    then settle_failure x s out (codes "timeout") transient
    else if is_empty r.failure
    then check_json (validate_outcome r.outcome) s
        (guard_outcome (rejection guard r.outcome) x b execution s out r.outcome)
    else then_return (λ o. ok (record o { exception = r.captured }))
        (settle_failure x s out r.failure r.scope)

unfoldable pub execute_attempt :
    Session → Backend → Option Execution → Option ProposalGuard → ℤ → State → Run
unfolding settle_response
execute_attempt x b execution guard timeout_ms s =
    settle_response x b execution guard timeout_ms s (respond x.options b x.attempt timeout_ms)
