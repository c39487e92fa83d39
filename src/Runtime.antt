-- ===== src/Runtime.antt =====
-- One attempt from the call of a backend to its settlement: `execute_attempt` of src/kernel.cpp. The
-- backend, the clocks and the cancellation are arguments. The state is returned beside the result,
-- since an exception that is thrown again leaves what has been settled before it.
pub mod Execute
pub mod Settled
pub mod Always
pub mod Endings
pub mod Step
pub mod Admitted
use cogg_cpp.Base.{
  ℕ, ◌≤◌, Option, none, some, List, [], Bool, true, false, leb, if◌then◌else◌, Text, codes, ℤ, pos,
  negsuc, Failure, error, overflow, conflict, Result, ok, err, ◌>>=◌, ◌>>◌,
}
use cogg_cpp.Proposal.{
  Proposal, Abstention, Outcome, proposes, null_proposal, validate_outcome, is_empty,
}
use cogg_cpp.Evidence.{make_emission}
use cogg_cpp.Store.{State, Codec, Execution, Emission, Snapshot}
use cogg_cpp.Store.Admit.{Attempt, Present}
use cogg_cpp.Store.Commit.{TransitionGuard, CapacityCheck, commit}
use cogg_cpp.Store.Settle.{
  FailureScope, transient, occasion, FailureKind, backend, transport, timeout, invalid_output,
  credentials, failure_scope, failure_reason, abstain, mark_failed, fail,
}

-- What `respond_attempt` does: it returns an outcome or throws, each text being what().
pub data Reply : Type 0 where
  returns : Outcome → Reply
  fails : FailureKind → Text → Reply
  overflows : Text → Reply
  throws : Text → Reply
  throws_unknown : Reply

-- `telemetry` is what a call of it returns after the reply, or what it throws; `committed` is the
-- maintenance after a commit: nothing, or the what() of the exception it throws.
pub record Backend : Type 0 where
  pub respond_attempt : Attempt → ℤ → Reply
  pub telemetry : Result Text
  pub committed : Present → Snapshot → Option Text

-- What the clocks say and the cancellation answers in one run; a wall that cannot be added is an
-- error.
pub record Clocks : Type 0 where
  pub duration : ℕ
  pub is_cancelled : Bool
  pub wall_at_commit : Result ℤ
  pub wall_at_failure : Result ℤ

pub record Options : Type 0 where
  pub redact_diagnostics : Bool
  pub rethrow_commit_overflow : Bool

pub record StepResult : Type 0 where
  pub status : Text
  pub snapshot : Option Snapshot
  pub abstained : Option Abstention
  pub abstention_receipt : Text
  pub attempt_id : Text
  pub error_reason : Text
  pub maintenance_error : Text
  pub exception : Bool

abbrev pub empty_result : Text → StepResult
empty_result id = record {
  status = codes "waiting";
  snapshot = none;
  abstained = none;
  abstention_receipt = [];
  attempt_id = id;
  error_reason = [];
  maintenance_error = [];
  exception = false;
}

-- The texts of a caught failure, and the outcome, which is the default one when nothing returned.
pub record Response : Type 0 where
  pub outcome : Outcome
  pub failure : Text
  pub scope : FailureScope
  pub captured : Bool

abbrev pub caught : Text → FailureScope → Response
caught failure scope = record {
  outcome = proposes null_proposal;
  failure = failure;
  scope = scope;
  captured = true;
}

abbrev pub diagnostic : Options → Text → Text → Text
diagnostic o redacted what = if o.redact_diagnostics then redacted else what

abbrev not_positive : ℤ → Bool
not_positive (pos n) = leb n 0
not_positive (negsuc n) = true

-- validate_backend_outcome, whose failure the handler of BackendFailure catches. The outcome has been
-- assigned by then.
unfoldable pub check_outcome : Options → Outcome → Result (Unit {0}) → Response
check_outcome o v (ok u) = record { outcome = v; failure = []; scope = transient; captured = false }
check_outcome o v (err e) = record {
  outcome = v;
  failure = diagnostic o (failure_reason invalid_output) (codes "invalid backend outcome");
  scope = failure_scope invalid_output;
  captured = true;
}

unfoldable pub handle : Options → Reply → Response
unfolding check_outcome
handle o (returns v) = check_outcome o v (validate_outcome v)
handle o (fails kind what) = caught (diagnostic o (failure_reason kind) what) (failure_scope kind)
handle o (overflows what) = caught (diagnostic o (codes "memory_pressure") what) transient
handle o (throws what) = caught (diagnostic o (codes "backend_failed") what) transient
handle o throws_unknown =
    caught (diagnostic o (codes "backend_failed") (codes "backend failed")) transient

unfoldable pub respond : Options → Backend → Attempt → ℤ → Response
unfolding handle
respond o b a timeout_ms =
    if not_positive timeout_ms
    then handle o (fails timeout (codes "timeout"))
    else handle o (b.respond_attempt a timeout_ms)
