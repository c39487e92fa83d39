-- ===== src/Routing/Outcomes.antt =====
-- What `RoutedRuntime::step` of src/routing.cpp keeps of a call, and what it does with the answer of
-- an attempt.
use cogg_cpp.Base.{
  ℕ, ◌-◌, List, [], ◌∷◌, ◌++◌, ◌&&◌, ◌||◌, Bool, true, leb, if◌then◌else◌, min, Option, none, some,
  Text, codes, text_eq, ℤ, pos, negsuc, Result, ok, err,
}
use cogg_cpp.Proposal.{Abstention}
use cogg_cpp.Evidence.{AdmissionContext}
use cogg_cpp.Store.{State, Codec, Input, Context, Snapshot}
use cogg_cpp.Store.Admit.{Present, Attempt}
use cogg_cpp.Store.Commit.{TransitionGuard, CapacityCheck}
use cogg_cpp.Runtime.{Backend, Clocks, StepResult}
use cogg_cpp.Runtime.Execute.{Session}
use cogg_cpp.Routing.{Registry, Route}

-- What happens around the turn of one executor.
pub record Turn : Type 0 where
  pub cancelled_first : Bool
  pub elapsed_first : ℕ
  pub factory : Option Text
  pub session_nonce : Text
  pub cancelled_again : Bool
  pub elapsed_again : ℕ
  pub meanwhile : State → State
  pub before_admission : State → State
  pub wall : ℤ
  pub policy : Option (Present → Result Context)
  pub fits : Option (Present → Bool)
  pub nonce : Text
  pub attempt_start : ℕ
  pub backend : Backend
  pub clocks : Clocks
  pub elapsed_last : ℕ

pub record Report : Type 0 where
  pub executor : Text
  pub attempt : Option Text
  pub status : Text
  pub receipt : Text
  pub abstained : Option Abstention

pub record RouteResult : Type 0 where
  pub snapshot : Option Snapshot
  pub status : Text
  pub attempts : List Report
  pub maintenance_error : Text

-- The store and the environment of one call.
pub record Router : Type 0 where
  pub codec : Codec
  pub inputs_size : List Input → ℕ
  pub guard : Option TransitionGuard
  pub capacity : CapacityCheck
  pub route : Route
  pub context : Option AdmissionContext
  pub subject : Text

-- A turn ends the call, or the loop goes on.
pub data Turned : Type 0 where
  stop : Registry → State → Result RouteResult → Turned
  go : Registry → State → RouteResult → Turned

abbrev pub with_status : Text → RouteResult → RouteResult
with_status status out = record out { status = status }

abbrev pub push_report : Report → RouteResult → RouteResult
push_report r out = record out { attempts = out.attempts ++ r ∷ [] }

abbrev pub plain_report : Text → Option Text → Text → Report
plain_report id attempt status = record {
  executor = id;
  attempt = attempt;
  status = status;
  receipt = [];
  abstained = none;
}

-- After a settled attempt that neither committed nor abstained.
unfoldable pub after_failure :
    Router → Turn → Text → Registry → State → StepResult → RouteResult → Turned
after_failure x t id g s out result =
    if text_eq out.status (codes "disposed")
    then stop g s (ok (record result { status = codes "disposed"; snapshot = out.snapshot }))
    else if text_eq out.status (codes "conflict") || text_eq out.status (codes "cancelled")
    then stop g s (ok (with_status out.status result))
    else if text_eq out.status (codes "timeout") && leb x.route.timeout_ms t.elapsed_last
    then stop g s (ok (with_status (codes "timeout") result))
    else go g s result

unfoldable pub after_attempt :
    Router → Turn → Text → Registry → Attempt → RouteResult → State × Result StepResult → Turned
unfolding after_failure
after_attempt x t id g a result (s, err e) = stop g s (err e)
after_attempt x t id g a result (s, ok out) =
    if text_eq out.status (codes "committed")
    then stop g s (
        ok (record (push_report (plain_report id (some a.id) (codes "committed")) result) {
          status = codes "committed";
          snapshot = out.snapshot;
          maintenance_error = out.maintenance_error;
        }))
    else if text_eq out.status (codes "abstained")
    then stop g s (
        ok (
          with_status (codes "abstained") (
            push_report
              (record {
                executor = id;
                attempt = some a.id;
                status = codes "abstained";
                receipt = out.abstention_receipt;
                abstained = out.abstained;
              })
              result)))
    else after_failure x t id g s out
        (push_report (plain_report id (some a.id) out.error_reason) result)

abbrev pub session_of : Router → Turn → Attempt → Session
session_of x t a = record {
  codec = x.codec;
  guard = x.guard;
  capacity = x.capacity;
  attempt = a;
  clocks = t.clocks;
  options = record { redact_diagnostics = true; rethrow_commit_overflow = true };
}

-- std::min(route.attempt_timeout_ms, route.timeout_ms - attempt_start)
abbrev pub limit_of : Router → Turn → ℤ
limit_of x t =
    if leb t.attempt_start x.route.timeout_ms
    then pos (min x.route.attempt_timeout_ms (x.route.timeout_ms - t.attempt_start))
    else negsuc (t.attempt_start - x.route.timeout_ms - 1)
