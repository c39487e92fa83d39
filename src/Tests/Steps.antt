-- ===== src/Tests/Steps.antt =====
-- The theorems on the steps of a runtime and of a route, applied to small inputs.
use cogg_cpp.Base.{
  ◌≡◌, refl, ap, ◌∙◌, none, some, List, [], ◌∷◌, true, false, Text, codes, pos, ok, err, length,
  text_eq,
}
use cogg_cpp.Store.{State}
use cogg_cpp.Store.Admit.{Attempt}
use cogg_cpp.Store.Settle.{mark_failed}
use cogg_cpp.Runtime.Execute.{execute_attempt}
use cogg_cpp.Runtime.Endings.{execute_attempt-mark_failed}
use cogg_cpp.Runtime.{StepResult, empty_result}
use cogg_cpp.Runtime.Step.{Host, Members, admission, session_of, run_admitted, attempt_once}
use cogg_cpp.Runtime.Admitted.{Leaves, attempt_once-Leaves}
use cogg_cpp.Routing.{Registry, Route}
use cogg_cpp.Routing.Outcomes.{Router, Turn, RouteResult}
use cogg_cpp.Routing.Step.{Routed, route_step, no_result}
use cogg_cpp.Routing.Turns.{ReportsOf, route_step-ReportsOf}
use cogg_cpp.Tests.{
  ready_attempt, admitted_store, admitted_lem, admitted_present, admitted_found, sample_codec,
  alice, submitted_store, no_capacity,
}
use cogg_cpp.Tests.Executions.{silent, clocks_of}

abbrev host : Host
host = record {
  codec = sample_codec;
  inputs_size = length;
  verify = λ s subject. ok tt;
  guard = none;
  capacity = no_capacity;
  backend = silent;
  backend_name = codes "model";
  policy = none;
  fits = none;
  clocks = clocks_of true;
  nonce = codes "r";
}

abbrev fresh_members : Members
fresh_members = record { verified = []; abstained = none; disposed = none; maintenance_error = [] }

abbrev the_attempt : Attempt
the_attempt = record { id = ready_attempt; present = admitted_present.0 }

abbrev cancelled_result : StepResult
cancelled_result = record (empty_result ready_attempt) {
  status = codes "cancelled";
  error_reason = codes "cancelled";
}

abbrev cancelled_store : State
cancelled_store = mark_failed ready_attempt (codes "cancelled") admitted_store

abbrev members_after : Members
members_after = record fresh_members { verified = alice ∷ [] }

admission_lem :
    admission host alice (pos 30) none submitted_store ≡ ok (admitted_store, some the_attempt)
admission_lem = admitted_lem ∙ ap (λ o. ok (admitted_store, o)) admitted_present.1

execute_lem :
    execute_attempt (session_of host true the_attempt) silent none none (pos 100) admitted_store
    ≡ (cancelled_store, ok cancelled_result)
execute_lem =
    execute_attempt-mark_failed (session_of host true the_attempt) silent none none (pos 100)
      admitted_store admitted_found.0 45 refl refl admitted_found.1 admitted_found.2
      admitted_found.3

stepped_lem :
    attempt_once host true alice (pos 30) none (pos 100) fresh_members submitted_store
    ≡ (cancelled_store, members_after, ok cancelled_result)
unfolding attempt_once run_admitted text_eq
stepped_lem =
    ap (run_admitted host true (pos 100) members_after submitted_store) admission_lem
    ∙ rw execute_lem refl

attempt_once-Leaves_example : Leaves host alice (pos 30) none submitted_store cancelled_store
attempt_once-Leaves_example =
    attempt_once-Leaves host true alice (pos 30) none (pos 100) fresh_members members_after
      submitted_store cancelled_store cancelled_result stepped_lem

abbrev one_route : Route
one_route = record {
  executors = codes "a" ∷ [];
  allow_remote = false;
  require_exact_tokens = false;
  require_checkpoint = false;
  require_cancellation = false;
  timeout_ms = 1000;
  attempt_timeout_ms = 500;
}

abbrev one_executor : Registry
one_executor = record {
  entries =
      record {
        id = codes "a";
        caps = record {
          remote = true;
          exact_tokens = false;
          checkpoint = false;
          cancellation = false;
        };
        enabled = true;
      }
      ∷ [];
  sessions = [];
  max_sessions = 4;
}

abbrev router : Router
router = record {
  codec = sample_codec;
  inputs_size = length;
  guard = none;
  capacity = no_capacity;
  route = one_route;
  context = none;
  subject = alice;
}

abbrev quiet_turn : Turn
quiet_turn = record {
  cancelled_first = false;
  elapsed_first = 0;
  factory = none;
  session_nonce = [];
  cancelled_again = false;
  elapsed_again = 0;
  meanwhile = λ s. s;
  before_admission = λ s. s;
  wall = pos 30;
  policy = none;
  fits = none;
  nonce = codes "r";
  attempt_start = 0;
  backend = silent;
  clocks = clocks_of false;
  elapsed_last = 0;
}

unfoldable routed : List Text × Routed
unfolding route_step
routed =
    route_step router (λ s subject. ok tt) (pos 30) 10 ((codes "a", quiet_turn) ∷ []) []
      one_executor submitted_store

unfoldable routed_result : RouteResult
unfolding routed
routed_result = elim routed.1.2 [ ok out ↦ out | err e ↦ no_result ]

routed_lem :
    route_step router
      (λ s subject. ok tt)
      (pos 30)
      10
      ((codes "a", quiet_turn) ∷ [])
      []
      one_executor
      submitted_store
    ≡ (routed.0, (routed.1.0, routed.1.1, ok routed_result))
unfolding routed_result text_eq submitted_store
routed_lem = refl

route_step-ReportsOf_example : ReportsOf (codes "a" ∷ []) no_result routed_result
route_step-ReportsOf_example =
    route_step-ReportsOf router (λ s subject. ok tt) (pos 30) 10 ((codes "a", quiet_turn) ∷ []) []
      routed.0 one_executor routed.1.0 submitted_store routed.1.1 routed_result refl routed_lem
