-- ===== src/Routing/Step.antt =====
-- `RoutedRuntime::step` of src/routing.cpp: the executors of a route, one after the other. What the
-- clocks, the cancellation, the factory and the backend of an executor answer in its turn are
-- arguments, and so is what other connections write to the store meanwhile.
use cogg_cpp.Base.{
  ℕ, ◌-◌, List, [], ◌∷◌, ◌&&◌, Bool, false, not, ltb, leb, if◌then◌else◌, length, find, any, Option,
  none, some, Text, codes, text_eq, contains, ℤ, pos, negsuc, int64_max, error, overflow, conflict,
  Result, ok, err, require, ◌>>=◌, ◌>>◌,
}
use cogg_cpp.Proposal.{is_empty}
use cogg_cpp.Evidence.{validate_admission_context}
use cogg_cpp.Store.{State, Execution, snapshot}
use cogg_cpp.Store.Admit.{Attempt, admit}
use cogg_cpp.Store.Settle.{mark_failed}
use cogg_cpp.Runtime.Execute.{execute_attempt}
use cogg_cpp.Routing.{Entry, Registry, Route, has_id, session, skip}
use cogg_cpp.Routing.Outcomes.{
  Turn, RouteResult, Router, Turned, stop, go, with_status, push_report, plain_report,
  after_attempt, session_of, limit_of,
}

-- From the answer of `admit` on.
unfoldable pub after_admission :
    Router
    → Turn
    → Text
    → Text
    → Registry
    → Execution
    → RouteResult
    → State
    → Result (State × Option Attempt)
    → Turned
unfolding after_attempt execute_attempt
after_admission x t original id g e result s (err (conflict m)) =
    stop g s (ok (with_status (codes "conflict") result))
after_admission x t original id g e result s (err (overflow m)) =
    go g s (push_report (plain_report id none (codes "context_overflow")) result)
after_admission x t original id g e result s (err (error m)) = stop g s (err (error m))
after_admission x t original id g e result s (ok (u, none)) =
    stop g u (ok (with_status (codes "waiting") result))
after_admission x t original id g e result s (ok (u, some a)) =
    if text_eq a.present.state.head original
    then after_attempt x t id g a result
        (execute_attempt (session_of x t a) t.backend (some e) none (limit_of x t) u)
    else stop g (mark_failed a.id (codes "route head changed") u)
        (ok (with_status (codes "conflict") result))

-- The second test of the cancellation and of the time, and the head.
unfoldable pub check_head :
    Router → Turn → Text → Text → Registry → Execution → RouteResult → State → Turned
unfolding after_admission admit
check_head x t original id g e result s =
    if t.cancelled_again
    then stop g s (ok (with_status (codes "cancelled") result))
    else if leb x.route.timeout_ms t.elapsed_again
    then stop g s (ok (with_status (codes "timeout") result))
    else elim (snapshot (t.meanwhile s) x.subject) [
      | err f ↦ stop g (t.meanwhile s) (err f)
      | ok snap ↦
          if text_eq snap.head original
          then after_admission x t original id g e result (t.before_admission (t.meanwhile s)) (
              admit x.codec x.inputs_size (t.before_admission (t.meanwhile s)) x.subject e.backend
                t.wall t.policy t.fits (some e) x.context t.nonce)
          else stop g (t.meanwhile s) (ok (with_status (codes "conflict") result))
    ]

-- registry_.session: whatever it throws, the executor is unavailable.
unfoldable pub open_session : Router → Turn → Text → Text → Registry → RouteResult → State → Turned
unfolding session check_head
open_session x t original id g result s = elim (session g x.subject id t.factory t.session_nonce) [
  | err f ↦ go g s (push_report (plain_report id none (codes "executor_unavailable")) result)
  | ok r ↦ check_head x t original id r.0 r.1 result s
]

unfoldable pub try_entry :
    Router → Turn → Text → Text → Registry → Entry → RouteResult → State → Turned
unfolding skip open_session
try_entry x t original id g entry result s = elim (skip x.route entry) [
  | some why ↦ go g s (push_report (plain_report id none why) result)
  | none ↦ open_session x t original id g result s
]

-- One round of the loop.
unfoldable pub take_turn : Router → Turn → Text → Text → Registry → RouteResult → State → Turned
unfolding try_entry
take_turn x t original id g result s =
    if t.cancelled_first
    then stop g s (ok (with_status (codes "cancelled") result))
    else if leb x.route.timeout_ms t.elapsed_first
    then stop g s (ok (with_status (codes "timeout") result))
    else elim (find (has_id id) g.entries) [
      | none ↦ stop g s (err (error "map::at"))
      | some entry ↦ try_entry x t original id g entry result s
    ]

abbrev pub Routed : Type 0
Routed = Registry × State × Result RouteResult

-- What the loop does with the answer of a turn.
abbrev pub then_go : Turned → (Registry → RouteResult → State → Routed) → Routed
then_go (stop g s r) next = (g, s, r)
then_go (go g s result) next = next g result s

-- The loop over route.executors; `elapsed` is the time after it.
unfoldable pub run_route :
    Router → Text → ℕ → List (Text × Turn) → Registry → RouteResult → State → Routed
unfolding take_turn
run_route x original elapsed [] g result s = (
  g,
  s,
  ok (if leb x.route.timeout_ms elapsed then with_status (codes "timeout") result else result),
)
run_route x original elapsed ((id, t) ∷ rest) g result s =
    then_go (take_turn x t original id g result s) (run_route x original elapsed rest)

abbrev route_limits : Route → ℤ → Bool
route_limits r (negsuc now) = false
route_limits r (pos now) =
    leb now (int64_max - 3600000)
    && (ltb 0 r.timeout_ms
        && (leb r.timeout_ms 3600000
            && (ltb 0 r.attempt_timeout_ms
                && (leb r.attempt_timeout_ms r.timeout_ms
                    && (not (is_empty r.executors) && leb (length r.executors) 8)))))

-- The loop over the ids; `seen` holds those before this one.
unfoldable pub check_executors : Registry → List Text → List Text → Result (Unit {0})
check_executors g seen [] = ok tt
check_executors g seen (id ∷ rest) = do
  require (any (has_id id) g.entries && not (contains seen id))
      "unknown or duplicate route executor"
  check_executors g (id ∷ seen) rest

abbrev pub no_result : RouteResult
no_result = record {
  snapshot = none;
  status = codes "exhausted";
  attempts = [];
  maintenance_error = [];
}

-- Whether the subject has been verified by this runtime, by the list of those that have.
unfoldable pub verify_once :
    (State → Text → Result (Unit {0})) → List Text → State → Text → Result (List Text)
verify_once verify verified s subject =
    if contains verified subject
    then ok verified
    else (do verify s subject; ok (subject ∷ verified))

-- The checks before the loop: the verified subjects and the head.
unfoldable pub check_route :
    Router
    → (State → Text → Result (Unit {0}))
    → Registry
    → List Text
    → ℤ
    → State
    → Result (List Text × Text)
unfolding validate_admission_context check_executors verify_once snapshot
check_route x verify g verified now s = do
  require (route_limits x.route now) "invalid route limits"
  validate_admission_context x.codec x.inputs_size x.context
  check_executors g [] x.route.executors
  seen ← verify_once verify verified s x.subject
  snap ← snapshot s x.subject
  ok (seen, snap.head)

-- `turns` are what happens in the turns of route.executors, in their order.
unfoldable pub route_step :
    Router
    → (State → Text → Result (Unit {0}))
    → ℤ
    → ℕ
    → List (Text × Turn)
    → List Text
    → Registry
    → State
    → List Text × Routed
unfolding check_route run_route
route_step x verify now elapsed turns verified g s = elim (check_route x verify g verified now s) [
  | err e ↦ (verified, (g, s, err e))
  | ok r ↦ (r.0, run_route x r.1 elapsed turns g no_result s)
]
