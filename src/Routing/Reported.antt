-- ===== src/Routing/Reported.antt =====
-- What one turn of `RoutedRuntime::step` of src/routing.cpp reports of its executor.
use cogg_cpp.Base.{
  ◌≡◌, refl, ap, ◌⊎◌, inl, inr, List, [], ◌∷◌, ◌++◌, map, Bool, true, false, ◌&&◌, ◌||◌,
  if◌then◌else◌, leb, find, Option, none, some, Text, codes, text_eq, text_eq→eq, error, overflow,
  conflict, Result, ok, err, Bool-cases, arith,
}
use mathlib.Core.List.{map-append}
use cogg_cpp.Store.{State, Execution, Snapshot, snapshot}
use cogg_cpp.Store.Admit.{Attempt, admit}
use cogg_cpp.Runtime.{StepResult}
use cogg_cpp.Runtime.Execute.{execute_attempt}
use cogg_cpp.Routing.{Entry, Registry, has_id, skip, session}
use cogg_cpp.Routing.Outcomes.{
  session_of, limit_of, Router, Turn, Turned, stop, go, Report, RouteResult, with_status,
  push_report, plain_report, after_failure, after_attempt,
}
use cogg_cpp.Routing.Step.{after_admission, check_head, open_session, try_entry, take_turn}

abbrev pub tried : RouteResult → List Text
tried r = map (λ x. x.executor) r.attempts

-- A result that says nothing of an executor, or one thing of this one.
abbrev Adds : Text → RouteResult → RouteResult → Type 0
Adds id result next = (tried next ≡ tried result) ⊎ (tried next ≡ tried result ++ id ∷ [])

-- A call that goes on has reported the executor once, and leaves the status; one that ends has
-- reported it at most once, and its status is another.
abbrev pub Reports : Text → RouteResult → Turned → Type 0
Reports id result (stop g s (ok next)) =
    Adds id result next × (text_eq next.status (codes "exhausted") ≡ false)
Reports id result (stop g s (err e)) = Unit
Reports id result (go g s next) =
    (tried next ≡ tried result ++ id ∷ []) × (next.status ≡ result.status)

push_report-tried :
    (r : Report) (result : RouteResult)
    → tried (push_report r result) ≡ tried result ++ r.executor ∷ []
push_report-tried r result = map-append (λ x. x.executor) result.attempts (r ∷ [])

if-Reports :
    (id : Text) (result : RouteResult) (b : Bool) (l r : Turned)
    → (b ≡ true → Reports id result l)
    → (b ≡ false → Reports id result r)
    → Reports id result (if b then l else r)
if-Reports id result true l r f h = f refl
if-Reports id result false l r f h = h refl

module _ (x : Router) (t : Turn) (original id : Text) where
  after_failure-Reports :
      (g : Registry) (s : State) (out : StepResult) (result next : RouteResult)
      → tried next ≡ tried result ++ id ∷ []
      → next.status ≡ result.status
      → Reports id result (after_failure x t id g s out next)
  unfolding after_failure text_eq
  after_failure-Reports g s out result next e k =
      if-Reports id result (text_eq out.status (codes "disposed")) _ _ (λ q. (inr e, refl))
        (λ q.
          if-Reports id result
            (text_eq out.status (codes "conflict") || text_eq out.status (codes "cancelled")) _ _
            (λ r. (inr e, ended out.status r))
            (λ r.
              if-Reports id result
                (text_eq out.status (codes "timeout") && leb x.route.timeout_ms t.elapsed_last) _ _
                (λ u. (inr e, refl)) (λ u. (e, k))))
    where
      ended :
          (status : Text)
          → (text_eq status (codes "conflict") || text_eq status (codes "cancelled")) ≡ true
          → text_eq status (codes "exhausted") ≡ false
      ended status q = elim (Bool-cases (text_eq status (codes "conflict"))) [
        | inl h ↦ ap (λ y. text_eq y (codes "exhausted")) (text_eq→eq status (codes "conflict") h)
        | inr h ↦
            ap (λ y. text_eq y (codes "exhausted"))
              (text_eq→eq status (codes "cancelled") (ground (arith, q, h)))
      ]

  after_attempt-Reports :
      (g : Registry) (a : Attempt) (result : RouteResult) (run : State × Result StepResult)
      → Reports id result (after_attempt x t id g a result run)
  unfolding after_attempt text_eq
  after_attempt-Reports g a result (s, err e) = tt
  after_attempt-Reports g a result (s, ok out) =
      if-Reports id result (text_eq out.status (codes "committed")) _ _
        (λ q.
          (inr (push_report-tried (plain_report id (some a.id) (codes "committed")) result), refl))
        (λ q.
          if-Reports id result (text_eq out.status (codes "abstained")) _ _
            (λ r. (inr (push_report-tried _ result), refl))
            (λ r.
              after_failure-Reports g s out result _
                (push_report-tried (plain_report id (some a.id) out.error_reason) result) refl))

  after_admission-Reports :
      (g : Registry) (e : Execution) (result : RouteResult) (s : State)
      (r : Result (State × Option Attempt))
      → Reports id result (after_admission x t original id g e result s r)
  unfolding after_admission text_eq
  after_admission-Reports g e result s (err (conflict m)) = (inl refl, refl)
  after_admission-Reports g e result s (err (overflow m)) =
      (push_report-tried (plain_report id none (codes "context_overflow")) result, refl)
  after_admission-Reports g e result s (err (error m)) = tt
  after_admission-Reports g e result s (ok (u, none)) = (inl refl, refl)
  after_admission-Reports g e result s (ok (u, some a)) =
      if-Reports id result (text_eq a.present.state.head original) _ _
        (λ q.
          after_attempt-Reports g a result
            (execute_attempt (session_of x t a) t.backend (some e) none (limit_of x t) u))
        (λ q. (inl refl, refl))

  check_head-Reports :
      (g : Registry) (e : Execution) (result : RouteResult) (s : State)
      → Reports id result (check_head x t original id g e result s)
  unfolding check_head text_eq
  check_head-Reports g e result s =
      if-Reports id result t.cancelled_again _ _ (λ q. (inl refl, refl))
        (λ q.
          if-Reports id result (leb x.route.timeout_ms t.elapsed_again) _ _ (λ r. (inl refl, refl))
            (λ r. at_head (snapshot (t.meanwhile s) x.subject)))
    where
      at_head :
          (o : Result Snapshot)
          → Reports id result (elim o [
            | err f ↦ stop g (t.meanwhile s) (err f)
            | ok snap ↦
                if text_eq snap.head original
                then after_admission x t original id g e result
                    (t.before_admission (t.meanwhile s))
                    (admit x.codec x.inputs_size
                      (t.before_admission (t.meanwhile s))
                      x.subject
                      e.backend
                      t.wall
                      t.policy
                      t.fits
                      (some e)
                      x.context
                      t.nonce)
                else stop g (t.meanwhile s) (ok (with_status (codes "conflict") result))
          ])
      at_head (err f) = tt
      at_head (ok snap) =
          if-Reports id result (text_eq snap.head original) _ _
            (λ u. after_admission-Reports g e result (t.before_admission (t.meanwhile s)) (
              admit x.codec x.inputs_size (t.before_admission (t.meanwhile s)) x.subject e.backend
                t.wall t.policy t.fits (some e) x.context t.nonce))
            (λ u. (inl refl, refl))

  open_session-Reports :
      (g : Registry) (result : RouteResult) (s : State)
      → Reports id result (open_session x t original id g result s)
  unfolding open_session
  open_session-Reports g result s =
      elim (session g x.subject id t.factory t.session_nonce)
        as (λ o. Reports id result (elim o [
          | err f ↦
              go g s (push_report (plain_report id none (codes "executor_unavailable")) result)
          | ok r ↦ check_head x t original id r.0 r.1 result s
        ])) [
          | err f ↦
              (push_report-tried (plain_report id none (codes "executor_unavailable")) result, refl)
          | ok r ↦ check_head-Reports r.0 r.1 result s
        ]

  try_entry-Reports :
      (g : Registry) (entry : Entry) (result : RouteResult) (s : State)
      → Reports id result (try_entry x t original id g entry result s)
  unfolding try_entry
  try_entry-Reports g entry result s =
      elim (skip x.route entry)
        as (λ o. Reports id result (elim o [
          | some why ↦ go g s (push_report (plain_report id none why) result)
          | none ↦ open_session x t original id g result s
        ])) [
          | some why ↦ (push_report-tried (plain_report id none why) result, refl)
          | none ↦ open_session-Reports g result s
        ]

  pub take_turn-Reports :
      (g : Registry) (result : RouteResult) (s : State)
      → Reports id result (take_turn x t original id g result s)
  unfolding take_turn text_eq
  take_turn-Reports g result s =
      if-Reports id result t.cancelled_first _ _ (λ q. (inl refl, refl))
        (λ q.
          if-Reports id result (leb x.route.timeout_ms t.elapsed_first) _ _ (λ r. (inl refl, refl))
            (λ r. found (find (has_id id) g.entries)))
    where
      found :
          (o : Option Entry)
          → Reports id result (elim o [
            | none ↦ stop g s (err (error "map::at"))
            | some entry ↦ try_entry x t original id g entry result s
          ])
      found none = tt
      found (some entry) = try_entry-Reports g entry result s
