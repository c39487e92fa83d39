-- ===== src/SelfState/Step.antt =====
-- `SelfRuntime::step` of src/self_state.cpp. The state of the store and the cache are returned beside
-- the result, since an exception leaves what has been written before it.
use cogg_cpp.Base.{
  List, true, false, if◌then◌else◌, Option, none, some, Text, codes, text_eq, ℤ, Result, ok, err,
  ◌>>=◌,
}
use cogg_cpp.Budget.{check_time}
use cogg_cpp.Proposal.{Proposal, Outcome, proposes, abstains}
use cogg_cpp.Store
use cogg_cpp.Store.{
  Codec, Body, Input, InputKind, InputBody, observation, Execution, Snapshot, Context, Decision,
  snapshot,
}
use cogg_cpp.Store.Schedule.{schedule}
use cogg_cpp.Store.Admit.{Attempt, admit}
use cogg_cpp.Runtime.{Response, StepResult, respond}
use cogg_cpp.Runtime.Execute.{Session, execute_attempt}
use cogg_cpp.SelfState.{State, View, Grant, Documents, at_key, view_of}
use cogg_cpp.SelfState.Apply.{apply}
use cogg_cpp.SelfState.Guard.{zeros}
use cogg_cpp.SelfState.Load.{
  CachedSubject, Cache, erase, put, Host, SelfResult, result_of, check_step, load, choose_grant,
  packet_context,
}

-- What the guard of a step tries, and its answer.
unfoldable pub preview : Documents → Text → State → Grant → Proposal → Result View
unfolding apply view_of
preview d subject state g p = do next ← apply d state p g zeros; view_of d next subject zeros

abbrev pub verdict : Result View → Option Text
verdict (ok v) = none
verdict (err e) = some (codes "self_rejected")

-- The proposal that the guard let through, if the backend made one.
abbrev validated_of : Outcome → Option Proposal
validated_of (proposes p) = some p
validated_of (abstains a) = none

-- After a commit, whose head is that of the snapshot, and after a disposition.
unfoldable pub advance_committed :
    Documents → Text → State → Grant → Text → Cache → Proposal → Result Cache
unfolding apply view_of
advance_committed d subject state g head cache p = do
  next ← apply d state p g head
  view ← view_of d next subject head
  ok (put subject (record { head = head; state = next; view = view }) cache)

unfoldable pub advance_disposed : Documents → Text → State → Text → Cache → Result Cache
unfolding view_of
advance_disposed d subject state head cache = do
  view ← view_of d state subject head
  ok (put subject (record { head = head; state = state; view = view }) cache)

-- The cache after the attempt.
unfoldable pub advance :
    Documents → Text → State → Grant → Option Proposal → StepResult → Cache → Result Cache
unfolding advance_committed advance_disposed
advance d subject state g validated out cache =
    if text_eq out.status (codes "conflict") then ok (erase subject cache) else elim out.snapshot [
      | none ↦ ok cache
      | some snap ↦
          if text_eq out.status (codes "disposed")
          then advance_disposed d subject state snap.head cache
          else if text_eq out.status (codes "committed")
          then elim validated [
            | none ↦ ok cache
            | some p ↦ advance_committed d subject state g snap.head cache p
          ]
          else ok cache
    ]

abbrev pub Stepped : Type 0
Stepped = Store.State × Cache × Result SelfResult

abbrev pub finish : Store.State → Cache → SelfResult → Result Cache → Stepped
finish s cache result (err e) = (s, cache, err e)
finish s cache result (ok next) = (s, next, ok result)

abbrev filled : SelfResult → Attempt → StepResult → SelfResult
filled result a out = record result {
  status = out.status;
  attempt = a.id;
  abstained = out.abstained;
  snapshot = out.snapshot;
  maintenance_error = out.maintenance_error;
}

unfoldable pub after_attempt :
    Host
    → Text
    → CachedSubject
    → Grant
    → Response
    → Attempt
    → Cache
    → SelfResult
    → Store.State × Result StepResult
    → Stepped
unfolding advance
after_attempt h subject c g r a cache result (s, err e) = (s, cache, err e)
after_attempt h subject c g r a cache result (s, ok out) =
    finish s cache (filled result a out)
      (advance h.documents subject c.state g (validated_of r.outcome) out cache)

abbrev session_of : Host → Attempt → Session
session_of h a = record {
  codec = h.codec;
  guard = h.guard;
  capacity = h.capacity;
  attempt = a;
  clocks = h.clocks;
  options = record { redact_diagnostics = true; rethrow_commit_overflow = false };
}

unfoldable pub run_admitted :
    Host
    → Text
    → CachedSubject
    → Grant
    → ℤ
    → Cache
    → SelfResult
    → Result (Store.State × Option Attempt)
    → Store.State
    → Stepped
unfolding execute_attempt preview after_attempt respond
run_admitted h subject c g timeout cache result (err e) s = (s, cache, err e)
run_admitted h subject c g timeout cache result (ok (t, none)) s =
    (t, cache, ok (record result { status = codes "waiting" }))
run_admitted h subject c g timeout cache result (ok (t, some a)) s =
    let x = session_of h a in
    after_attempt h subject c g (respond x.options h.backend a timeout) a cache result (
      execute_attempt x h.backend h.execution
        (some (λ p. verdict (preview h.documents subject c.state g p))) timeout t)

-- From the cached or replayed subject on.
unfoldable pub step_loaded :
    Host
    → Text
    → CachedSubject
    → ℤ
    → Option Grant
    → List Input
    → ℤ
    → Cache
    → Store.State
    → Decision
    → Stepped
unfolding choose_grant admit run_admitted
step_loaded h subject c now grant inputs timeout cache s decision = elim decision.occasion [
  | none ↦ (s, cache, ok (record (result_of (codes "waiting")) { schedule = some decision }))
  | some o ↦ elim (choose_grant h c o.id grant) [
    | err e ↦ (s, cache, err e)
    | ok g ↦
        run_admitted h subject c g timeout cache
          (record (result_of (codes "waiting")) { schedule = some decision })
          (admit h.codec h.documents.inputs_size s subject h.backend_name now h.policy h.fits
            h.execution (some (packet_context h c o.id g inputs)) h.nonce)
          s
  ]
]

unfoldable pub step_checked :
    Host → Text → ℤ → Option Grant → List Input → ℤ → Cache → Store.State → Stepped
unfolding load step_loaded check_time
step_checked h subject now grant inputs timeout cache s =
    elim (load h s subject (at_key subject cache)) [
      | err e ↦ (s, cache, err e)
      | ok c ↦ elim (check_time now >>= schedule h.codec s subject) [
        | err e ↦ (s, put subject c cache, err e)
        | ok decision ↦
            step_loaded h subject c now grant inputs timeout (put subject c cache) s decision
      ]
    ]

unfoldable pub step :
    Host → Text → ℤ → Option Grant → List Input → ℤ → Cache → Store.State → Stepped
unfolding check_step step_checked
step h subject now grant inputs timeout cache s = elim (check_step h inputs timeout) [
  | err e ↦ (s, cache, err e)
  | ok u ↦
      if h.cancelled_first
      then (s, cache, ok (result_of (codes "cancelled")))
      else step_checked h subject now grant inputs timeout cache s
]
