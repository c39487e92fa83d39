-- ===== src/Store/Admit.antt =====
-- Admission: `Store::admit` of src/kernel.cpp. What the caller hands in as callbacks, `fits` and the
-- projection of typed memory that a policy selects, are arguments, and so is the random nonce.
use cogg_cpp.Base.{
  ℕ, suc, ◌==◌, Option, none, some, List, [], ◌∷◌, ◌++◌, ◌&&◌, Bool, true, false, not, length, any,
  Text, codes, text_eq, ℤ, sub_ℕ, overflow, Result, ok, err, require, require_row, no_conflict,
  ◌>>=◌, ◌>>◌, if◌then◌else◌,
}
use cogg_cpp.Budget.{check_time}
use cogg_cpp.Proposal.{text_fits}
use cogg_cpp.Wake.{WakePlan}
use cogg_cpp.Store.{
  State, Codec, Body, AttemptBody, AttemptRow, OccasionKind, scheduled, Payload, due_at, Pending,
  Decision, ScheduleStatus, ready, Temporal, Execution, Input, Context, Snapshot, reserved,
  is_reserved, snapshot, commit_row, update_subject,
}
use cogg_cpp.Store.Schedule.{schedule, clock}
use cogg_cpp.Store.Inbox.{enqueue}
use cogg_cpp.Evidence.{AdmissionContext, validate_admission_context, validate_execution}

pub record Occasion : Type 0 where
  pub id : Text
  pub kind : OccasionKind
  pub payload : Payload

pub record Present : Type 0 where
  pub state : Snapshot
  pub occasion : Occasion
  pub prior_unsettled_attempt : Bool
  pub temporal : Temporal
  pub inputs : List Input
  pub context : Option Context

pub record Attempt : Type 0 where
  pub id : Text
  pub present : Present

abbrev pub is_ready : ScheduleStatus → Bool
is_ready ready = true
is_ready _ = false

abbrev option_text_eq : Option Text → Option Text → Bool
option_text_eq none none = true
option_text_eq (some a) (some b) = text_eq a b
option_text_eq _ _ = false

-- The negation of the test before `throw Conflict("stale admission context")`.
abbrev pub context_is_current : Option AdmissionContext → Snapshot → Option Pending → Bool
context_is_current none s occasion = true
context_is_current (some c) s none = false
context_is_current (some c) s (some o) = text_eq c.head s.head && option_text_eq c.occasion o.id

-- execution.is_null() || execution.at("backend") == backend
abbrev pub backend_matches : Option Execution → Text → Bool
backend_matches none backend = true
backend_matches (some e) backend = text_eq e.backend backend

-- The selected occasion, which is enqueued if it is a wake that has no row yet.
unfoldable pub select :
    Option Text → Codec → State → Snapshot → Pending → ℕ → Result (State × Occasion)
select (some id) codec s snap o observed =
    ok (s, record { id = id; kind = o.kind; payload = o.payload })
select none codec s snap o observed = do
  (t, id) ← enqueue codec s snap (codes "wake:" ++ snap.head) scheduled o.payload observed
  ok (t, record { id = id; kind = o.kind; payload = o.payload })

-- record(id).at("wake_plan"): the plan of the commit at the head, once its hash has been checked.
unfoldable pub previous_plan : Codec → State → Text → Result (Option WakePlan)
unfolding commit_row
previous_plan codec s id = do
  row ← require_row (commit_row s id) "record not found"
  require (text_eq (codec.hash row.body) id) "record hash mismatch"
  ok (elim row.body [ Body.commit b ↦ some b.plan | _ ↦ none ])

abbrev lateness : Payload → OccasionKind → ℕ → Option ℤ
lateness (due_at t) scheduled observed = some (sub_ℕ observed t)
lateness _ _ observed = none

abbrev pub inputs_of : Option AdmissionContext → List Input
inputs_of none = []
inputs_of (some c) = c.inputs

-- Rows are never deleted, so AUTOINCREMENT counts them.
abbrev pub next_seq : List AttemptRow → ℕ
next_seq rows = suc (length rows)

-- INSERT INTO attempts, whose ids are unique.
unfoldable pub insert_attempt : AttemptRow → State → Result State
insert_attempt row s = do
  require (not (any (λ a. text_eq a.id row.id) s.attempts)) "UNIQUE constraint failed"
  ok (record s { attempts = row ∷ s.attempts })

abbrev pub project : Option (Present → Result Context) → Present → Result (Option Context)
project none p = ok none
project (some f) p = do c ← f p; ok (some c)

abbrev pub check_fits : Option (Present → Bool) → Present → Result (Unit {0})
check_fits none p = ok tt
check_fits (some fits) p =
    if fits p then ok tt else err (overflow "admitted context exceeds backend capacity")

-- The runtime's clock, wake provenance and accounting for a selected occasion.
unfoldable pub temporal_at : Codec → State → Snapshot → ℕ → Decision → Occasion → Result Temporal
temporal_at codec s snap observed decision o = do
  clock_id ← clock s snap.subject
  previous ← if snap.tick == 0 then ok none else previous_plan codec s snap.head
  ok (record {
    clock = clock_id;
    coordinate = snap.tick;
    admission = decision;
    previous_wake = previous;
    wake_lateness_ms = lateness o.payload o.kind observed;
  })

-- SELECT count(*) FROM attempts WHERE subject=? AND status='reserved', compared with 0
unfoldable pub unsettled : State → Text → Bool
unsettled s subject = any (λ a. text_eq a.subject subject && is_reserved a.status) s.attempts

abbrev pub body_of : Present → Text → ℕ → ℕ → Option Execution → Text → AttemptBody
body_of p backend observed now execution nonce = record {
  nonce = nonce;
  subject = p.state.subject;
  parent = p.state.head;
  tick = p.state.tick;
  occasion = p.occasion.id;
  backend = backend;
  admitted_at = now;
  prior_unsettled = p.prior_unsettled_attempt;
  wall_observed_at = observed;
  temporal = p.temporal;
  execution = execution;
  inputs = p.inputs;
  context = p.context;
}

abbrev pub row_of : Codec → AttemptBody → ℕ → AttemptRow
row_of codec body seq = record {
  seq = seq;
  id = codec.hash (Body.attempt body);
  subject = body.subject;
  parent = body.parent;
  occasion = body.occasion;
  admitted_at = body.admitted_at;
  body = body;
  status = reserved;
  error = [];
}

-- The end of `admit`: the accounting wall and the attempt's row.
unfoldable pub write_attempt : Codec → State → AttemptBody → Result State
unfolding insert_attempt update_subject
write_attempt codec s body = insert_attempt (row_of codec body (next_seq s.attempts)) (record s {
  subjects =
      update_subject body.subject (λ r. record r { accounting_wall = body.admitted_at }) s.subjects;
})

-- From the selection of the occasion to the end of `admit`. `observed` is the host's clock; the
-- decision's `accounting_at` replaces `now`.
unfoldable pub reserve :
    Codec
    → State
    → Snapshot
    → Text
    → ℕ
    → Decision
    → Pending
    → Option (Present → Result Context)
    → Option (Present → Bool)
    → Option Execution
    → Option AdmissionContext
    → Text
    → Result (State × Attempt)
reserve codec s snap backend observed decision pending policy fits execution context nonce = do
  (t, o) ← select pending.id codec s snap pending observed
  temporal ← temporal_at codec t snap observed decision o
  let first : Present = record {
    state = snap;
    occasion = o;
    prior_unsettled_attempt = unsettled t snap.subject;
    temporal = temporal;
    inputs = inputs_of context;
    context = none;
  }
  selected ← project policy first
  let present : Present = record first { context = selected }
  check_fits fits present
  let body = body_of present backend observed decision.accounting_at execution nonce
  u ← write_attempt codec t body
  ok (u, record { id = codec.hash (Body.attempt body); present = present })

-- The test of the status: only a ready subject is reserved.
unfoldable pub admit_decided :
    Option Pending
    → Bool
    → Codec
    → State
    → Snapshot
    → Text
    → ℕ
    → Decision
    → Option (Present → Result Context)
    → Option (Present → Bool)
    → Option Execution
    → Option AdmissionContext
    → Text
    → Result (State × Option Attempt)
admit_decided (some o) true codec s snap backend observed d policy fits execution context nonce = do
  (t, a) ← reserve codec s snap backend observed d o policy fits execution context nonce
  ok (t, some a)
admit_decided _ _ codec s snap backend observed d policy fits execution context nonce = ok (s, none)

unfoldable pub admit :
    Codec
    → (List Input → ℕ)
    → State
    → Text
    → Text
    → ℤ
    → Option (Present → Result Context)
    → Option (Present → Bool)
    → Option Execution
    → Option AdmissionContext
    → Text
    → Result (State × Option Attempt)
unfolding check_time
admit codec size s subject backend now policy fits execution context nonce = do
  validate_admission_context codec size context
  validate_execution execution
  require (backend_matches execution backend) "execution backend mismatch"
  observed ← check_time now
  require (text_fits backend 200) "invalid backend"
  snap ← snapshot s subject
  decision ← schedule codec s subject observed
  no_conflict (context_is_current context snap decision.occasion) "stale admission context"
  admit_decided decision.occasion (is_ready decision.status) codec s snap backend observed decision
      policy fits execution context nonce
