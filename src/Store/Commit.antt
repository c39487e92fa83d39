-- ===== src/Store/Commit.antt =====
-- Commit: `Store::commit` and `Store::commit_locked` of src/kernel.cpp, with `memory_transition` of
-- src/memory.cpp. The transition guard is an argument, as is the check that the typed memory still
-- projects within the capacity that its admission promised (`memory_capacity`, which runs the
-- retrieval).
pub mod Effect
pub mod Once
use cogg_cpp.Base.{
  ℕ, zero, suc, ◌+◌, ◌≤◌, ◌==◌, max, Option, none, some, List, [], ◌∷◌, ◌++◌, ◌&&◌, ◌||◌, Bool,
  true, false, not, ltb, leb, if◌then◌else◌, length, find, any, Text, codes, text_eq, ℤ, pos_part,
  int64_max, Result, ok, require, require_row, no_conflict, ◌>>=◌, ◌>>◌,
}
use cogg_cpp.Budget.{Config, check_time, add}
use cogg_cpp.Proposal.{Proposal, MemoryNote, validate, is_empty}
use cogg_cpp.Wake.{WakePlan, wake_plan}
use cogg_cpp.Memory.{MemoryDb, check_settlements, memory_apply}
use cogg_cpp.Evidence.{validate_emission}
use cogg_cpp.Store.{
  State, Codec, Body, CommitBody, EventBody, AttemptBody, AttemptRow, AttemptStatus, SubjectRow,
  OccasionRow, CommitRow, Context, Emission, Disposition, Snapshot, Memory, reserved, committed,
  superseded, is_reserved, attempt_row, subject_row, occasion_row, snapshot_of, lifecycle_of,
  apply_writes, admissions, update_subject, update_attempt,
}
use cogg_cpp.Store.Schedule.{event}
use cogg_cpp.Store.Inbox.{max_state}

abbrev pub TransitionGuard : Type 0
TransitionGuard = Text → Snapshot → AttemptBody → Proposal → Result (Unit {0})

-- memory_capacity(db, snapshot, admission)
abbrev pub CapacityCheck : Type 0
CapacityCheck = MemoryDb → Snapshot → AttemptBody → Result (Unit {0})

abbrev pub is_null {ℓ} : {A : Type ℓ} → Option A → Bool
is_null none = true
is_null (some a) = false

-- memory_transition(p, admission): what a maintenance occasion may do.
unfoldable pub memory_transition : Proposal → Option Context → Result (Unit {0})
memory_transition p none = ok tt
memory_transition p (some c) =
    if text_eq c.strategy (codes "task_maintenance")
    then (do
      require (is_empty p.memory && is_null p.wake_after_ms)
          "task maintenance cannot change legacy memory or schedule wakes"
      check_settlements c.items p.notes)
    else ok tt

-- A disposition carries no emission and meets no transition guard.
unfoldable pub check_origin :
    Option Emission → Option Disposition → Text → AttemptBody → Proposal → Result (Unit {0})
check_origin emission none id a p = validate_emission emission id a p
check_origin emission (some d) id a p =
    require (is_null emission) "disposition cannot carry a model emission"

abbrev guarded :
    Option TransitionGuard
    → Option Disposition
    → Text
    → Snapshot
    → AttemptBody
    → Proposal
    → Result (Unit {0})
guarded none d subject s a p = ok tt
guarded (some guard) none subject s a p = guard subject s a p
guarded (some guard) (some d) subject s a p = ok tt

-- The commit's instant: never behind admission, the accounting wall, or the inference.
unfoldable pub commit_time : ℕ → ℕ → ℕ → Option ℕ → Result ℕ
commit_time now admitted_at wall none = ok (max (max now admitted_at) wall)
commit_time now admitted_at wall (some elapsed) = do
  t ← add admitted_at elapsed
  ok (max (max (max now admitted_at) wall) t)

abbrev delay_of : Option ℤ → Option ℕ
delay_of none = none
delay_of (some t) = some (pos_part t)

-- The updates of `occasions` and of `attempts` that end a commit.
unfoldable pub consume : Text → Text → List OccasionRow → List OccasionRow
consume oid commit [] = []
consume oid commit (o ∷ rest) =
    (if text_eq o.id oid && is_null o.consumed then record o { consumed = some commit } else o)
    ∷ consume oid commit rest

abbrev supersede_one : Text → Text → AttemptRow → AttemptRow
supersede_one subject parent a =
    if text_eq a.subject subject && (text_eq a.parent parent && is_reserved a.status)
    then record a { status = superseded }
    else a

unfoldable pub supersede_attempts : Text → Text → List AttemptRow → List AttemptRow
supersede_attempts subject parent [] = []
supersede_attempts subject parent (a ∷ rest) =
    supersede_one subject parent a ∷ supersede_attempts subject parent rest

-- INSERT INTO commits, whose ids and pairs (subject, tick) are unique.
abbrev pub commit_is_new : CommitBody → Text → List CommitRow → Bool
commit_is_new b id rows =
    not (any (λ c. text_eq c.id id || (text_eq c.subject b.subject && c.tick == b.tick)) rows)

-- The statements from `memory_transition` to the end of `commit_locked`, given the body.
unfoldable pub write_commit :
    Codec → CapacityCheck → State → AttemptBody → CommitBody → Result (State × Snapshot)
write_commit codec capacity s a b = do
  let id = codec.hash (Body.commit b)
  memory_transition b.proposal a.context
  memory ← memory_apply codec.note_id b.subject b.parent b.tick id b.proposal.notes s.memory_db
  require (commit_is_new b id s.commits) "UNIQUE constraint failed"
  let snap : Snapshot = record {
    subject = b.subject;
    tick = b.tick;
    head = id;
    memory = b.memory;
    wake_at = b.wake_at;
    lifecycle = lifecycle_of b.wake_at;
  }
  capacity memory snap a
  ok (
    record s {
      commits =
          record { id = id; subject = b.subject; tick = b.tick; body = Body.commit b } ∷ s.commits;
      subjects =
          update_subject b.subject
            (λ r. record r {
              tick = b.tick;
              head = id;
              memory = b.memory;
              wake = b.wake_at;
              accounting_wall = b.committed_at;
            })
            s.subjects;
      occasions = consume b.occasion id s.occasions;
      attempts =
          supersede_attempts b.subject b.parent
            (update_attempt b.attempt (λ r. record r { status = committed }) s.attempts);
      memory_db = memory;
    },
    snap,
  )

unfoldable pub commit_locked :
    Codec
    → Option TransitionGuard
    → CapacityCheck
    → State
    → Text
    → Proposal
    → ℕ
    → Option ℕ
    → Option Emission
    → Option Disposition
    → Result (State × Snapshot)
commit_locked codec guard capacity s attempt proposal now elapsed emission disposition = do
  validate proposal
  row ← require_row (attempt_row s attempt) "attempt missing"
  no_conflict (is_reserved row.status) "attempt already settled"
  let a = row.body
  require (text_eq (codec.hash (Body.attempt a)) attempt) "attempt hash mismatch"
  check_origin emission disposition attempt a proposal
  r ← require_row (subject_row s a.subject) "subject not found"
  no_conflict (text_eq r.head a.parent && r.tick == a.tick) "stale subject head"
  e ← event codec s a.occasion
  require (text_eq e.subject a.subject) "foreign occasion"
  o ← require_row (occasion_row s a.occasion) "occasion missing"
  no_conflict (is_null o.consumed) "occasion already consumed"
  guarded guard disposition a.subject (snapshot_of r) a proposal
  require (ltb r.tick int64_max) "tick exhausted"
  at ← commit_time now a.admitted_at r.accounting_wall elapsed
  let memory = apply_writes proposal.memory r.memory
  require (leb (codec.state_size memory) max_state) "state exceeds phase-0 limit"
  plan ←
      wake_plan r.limits (delay_of proposal.wake_after_ms) at none (admissions a.subject s.attempts)
  write_commit codec capacity s a (record {
    subject = a.subject;
    tick = suc r.tick;
    parent = r.head;
    occasion = a.occasion;
    attempt = attempt;
    proposal = proposal;
    memory = memory;
    wake_at = plan.granted_at;
    committed_at = at;
    wall_observed_at = now;
    plan = plan;
    inference_elapsed_ms = elapsed;
    emission = emission;
    disposition = disposition;
  })

abbrev pub check_elapsed : Option ℤ → Result (Option ℕ)
check_elapsed none = ok none
check_elapsed (some t) = do n ← check_time t; ok (some n)

-- The fault hooks, which only tests pass, are left out.
unfoldable pub commit :
    Codec
    → Option TransitionGuard
    → CapacityCheck
    → State
    → Text
    → Proposal
    → ℤ
    → Option ℤ
    → Option Emission
    → Result (State × Snapshot)
unfolding check_time
commit codec guard capacity s attempt proposal now elapsed emission = do
  duration ← check_elapsed elapsed
  at ← check_time now
  commit_locked codec guard capacity s attempt proposal at duration emission none
