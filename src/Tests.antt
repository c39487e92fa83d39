-- ===== src/Tests.antt =====
-- Concrete inputs: a sample codec and a sample history of src/kernel.cpp.
pub mod Witnesses
pub mod Executions
pub mod Retrievals
pub mod Selves
pub mod Replays
pub mod Steps
pub mod Capacities
pub mod Budgets
use cogg_cpp.Base.{
  ◌&&◌, true, ℕ, zero, suc, ◌+◌, ◌≤◌, ◌<◌, ◌≡◌, refl, inl, Option, none, some, List, [], ◌∷◌, ◌++◌,
  length, keep, All, Text, codes, text_eq, text_lt, ltb, leb, max, ℤ, pos, Result, ok, err, error,
  conflict, arith,
}
use cogg_cpp.Budget.{
  Config, Limits, Config, Admission, Budget, limits_json, budget, check_time, add, usage_sql,
  budget_of, last_row, order_rows, insert_row, row_at,
}
use cogg_cpp.Budget.Window.{IsPaced, in_window, budget-IsPaced, eligible_used, window_quota}
use cogg_cpp.Wake.{WakePlan, wake_plan, plan_of, clamp_delay}
use cogg_cpp.Wake.Bounds.{wake_plan_granted}
use cogg_cpp.Proposal.{Proposal, validate}
use cogg_cpp.Store.{
  is_reserved, State, sleeping, Context, Codec, Body, empty_store, subject_row, attempt_row,
  occasion_row, commit_row, admissions, snapshot, update_subject, update_attempt, Snapshot,
  SubjectRow, AttemptRow, CommitBody, OccasionRow, apply_writes, payload_eq,
}
use cogg_cpp.Store.Inbox.{create, submit, enqueue, insert_genesis, insert_occasion}
use cogg_cpp.Store.Inbox.Idempotent.{submit_again, submit_reused}
use cogg_cpp.Store.Schedule.{
  schedule, event, clock, waits, due_wake, next_occasion, status_of, eligible_of,
}
use cogg_cpp.Store.Admit.{
  Present, Attempt, admit, admit_decided, reserve, select, temporal_at, unsettled, previous_plan,
  write_attempt, insert_attempt,
}
use cogg_cpp.Store.Commit.{
  CapacityCheck, commit, commit_locked, commit_time, check_origin, write_commit, memory_transition,
  consume, supersede_attempts,
}
use cogg_cpp.Memory.{memory_apply, apply_notes}
use cogg_cpp.Store.Commit.Once.{commit_once, commit-Advances}
use cogg_cpp.Evidence.{validate_admission_context, validate_execution, validate_emission}
use cogg_cpp.Store.Head.{verify_head}
use cogg_cpp.Runs.{Reachable, start, next, creates, submits, admits, commits}
use cogg_cpp.Runs.Quota.{Reachable-quota}
use cogg_cpp.Heads.Agreement.{verify_head-Reachable}

abbrev pub sample_hash : Body → Text
sample_hash (Body.genesis g) = codes "genesis" ++ g.nonce
sample_hash (Body.event e) = codes "event" ++ e.key
sample_hash (Body.attempt a) = codes "attempt" ++ a.nonce
sample_hash (Body.commit c) = codes "commit" ++ c.tick ∷ []
sample_hash (Body.abstention a) = codes "abstention" ++ a.attempt
sample_hash (Body.input i) = codes "input" ++ i.content

abbrev pub sample_codec : Codec
sample_codec = record {
  hash = sample_hash;
  note_id = λ parent index note. index ∷ parent;
  state_size = length;
  json_eq = λ a b. text_eq a (codes "1") && text_eq b (codes "1.0");
}

abbrev pub sample_limits : Limits
sample_limits = record {
  min_wake_ms = pos 100;
  max_attempts = pos 2;
  period_ms = pos 1000;
  max_wake_ms = pos 5000;
  max_occasion_failures = pos 3;
}

abbrev pub sample_config : Config
sample_config = record {
  min_wake_ms = 100;
  max_attempts = 2;
  period_ms = 1000;
  max_wake_ms = 5000;
  max_occasion_failures = 3;
}

abbrev pub alice : Text
alice = codes "alice"

abbrev pub state_of : {A : Type 0} → Result (State × A) → State
state_of (ok (s, a)) = s
state_of (err e) = empty_store

unfoldable pub created_result : Result State
created_result = create sample_codec empty_store alice sample_limits (pos 10) [] (codes "n")

unfoldable pub created_store : State
unfolding created_result create insert_genesis enqueue insert_occasion limits_json snapshot
    subject_row check_time
created_store = elim created_result [ ok s ↦ s | err e ↦ empty_store ]

pub created_lem :
    create sample_codec empty_store alice sample_limits (pos 10) [] (codes "n") ≡ ok created_store
unfolding created_store text_eq
created_lem = refl

unfoldable pub submitted_store : State
unfolding created_store submit
submitted_store =
    state_of (submit sample_codec created_store alice (codes "k") (codes "hello") (pos 20))

pub submitted_lem :
    submit sample_codec created_store alice (codes "k") (codes "hello") (pos 20)
    ≡ ok (submitted_store, codes "eventuser:k")
unfolding submitted_store text_eq
submitted_lem = refl

abbrev pub no_policy : Option (Present → Result Context)
no_policy = none

unfoldable pub admitted_result : Result (State × Option Attempt)
unfolding admit
admitted_result =
    admit sample_codec length submitted_store alice (codes "model") (pos 30) none none none none
      (codes "r")

unfoldable pub admitted_store : State
unfolding admitted_result
admitted_store = state_of admitted_result

unfoldable pub admitted : Option Attempt
unfolding admitted_result
admitted = elim admitted_result [ ok (s, a) ↦ a | err e ↦ none ]

pub admitted_lem :
    admit sample_codec length submitted_store alice
      (codes "model")
      (pos 30)
      none
      none
      none
      none
      (codes "r")
    ≡ ok (admitted_store, admitted)
unfolding admitted_store admitted validate_admission_context validate_execution snapshot
    submitted_store text_eq schedule budget admissions admit_decided reserve select temporal_at
    clock write_attempt
admitted_lem = refl

abbrev pub ready_attempt : Text
ready_attempt = codes "attemptr"

abbrev pub reply : Proposal
reply = record {
  kind = codes "speech";
  text = codes "hi";
  memory = record { key = codes "mood"; value = codes "calm" } ∷ [];
  wake_after_ms = some (pos 7);
  notes = [];
}

abbrev pub no_capacity : CapacityCheck
no_capacity = λ db snap a. ok tt

unfoldable pub committed_store : State
unfolding admitted_store commit_locked
committed_store = state_of (
    commit_locked sample_codec none no_capacity admitted_store ready_attempt reply 40 none none
      none)

unfoldable pub committed_snapshot : Snapshot
unfolding admitted_store commit_locked
committed_snapshot =
    elim (commit_locked sample_codec none no_capacity admitted_store ready_attempt reply 40 none
      none none) [
        | ok (s, a) ↦ a
        | err e ↦ record {
          subject = [];
          tick = 0;
          head = [];
          memory = [];
          wake_at = none;
          lifecycle = sleeping;
        }
      ]

pub committed_lem :
    commit_locked sample_codec none no_capacity admitted_store ready_attempt reply 40 none none none
    ≡ ok (committed_store, committed_snapshot)
unfolding committed_store committed_snapshot text_eq validate attempt_row validate_admission_context
    validate_execution snapshot submitted_store schedule budget admissions admit_decided reserve
    select temporal_at clock write_attempt check_origin validate_emission commit_time event
    subject_row apply_writes wake_plan write_commit memory_transition memory_apply occasion_row
committed_lem = refl

pub admitted_found :
    (a : AttemptRow) × (attempt_row admitted_store ready_attempt ≡ some a)
    × (is_reserved a.status ≡ true)
    × (text_eq (sample_hash (Body.attempt a.body)) ready_attempt ≡ true)
unfolding admitted_store attempt_row validate_admission_context validate_execution snapshot
    submitted_store text_eq schedule budget admissions admit_decided reserve select temporal_at
    clock write_attempt
admitted_found = (_, refl, refl, refl)

pub admitted_present :
    (p : Present) × (admitted ≡ some (record { id = ready_attempt; present = p }))
unfolding admitted_store admitted validate_admission_context validate_execution snapshot
    submitted_store text_eq schedule budget admissions admit_decided reserve select temporal_at
    clock write_attempt
admitted_present = (_, refl)
