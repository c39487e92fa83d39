-- ===== src/Tests/Executions.antt =====
-- The theorems on runs, routes, cache files and displayed text, applied to small inputs.
use cogg_cpp.Base.{
  ◌≡◌, ◌≢◌, refl, none, some, [], ◌∷◌, Bool, true, false, Text, codes, pos, ok, length, take, drop,
  text_eq, arith,
}
use cogg_cpp.Proposal.{proposes, null_proposal}
use cogg_cpp.Store.{Capabilities, Execution}
use cogg_cpp.Store.Settle.{mark_failed}
use cogg_cpp.Runtime.{Backend, Clocks, throws, empty_result}
use cogg_cpp.Runtime.Execute.{Session, execute_attempt, settle_outcome}
use cogg_cpp.Runtime.Settled.{IsSettled}
use cogg_cpp.Runtime.Always.{execute_attempt-IsSettled}
use cogg_cpp.Runtime.Endings.{execute_attempt-mark_failed, execute_attempt_unnamed}
use cogg_cpp.Checkpoint.{Formats, Checkpoint, write_checkpoint, read_checkpoint, put_bytes}
use cogg_cpp.Checkpoint.Bytes.{length-put_bytes}
use cogg_cpp.Checkpoint.Roundtrip.{read_checkpoint-write_checkpoint}
use cogg_cpp.Checkpoint.Truncated.{read_checkpoint-take}
use cogg_cpp.Display.{display_text, excerpt}
use cogg_cpp.Display.Safe.{is_safe, display_text_safe, IsExcerpt, excerpt-IsExcerpt}
use cogg_cpp.Routing.{Entry, Registry, Route, session, skip}
use cogg_cpp.Routing.Sessions.{IsKept, session-IsKept, is_none, is_served, skip-is_none}
use cogg_cpp.Evidence.{validate_execution}
use cogg_cpp.Tests.{
  sample_codec, ready_attempt, no_capacity, admitted_store, admitted_found, admitted_present,
}

abbrev pub silent : Backend
silent = record {
  respond_attempt = λ a t. throws [];
  telemetry = ok (codes "{}");
  committed = λ p s. none;
}

abbrev pub clocks_of : Bool → Clocks
clocks_of b = record {
  duration = 5;
  is_cancelled = b;
  wall_at_commit = ok (pos 40);
  wall_at_failure = ok (pos 45);
}

abbrev run_of : Bool → Session
run_of b = record {
  codec = sample_codec;
  guard = none;
  capacity = no_capacity;
  attempt = record { id = ready_attempt; present = admitted_present.0 };
  clocks = clocks_of b;
  options = record { redact_diagnostics = false; rethrow_commit_overflow = false };
}

cancelled_lem : execute_attempt (run_of true) silent none none (pos 100) admitted_store ≡ (
  mark_failed ready_attempt (codes "cancelled") admitted_store,
  ok (record (empty_result ready_attempt) {
    status = codes "cancelled";
    error_reason = codes "cancelled";
  }),
)
cancelled_lem =
    execute_attempt-mark_failed (run_of true) silent none none (pos 100) admitted_store
      admitted_found.0 45 refl refl admitted_found.1 admitted_found.2 admitted_found.3

execute_attempt-IsSettled_example :
    IsSettled (mark_failed ready_attempt (codes "cancelled") admitted_store) ready_attempt
execute_attempt-IsSettled_example =
    execute_attempt-IsSettled (run_of true) silent none none (pos 100) admitted_store
      (mark_failed ready_attempt (codes "cancelled") admitted_store) admitted_found.0
      (record (empty_result ready_attempt) {
        status = codes "cancelled";
        error_reason = codes "cancelled";
      })
      admitted_found.1 cancelled_lem

execute_attempt_unnamed_example :
    execute_attempt (run_of false) silent none none (pos 100) admitted_store
    ≡ settle_outcome
        (run_of false)
        silent
        none
        admitted_store
        (empty_result ready_attempt)
        (proposes null_proposal)
execute_attempt_unnamed_example =
    execute_attempt_unnamed (run_of false) silent none 100 admitted_store refl refl refl refl

abbrev plain_formats : Formats Text
plain_formats = record {
  digest = λ x. put_bytes 32 (length x);
  dump = λ x. 123 ∷ x;
  parse = λ x. some (drop 1 x);
}

abbrev small_checkpoint : Checkpoint Text
small_checkpoint = record { metadata = codes "m"; state = 7 ∷ 8 ∷ [] }

written_file :
    (bytes : Text) × (write_checkpoint plain_formats small_checkpoint 10 ≡ ok bytes)
    × (length bytes ≡ 92)
unfolding write_checkpoint put_bytes
written_file = (_, refl, refl)

read_checkpoint-write_checkpoint_example :
    read_checkpoint plain_formats written_file.0 10 ≡ ok small_checkpoint
read_checkpoint-write_checkpoint_example =
    read_checkpoint-write_checkpoint plain_formats small_checkpoint 10 written_file.0
      (λ x. length-put_bytes 32 (length x)) refl written_file.1

read_checkpoint-take_example :
    read_checkpoint plain_formats (take 90 written_file.0) 20 ≢ ok small_checkpoint
read_checkpoint-take_example =
    read_checkpoint-take plain_formats small_checkpoint small_checkpoint 10 20 90 written_file.0
      (λ x. length-put_bytes 32 (length x)) written_file.1 (omega (arith, written_file.2))

display_text_safe_example : is_safe (display_text (72 ∷ 27 ∷ 194 ∷ 155 ∷ 10 ∷ [])) ≡ true
display_text_safe_example = display_text_safe (72 ∷ 27 ∷ 194 ∷ 155 ∷ 10 ∷ [])

excerpt-IsExcerpt_example :
    IsExcerpt (72 ∷ 195 ∷ 169 ∷ 33 ∷ []) 2 (excerpt (72 ∷ 195 ∷ 169 ∷ 33 ∷ []) 2)
excerpt-IsExcerpt_example = excerpt-IsExcerpt (72 ∷ 195 ∷ 169 ∷ 33 ∷ []) 2

abbrev local_caps : Capabilities
local_caps = record { remote = false; exact_tokens = true; checkpoint = true; cancellation = false }

abbrev local_entry : Entry
local_entry = record { id = codes "local"; caps = local_caps; enabled = true }

abbrev local_route : Route
local_route = record {
  executors = codes "local" ∷ [];
  allow_remote = false;
  require_exact_tokens = true;
  require_checkpoint = false;
  require_cancellation = false;
  timeout_ms = 100;
  attempt_timeout_ms = 50;
}

skip-is_none_example : is_none (skip local_route local_entry) ≡ is_served local_route local_entry
skip-is_none_example = skip-is_none local_route local_entry

abbrev small_registry : Registry
small_registry = record { entries = local_entry ∷ []; sessions = []; max_sessions = 1 }

opened_session :
    (h : Registry) × (execution : Execution) × (session small_registry
        (codes "alice")
        (codes "local")
        (some (codes "llama"))
        (codes "s")
      ≡ ok (h, execution))
unfolding session validate_execution text_eq
opened_session = (_, _, refl)

session-IsKept_example :
    IsKept small_registry opened_session.0 (codes "alice") (codes "local") opened_session.1
session-IsKept_example =
    session-IsKept small_registry opened_session.0 (codes "alice") (codes "local")
      (some (codes "llama")) (codes "s") opened_session.1 (omega arith, tt) opened_session.2
