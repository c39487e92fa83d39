-- ===== src/Tests/Selves.antt =====
-- The theorems on self state and on pages of a history, applied to small inputs.
use cogg_cpp.Base.{
  ℕ, ◌≡◌, ◌⊎◌, refl, none, some, [], ◌∷◌, true, Option, length, Text, codes, pos, negsuc, ok, err,
  text_eq, sort_by, insert_by, keep, ◌<◌, arith,
}
use cogg_cpp.Proposal.{Proposal, validate}
use cogg_cpp.Evidence.{validate_admission_context, validate_execution, validate_emission}
use cogg_cpp.Store
use cogg_cpp.Store.{
  waiting_external, empty_store, admissions, Body, CommitRow, CommitBody, AttemptRow, SubjectRow,
  Snapshot, snapshot, attempt_row, subject_row, occasion_row, apply_writes,
}
use cogg_cpp.Store.Commit.{
  commit_locked, check_origin, commit_time, write_commit, memory_transition,
}
use cogg_cpp.Store.Reports.{commits_of, commits_after}
use cogg_cpp.Store.Reports.History.{read_history, read_history-commits_after}
use cogg_cpp.SelfState.{
  producer, profile_key, is_reserved_key, Profile, State, Grant, Packet, Documents, at_key,
}
use cogg_cpp.SelfState.Apply.{apply}
use cogg_cpp.SelfState.Kept.{AreKept, apply-AreKept}
use cogg_cpp.SelfState.Guard.{self_guard, zeros}
use cogg_cpp.SelfState.Allowed.{IsGrantedIn}
use cogg_cpp.SelfState.Granted.{commit_locked-self_guard}
use cogg_cpp.Budget.{budget}
use cogg_cpp.Wake.{wake_plan}
use cogg_cpp.Memory.{memory_apply}
use cogg_cpp.Store.Schedule.{schedule, event, clock}
use cogg_cpp.Store.Admit.{admit_decided, reserve, select, temporal_at, write_attempt}
use cogg_cpp.SelfState.Apply.{protected_write}
use cogg_cpp.Store.Reports.Pages.{HasUniqueTicks}
use cogg_cpp.Store.Reports.History.{IsComplete}
use cogg_cpp.Tests.{
  sample_config, committed_store, committed_snapshot, submitted_store, alice, sample_codec,
  no_capacity, admitted_store, ready_attempt, reply, admitted_found,
}

abbrev pub plain_profile : Profile
plain_profile = record { schema = producer; revision = pos 0; app_data = codes "{}" }

-- A document is a packet when there is one, and every text is the same profile.
abbrev pub documents_with : Option Packet → Documents
documents_with packet = record {
  read_profile = λ t. some plain_profile;
  read_packet = λ t. packet;
  is_object = λ t. true;
  view_size = λ v. 100;
  grant_size = λ g. 100;
  inputs_size = λ xs. 2;
}

abbrev pub promise_key : Text
promise_key = codes "self.commitment.a"

abbrev promised : State
promised = record {
  profile = plain_profile;
  profile_version = zeros;
  tasks =
      (promise_key, record { text = codes "call"; task_status = codes "open"; version = zeros })
      ∷ [];
}

abbrev settling : Grant
settling = record {
  schema = codes "cogg:self-grant/v1";
  subject = alice;
  head = zeros;
  occasion = none;
  create = [];
  settle = (promise_key, record { version = zeros; task_status = codes "closed" }) ∷ [];
  profile = none;
}

abbrev closing : Proposal
closing = record {
  kind = codes "speech";
  text = codes "done";
  memory = [];
  wake_after_ms = none;
  notes =
      record {
        key = promise_key;
        text = codes "call";
        note_type = codes "task";
        note_status = codes "closed";
        sources = [];
        covers = [];
      }
      ∷ [];
}

unfoldable closed_state : State
unfolding apply
closed_state = elim (apply (documents_with none) promised closing settling zeros) [
  | ok s ↦ s
  | err e ↦ promised
]

closed_lem : apply (documents_with none) promised closing settling zeros ≡ ok closed_state
unfolding closed_state text_eq
closed_lem = refl

apply-AreKept_example : AreKept promised closed_state
apply-AreKept_example =
    apply-AreKept (documents_with none) promised closed_state closing settling zeros closed_lem

guarded_lem :
    commit_locked sample_codec
      (some (self_guard (documents_with none) sample_codec))
      no_capacity
      admitted_store
      ready_attempt
      reply
      40
      none
      none
      none
    ≡ ok (committed_store, committed_snapshot)
unfolding committed_store committed_snapshot text_eq validate attempt_row validate_admission_context
    validate_execution snapshot submitted_store schedule budget admissions admit_decided reserve
    select temporal_at clock write_attempt check_origin validate_emission commit_time event
    subject_row apply_writes wake_plan write_commit memory_transition memory_apply occasion_row
    commit_locked self_guard protected_write
guarded_lem = refl

profile_is_reserved : is_reserved_key profile_key ≡ true
unfolding is_reserved_key
profile_is_reserved = refl

commit_locked-self_guard_example :
    (old next : SubjectRow) × (subject_row admitted_store admitted_found.0.body.subject ≡ some old)
    × (subject_row committed_store admitted_found.0.body.subject ≡ some next)
    × ((at_key profile_key next.memory ≡ at_key profile_key old.memory)
        ⊎ ((value : Text) × (at_key profile_key next.memory ≡ some value)
            × IsGrantedIn (documents_with none) admitted_found.0.body profile_key value))
commit_locked-self_guard_example =
    commit_locked-self_guard (documents_with none) sample_codec no_capacity admitted_store
      committed_store ready_attempt reply 40 none none committed_snapshot admitted_found.0
      profile_key guarded_lem admitted_found.1 profile_is_reserved

abbrev row_at : Text → ℕ → CommitRow
row_at id tick = record {
  id = id;
  subject = alice;
  tick = tick;
  body = Body.genesis (record {
    subject = alice;
    created_at = 10;
    nonce = codes "n";
    limits = sample_config;
    memory = [];
  });
}

-- Three commits of one subject, newest first.
abbrev three_commits : Store.State
three_commits = record empty_store {
  subjects =
      record {
        id = alice;
        tick = 2;
        head = codes "c2";
        memory = [];
        wake = none;
        limits = sample_config;
        accounting_wall = 0;
      }
      ∷ [];
  commits = row_at (codes "c2") 2 ∷ row_at (codes "c1") 1 ∷ row_at (codes "c0") 0 ∷ [];
}

abbrev last_state : Snapshot
last_state = record {
  subject = alice;
  tick = 2;
  head = codes "c2";
  memory = [];
  wake_at = none;
  lifecycle = waiting_external;
}

last_state_lem : snapshot three_commits alice ≡ ok last_state
unfolding snapshot subject_row text_eq
last_state_lem = refl

unique_ticks : HasUniqueTicks (keep (λ c. text_eq c.subject alice) three_commits.commits)
unfolding text_eq
unique_ticks = ((refl, (refl, tt)), ((refl, tt), (tt, tt)))

complete : IsComplete last_state (commits_of three_commits alice)
unfolding commits_of text_eq sort_by insert_by
complete = ((omega arith, (omega arith, (omega arith, tt))), refl)

enough : length (commits_after three_commits alice (negsuc 0)) < 4
unfolding commits_after text_eq sort_by insert_by
enough = omega arith

read_history-commits_after_example :
    read_history 4 three_commits alice (negsuc 0) 2 (codes "c2")
    ≡ ok (commits_after three_commits alice (negsuc 0))
read_history-commits_after_example =
    read_history-commits_after 4 three_commits alice (negsuc 0) 2 last_state last_state_lem
      unique_ticks complete (omega arith) (omega arith) refl enough
