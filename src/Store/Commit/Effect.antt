-- ===== src/Store/Commit/Effect.antt =====
-- What a commit of src/kernel.cpp went through, and what it leaves in the store.
use cogg_cpp.Base.{
  ℕ, suc, ◌≡◌, ◌==◌, Option, none, some, ◌∷◌, ◌&&◌, true, ltb, leb, Text, text_eq, text_eq→eq,
  int64_max, ok, ==_iff, and_parts, require-bind, no_conflict-bind, check-bind, row-bind, >>=-eq-ok,
  arith,
}
use cogg_cpp.Proposal.{Proposal, validate}
use cogg_cpp.Wake.{WakePlan, wake_plan}
use cogg_cpp.Memory.{MemoryDb, memory_apply}
use cogg_cpp.Store.{
  State, Codec, Body, CommitBody, AttemptBody, AttemptRow, SubjectRow, OccasionRow, Emission,
  Disposition, Snapshot, committed, is_reserved, attempt_row, subject_row, occasion_row,
  snapshot_of, lifecycle_of, apply_writes, admissions, update_subject, update_attempt,
}
use cogg_cpp.Store.Schedule.{event}
use cogg_cpp.Store.Inbox.{max_state}
use cogg_cpp.Store.Commit.{
  TransitionGuard, CapacityCheck, is_null, check_origin, guarded, commit_time, delay_of, consume,
  supersede_attempts, commit_is_new, write_commit, commit_locked, memory_transition,
}

-- The body that `commit_locked` hashes.
abbrev pub body_of :
    AttemptBody
    → SubjectRow
    → Text
    → Proposal
    → ℕ
    → ℕ
    → WakePlan
    → Option ℕ
    → Option Emission
    → Option Disposition
    → CommitBody
body_of a r attempt proposal now at plan elapsed emission disposition = record {
  subject = a.subject;
  tick = suc r.tick;
  parent = r.head;
  occasion = a.occasion;
  attempt = attempt;
  proposal = proposal;
  memory = apply_writes proposal.memory r.memory;
  wake_at = plan.granted_at;
  committed_at = at;
  wall_observed_at = now;
  plan = plan;
  inference_elapsed_ms = elapsed;
  emission = emission;
  disposition = disposition;
}

-- The state after the statements of a commit.
abbrev pub written : Codec → State → CommitBody → MemoryDb → State
written codec s b memory =
    let id = codec.hash (Body.commit b) in
    record s {
      commits =
          record { id = id; subject = b.subject; tick = b.tick; body = Body.commit b } ∷ s.commits;
      subjects =
          update_subject b.subject
            (λ r. record r {
              tick = b.tick;
              head = id;
              memory = b.memory;
              wake = b.wake_at;
              accounting_wall = b.committed_at;
            })
            s.subjects;
      occasions = consume b.occasion id s.occasions;
      attempts =
          supersede_attempts b.subject b.parent
            (update_attempt b.attempt (λ r. record r { status = committed }) s.attempts);
      memory_db = memory;
    }

-- The facts behind a commit that returned.
pub record Accepted (codec : Codec) (guard : Option TransitionGuard) (capacity : CapacityCheck)
    (s : State) (attempt : Text) (proposal : Proposal) (now : ℕ) (elapsed : Option ℕ)
    (emission : Option Emission) (disposition : Option Disposition) (t : State) (snap : Snapshot)
    : Type 0 where
  pub row : AttemptRow
  pub r : SubjectRow
  pub o : OccasionRow
  pub at : ℕ
  pub plan : WakePlan
  pub memory : MemoryDb
  pub valid : validate proposal ≡ ok tt
  pub found : attempt_row s attempt ≡ some row
  pub unsettled : is_reserved row.status ≡ true
  pub hashed : codec.hash (Body.attempt row.body) ≡ attempt
  pub origin : check_origin emission disposition attempt row.body proposal ≡ ok tt
  pub subject : subject_row s row.body.subject ≡ some r
  pub head : r.head ≡ row.body.parent
  pub tick : r.tick ≡ row.body.tick
  pub occasion : occasion_row s row.body.occasion ≡ some o
  pub unconsumed : is_null o.consumed ≡ true
  pub passed : guarded guard disposition row.body.subject (snapshot_of r) row.body proposal ≡ ok tt
  pub in_range : ltb r.tick int64_max ≡ true
  pub time : commit_time now row.body.admitted_at r.accounting_wall elapsed ≡ ok at
  pub size : leb (codec.state_size (apply_writes proposal.memory r.memory)) max_state ≡ true
  pub planned :
      wake_plan r.limits
        (delay_of proposal.wake_after_ms)
        at
        none
        (admissions row.body.subject s.attempts)
      ≡ ok plan
  pub fresh :
      commit_is_new
        (body_of row.body r attempt proposal now at plan elapsed emission disposition)
        (codec.hash (
          Body.commit
            (body_of row.body r attempt proposal now at plan elapsed emission disposition)))
        s.commits
      ≡ true
  pub room : capacity memory snap row.body ≡ ok tt
  pub state :
      t
      ≡ written codec s
          (body_of row.body r attempt proposal now at plan elapsed emission disposition)
          memory

write_parts :
    (codec : Codec) (capacity : CapacityCheck) (s : State) (a : AttemptBody) (b : CommitBody)
    (t : State) (snap : Snapshot)
    → write_commit codec capacity s a b ≡ ok (t, snap)
    → (memory : MemoryDb) × (commit_is_new b (codec.hash (Body.commit b)) s.commits ≡ true)
      × (capacity memory snap a ≡ ok tt)
      × (t ≡ written codec s b memory)
unfolding write_commit
write_parts codec capacity s a b t snap e =
    let (p, e1) = check-bind (memory_transition b.proposal a.context) _ e in
    let (memory, q, e2) =
      >>=-eq-ok
        (memory_apply codec.note_id b.subject b.parent b.tick (codec.hash (Body.commit b))
          b.proposal.notes s.memory_db)
        _ e1 in
    let (fresh, e3) =
      require-bind (commit_is_new b (codec.hash (Body.commit b)) s.commits) _ _ e2 in
    let (c, e4) =
      check-bind
        (capacity memory
          (record {
            subject = b.subject;
            tick = b.tick;
            head = codec.hash (Body.commit b);
            memory = b.memory;
            wake_at = b.wake_at;
            lifecycle = lifecycle_of b.wake_at;
          })
          a)
        _ e3 in
    (memory, fresh, ground (arith, c, e4), cc)

-- Every commit that returned went through all of its checks.
pub commit-Accepted :
    (codec : Codec) (guard : Option TransitionGuard) (capacity : CapacityCheck) (s : State)
    (attempt : Text) (proposal : Proposal) (now : ℕ) (elapsed : Option ℕ)
    (emission : Option Emission) (disposition : Option Disposition) (t : State) (snap : Snapshot)
    → commit_locked codec guard capacity s attempt proposal now elapsed emission disposition
      ≡ ok (t, snap)
    → Accepted codec guard capacity s attempt proposal now elapsed emission disposition t snap
unfolding commit_locked
commit-Accepted codec guard capacity s attempt proposal now elapsed emission disposition t snap e =
    let (valid, e1) = check-bind (validate proposal) _ e in
    let (row, found, e2) = row-bind (attempt_row s attempt) _ _ e1 in
    let (unsettled, e3) = no_conflict-bind (is_reserved row.status) _ _ e2 in
    let a = row.body in
    let (hashed, e4) = require-bind (text_eq (codec.hash (Body.attempt a)) attempt) _ _ e3 in
    let (origin, e5) = check-bind (check_origin emission disposition attempt a proposal) _ e4 in
    let (r, subject, e6) = row-bind (subject_row s a.subject) _ _ e5 in
    let (head, e7) = no_conflict-bind (text_eq r.head a.parent && r.tick == a.tick) _ _ e6 in
    let (ev, q, e8) = >>=-eq-ok (event codec s a.occasion) _ e7 in
    let (mine, e9) = require-bind (text_eq ev.subject a.subject) _ _ e8 in
    let (o, occasion, e10) = row-bind (occasion_row s a.occasion) _ _ e9 in
    let (free, e11) = no_conflict-bind (is_null o.consumed) _ _ e10 in
    let (passed, e12) =
      check-bind (guarded guard disposition a.subject (snapshot_of r) a proposal) _ e11 in
    let (range, e13) = require-bind (ltb r.tick int64_max) _ _ e12 in
    let (at, time, e14) =
      >>=-eq-ok (commit_time now a.admitted_at r.accounting_wall elapsed) _ e13 in
    let (size, e15) =
      require-bind (leb (codec.state_size (apply_writes proposal.memory r.memory)) max_state) _ _
        e14 in
    let (plan, planned, e16) =
      >>=-eq-ok
        (wake_plan r.limits (delay_of proposal.wake_after_ms) at none
          (admissions a.subject s.attempts))
        _ e15 in
    let (memory, fresh, room, state) =
      write_parts codec capacity s a
        (body_of a r attempt proposal now at plan elapsed emission disposition) t snap e16 in
    record {
      row = row;
      r = r;
      o = o;
      at = at;
      plan = plan;
      memory = memory;
      valid = valid;
      found = found;
      unsettled = unsettled;
      hashed = text_eq→eq _ _ hashed;
      origin = origin;
      subject = subject;
      head = text_eq→eq _ _ (and_parts _ _ head).0;
      tick = (==_iff _ _).0 (and_parts _ _ head).1;
      occasion = occasion;
      unconsumed = free;
      passed = passed;
      in_range = range;
      time = time;
      size = size;
      planned = planned;
      fresh = fresh;
      room = room;
      state = state;
    }
