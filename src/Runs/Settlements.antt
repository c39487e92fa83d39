-- ===== src/Runs/Settlements.antt =====
-- Commits, abstentions and failures of src/kernel.cpp add no admission and change no limits.
use cogg_cpp.Base.{
  ℕ, ◌≡◌, ◌==◌, refl, subst, sym, ◌∙◌, Option, none, some, List, inl, inr, not, leb, length, any,
  Text, text_eq, ℤ, Result, ok, err, error, overflow, conflict, require-bind, no_conflict-bind,
  check-bind, row-bind, >>=-eq-ok, ok-first, if-cases, arith,
}
use cogg_cpp.Budget.{check_time}
use cogg_cpp.Proposal.{Proposal, Abstention, validate_abstention}
use cogg_cpp.Memory.{MemoryDb}
use cogg_cpp.Store.{
  State, Codec, Body, CommitBody, AttemptBody, AttemptRow, SubjectRow, AbstentionRow, FailureRow,
  Emission, Disposition, Snapshot, abstained, is_reserved, attempt_row, subject_row, snapshot,
}
use cogg_cpp.Store.Schedule.{event}
use cogg_cpp.Store.Commit.{TransitionGuard, CapacityCheck, commit_locked, commit, check_elapsed}
use cogg_cpp.Store.Commit.Effect.{commit-Accepted, written}
use cogg_cpp.Store.Settle.{
  FailureScope, transient, occasion, abstain, insert_abstention, mark_failed, fail_row,
  settle_or_fail, dispose, count_failure, settles, with_failure, fail_occasion, fail_scoped,
  fail_reserved, fail, settle_abstention, abstention_row,
}
use cogg_cpp.Runs.Kept.{Same, traces-update, traces-supersede, owners-update}

written-Same :
    (codec : Codec) (s : State) (b : CommitBody) (memory : MemoryDb)
    → Same s (written codec s b memory)
written-Same codec s b memory = (
  owners-update b.subject _ s.subjects (λ r. refl),
  traces-supersede b.subject b.parent _ ∙ traces-update b.attempt _ s.attempts (λ a. refl),
)

locked-Same :
    (codec : Codec) (guard : Option TransitionGuard) (capacity : CapacityCheck) (s t : State)
    (attempt : Text) (proposal : Proposal) (now : ℕ) (elapsed : Option ℕ)
    (emission : Option Emission) (disposition : Option Disposition) (snap : Snapshot)
    → commit_locked codec guard capacity s attempt proposal now elapsed emission disposition
      ≡ ok (t, snap)
    → Same s t
locked-Same codec guard capacity s t attempt proposal now elapsed emission disposition snap e =
    let acc =
      commit-Accepted codec guard capacity s attempt proposal now elapsed emission disposition t
        snap e in
    subst (Same s) (sym acc.state) (written-Same codec s _ acc.memory)

pub commit-Same :
    (codec : Codec) (guard : Option TransitionGuard) (capacity : CapacityCheck) (s t : State)
    (attempt : Text) (proposal : Proposal) (now : ℤ) (elapsed : Option ℤ)
    (emission : Option Emission) (snap : Snapshot)
    → commit codec guard capacity s attempt proposal now elapsed emission ≡ ok (t, snap)
    → Same s t
unfolding commit
commit-Same codec guard capacity s t attempt proposal now elapsed emission snap e =
    let (duration, d_ok, e1) = >>=-eq-ok (check_elapsed elapsed) _ e in
    let (at, now_ok, e2) = >>=-eq-ok (check_time now) _ e1 in
    locked-Same codec guard capacity s t attempt proposal at duration emission none snap e2

abstain-Same :
    (codec : Codec) (s t : State) (row : AbstentionRow) → insert_abstention row s ≡ ok t → Same s t
unfolding insert_abstention
abstain-Same codec s t row e = (
  ground arith,
  ground (
    arith,
    traces-update row.attempt (λ (a : AttemptRow). record a { status = abstained }) s.attempts
        (λ a. refl),
  ),
)

pub mark_failed-Same : (attempt reason : Text) (s : State) → Same s (mark_failed attempt reason s)
unfolding mark_failed
mark_failed-Same attempt reason s =
    (refl, traces-update attempt (fail_row reason) s.attempts (λ a. ground arith))

settle-Same :
    (s other t : State) (r : Result (State × Snapshot)) (snap : Option Snapshot)
    → settle_or_fail other r ≡ ok (t, snap)
    → Same s other
    → ((u : State) (x : Snapshot) → r ≡ ok (u, x) → Same s u)
    → Same s t
unfolding settle_or_fail
settle-Same s other t (ok (u, x)) snap e h k =
    subst (Same s) (ok-first u t (some x) snap e) (k u x refl)
settle-Same s other t (err (overflow m)) snap e h k =
    subst (Same s) (ok-first other t none snap e) h
settle-Same s other t (err (error m)) snap e h k = cc
settle-Same s other t (err (conflict m)) snap e h k = cc

settle_abstention-Same :
    (old : Option AbstentionRow) (codec : Codec) (s t : State) (row : AttemptRow)
    (new : AbstentionRow) (id : Text)
    → settle_abstention old s row new ≡ ok (t, id)
    → Same s t
unfolding settle_abstention
settle_abstention-Same (some o) codec s t row new id e =
    let (same_id, e1) = no_conflict-bind _ _ _ e in
    subst (Same s) {x = s} {y = t} (ok-first s t new.id id e1) (refl, refl)
settle_abstention-Same none codec s t row new id e =
    let (open_row, e1) = no_conflict-bind (is_reserved row.status) _ _ e in
    let (snap, snap_ok, e2) = >>=-eq-ok (snapshot s row.body.subject) _ e1 in
    let (at_head, e3) = no_conflict-bind (text_eq snap.head row.body.parent) _ _ e2 in
    let (u, inserted, e4) = >>=-eq-ok (insert_abstention new s) _ e3 in
    subst (Same s) {x = u} {y = t} (ok-first u t new.id id e4) (abstain-Same codec s u new inserted)

pub abstain_keeps :
    (codec : Codec) (s t : State) (attempt : Text) (outcome : Abstention) (provider id : Text)
    → abstain codec s attempt outcome provider ≡ ok (t, id)
    → Same s t
unfolding abstain
abstain_keeps codec s t attempt outcome provider id e =
    let (v_ok, e1) = check-bind (validate_abstention outcome) _ e in
    let (p_ok, e2) = require-bind (leb (length provider) 8192) _ _ e1 in
    let (row, found, e3) = row-bind (attempt_row s attempt) _ _ e2 in
    let (hashed, e4) = require-bind (text_eq (codec.hash (Body.attempt row.body)) attempt) _ _ e3 in
    settle_abstention-Same (abstention_row s attempt) codec s t row _ id e4

dispose-Same :
    (codec : Codec) (capacity : CapacityCheck) (s t : State) (r : SubjectRow) (a : AttemptBody)
    (attempt reason : Text) (now cap : ℕ) (failures : List Text) (snap : Option Snapshot)
    → dispose codec capacity s r a attempt reason now cap failures ≡ ok (t, snap)
    → Same s t
unfolding dispose
dispose-Same codec capacity s t r a attempt reason now cap failures snap e =
    let (ev, ev_ok, e1) = >>=-eq-ok (event codec s a.occasion) _ e in
    settle-Same s (mark_failed attempt reason s) t _ snap e1 (mark_failed-Same attempt reason s)
      (λ u x q. locked-Same codec none capacity s u attempt _ now none none _ x q)

marked-Same :
    (s t : State) (attempt reason : Text) (snap : Option Snapshot)
    → ◌≡◌ {A = Result (State × Option Snapshot)}
        (ok (mark_failed attempt reason s, none))
        (ok (t, snap))
    → Same s t
marked-Same s t attempt reason snap e =
    subst (Same s) {x = mark_failed attempt reason s} {y = t}
      (ok-first (mark_failed attempt reason s) t none snap e) (mark_failed-Same attempt reason s)

count_failure-Same :
    (codec : Codec) (capacity : CapacityCheck) (s t : State) (r : SubjectRow) (a : AttemptBody)
    (attempt reason : Text) (now : ℕ) (snap : Option Snapshot)
    → count_failure codec capacity s r a attempt reason now ≡ ok (t, snap)
    → Same s t
unfolding count_failure
count_failure-Same codec capacity s t r a attempt reason now snap e =
    let u = with_failure attempt a reason s in
    let (new, e1) =
      require-bind (not (any (λ (f : FailureRow). text_eq f.attempt attempt) s.failures)) _ _ e in
    elim (if-cases (settles u r a attempt r.limits.max_occasion_failures) _ _ e1) [
      | inl (q, h) ↦ dispose-Same codec capacity u t r a attempt reason now _ _ snap h
      | inr (q, h) ↦ marked-Same u t attempt reason snap h
    ]

fail_scoped-Same :
    (scope : FailureScope) (codec : Codec) (capacity : CapacityCheck) (s t : State)
    (a : AttemptBody) (attempt reason : Text) (now : ℕ) (snap : Option Snapshot)
    → fail_scoped scope codec capacity s a attempt reason now ≡ ok (t, snap)
    → Same s t
unfolding fail_scoped fail_occasion
fail_scoped-Same transient codec capacity s t a attempt reason now snap e =
    marked-Same s t attempt reason snap e
fail_scoped-Same occasion codec capacity s t a attempt reason now snap e =
    let (r, found, e1) = row-bind (subject_row s a.subject) _ _ e in
    elim (if-cases (r.limits.max_occasion_failures == 0) _ _ e1) [
      | inl (q, h) ↦ marked-Same s t attempt reason snap h
      | inr (q, h) ↦ count_failure-Same codec capacity s t r a attempt reason now snap h
    ]

pub fail-Same :
    (codec : Codec) (capacity : CapacityCheck) (s t : State) (attempt reason : Text)
    (scope : FailureScope) (now : ℤ) (snap : Option Snapshot)
    → fail codec capacity s attempt reason scope now ≡ ok (t, snap)
    → Same s t
unfolding fail fail_reserved
fail-Same codec capacity s t attempt reason scope now snap e =
    let (at, now_ok, e1) = >>=-eq-ok (check_time now) _ e in
    let (row, found, e2) = row-bind (attempt_row s attempt) _ _ e1 in
    elim (if-cases (is_reserved row.status) _ _ e2) [
      | inl (q, h) ↦
          let (hashed, e3) =
            require-bind (text_eq (codec.hash (Body.attempt row.body)) attempt) _ _ h in
          fail_scoped-Same scope codec capacity s t row.body attempt reason at snap e3
      | inr (q, h) ↦ subst (Same s) {x = s} {y = t} (ok-first s t none snap h) (refl, refl)
    ]
