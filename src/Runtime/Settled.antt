-- ===== src/Runtime/Settled.antt =====
-- A run of `execute_attempt` of src/kernel.cpp that returns has settled its attempt.
use cogg_cpp.Base.{
  ℕ, ◌≡◌, refl, sym, subst, ◌∙◌, inl, inr, Option, none, some, false, Text, ℤ, text_eq_refl, error,
  overflow, conflict, Result, ok, err, >>=-eq-ok, row-bind, require-bind, no_conflict-bind,
  if-cases, check-bind, ok-first, ok-injective, arith, text_eq, not, any, leb, length, ◌==◌, ◌&&◌,
}
use cogg_cpp.Budget.{check_time}
use cogg_cpp.Proposal.{Proposal, Abstention, validate_abstention}
use cogg_cpp.Store.{
  Body, FailureRow, State, Codec, AttemptRow, AttemptBody, Disposition, Emission, Snapshot,
  abstained, is_reserved, is_abstained, attempt_row, AbstentionRow, SubjectRow, subject_row,
  snapshot,
}
use cogg_cpp.Store.Rows.{find-update_attempt}
use cogg_cpp.Store.Schedule.{event}
use cogg_cpp.Store.Commit.{TransitionGuard, CapacityCheck, commit_locked}
use cogg_cpp.Store.Commit.Effect.{commit-Accepted, body_of}
use cogg_cpp.Store.Commit.Once.{committed_after}
use cogg_cpp.Store.Settle.{
  FailureScope, transient, occasion, fail_row, mark_failed, fail, fail_reserved, fail_scoped,
  fail_occasion, count_failure, dispose, settle_or_fail, with_failure, settles, abstain,
  settle_abstention, insert_abstention, abstention_row,
}

-- The attempt has a row that is no longer reserved.
abbrev pub IsSettled : State → Text → Type 0
IsSettled s id =
    (row : AttemptRow) × (attempt_row s id ≡ some row) × (is_reserved row.status ≡ false)

pub mark_failed-IsSettled :
    (s : State) (id reason : Text) (a : AttemptRow)
    → attempt_row s id ≡ some a
    → IsSettled (mark_failed id reason s) id
unfolding attempt_row mark_failed
mark_failed-IsSettled s id reason a e = (
  fail_row reason a,
  find-update_attempt id (fail_row reason) s.attempts (λ x. ground arith) ∙ rw e refl,
  ground arith,
)

pub commit_locked-IsSettled :
    (codec : Codec) (guard : Option TransitionGuard) (capacity : CapacityCheck) (s t : State)
    (id : Text) (p : Proposal) (now : ℕ) (elapsed : Option ℕ) (emission : Option Emission)
    (d : Option Disposition) (snap : Snapshot)
    → commit_locked codec guard capacity s id p now elapsed emission d ≡ ok (t, snap)
    → IsSettled t id
commit_locked-IsSettled codec guard capacity s t id p now elapsed emission d snap e =
    let acc = commit-Accepted codec guard capacity s id p now elapsed emission d t snap e in
    subst (λ x. IsSettled x id) (sym acc.state)
      (committed_after codec s
        (body_of acc.row.body acc.r id p now acc.at acc.plan elapsed emission d) acc.memory id
        acc.row acc.found (text_eq_refl id))

marked :
    (s t : State) (id reason : Text) (a : AttemptRow) (snap : Option Snapshot)
    → attempt_row s id ≡ some a
    → ◌≡◌ {A = Result (State × Option Snapshot)} (ok (mark_failed id reason s, none)) (ok (t, snap))
    → IsSettled t id
marked s t id reason a snap found e =
    subst (λ x. IsSettled x id) (ok-first (mark_failed id reason s) t none snap e)
      (mark_failed-IsSettled s id reason a found)

settle_or_fail-IsSettled :
    (other t : State) (id : Text) (r : Result (State × Snapshot)) (snap : Option Snapshot)
    → settle_or_fail other r ≡ ok (t, snap)
    → IsSettled other id
    → ((u : State) (x : Snapshot) → r ≡ ok (u, x) → IsSettled u id)
    → IsSettled t id
unfolding settle_or_fail
settle_or_fail-IsSettled other t id (ok (u, x)) snap e h k =
    subst (λ y. IsSettled y id) (ok-first u t (some x) snap e) (k u x refl)
settle_or_fail-IsSettled other t id (err (overflow m)) snap e h k =
    subst (λ y. IsSettled y id) (ok-first other t none snap e) h
settle_or_fail-IsSettled other t id (err (error m)) snap e h k = cc
settle_or_fail-IsSettled other t id (err (conflict m)) snap e h k = cc

module _ (codec : Codec) (capacity : CapacityCheck) (id reason : Text) (now : ℕ)
    (body : AttemptBody) where
  count_failure-IsSettled :
      (s t : State) (r : SubjectRow) (a : AttemptRow) (snap : Option Snapshot)
      → attempt_row s id ≡ some a
      → count_failure codec capacity s r body id reason now ≡ ok (t, snap)
      → IsSettled t id
  unfolding count_failure dispose attempt_row
  count_failure-IsSettled s t r a snap found e =
      let u = with_failure id body reason s in
      let (new, e1) =
        require-bind (not (any (λ (f : FailureRow). text_eq f.attempt id) s.failures)) _ _ e in
      elim (if-cases (settles u r body id r.limits.max_occasion_failures) _ _ e1) [
        | inl (q, h) ↦
            let (ev, ev_ok, e2) = >>=-eq-ok (event codec u body.occasion) _ h in
            settle_or_fail-IsSettled (mark_failed id reason u) t id _ snap e2
              (mark_failed-IsSettled u id reason a found)
              (λ v x w. commit_locked-IsSettled codec none capacity u v id _ now none none _ x w)
        | inr (q, h) ↦ marked u t id reason a snap found h
      ]

  fail_scoped-IsSettled :
      (scope : FailureScope) (s t : State) (a : AttemptRow) (snap : Option Snapshot)
      → attempt_row s id ≡ some a
      → fail_scoped scope codec capacity s body id reason now ≡ ok (t, snap)
      → IsSettled t id
  unfolding fail_scoped fail_occasion
  fail_scoped-IsSettled transient s t a snap found e = marked s t id reason a snap found e
  fail_scoped-IsSettled occasion s t a snap found e =
      let (r, owner, e1) = row-bind (subject_row s body.subject) _ _ e in
      elim (if-cases (r.limits.max_occasion_failures == 0) _ _ e1) [
        | inl (q, h) ↦ marked s t id reason a snap found h
        | inr (q, h) ↦ count_failure-IsSettled s t r a snap found h
      ]

-- A failure that is recorded settles its attempt, whatever its scope.
pub fail-IsSettled :
    (codec : Codec) (capacity : CapacityCheck) (s t : State) (id reason : Text)
    (scope : FailureScope) (now : ℤ) (snap : Option Snapshot)
    → fail codec capacity s id reason scope now ≡ ok (t, snap)
    → IsSettled t id
unfolding fail fail_reserved
fail-IsSettled codec capacity s t id reason scope now snap e =
    let (at, now_ok, e1) = >>=-eq-ok (check_time now) _ e in
    let (row, found, e2) = row-bind (attempt_row s id) _ _ e1 in
    elim (if-cases (is_reserved row.status) _ _ e2) [
      | inl (q, h) ↦
          let (hashed, e3) = require-bind (text_eq (codec.hash (Body.attempt row.body)) id) _ _ h in
          fail_scoped-IsSettled codec capacity id reason at row.body scope s t row snap found e3
      | inr (q, h) ↦ subst (λ x. IsSettled x id) (ok-first s t none snap h) (row, found, q)
    ]

settle_abstention-IsSettled :
    (old : Option AbstentionRow) (s t : State) (row : AttemptRow) (new : AbstentionRow)
    (receipt : Text)
    → attempt_row s new.attempt ≡ some row
    → settle_abstention old s row new ≡ ok (t, receipt)
    → IsSettled t new.attempt
unfolding settle_abstention insert_abstention attempt_row
settle_abstention-IsSettled (some o) s t row new receipt found e =
    let (same_id, e1) = no_conflict-bind (text_eq o.id new.id && is_abstained row.status) _ _ e in
    subst (λ x. IsSettled x new.attempt) (ok-first s t new.id receipt e1) (row, found, ground arith)
settle_abstention-IsSettled none s t row new receipt found e =
    let (open_row, e1) = no_conflict-bind (is_reserved row.status) _ _ e in
    let (snap, snap_ok, e2) = >>=-eq-ok (snapshot s row.body.subject) _ e1 in
    let (at_head, e3) = no_conflict-bind (text_eq snap.head row.body.parent) _ _ e2 in
    let (u, inserted, e4) = >>=-eq-ok (insert_abstention new s) _ e3 in
    let (unused, e5) =
      require-bind (not (any (λ (o : AbstentionRow). text_eq o.id new.id) s.abstentions)) _ _
        inserted in
    subst (λ x. IsSettled x new.attempt) (ok-injective _ _ e5 ∙ ok-first u t new.id receipt e4)
      (
        record row { status = abstained },
        find-update_attempt new.attempt (λ (a : AttemptRow). record a { status = abstained })
              s.attempts (λ x. refl)
            ∙ rw found refl,
        refl,
      )

-- An abstention that is recorded settles its attempt.
pub abstain-IsSettled :
    (codec : Codec) (s t : State) (id : Text) (outcome : Abstention) (provider receipt : Text)
    → abstain codec s id outcome provider ≡ ok (t, receipt)
    → IsSettled t id
unfolding abstain
abstain-IsSettled codec s t id outcome provider receipt e =
    let (v_ok, e1) = check-bind (validate_abstention outcome) _ e in
    let (p_ok, e2) = require-bind (leb (length provider) 8192) _ _ e1 in
    let (row, found, e3) = row-bind (attempt_row s id) _ _ e2 in
    let (hashed, e4) = require-bind (text_eq (codec.hash (Body.attempt row.body)) id) _ _ e3 in
    settle_abstention-IsSettled (abstention_row s id) s t row _ receipt found e4
