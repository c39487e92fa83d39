-- ===== src/Heads/Settled.antt =====
-- Failures, abstentions and the queue of src/kernel.cpp keep every tip valid.
use cogg_cpp.Base.{
  ℕ, ◌≡◌, ◌==◌, refl, sym, subst, Option, none, some, List, [], ◌∷◌, true, false, not, inl, inr,
  Bool-cases, Option-cases, leb, if◌then◌else◌, any, length, find, All, All-weaken, Text, text_eq,
  text_eq→eq, ℤ, error, overflow, conflict, Result, ok, err, require-bind, no_conflict-bind,
  check-bind, row-bind, >>=-eq-ok, ok-first, if-cases, arith,
}
use cogg_cpp.Budget.{check_time}
use cogg_cpp.Proposal.{Proposal, Abstention, validate_abstention}
use cogg_cpp.Store.{
  State, Codec, Body, AttemptBody, SubjectRow, AttemptRow, AbstentionRow, FailureRow, OccasionKind,
  Payload, Snapshot, Emission, Disposition, abstained, is_committed, is_reserved, attempt_row,
  subject_row, snapshot, update_attempt,
}
use cogg_cpp.Store.Schedule.{event}
use cogg_cpp.Store.Inbox.{enqueue, insert_occasion, is_keyed}
use cogg_cpp.Store.Commit.{TransitionGuard, CapacityCheck, commit_locked}
use cogg_cpp.Store.Commit.Effect.{commit-Accepted}
use cogg_cpp.Store.Settle.{
  FailureScope, transient, occasion, abstain, insert_abstention, settle_abstention, abstention_row,
  mark_failed, fail_row, settle_or_fail, dispose, count_failure, settles, with_failure,
  fail_occasion, fail_scoped, fail_reserved, fail,
}
use cogg_cpp.Store.Head.{commit_of, attempt_of, verify_row}
use cogg_cpp.Heads.{Columns, HaveDistinctIds, AreSound}
use cogg_cpp.Heads.Extends.{Extends, verify_row-Extends, attempts_update}
use cogg_cpp.Heads.Rows.{Columns-update, distinct_update}
use cogg_cpp.Heads.Commits.{Accepted-AreSound}

-- A call that leaves the three tables alone.
pub unchanged :
    (codec : Codec) (s t : State)
    → t.subjects ≡ s.subjects
    → t.commits ≡ s.commits
    → t.attempts ≡ s.attempts
    → AreSound codec s
    → AreSound codec t
unfolding commit_of attempt_of
unchanged codec s t p q r h = record {
  heads =
      subst (All (λ x. verify_row codec t x ≡ ok tt)) (sym p)
        (All-weaken s.subjects (λ x. verify_row-Extends codec s t x extends) h.heads);
  columns = subst (All Columns) (sym r) h.columns;
  distinct = subst HaveDistinctIds (sym r) h.distinct;
}
  where
    extends : Extends s t
    extends = record {
      commits = λ id subject c e. ground (arith, q, e);
      attempts = λ id subject a e d. (a, ground (arith, r, e), d, refl);
    }

-- A call that updates one attempt, and keeps committed ones committed.
pub updated :
    (codec : Codec) (s t : State) (f : AttemptRow → AttemptRow) (id : Text)
    → t.subjects ≡ s.subjects
    → t.commits ≡ s.commits
    → t.attempts ≡ update_attempt id f s.attempts
    → ((x : AttemptRow)
        → ((f x).id ≡ x.id)
          × ((f x).subject ≡ x.subject)
          × ((f x).parent ≡ x.parent)
          × ((f x).body ≡ x.body)
          × (is_committed x.status ≡ true → is_committed (f x).status ≡ true))
    → AreSound codec s
    → AreSound codec t
unfolding commit_of attempt_of
updated codec s t f id p q r k h = record {
  heads =
      subst (All (λ x. verify_row codec t x ≡ ok tt)) (sym p)
        (All-weaken s.subjects (λ x. verify_row-Extends codec s t x extends) h.heads);
  columns =
      subst (All Columns) (sym r)
        (Columns-update f id (λ x. ((k x).0, (k x).1, (k x).2, (k x).3)) s.attempts h.columns);
  distinct =
      subst HaveDistinctIds (sym r)
        (distinct_update f id (λ x. ((k x).0, (k x).1, (k x).2, (k x).3)) s.attempts h.distinct);
}
  where
    extends : Extends s t
    extends = record {
      commits = λ i subject c e. ground (arith, q, e);
      attempts = λ i subject a e d.
          let (b, b_ok, b_done, b_parent) =
            attempts_update f i id s.attempts subject a (λ x. ((k x).0, (k x).1, (k x).2, (k x).4))
              e d in
          (b, ground (arith, r, b_ok), b_done, b_parent);
    }

pub enqueue-AreSound :
    (codec : Codec) (s t : State) (snap : Snapshot) (key : Text) (kind : OccasionKind)
    (payload : Payload) (now : ℕ) (id : Text)
    → enqueue codec s snap key kind payload now ≡ ok (t, id)
    → AreSound codec s
    → AreSound codec t
unfolding enqueue insert_occasion
enqueue-AreSound codec s t snap key kind payload now id e h =
    elim (Option-cases (find (is_keyed snap.subject key) s.occasions)) [
      | inl q ↦ unchanged codec s t (ground (arith, q)) (ground (arith, q)) (ground (arith, q)) h
      | inr (o, q) ↦
          unchanged codec s t (ground (arith, q)) (ground (arith, q)) (ground (arith, q)) h
    ]

pub mark_failed-AreSound :
    (codec : Codec) (s : State) (attempt reason : Text)
    → AreSound codec s
    → AreSound codec (mark_failed attempt reason s)
unfolding mark_failed
mark_failed-AreSound codec s attempt reason h =
    updated codec s (mark_failed attempt reason s) (fail_row reason) attempt refl refl refl
      (λ x. (ground arith, ground arith, ground arith, ground arith, λ d. ground arith)) h

-- The abstained attempt is the only row with its id, and it is reserved.
guarded_update :
    (id : Text) (f : AttemptRow → AttemptRow) (rows : List AttemptRow) (row : AttemptRow)
    → HaveDistinctIds rows
    → find (λ a. text_eq a.id id) rows ≡ some row
    → is_reserved row.status ≡ true
    → update_attempt id f rows
      ≡ update_attempt id (λ a. if is_reserved a.status then f a else a) rows
unfolding update_attempt
guarded_update id f [] row d e h = cc
guarded_update id f (x ∷ rest) row (d, ds) e h = elim (Bool-cases (text_eq x.id id)) [
  | inl hit ↦ ground (
    arith,
    hit,
    others rest (subst (λ i. any (λ y. text_eq y.id i) rest ≡ false) (text_eq→eq x.id id hit) d),
  )
  | inr miss ↦ ground (arith, miss, guarded_update id f rest row ds)
]
  where
    others :
        (ys : List AttemptRow)
        → any (λ y. text_eq y.id id) ys ≡ false
        → update_attempt id f ys
          ≡ update_attempt id (λ a. if is_reserved a.status then f a else a) ys
    others [] n = refl
    others (y ∷ ys) n = ground (arith, others ys)

settle_abstention-AreSound :
    (old : Option AbstentionRow) (codec : Codec) (s t : State) (row : AttemptRow)
    (new : AbstentionRow) (id : Text)
    → settle_abstention old s row new ≡ ok (t, id)
    → attempt_row s new.attempt ≡ some row
    → AreSound codec s
    → AreSound codec t
unfolding settle_abstention insert_abstention attempt_row
settle_abstention-AreSound (some o) codec s t row new id e found h =
    let (same_id, e1) = no_conflict-bind _ _ _ e in
    subst (AreSound codec) {x = s} {y = t} (ok-first s t new.id id e1) h
settle_abstention-AreSound none codec s t row new id e found h =
    let (open_row, e1) = no_conflict-bind (is_reserved row.status) _ _ e in
    let (snap, snap_ok, e2) = >>=-eq-ok (snapshot s row.body.subject) _ e1 in
    let (at_head, e3) = no_conflict-bind (text_eq snap.head row.body.parent) _ _ e2 in
    let (u, inserted, e4) = >>=-eq-ok (insert_abstention new s) _ e3 in
    let f : AttemptRow → AttemptRow = (λ a. record a { status = abstained }) in
    subst (AreSound codec) {x = u} {y = t} (ok-first u t new.id id e4) (
      updated codec s u (λ a. if is_reserved a.status then f a else a) new.attempt (ground arith)
        (ground arith)
        (ground (arith, guarded_update new.attempt f s.attempts row h.distinct found open_row))
        (λ x. (ground arith, ground arith, ground arith, ground arith, λ d. ground arith)) h)

pub abstain-AreSound :
    (codec : Codec) (s t : State) (attempt : Text) (outcome : Abstention) (provider id : Text)
    → abstain codec s attempt outcome provider ≡ ok (t, id)
    → AreSound codec s
    → AreSound codec t
unfolding abstain
abstain-AreSound codec s t attempt outcome provider id e h =
    let (v_ok, e1) = check-bind (validate_abstention outcome) _ e in
    let (p_ok, e2) = require-bind (leb (length provider) 8192) _ _ e1 in
    let (row, found, e3) = row-bind (attempt_row s attempt) _ _ e2 in
    let (hashed, e4) = require-bind (text_eq (codec.hash (Body.attempt row.body)) attempt) _ _ e3 in
    settle_abstention-AreSound (abstention_row s attempt) codec s t row _ id e4 found h

pub locked-AreSound :
    (codec : Codec) (guard : Option TransitionGuard) (capacity : CapacityCheck) (s t : State)
    (attempt : Text) (proposal : Proposal) (now : ℕ) (elapsed : Option ℕ)
    (emission : Option Emission) (disposition : Option Disposition) (snap : Snapshot)
    → commit_locked codec guard capacity s attempt proposal now elapsed emission disposition
      ≡ ok (t, snap)
    → AreSound codec s
    → AreSound codec t
locked-AreSound codec guard capacity s t attempt proposal now elapsed emission disposition snap e
      h =
    Accepted-AreSound codec guard capacity s t attempt proposal now elapsed emission disposition
      snap
      (commit-Accepted codec guard capacity s attempt proposal now elapsed emission disposition t
        snap e)
      h

settle-AreSound :
    (codec : Codec) (other t : State) (r : Result (State × Snapshot)) (snap : Option Snapshot)
    → settle_or_fail other r ≡ ok (t, snap)
    → AreSound codec other
    → ((u : State) (x : Snapshot) → r ≡ ok (u, x) → AreSound codec u)
    → AreSound codec t
unfolding settle_or_fail
settle-AreSound codec other t (ok (u, x)) snap e h k =
    subst (AreSound codec) (ok-first u t (some x) snap e) (k u x refl)
settle-AreSound codec other t (err (overflow m)) snap e h k =
    subst (AreSound codec) (ok-first other t none snap e) h
settle-AreSound codec other t (err (error m)) snap e h k = cc
settle-AreSound codec other t (err (conflict m)) snap e h k = cc

dispose-AreSound :
    (codec : Codec) (capacity : CapacityCheck) (s t : State) (r : SubjectRow) (a : AttemptBody)
    (attempt reason : Text) (now cap : ℕ) (failures : List Text) (snap : Option Snapshot)
    → dispose codec capacity s r a attempt reason now cap failures ≡ ok (t, snap)
    → AreSound codec s
    → AreSound codec t
unfolding dispose
dispose-AreSound codec capacity s t r a attempt reason now cap failures snap e h =
    let (ev, ev_ok, e1) = >>=-eq-ok (event codec s a.occasion) _ e in
    settle-AreSound codec (mark_failed attempt reason s) t _ snap e1
      (mark_failed-AreSound codec s attempt reason h)
      (λ u x q. locked-AreSound codec none capacity s u attempt _ now none none _ x q h)

marked-AreSound :
    (codec : Codec) (s t : State) (attempt reason : Text) (snap : Option Snapshot)
    → ◌≡◌ {A = Result (State × Option Snapshot)}
        (ok (mark_failed attempt reason s, none))
        (ok (t, snap))
    → AreSound codec s
    → AreSound codec t
marked-AreSound codec s t attempt reason snap e h =
    subst (AreSound codec) {x = mark_failed attempt reason s} {y = t}
      (ok-first (mark_failed attempt reason s) t none snap e)
      (mark_failed-AreSound codec s attempt reason h)

count_failure-AreSound :
    (codec : Codec) (capacity : CapacityCheck) (s t : State) (r : SubjectRow) (a : AttemptBody)
    (attempt reason : Text) (now : ℕ) (snap : Option Snapshot)
    → count_failure codec capacity s r a attempt reason now ≡ ok (t, snap)
    → AreSound codec s
    → AreSound codec t
unfolding count_failure
count_failure-AreSound codec capacity s t r a attempt reason now snap e h =
    let u = with_failure attempt a reason s in
    let kept = unchanged codec s u refl refl refl h in
    let (new, e1) =
      require-bind (not (any (λ (f : FailureRow). text_eq f.attempt attempt) s.failures)) _ _ e in
    elim (if-cases (settles u r a attempt r.limits.max_occasion_failures) _ _ e1) [
      | inl (q, k) ↦ dispose-AreSound codec capacity u t r a attempt reason now _ _ snap k kept
      | inr (q, k) ↦ marked-AreSound codec u t attempt reason snap k kept
    ]

fail_scoped-AreSound :
    (scope : FailureScope) (codec : Codec) (capacity : CapacityCheck) (s t : State)
    (a : AttemptBody) (attempt reason : Text) (now : ℕ) (snap : Option Snapshot)
    → fail_scoped scope codec capacity s a attempt reason now ≡ ok (t, snap)
    → AreSound codec s
    → AreSound codec t
unfolding fail_scoped fail_occasion
fail_scoped-AreSound transient codec capacity s t a attempt reason now snap e h =
    marked-AreSound codec s t attempt reason snap e h
fail_scoped-AreSound occasion codec capacity s t a attempt reason now snap e h =
    let (r, found, e1) = row-bind (subject_row s a.subject) _ _ e in
    elim (if-cases (r.limits.max_occasion_failures == 0) _ _ e1) [
      | inl (q, k) ↦ marked-AreSound codec s t attempt reason snap k h
      | inr (q, k) ↦ count_failure-AreSound codec capacity s t r a attempt reason now snap k h
    ]

pub fail-AreSound :
    (codec : Codec) (capacity : CapacityCheck) (s t : State) (attempt reason : Text)
    (scope : FailureScope) (now : ℤ) (snap : Option Snapshot)
    → fail codec capacity s attempt reason scope now ≡ ok (t, snap)
    → AreSound codec s
    → AreSound codec t
unfolding fail fail_reserved
fail-AreSound codec capacity s t attempt reason scope now snap e h =
    let (at, now_ok, e1) = >>=-eq-ok (check_time now) _ e in
    let (row, found, e2) = row-bind (attempt_row s attempt) _ _ e1 in
    elim (if-cases (is_reserved row.status) _ _ e2) [
      | inl (q, k) ↦
          let (hashed, e3) =
            require-bind (text_eq (codec.hash (Body.attempt row.body)) attempt) _ _ k in
          fail_scoped-AreSound scope codec capacity s t row.body attempt reason at snap e3 h
      | inr (q, k) ↦ subst (AreSound codec) {x = s} {y = t} (ok-first s t none snap k) h
    ]
