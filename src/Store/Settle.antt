-- ===== src/Store/Settle.antt =====
-- The other ways to settle an attempt: `Store::abstain` and the two `Store::fail` of src/kernel.cpp,
-- with `failure_scope` and `failure_reason`.
use cogg_cpp.Base.{
  ℕ, ◌-◌, ◌==◌, max, Option, none, some, List, [], ◌∷◌, ◌++◌, map, ◌&&◌, Bool, true, false, not,
  leb, if◌then◌else◌, length, find, any, take, keep, Text, codes, text_eq, ℤ, pos, error, overflow,
  conflict, Result, ok, err, require, require_row, no_conflict, ◌>>=◌, ◌>>◌,
}
use mathlib.Core.List.{reverse}
use cogg_cpp.Budget.{check_time}
use cogg_cpp.Proposal.{Proposal, Abstention, null_proposal, validate_abstention}
use cogg_cpp.Store.{
  State, Codec, Body, AbstentionBody, AbstentionRow, AttemptBody, AttemptRow, OccasionKind,
  scheduled, kind_eq, Snapshot, SubjectRow, abstained, failed, is_reserved, is_abstained,
  attempt_row, subject_row, occasion_row, snapshot, update_attempt,
}
use cogg_cpp.Store.Schedule.{event}
use cogg_cpp.Store.Commit.{CapacityCheck, commit_locked, is_null}

-- kernel.hpp, `FailureScope` and `FailureKind`.
pub data FailureScope : Type 0 where
  transient occasion : FailureScope

pub data FailureKind : Type 0 where
  backend transport timeout invalid_output credentials : FailureKind

unfoldable pub failure_scope : FailureKind → FailureScope
failure_scope invalid_output = occasion
failure_scope _ = transient

unfoldable pub failure_reason : FailureKind → Text
failure_reason transport = codes "transport_failed"
failure_reason timeout = codes "timeout"
failure_reason invalid_output = codes "invalid_output"
failure_reason credentials = codes "credentials_unavailable"
failure_reason backend = codes "backend_failed"

-- INSERT INTO abstentions, whose ids and attempts are unique, and the settlement.
unfoldable pub insert_abstention : AbstentionRow → State → Result State
insert_abstention row s = do
  require (not (any (λ o. text_eq o.id row.id) s.abstentions)) "UNIQUE constraint failed"
  ok (record s {
    abstentions = row ∷ s.abstentions;
    attempts = update_attempt row.attempt (λ a. record a { status = abstained }) s.attempts;
  })

-- `old` is the abstention that the attempt has: an equal one is returned again, another refused.
unfoldable pub settle_abstention :
    Option AbstentionRow → State → AttemptRow → AbstentionRow → Result (State × Text)
settle_abstention (some old) s row new = do
  no_conflict (text_eq old.id new.id && is_abstained row.status)
      "different abstention already settled"
  ok (s, new.id)
settle_abstention none s row new = do
  no_conflict (is_reserved row.status) "attempt already settled or stale"
  snap ← snapshot s row.body.subject
  no_conflict (text_eq snap.head row.body.parent) "attempt already settled or stale"
  t ← insert_abstention new s
  ok (t, new.id)

abbrev pub abstention_of : AttemptRow → Text → Abstention → Text → AbstentionBody
abstention_of row attempt outcome provider = record {
  attempt = attempt;
  subject = row.body.subject;
  parent = row.body.parent;
  occasion = row.body.occasion;
  execution = row.body.execution;
  outcome = outcome;
  provider = provider;
}

-- SELECT id FROM abstentions WHERE attempt=?
unfoldable pub abstention_row : State → Text → Option AbstentionRow
abstention_row s attempt = find (λ o. text_eq o.attempt attempt) s.abstentions

-- `provider` is the dump of the receipt.
unfoldable pub abstain : Codec → State → Text → Abstention → Text → Result (State × Text)
abstain codec s attempt outcome provider = do
  validate_abstention outcome
  require (leb (length provider) 8192) "invalid provider receipt"
  row ← require_row (attempt_row s attempt) "attempt missing"
  require (text_eq (codec.hash (Body.attempt row.body)) attempt) "attempt hash mismatch"
  let body = abstention_of row attempt outcome provider
  settle_abstention (abstention_row s attempt) s row
      (record { id = codec.hash (Body.abstention body); attempt = attempt; body = body })

-- The text that an attempt keeps: reason.substr(0, 1024).
abbrev pub clipped : Text → Text
clipped reason = take 1024 reason

abbrev pub fail_row : Text → AttemptRow → AttemptRow
fail_row reason a =
    if is_reserved a.status then record a { status = failed; error = clipped reason } else a

-- UPDATE attempts SET status='failed',error=? WHERE id=? AND status='reserved'
unfoldable pub mark_failed : Text → Text → State → State
mark_failed attempt reason s = record s {
  attempts = update_attempt attempt (fail_row reason) s.attempts;
}

-- The attempts of the earlier failures of this occasion, in the order of their admission.
unfoldable pub earlier_failures : State → Text → Text → List Text
earlier_failures s oid attempt =
    map (λ a. a.id)
      (keep
        (λ a.
          not (text_eq a.id attempt)
          && any (λ f. text_eq f.attempt a.id && text_eq f.occasion oid) s.failures)
        (reverse s.attempts))

abbrev pub is_maintenance : AttemptBody → Bool
is_maintenance a = elim a.context [
  | none ↦ false
  | some c ↦ text_eq c.strategy (codes "task_maintenance")
]

-- `settlement.wake_after_ms`: what is left of a pending wake.
unfoldable pub kept_wake : Option ℕ → OccasionKind → Bool → ℕ → Option ℤ
kept_wake none kind maintenance at = none
kept_wake (some wake) kind maintenance at =
    if not (kind_eq kind scheduled) && not maintenance then some (pos (wake - at)) else none

-- catch (const ContextOverflow&): roll back to the savepoint and fail the attempt; anything else
-- propagates.
unfoldable pub settle_or_fail : State → Result (State × Snapshot) → Result (State × Option Snapshot)
settle_or_fail other (ok (t, snap)) = ok (t, some snap)
settle_or_fail other (err (overflow m)) = ok (other, none)
settle_or_fail other (err (error m)) = err (error m)
settle_or_fail other (err (conflict m)) = err (conflict m)

-- From the test `if (!settle)` to the end, with the failure recorded in `s`.
unfoldable pub dispose :
    Codec
    → CapacityCheck
    → State
    → SubjectRow
    → AttemptBody
    → Text
    → Text
    → ℕ
    → ℕ
    → List Text
    → Result (State × Option Snapshot)
dispose codec capacity s r a attempt reason now cap failures = do
  e ← event codec s a.occasion
  let at = max (max now a.admitted_at) r.accounting_wall
  let settlement : Proposal = record null_proposal {
    wake_after_ms = kept_wake r.wake e.kind (is_maintenance a) at;
  }
  settle_or_fail (mark_failed attempt reason s) (
      commit_locked codec none capacity s attempt settlement now none none
        (some (record { limit = cap; failures = failures })))

abbrev pub unconsumed : State → Text → Bool
unconsumed s oid = elim (occasion_row s oid) [ none ↦ true | some o ↦ is_null o.consumed ]

-- The ids of `failures`: the earliest cap - 1 others, then this attempt.
abbrev pub listed_failures : State → AttemptBody → Text → ℕ → List Text
listed_failures s a attempt cap =
    take (cap - 1) (earlier_failures s a.occasion attempt) ++ attempt ∷ []

-- `settle`
abbrev pub settles : State → SubjectRow → AttemptBody → Text → ℕ → Bool
settles s r a attempt cap =
    leb cap (length (listed_failures s a attempt cap))
    && text_eq r.head a.parent
    && unconsumed s a.occasion

abbrev pub with_failure : Text → AttemptBody → Text → State → State
with_failure attempt a reason s = record s {
  failures =
      record { attempt = attempt; occasion = a.occasion; reason = clipped reason } ∷ s.failures;
}

-- The count of a failure of a subject whose limit is not 0.
unfoldable pub count_failure :
    Codec
    → CapacityCheck
    → State
    → SubjectRow
    → AttemptBody
    → Text
    → Text
    → ℕ
    → Result (State × Option Snapshot)
count_failure codec capacity s r a attempt reason now = do
  require (not (any (λ f. text_eq f.attempt attempt) s.failures)) "UNIQUE constraint failed"
  let t = with_failure attempt a reason s
  if settles t r a attempt r.limits.max_occasion_failures
      then dispose codec capacity t r a attempt reason now r.limits.max_occasion_failures
          (listed_failures t a attempt r.limits.max_occasion_failures)
      else ok (mark_failed attempt reason t, none)

-- What follows the test `scope == FailureScope::transient`.
unfoldable pub fail_occasion :
    Codec → CapacityCheck → State → AttemptBody → Text → Text → ℕ → Result (State × Option Snapshot)
fail_occasion codec capacity s a attempt reason now = do
  r ← require_row (subject_row s a.subject) "subject not found"
  if r.limits.max_occasion_failures == 0
      then ok (mark_failed attempt reason s, none)
      else count_failure codec capacity s r a attempt reason now

unfoldable pub fail_scoped :
    FailureScope
    → Codec
    → CapacityCheck
    → State
    → AttemptBody
    → Text
    → Text
    → ℕ
    → Result (State × Option Snapshot)
fail_scoped transient codec capacity s a attempt reason now =
    ok (mark_failed attempt reason s, none)
fail_scoped occasion codec capacity s a attempt reason now =
    fail_occasion codec capacity s a attempt reason now

unfoldable pub fail_reserved :
    FailureScope
    → Codec
    → CapacityCheck
    → State
    → AttemptRow
    → Text
    → Text
    → ℕ
    → Result (State × Option Snapshot)
fail_reserved scope codec capacity s row attempt reason now = do
  require (text_eq (codec.hash (Body.attempt row.body)) attempt) "attempt hash mismatch"
  fail_scoped scope codec capacity s row.body attempt reason now

unfoldable pub fail :
    Codec
    → CapacityCheck
    → State
    → Text
    → Text
    → FailureScope
    → ℤ
    → Result (State × Option Snapshot)
unfolding check_time
fail codec capacity s attempt reason scope now = do
  at ← check_time now
  row ← require_row (attempt_row s attempt) "attempt missing"
  if is_reserved row.status
      then fail_reserved scope codec capacity s row attempt reason at
      else ok (s, none)
