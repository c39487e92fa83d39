-- ===== src/Store/Schedule.antt =====
-- When a subject may act: `Store::Impl::schedule`, `event` and `clock` of src/kernel.cpp.
use cogg_cpp.Base.{
  ℕ, ◌-◌, ◌==◌, max, Option, none, some, ◌&&◌, ◌||◌, Bool, true, false, not, ltb, leb,
  if◌then◌else◌, find, Text, text_eq, Result, ok, require, require_row, int64_max, ◌>>=◌, ◌>>◌,
}
use cogg_cpp.Budget.{Budget, budget}
use cogg_cpp.Store.{
  State, Codec, Body, EventBody, scheduled, kind_eq, due_at, Pending, Decision, ScheduleStatus,
  budget_exhausted, minimum_interval, ready, SubjectRow, OccasionRow, occasion_row, subject_row,
  lifecycle_of, admissions,
}

-- event(id): the body, once its hash has been checked.
unfoldable pub event : Codec → State → Text → Result EventBody
unfolding occasion_row
event codec s id = do
  row ← require_row (occasion_row s id) "occasion missing"
  require (text_eq (codec.hash (Body.event row.body)) id) "occasion hash mismatch"
  ok row.body

-- The commit at coordinate zero names the subject's clock.
unfoldable pub clock : State → Text → Result Text
clock s subject = do
  row ←
      require_row (find (λ c. text_eq c.subject subject && c.tick == 0) s.commits)
        "subject clock missing"
  ok row.id

-- value_or(std::numeric_limits<millis>::max())
abbrev or_max : Option ℕ → ℕ
or_max none = int64_max
or_max (some t) = t

abbrev is_consumed : Option Text → Bool
is_consumed none = false
is_consumed (some c) = true

-- consumed IS NULL AND (kind!='scheduled' OR (parent=? AND ? >= ?))
unfoldable pub waits : SubjectRow → ℕ → OccasionRow → Bool
waits r observed o =
    text_eq o.subject r.id
    && not (is_consumed o.consumed)
    && (not (kind_eq o.kind scheduled) || (text_eq o.parent r.head && leb (or_max r.wake) observed))

-- The wake that is due and not in the inbox yet.
unfoldable pub due_wake : Option ℕ → ℕ → Option Pending
due_wake none observed = none
due_wake (some t) observed =
    if leb t observed
    then some (record { id = none; kind = scheduled; payload = due_at t })
    else none

unfoldable pub next_occasion : Codec → State → SubjectRow → ℕ → Result (Option Pending)
unfolding event waits due_wake
next_occasion codec s r observed = elim (find (waits r observed) s.occasions) [
  | none ↦ ok (due_wake r.wake observed)
  | some o ↦ do
    e ← event codec s o.id
    ok (some (record { id = some o.id; kind = o.kind; payload = e.payload }))
]

unfoldable pub status_of : Option Pending → Option ℕ → ℕ → Budget → ScheduleStatus
status_of none wake accounting b = lifecycle_of wake
status_of (some o) wake accounting b =
    if ltb accounting b.quota_at
    then budget_exhausted
    else if ltb accounting b.floor_at
    then minimum_interval
    else ready

unfoldable pub eligible_of : Option Pending → Option ℕ → Budget → Option ℕ
eligible_of none none b = none
eligible_of none (some t) b = some (max t b.eligible_at)
eligible_of (some o) wake b = some b.eligible_at

unfoldable pub schedule : Codec → State → Text → ℕ → Result Decision
unfolding subject_row next_occasion status_of eligible_of
schedule codec s subject observed = do
  r ← require_row (subject_row s subject) "subject not found"
  let accounting = max observed r.accounting_wall
  b ← budget r.limits accounting none (admissions subject s.attempts)
  occasion ← next_occasion codec s r observed
  ok (record {
    status = status_of occasion r.wake accounting b;
    eligible_at = eligible_of occasion r.wake b;
    occasion = occasion;
    wall_observed_at = observed;
    accounting_at = accounting;
    wall_rollback_ms = accounting - observed;
    budget = b;
    head = r.head;
    tick = r.tick;
    wake_at = r.wake;
  })
