-- ===== src/Store/Reports.antt =====
-- What a host may read of a history: `record`, `duration`, `timeline`, `request_trace`, `open_tasks`
-- and `commits_page` of `Store` in src/kernel.cpp. `verify_impl` is an argument of `duration`.
pub mod Pages
pub mod History
use cogg_cpp.Base.{
  ℕ, suc, ◌+◌, ◌-◌, ◌==◌, Option, none, some, List, [], ◌∷◌, ◌++◌, ◌&&◌, ◌||◌, Bool, true, false,
  not, ltb, leb, if◌then◌else◌, length, find, any, keep, take, sort_by, Text, codes, text_eq,
  text_lt, ℤ, pos, negsuc, Result, ok, err, error, require, require_row, no_conflict, ◌>>=◌, ◌>>◌,
}
use cogg_cpp.Proposal.{has_type, has_status, is_empty}
use cogg_cpp.Memory.{Entry}
use cogg_cpp.Store.{
  State, Codec, Body, Memory, Snapshot, ScheduleStatus, Decision, OccasionRow, AttemptRow,
  CommitRow, AbstentionRow, snapshot, commit_row,
}
use cogg_cpp.Store.Schedule.{clock, schedule}

-- record(id)
unfoldable pub record_body : Codec → State → Text → Result Body
unfolding commit_row
record_body codec s id = do
  row ← require_row (commit_row s id) "record not found"
  require (text_eq (codec.hash row.body) id) "record hash mismatch"
  ok row.body

-- at("subject") and at("tick"), which the bodies of commits have.
abbrev pub anchor : Body → Option (Text × ℕ)
anchor (Body.genesis g) = some (g.subject, 0)
anchor (Body.commit c) = some (c.subject, c.tick)
anchor _ = none

pub record Duration : Type 0 where
  pub clock : Text
  pub from : Text
  pub to : Text
  pub duration : ℕ

unfoldable pub duration :
    (State → Text → Result (Unit {0})) → Codec → State → Text → Text → Text → Result Duration
unfolding record_body
duration verify codec s subject from to = do
  verify s subject
  first ← record_body codec s from
  last ← record_body codec s to
  a ← require_row (anchor first) "not a commit"
  b ← require_row (anchor last) "not a commit"
  require (text_eq a.0 subject && text_eq b.0 subject) "foreign clock anchor"
  require (leb a.1 b.1) "reversed clock window"
  id ← clock s subject
  ok (record { clock = id; from = from; to = to; duration = b.1 - a.1 })

pub record Timeline : Type 0 where
  pub state : Snapshot
  pub clock : Text
  pub commits : List CommitRow
  pub attempts : List AttemptRow
  pub abstentions : List AbstentionRow
  pub occasions : List OccasionRow

-- ORDER BY tick, and ORDER BY seq
abbrev pub by_tick : CommitRow → CommitRow → Bool
by_tick a b = ltb a.tick b.tick

abbrev by_seq : AttemptRow → AttemptRow → Bool
by_seq a b = ltb a.seq b.seq

unfoldable pub commits_of : State → Text → List CommitRow
commits_of s subject = sort_by by_tick (keep (λ c. text_eq c.subject subject) s.commits)

unfoldable pub attempts_of : State → Text → List AttemptRow
attempts_of s subject = sort_by by_seq (keep (λ a. text_eq a.subject subject) s.attempts)

-- FROM abstentions o JOIN attempts a ON a.id=o.attempt, in the order of the attempts
unfoldable pub abstentions_of : List AbstentionRow → List AttemptRow → List AbstentionRow
abstentions_of rows [] = []
abstentions_of rows (a ∷ rest) = keep (λ o. text_eq o.attempt a.id) rows ++ abstentions_of rows rest

unfoldable pub timeline : State → Text → Result Timeline
unfolding commits_of attempts_of abstentions_of
timeline s subject = do
  state ← snapshot s subject
  id ← clock s subject
  ok (record {
    state = state;
    clock = id;
    commits = commits_of s subject;
    attempts = attempts_of s subject;
    abstentions = abstentions_of s.abstentions (attempts_of s subject);
    occasions = keep (λ o. text_eq o.subject subject) s.occasions;
  })

pub record Trace : Type 0 where
  pub head : Text
  pub tick : ℕ
  pub occasion : Option OccasionRow
  pub commit : Option Body
  pub attempts : List AttemptRow
  pub abstentions : List AbstentionRow
  pub attempt_count : ℕ
  pub truncated : Bool
  pub schedule : Decision

abbrev newest : AttemptRow → AttemptRow → Bool
newest a b = ltb b.seq a.seq

abbrev trace_commit : Codec → State → Option Text → Result (Option Body)
trace_commit codec s none = ok none
trace_commit codec s (some id) = do body ← record_body codec s id; ok (some body)

-- From the occasion that the key names; `observed` is the host's clock.
unfoldable pub trace_of :
    Codec → State → Text → Snapshot → Option OccasionRow → ℕ → ℕ → Result Trace
unfolding record_body abstentions_of
trace_of codec s subject state none limit observed = do
  decision ← schedule codec s subject observed
  ok (record {
    head = state.head;
    tick = state.tick;
    occasion = none;
    commit = none;
    attempts = [];
    abstentions = [];
    attempt_count = 0;
    truncated = false;
    schedule = decision;
  })
trace_of codec s subject state (some o) limit observed = do
  body ← trace_commit codec s o.consumed
  let rows = keep (λ a. text_eq a.subject subject && text_eq a.occasion o.id) s.attempts
  let shown = take limit (sort_by newest rows)
  decision ← schedule codec s subject observed
  ok (record {
    head = state.head;
    tick = state.tick;
    occasion = some o;
    commit = body;
    attempts = shown;
    abstentions = abstentions_of s.abstentions shown;
    attempt_count = length rows;
    truncated = ltb limit (length rows);
    schedule = decision;
  })

unfoldable pub request_trace : Codec → State → Text → Text → ℕ → ℕ → Result Trace
unfolding trace_of
request_trace codec s subject key limit observed = do
  require (ltb 0 limit && leb limit 256) "request trace limit must be 1..256"
  state ← snapshot s subject
  trace_of codec s subject state
      (find (λ o. text_eq o.subject subject && text_eq o.key (codes "user:" ++ key)) s.occasions)
      limit observed

-- The rows of a page, the last key or tick of it, and whether there are more.
pub record TaskPage : Type 0 where
  pub head : Text
  pub items : List Entry
  pub next_after_key : Text
  pub has_more : Bool

abbrev by_key : Entry → Entry → Bool
by_key a b = text_lt a.key b.key

unfoldable pub task_rows : State → Text → Text → List Entry
task_rows s subject after = sort_by by_key (
    keep
      (λ e.
        text_eq e.subject subject
        && (e.current
            && (text_lt after e.key
                && (has_type e.note (codes "task") && has_status e.note (codes "open")))))
      s.memory_db.entries)

abbrev pub last_key : Text → List Entry → Text
last_key after [] = after
last_key after (e ∷ rest) = last_key e.key rest

unfoldable pub open_tasks : State → Text → Text → ℕ → Result TaskPage
unfolding task_rows
open_tasks s subject after limit = do
  require (ltb 0 limit && leb limit 256) "task page limit must be 1..256"
  state ← snapshot s subject
  let rows = take (suc limit) (task_rows s subject after)
  ok (record {
    head = state.head;
    items = take limit rows;
    next_after_key = last_key after (take limit rows);
    has_more = ltb limit (length rows);
  })

-- A tick, or -1 before the first one.
abbrev pub is_after : ℤ → ℕ → Bool
is_after (pos n) tick = ltb n tick
is_after (negsuc n) tick = true

abbrev after_fits : ℤ → Bool
after_fits (pos n) = true
after_fits (negsuc n) = n == 0

pub record CommitPage : Type 0 where
  pub head : Text
  pub items : List CommitRow
  pub next_after_tick : ℤ
  pub has_more : Bool

unfoldable pub commits_after : State → Text → ℤ → List CommitRow
unfolding commits_of
commits_after s subject after = keep (λ c. is_after after c.tick) (commits_of s subject)

abbrev pub last_tick : ℤ → List CommitRow → ℤ
last_tick after [] = after
last_tick after (c ∷ rest) = last_tick (pos c.tick) rest

unfoldable pub commits_page : State → Text → ℤ → ℕ → Text → Result CommitPage
unfolding commits_after
commits_page s subject after limit expected_head = do
  require (after_fits after && (ltb 0 limit && leb limit 256)) "invalid history page bounds"
  state ← snapshot s subject
  no_conflict (is_empty expected_head || text_eq state.head expected_head)
      "history page head changed"
  let items = take limit (commits_after s subject after)
  let cursor = last_tick after items
  ok (record {
    head = state.head;
    items = items;
    next_after_tick = cursor;
    has_more = is_after cursor state.tick;
  })
