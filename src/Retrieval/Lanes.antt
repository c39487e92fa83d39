-- ===== src/Retrieval/Lanes.antt =====
-- The rows that the statements of `memory_candidates` in src/memory.cpp select, as functions on the
-- tables.
use cogg_cpp.Base.{
  ℕ, ◌*◌, ◌==◌, List, [], ◌∷◌, ◌&&◌, ◌||◌, Bool, not, ltb, if◌then◌else◌, any, keep, take, sort_by,
  Option, none, some, Text, codes, text_eq, text_lt, Result, ok, require, ◌>>=◌, ◌>>◌,
}
use cogg_cpp.Proposal.{has_type, has_status}
use cogg_cpp.Memory.{Entry, Link, MemoryDb, get}
use cogg_cpp.Retrieval.{MemoryPolicy, Wire, wire_at}

-- A link of the note to a source that has been replaced.
abbrev is_outdated : List Entry → Text → Link → Bool
is_outdated entries note l =
    text_eq l.note note && any (λ s. text_eq s.id l.source && not s.current) entries

-- current_filter
unfoldable pub current_filter : MemoryDb → Entry → Bool
current_filter db e =
    e.current
    && (not (has_status e.note (codes "retracted"))
        && (not (has_type e.note (codes "summary"))
            || not (any (is_outdated db.entries e.id) db.links)))

-- A current note that covers the entry, none of whose sources has been replaced.
abbrev is_cover : MemoryDb → Entry → Bool
is_cover db c =
    c.current
    && (not (has_status c.note (codes "retracted"))
        && not (any (is_outdated db.entries c.id) db.links))

-- uncovered_filter
unfoldable pub uncovered_filter : MemoryDb → Entry → Bool
uncovered_filter db e = not (
    any
      (λ l.
        text_eq l.source e.id
        && (l.covers && any (λ c. text_eq c.id l.note && is_cover db c) db.entries))
      db.links)

-- ORDER BY tick, id and ORDER BY tick DESC, id
abbrev pub oldest_first : Entry → Entry → Bool
oldest_first a b = ltb a.tick b.tick || (a.tick == b.tick && text_lt a.id b.id)

abbrev pub newest_first : Entry → Entry → Bool
newest_first a b = ltb b.tick a.tick || (a.tick == b.tick && text_lt a.id b.id)

-- (p.history ? "1" : filter)
abbrev pub admits : MemoryPolicy → Bool → Bool
admits p filtered = p.history || filtered

-- collect(q, out)
unfoldable pub collect : List Entry → Text → ℕ → List Entry → Result (List Wire)
unfolding wire_at
collect entries subject at [] = ok []
collect entries subject at (e ∷ rest) = do
  w ← wire_at entries subject e at
  ws ← collect entries subject at rest
  ok (w ∷ ws)

abbrev pub is_open_task : MemoryDb → Text → Entry → Bool
is_open_task db subject e =
    text_eq e.subject subject
    && (current_filter db e && (has_type e.note (codes "task") && has_status e.note (codes "open")))

unfoldable pub open_task_rows : MemoryDb → Text → ℕ → List Entry
unfolding current_filter
open_task_rows db subject limit =
    take limit (sort_by oldest_first (keep (is_open_task db subject) db.entries))

-- The loop over the maintenance ids. The row that `get` finds is the one whose `current` is read.
unfoldable pub maintained : List Entry → Text → ℕ → List Text → Result (List Wire)
unfolding wire_at get
maintained entries subject at [] = ok []
maintained entries subject at (id ∷ rest) = do
  b ← get entries subject id
  w ← wire_at entries subject b at
  require b.current "stale maintenance task"
  require (has_type w.note (codes "task") && has_status w.note (codes "open"))
      "maintenance source must be an open task"
  ws ← maintained entries subject at rest
  ok (w ∷ ws)

-- What the text index ranks: the rows that match a query, by bm25 and then by tick and id.
abbrev pub Search : Type 0
Search = Text → List Entry → List Entry

unfoldable pub matching : Search → MemoryDb → Text → MemoryPolicy → Text → List Entry
unfolding current_filter
matching search_index db subject p query = take p.candidate_limit (
    search_index query
      (keep (λ e. text_eq e.subject subject && admits p (current_filter db e)) db.entries))

unfoldable pub recent_rows : MemoryDb → Text → MemoryPolicy → ℕ → List Entry
unfolding current_filter uncovered_filter
recent_rows db subject p limit = take limit (
    sort_by newest_first (
      keep
        (λ e. text_eq e.subject subject && admits p (current_filter db e && uncovered_filter db e))
        db.entries))

unfoldable pub procedure_rows : MemoryDb → Text → MemoryPolicy → List Entry
unfolding current_filter
procedure_rows db subject p = take p.candidate_limit (
    sort_by newest_first (
      keep
        (λ e.
          text_eq e.subject subject
          && (admits p (current_filter db e)
              && (has_type e.note (codes "procedure") || has_type e.note (codes "prospective"))))
        db.entries))

-- std::stable_sort by falling score, of the entries whose score is positive.
abbrev scored_before : (ℕ × Wire) → (ℕ × Wire) → Bool
scored_before a b = ltb b.0 a.0

unfoldable pub scored : (Wire → Text → ℕ) → Text → List Wire → List (ℕ × Wire)
scored score query [] = []
scored score query (w ∷ rest) =
    let more = scored score query rest in
    if ltb 0 (score w query) then (score w query, w) ∷ more else more

unfoldable pub seconds : List (ℕ × Wire) → List Wire
seconds [] = []
seconds ((n, w) ∷ rest) = w ∷ seconds rest

unfoldable pub scored_wires :
    Option (Wire → Text → ℕ) → MemoryDb → Text → MemoryPolicy → ℕ → Result (List Wire)
unfolding scored seconds collect recent_rows
scored_wires none db subject p at = ok []
scored_wires (some score) db subject p at = do
  rows ← collect db.entries subject at (recent_rows db subject p (p.candidate_limit * 4))
  ok (take p.candidate_limit (seconds (sort_by scored_before (scored score p.query rows))))
