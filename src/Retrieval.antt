-- ===== src/Retrieval.antt =====
-- The retrieval of typed memory: src/memory.cpp from `policy_ok` on, with `MemoryPolicy` of
-- include/cogg/memory.hpp. The full-text search is SQLite's: an argument ranks the rows that match a
-- query.
pub mod Words
pub mod Clusters
pub mod Lanes
pub mod Candidates
pub mod Project
pub mod Budgets
pub mod Shown
pub mod Listed
pub mod Required
pub mod Tasks
pub mod Capacity
use cogg_cpp.Base.{
  ℕ, List, [], ◌∷◌, ◌&&◌, ◌||◌, Bool, true, false, not, ltb, leb, if◌then◌else◌, length, find, any,
  keep, Option, none, some, Text, codes, text_eq, contains, Result, ok, require, ◌>>=◌, ◌>>◌,
}
use cogg_cpp.Proposal.{MemoryNote, text_fits, has_type, is_empty}
use cogg_cpp.Memory.{Entry, MemoryDb, get}

-- A deposit as a context shows it: the note with its id, commit and tick, whether it is the current
-- version of its key, and whether a source of a summary has been replaced.
pub record Wire : Type 0 where
  pub note : MemoryNote
  pub id : Text
  pub commit : Text
  pub tick : ℕ
  pub current : Bool
  pub summary_stale : Bool

-- A scorer returns a positive double for a relevant entry; here a number that orders as the doubles
-- do, and 0 for the others.
pub record MemoryPolicy : Type 0 where
  pub query : Text
  pub max_bytes : ℕ
  pub max_items : ℕ
  pub candidate_limit : ℕ
  pub history : Bool
  pub strategy : Text
  pub maintenance_ids : List Text
  pub synonyms : List (Text × List Text)
  pub semantic_scorer : Option (Wire → Text → ℕ)

abbrev pub uses : MemoryPolicy → Text → Bool
uses p strategy = text_eq p.strategy strategy

abbrev pub protects_tasks : MemoryPolicy → Bool
protects_tasks p =
    uses p (codes "balanced") || (uses p (codes "hybrid") || uses p (codes "semantic"))

unfoldable pub are_distinct : List Text → Bool
are_distinct [] = true
are_distinct (x ∷ rest) = not (contains rest x) && are_distinct rest

unfoldable pub check_texts : List Text → Result (Unit {0})
check_texts [] = ok tt
check_texts (v ∷ rest) = do require (text_fits v 128) "invalid memory text/key"; check_texts rest

unfoldable pub check_synonyms : List (Text × List Text) → Result (Unit {0})
unfolding check_texts
check_synonyms [] = ok tt
check_synonyms ((k, vals) ∷ rest) = do
  require (text_fits k 128) "invalid memory text/key"
  require (leb (length vals) 16) "too many synonyms for one term"
  check_texts vals
  check_synonyms rest

abbrev pub sizes_ok : MemoryPolicy → Bool
sizes_ok p =
    leb 256 p.max_bytes
    && leb p.max_bytes 1048576
    && (ltb 0 p.max_items && leb p.max_items 256)
    && (leb p.max_items p.candidate_limit
        && leb p.candidate_limit 512
        && leb (length p.query) 65536)

abbrev pub strategy_ok : MemoryPolicy → Bool
strategy_ok p =
    protects_tasks p
    || (uses p (codes "lexical") || (uses p (codes "recent") || uses p (codes "task_maintenance")))

abbrev pub maintenance_ok : MemoryPolicy → Bool
maintenance_ok p =
    if uses p (codes "task_maintenance")
    then not (is_empty p.maintenance_ids)
      && leb (length p.maintenance_ids) 8
      && are_distinct p.maintenance_ids
    else is_empty p.maintenance_ids

unfoldable pub policy_ok : MemoryPolicy → Result (Unit {0})
unfolding check_synonyms are_distinct
policy_ok p = do
  require (sizes_ok p) "invalid memory policy"
  require (strategy_ok p) "unknown memory strategy"
  require (maintenance_ok p)
      "maintenance requires 1..8 distinct source IDs and task_maintenance strategy"
  require (leb (length p.synonyms) 64) "too many synonym entries in memory policy"
  check_synonyms p.synonyms

-- ORDER BY tick DESC LIMIT 1
unfoldable pub latest : List Entry → Option Entry
latest [] = none
latest (e ∷ rest) = elim (latest rest) [
  | none ↦ some e
  | some b ↦ if leb b.tick e.tick then some e else some b
]

-- WHERE subject=? AND key=? AND tick<=?
unfoldable pub versions : List Entry → Text → Text → ℕ → List Entry
versions entries subject key at =
    keep (λ e. text_eq e.subject subject && (text_eq e.key key && leb e.tick at)) entries

-- `current` of `wire_at`: the source is the last version of its key at that tick.
unfoldable pub is_version : List Entry → Text → ℕ → Entry → Bool
unfolding latest versions
is_version entries subject at source = elim (latest (versions entries subject source.note.key at)) [
  | none ↦ false
  | some e ↦ text_eq e.id source.id
]

-- The loop over the sources of a summary.
unfoldable pub any_stale : List Entry → Text → ℕ → List Text → Result Bool
unfolding get is_version
any_stale entries subject at [] = ok false
any_stale entries subject at (id ∷ rest) = do
  b ← get entries subject id
  more ← any_stale entries subject at rest
  ok (not (is_version entries subject at b) || more)

unfoldable pub wire_at : List Entry → Text → Entry → ℕ → Result Wire
unfolding any_stale
wire_at entries subject b at = do
  stale ←
      if has_type b.note (codes "summary")
      then any_stale entries subject at b.note.sources
      else ok false
  ok (record {
    note = b.note;
    id = b.id;
    commit = b.commit;
    tick = b.tick;
    current = is_version entries subject at b;
    summary_stale = stale;
  })
