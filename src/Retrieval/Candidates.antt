-- ===== src/Retrieval/Candidates.antt =====
-- `memory_candidates` of src/memory.cpp: the lanes, and their merge without duplicates.
use cogg_cpp.Base.{
  ℕ, suc, zero, ◌+◌, List, [], ◌∷◌, ◌++◌, ◌&&◌, ◌||◌, Bool, true, false, not, ltb, if◌then◌else◌,
  length, any, max, get_elem?, Option, none, some, Text, codes, text_eq, overflow, Result, ok, err,
  require_row, ◌>>=◌, ◌>>◌,
}
use cogg_cpp.Proposal.{is_empty}
use cogg_cpp.Memory.{Entry, MemoryDb}
use cogg_cpp.Retrieval.{MemoryPolicy, Wire, uses, protects_tasks, policy_ok}
use cogg_cpp.Retrieval.Words.{terms, expanded_terms}
use cogg_cpp.Retrieval.Clusters.{clusters}
use cogg_cpp.Retrieval.Lanes.{
  Search, collect, open_task_rows, maintained, matching, recent_rows, procedure_rows, scored_wires,
}

pub record Candidate : Type 0 where
  pub entry : Wire
  pub required : Bool
  pub lane : Text

pub record Candidates : Type 0 where
  pub entries : List Candidate
  pub total_deposits : ℕ
  pub candidate_limit : ℕ

abbrev pub has_candidate : Text → Candidate → Bool
has_candidate id c = text_eq c.entry.id id

-- add(x, required, lane): `seen` holds the ids of what has been added.
unfoldable pub add : Wire → Bool → Text → List Candidate → List Candidate
add x required lane all =
    if any (has_candidate x.id) all
    then all
    else all ++ record { entry = x; required = required; lane = lane } ∷ []

unfoldable pub add_all : List Wire → Bool → Text → List Candidate → List Candidate
unfolding add
add_all [] required lane all = all
add_all (x ∷ rest) required lane all = add_all rest required lane (add x required lane all)

-- if (i < lane.size()) add(lane[i], false, name)
unfoldable pub add_at : List Wire → ℕ → Text → List Candidate → List Candidate
unfolding add
add_at ws i lane all = elim (get_elem? ws i) [ none ↦ all | some x ↦ add x false lane all ]

pub record Lanes : Type 0 where
  pub mandatory : List Wire
  pub lex : List Wire
  pub sem : List Wire
  pub proc : List Wire
  pub recent : List Wire

-- One round of the merge.
unfoldable pub merge_round : Bool → Lanes → ℕ → List Candidate → List Candidate
unfolding add_at
merge_round true l i all =
    add_at l.proc i (codes "procedure")
      (add_at l.lex i (codes "lexical") (add_at l.sem i (codes "semantic") all))
merge_round false l i all = add_at l.recent i (codes "recent") (
    add_at l.proc i (codes "procedure")
      (add_at l.sem i (codes "semantic") (add_at l.lex i (codes "lexical") all)))

-- for (i = 0; i < rounds; ++i), by the rounds left.
unfoldable pub merge_rounds : Bool → Lanes → ℕ → ℕ → List Candidate → List Candidate
unfolding merge_round
merge_rounds semantic l zero i all = all
merge_rounds semantic l (suc n) i all =
    merge_rounds semantic l n (suc i) (merge_round semantic l i all)

abbrev pub rounds_of : Lanes → ℕ
rounds_of l = max (max (length l.lex) (length l.sem)) (max (length l.proc) (length l.recent))

unfoldable pub merge : MemoryPolicy → Lanes → List Candidate
unfolding add_all merge_rounds
merge p l =
    merge_rounds (uses p (codes "semantic")) l (rounds_of l) 0
      (add_all l.mandatory true (codes "open_task") [])

-- The open tasks, all of which a view must hold.
unfoldable pub task_wires : MemoryDb → Text → MemoryPolicy → ℕ → Result (List Wire)
unfolding collect open_task_rows
task_wires db subject p at = do
  ws ← collect db.entries subject at (open_task_rows db subject (suc p.max_items))
  if ltb p.max_items (length ws)
      then err (overflow "memory pressure: too many open tasks")
      else ok ws

unfoldable pub maintenance_wires : MemoryDb → Text → MemoryPolicy → ℕ → Result (List Wire)
unfolding maintained
maintenance_wires db subject p at =
    if uses p (codes "task_maintenance")
    then maintained db.entries subject at p.maintenance_ids
    else ok []

-- The tasks that a view must hold.
unfoldable pub mandatory_wires : MemoryDb → Text → MemoryPolicy → ℕ → Result (List Wire)
unfolding task_wires maintenance_wires
mandatory_wires db subject p at =
    if protects_tasks p then task_wires db subject p at else maintenance_wires db subject p at

abbrev pub runs_lexical : MemoryPolicy → Bool
runs_lexical p =
    not (is_empty (terms p.query))
    && (not (uses p (codes "recent")) && not (uses p (codes "task_maintenance")))

abbrev is_some {ℓ} : {A : Type ℓ} → Option A → Bool
is_some none = false
is_some (some a) = true

abbrev pub runs_semantic : MemoryPolicy → List Wire → Bool
runs_semantic p lex =
    uses p (codes "hybrid")
    || (uses p (codes "semantic")
        || (uses p (codes "balanced")
            && (is_empty lex || (not (is_empty p.synonyms) || is_some p.semantic_scorer))))

abbrev pub lists_recent : MemoryPolicy → Bool
lists_recent p =
    not (uses p (codes "lexical"))
    && (not (uses p (codes "semantic")) && not (uses p (codes "task_maintenance")))

-- A lane that runs under a condition.
abbrev pub when_runs : Bool → Result (List Wire) → Result (List Wire)
when_runs true lane = lane
when_runs false lane = ok []

unfoldable pub semantic_wires : Search → MemoryDb → Text → MemoryPolicy → ℕ → Result (List Wire)
unfolding scored_wires collect matching
semantic_wires search_index db subject p at = do
  best ← scored_wires p.semantic_scorer db subject p at
  let query = expanded_terms clusters p.query p.synonyms
  ws ←
      when_runs (not (is_empty query))
        (collect db.entries subject at (matching search_index db subject p query))
  ok (best ++ ws)

unfoldable pub lanes_of : Search → MemoryDb → Text → MemoryPolicy → ℕ → Result Lanes
unfolding mandatory_wires semantic_wires
lanes_of search_index db subject p at = do
  mandatory ← mandatory_wires db subject p at
  lex ←
      when_runs (runs_lexical p)
        (collect db.entries subject at (matching search_index db subject p (terms p.query)))
  sem ← when_runs (runs_semantic p lex) (semantic_wires search_index db subject p at)
  proc ← when_runs (protects_tasks p) (collect db.entries subject at (procedure_rows db subject p))
  recent ←
      when_runs (lists_recent p)
        (collect db.entries subject at (recent_rows db subject p p.candidate_limit))
  ok (record { mandatory = mandatory; lex = lex; sem = sem; proc = proc; recent = recent })

abbrev pub count_rows : Text → List Entry → ℕ
count_rows subject [] = 0
count_rows subject (e ∷ rest) =
    (if text_eq e.subject subject then 1 else 0) + count_rows subject rest

-- `head` is the subject's tick, which the first statement reads.
unfoldable pub memory_candidates :
    Search → MemoryDb → Text → Option ℕ → MemoryPolicy → Result Candidates
unfolding lanes_of merge
memory_candidates search_index db subject head p = do
  policy_ok p
  at ← require_row head "subject missing"
  lanes ← lanes_of search_index db subject p at
  ok (record {
    entries = merge p lanes;
    total_deposits = count_rows subject db.entries;
    candidate_limit = p.candidate_limit;
  })
