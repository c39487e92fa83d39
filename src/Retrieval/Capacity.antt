-- ===== src/Retrieval/Capacity.antt =====
-- `memory_capacity` of src/memory.cpp: the check that a commit leaves a memory that still projects
-- within what its admission promised.
use cogg_cpp.Base.{
  ◌≡◌, [], ◌||◌, true, false, not, any, all, max, Option, none, some, Text, codes, text_eq, Result,
  ok, ◌>>=◌,
}
use cogg_cpp.Proposal.{Proposal}
use cogg_cpp.Memory.{MemoryDb}
use cogg_cpp.Store.{AttemptBody, Capacity, Snapshot}
use cogg_cpp.Store.Commit.{CapacityCheck}
use cogg_cpp.Retrieval.{MemoryPolicy}
use cogg_cpp.Retrieval.Lanes.{Search, is_open_task}
use cogg_cpp.Retrieval.Candidates.{memory_candidates}
use cogg_cpp.Retrieval.Project.{View, Bounds, valid, project_memory}

-- A default MemoryPolicy with the bounds of the admission.
abbrev pub capacity_policy : Capacity → MemoryPolicy
capacity_policy c = record {
  query = [];
  max_bytes = c.max_bytes;
  max_items = c.max_items;
  candidate_limit = max 64 c.max_items;
  history = false;
  strategy = codes "balanced";
  maintenance_ids = [];
  synonyms = [];
  semantic_scorer = none;
}

abbrev pub promised : AttemptBody → Option Capacity
promised a = elim a.context [ none ↦ none | some c ↦ c.capacity ]

unfoldable pub check_capacity :
    Search → Bounds → MemoryDb → Snapshot → Option Capacity → Result (Unit {0})
unfolding memory_candidates project_memory
check_capacity search_index b db snap none = ok tt
check_capacity search_index b db snap (some c) = do
  cs ← memory_candidates search_index db snap.subject (some snap.tick) (capacity_policy c)
  v ← project_memory b snap cs (capacity_policy c)
  ok tt

-- The row of the subject has the tick of the snapshot when the check runs.
unfoldable pub memory_capacity : Search → Bounds → CapacityCheck
unfolding check_capacity
memory_capacity search_index b db snap a = check_capacity search_index b db snap (promised a)

-- A view within the bounds that shows every open task of the subject.
abbrev pub ShowsTasks : Bounds → Capacity → MemoryDb → Text → Type 0
ShowsTasks b c db subject =
    (v : View) × (valid b v ≡ true)
    × (v.policy ≡ capacity_policy c)
    × (all (λ e. not (is_open_task db subject e) || any (λ w. text_eq w.id e.id) v.items) db.entries
        ≡ true)
