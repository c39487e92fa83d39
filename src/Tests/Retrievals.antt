-- ===== src/Tests/Retrievals.antt =====
-- The theorems on retrieval, applied to a small memory.
use cogg_cpp.Base.{
  ℕ, ◌≡◌, refl, none, some, [], ◌∷◌, true, false, not, ◌||◌, any, all, map, All, Text, codes,
  text_eq, sort_by, Result, ok, err,
}
use cogg_cpp.Proposal.{MemoryNote}
use cogg_cpp.Memory.{Entry, MemoryDb}
use cogg_cpp.Store.{Snapshot, sleeping}
use cogg_cpp.Retrieval.{MemoryPolicy, policy_ok, protects_tasks}
use cogg_cpp.Retrieval.Words.{tokenize_words, terms, expand, expanded_terms, ascii_lower}
use cogg_cpp.Retrieval.Words.Quoted.{
  AreWords, read_query, tokenize_words-AreWords, read_query-terms,
}
use cogg_cpp.Retrieval.Words.Synonyms.{AreNew, expand-AreNew}
use cogg_cpp.Retrieval.Clusters.{clusters}
use cogg_cpp.Retrieval.Lanes.{Search, is_open_task, procedure_rows}
use cogg_cpp.Retrieval.Candidates.{Candidates, memory_candidates}
use cogg_cpp.Retrieval.Project.{View, Bounds, project_memory}
use cogg_cpp.Retrieval.Budgets.{IsWithin}
use cogg_cpp.Retrieval.Shown.{IsServed, project_memory-IsWithin}
use cogg_cpp.Retrieval.Tasks.{project_memory-memory_candidates}

abbrev question : Text
question = codes "my Car, red"

tokenize_words-AreWords_example : AreWords 32 (tokenize_words question 32)
tokenize_words-AreWords_example = tokenize_words-AreWords question 32

read_query-terms_example : read_query (terms question) ≡ some (tokenize_words question 32)
read_query-terms_example = read_query-terms question

expand-AreNew_example :
    AreNew (map ascii_lower (tokenize_words question 32)) (expand clusters question [])
    × (read_query (expanded_terms clusters question []) ≡ some (expand clusters question []))
expand-AreNew_example = expand-AreNew clusters question []

abbrev note_of : Text → Text → Text → MemoryNote
note_of key note_type note_status = record {
  key = key;
  text = codes "text";
  note_type = note_type;
  note_status = note_status;
  sources = [];
  covers = [];
}

abbrev entry_of : Text → ℕ → MemoryNote → Entry
entry_of id tick note = record {
  id = id;
  subject = codes "alice";
  key = note.key;
  tick = tick;
  commit = codes "c";
  previous = none;
  note = note;
  current = true;
}

-- An open task and a fact.
abbrev pub deposits : MemoryDb
deposits = record {
  entries =
      entry_of (codes "n1") 1 (note_of (codes "rent") (codes "task") (codes "open"))
      ∷ entry_of (codes "n2") 2 (note_of (codes "sky") (codes "fact") (codes "active"))
      ∷ [];
  links = [];
}

abbrev balanced : MemoryPolicy
balanced = record {
  query = codes "sky";
  max_bytes = 8192;
  max_items = 16;
  candidate_limit = 64;
  history = false;
  strategy = codes "balanced";
  maintenance_ids = [];
  synonyms = [];
  semantic_scorer = none;
}

abbrev pub search_all : Search
search_all query entries = entries

abbrev pub sizes : Bounds
sizes = record { size = λ v. 300; dump = λ t. t; fits = none }

abbrev present_state : Snapshot
present_state = record {
  subject = codes "alice";
  tick = 3;
  head = codes "head";
  memory = (codes "mood", codes "calm") ∷ [];
  wake_at = none;
  lifecycle = sleeping;
}

unfoldable found : Result Candidates
unfolding memory_candidates
found = memory_candidates search_all deposits (codes "alice") (some 3) balanced

unfoldable candidates : Candidates
unfolding found
candidates = elim found [
  | ok c ↦ c
  | err e ↦ record { entries = []; total_deposits = 0; candidate_limit = 0 }
]

found_lem : memory_candidates search_all deposits (codes "alice") (some 3) balanced ≡ ok candidates
unfolding candidates text_eq policy_ok sort_by terms procedure_rows
found_lem = refl

abbrev projected : Result View
projected = project_memory sizes present_state candidates balanced

unfoldable shown : View
unfolding candidates project_memory
shown = elim projected [
  | ok v ↦ v
  | err e ↦ record {
    memory = [];
    items = [];
    head = [];
    policy = balanced;
    total_deposits = 0;
    legacy_keys = 0;
    candidates = 0;
  }
]

shown_lem : project_memory sizes present_state candidates balanced ≡ ok shown
unfolding shown text_eq policy_ok sort_by terms procedure_rows
shown_lem = refl

shown_ids : map (λ w. w.id) shown.items ≡ codes "n1" ∷ codes "n2" ∷ []
unfolding shown text_eq policy_ok sort_by terms procedure_rows
shown_ids = refl

project_memory-IsWithin_example :
    IsWithin sizes balanced present_state.memory candidates.entries shown
    × All (IsServed shown) candidates.entries
project_memory-IsWithin_example =
    project_memory-IsWithin sizes present_state candidates balanced shown shown_lem

protected : protects_tasks balanced ≡ true
unfolding text_eq
protected = refl

project_memory-memory_candidates_example :
    all
      (λ e.
        not (is_open_task deposits (codes "alice") e) || any (λ w. text_eq w.id e.id) shown.items)
      deposits.entries
    ≡ true
project_memory-memory_candidates_example =
    project_memory-memory_candidates search_all sizes deposits present_state (some 3) balanced
      candidates shown protected found_lem shown_lem
