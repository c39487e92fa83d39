-- ===== src/Retrieval/Project.antt =====
-- `project_memory` of src/memory.cpp: what of the candidates and of the legacy memory fits a context.
-- The size of the dump and the backend's test of fit are arguments.
use cogg_cpp.Base.{
  ℕ, ◌+◌, List, [], ◌∷◌, ◌++◌, map, ◌&&◌, ◌||◌, Bool, true, false, not, leb, if◌then◌else◌, length,
  find, keep, Option, none, some, Text, text_eq, overflow, Result, ok, err, ◌>>=◌, ◌>>◌, ◌==◌,
}
use cogg_cpp.Proposal.{is_empty}
use cogg_cpp.Store.{Memory, Snapshot, assign}
use cogg_cpp.Retrieval.{MemoryPolicy, Wire, policy_ok}
use cogg_cpp.Retrieval.Candidates.{Candidate, Candidates}

-- `working_memory`, and the members of `memory_view` that vary or that its checks read.
pub record View : Type 0 where
  pub memory : Memory
  pub items : List Wire
  pub head : Text
  pub policy : MemoryPolicy
  pub total_deposits : ℕ
  pub legacy_keys : ℕ
  pub candidates : ℕ

-- The size of the dump of {"memory", "view"}, the dump of a string, and `fits` when the caller passes
-- one.
pub record Bounds : Type 0 where
  pub size : View → ℕ
  pub dump : Text → Text
  pub fits : Option (View → Bool)

abbrev pub all_fits : Option (View → Bool) → View → Bool
all_fits none v = true
all_fits (some f) v = f v

-- valid()
abbrev pub valid : Bounds → View → Bool
valid b v =
    leb (length v.memory + length v.items) v.policy.max_items
    && (leb (b.size v) v.policy.max_bytes && all_fits b.fits v)

abbrev pub push : Wire → View → View
push w v = record v { items = v.items ++ w ∷ [] }

-- The loop over the required candidates.
unfoldable pub push_required : Bounds → List Candidate → View → Result View
push_required b [] v = ok v
push_required b (c ∷ rest) v =
    if c.required
    then (if valid b (push c.entry v)
        then push_required b rest (push c.entry v)
        else err (overflow "memory pressure: open tasks exceed context budget"))
    else push_required b rest v

-- std::string::find
unfoldable pub starts_with : Text → Text → Bool
starts_with [] s = true
starts_with (a ∷ p) [] = false
starts_with (a ∷ p) (c ∷ s) = (a == c) && starts_with p s

unfoldable pub contains_text : Text → Text → Bool
unfolding starts_with
contains_text p [] = is_empty p
contains_text p (c ∷ s) = starts_with p (c ∷ s) || contains_text p s

abbrev pub value_at : Memory → Text → Text
value_at m k = elim (find (λ kv. text_eq kv.0 k) m) [ none ↦ [] | some kv ↦ kv.1 ]

unfoldable pub score : (Text → Text) → Memory → Text → Text → Bool
unfolding contains_text
score dump legacy query k =
    not (is_empty query)
    && (contains_text k query || contains_text query (dump (value_at legacy k)))

-- The keys in order, those with a score first: std::stable_sort by score.
unfoldable pub sorted_keys : (Text → Text) → Memory → Text → List Text
unfolding score
sorted_keys dump legacy query =
    let keys = map (λ kv. kv.0) legacy in
    keep (score dump legacy query) keys ++ keep (λ k. not (score dump legacy query k)) keys

unfoldable pub try_item : Bounds → Candidate → View → View
try_item b c v = if c.required then v else if valid b (push c.entry v) then push c.entry v else v

unfoldable pub try_key : Bounds → Memory → Text → View → View
unfolding assign
try_key b legacy k v =
    let w : View = record v { memory = assign k (value_at legacy k) v.memory } in
    if valid b w then w else v

-- The loop of candidates and keys side by side, to the end of the longer list.
unfoldable pub fill : Bounds → Memory → List Candidate → List Text → View → View
unfolding try_item try_key
fill b legacy [] [] v = v
fill b legacy (c ∷ cs) [] v = fill b legacy cs [] (try_item b c v)
fill b legacy [] (k ∷ ks) v = fill b legacy [] ks (try_key b legacy k v)
fill b legacy (c ∷ cs) (k ∷ ks) v = fill b legacy cs ks (try_key b legacy k (try_item b c v))

abbrev pub fixed_view : Snapshot → Candidates → MemoryPolicy → View
fixed_view s candidates policy = record {
  memory = [];
  items = [];
  head = s.head;
  policy = policy;
  total_deposits = candidates.total_deposits;
  legacy_keys = length s.memory;
  candidates = length candidates.entries;
}

unfoldable pub project_memory : Bounds → Snapshot → Candidates → MemoryPolicy → Result View
unfolding push_required sorted_keys fill
project_memory b s candidates policy = do
  policy_ok policy
  let start = fixed_view s candidates policy
  if valid b start then ok tt else err (overflow "memory pressure: fixed context exceeds budget")
  v ← push_required b candidates.entries start
  ok (fill b s.memory candidates.entries (sorted_keys b.dump s.memory policy.query) v)
