-- ===== src/Retrieval/Tasks.antt =====
-- `memory_candidates` and `project_memory` of src/memory.cpp in turn: no open task is left out.
use cogg_cpp.Base.{
  ℕ, ◌≡◌, refl, ap, ◌∙◌, List, [], ◌∷◌, ◌&&◌, ◌||◌, Bool, true, not, any, all, Option, Text,
  text_eq, text_eq_refl, Result, ok, >>=-eq-ok, check-bind, row-bind, ok-injective, subst, arith,
  require_row, ◌>>=◌,
}
use cogg_cpp.Memory.{Entry, MemoryDb}
use cogg_cpp.Store.{Snapshot}
use cogg_cpp.Retrieval.{MemoryPolicy, protects_tasks, policy_ok}
use cogg_cpp.Retrieval.Lanes.{Search, is_open_task}
use cogg_cpp.Retrieval.Candidates.{
  count_rows, Candidates, Lanes, merge, mandatory_wires, lanes_of, memory_candidates,
}
use cogg_cpp.Retrieval.Project.{View, Bounds, project_memory}
use cogg_cpp.Retrieval.Shown.{project_memory-IsWithin, IsServed-id}
use cogg_cpp.Retrieval.Listed.{row_has, wire_has, mandatory_wires-ids}
use cogg_cpp.Retrieval.Required.{task_at, merge-task}

all-served :
    (r g : Entry → Bool) (es : List Entry)
    → ((e : Entry) → any (λ d. r d && row_has e.id d) es ≡ true → g e ≡ true)
    → all (λ e. not (r e) || g e) es ≡ true
all-served r g [] f = refl
all-served r g (e ∷ es) f =
    ground (arith, f e, text_eq_refl e.id, all-served r g es (λ d h. f d (ground (arith, h))))

lanes_of-mandatory :
    (search_index : Search) (db : MemoryDb) (subject : Text) (p : MemoryPolicy) (at : ℕ) (l : Lanes)
    → lanes_of search_index db subject p at ≡ ok l
    → mandatory_wires db subject p at ≡ ok l.mandatory
unfolding lanes_of
lanes_of-mandatory search_index db subject p at l h = ground (arith, h)

memory_candidates-merge :
    (search_index : Search) (db : MemoryDb) (subject : Text) (head : Option ℕ) (p : MemoryPolicy)
    (cs : Candidates)
    → memory_candidates search_index db subject head p ≡ ok cs
    → (at : ℕ) × (l : Lanes) × (lanes_of search_index db subject p at ≡ ok l)
      × (merge p l ≡ cs.entries)
unfolding memory_candidates
memory_candidates-merge search_index db subject head p cs h =
    let (passed, h) = check-bind (policy_ok p) (require_row head "subject missing" >>= next) h in
    let (at, row, h) = row-bind head "subject missing" next h in
    let (l, listed, h) = >>=-eq-ok (lanes_of search_index db subject p at) finish h in
    (at, l, listed, ap (λ x. x.entries) (ok-injective (found l) cs h))
  where
    found : Lanes → Candidates
    found l = record {
      entries = merge p l;
      total_deposits = count_rows subject db.entries;
      candidate_limit = p.candidate_limit;
    }

    finish : Lanes → Result Candidates
    finish l = ok (found l)

    next : ℕ → Result Candidates
    next at = lanes_of search_index db subject p at >>= finish

-- When the policy is one that protects tasks, and the candidates are found and the context is
-- projected without an error, each entry of the subject that is an open task, current and not
-- outdated, is an item of the view, under its id: if the open tasks do not fit, there is no view.
pub project_memory-memory_candidates :
    (search_index : Search) (b : Bounds) (db : MemoryDb) (s : Snapshot) (head : Option ℕ)
    (p : MemoryPolicy) (cs : Candidates) (v : View)
    → protects_tasks p ≡ true
    → memory_candidates search_index db s.subject head p ≡ ok cs
    → project_memory b s cs p ≡ ok v
    → all
        (λ e. not (is_open_task db s.subject e) || any (λ w. text_eq w.id e.id) v.items)
        db.entries
      ≡ true
project_memory-memory_candidates search_index b db s head p cs v protected found shown =
    let (at, l, listed, merged) =
      memory_candidates-merge search_index db s.subject head p cs found in
    let tasks =
      mandatory_wires-ids db s.subject p at l.mandatory protected
        (lanes_of-mandatory search_index db s.subject p at l listed) in
    all-served (is_open_task db s.subject) (λ e. any (wire_has e.id) v.items) db.entries
      (λ e is_open. IsServed-id e.id v cs.entries (project_memory-IsWithin b s cs p v shown).1 (
        subst (λ xs. any (task_at e.id) xs ≡ true) merged
          (merge-task p l e.id (tasks e.id ∙ is_open))))
