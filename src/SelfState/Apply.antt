-- ===== src/SelfState/Apply.antt =====
-- `protected_write` and `apply` of src/self_state.cpp: what a proposal does to the self state of a
-- subject under a grant.
use cogg_cpp.Base.{
  zero, suc, ◌==◌, List, [], ◌∷◌, ◌&&◌, ◌||◌, Bool, false, if◌then◌else◌, any, Option, none, some,
  Text, codes, text_eq, text_lt, ℤ, pos, negsuc, Result, ok, require, require_row, ◌>>=◌, ◌>>◌,
}
use cogg_cpp.Proposal.{Proposal, MemoryWrite, MemoryNote, has_type, has_status, is_empty}
use cogg_cpp.SelfState.{
  profile_key, is_reserved_key, is_commitment, Task, State, Settlement, Grant, Documents,
  profile_valid, at_key,
}

unfoldable pub protected_write : Proposal → Bool
unfolding is_reserved_key
protected_write p =
    any (λ w. is_reserved_key w.key) p.memory || any (λ n. is_reserved_key n.key) p.notes

-- revision + 1, and operator== of two revisions.
abbrev pub next_revision : ℤ → ℤ
next_revision (pos n) = pos (suc n)
next_revision (negsuc zero) = pos 0
next_revision (negsuc (suc n)) = negsuc n

abbrev pub revision_eq : ℤ → ℤ → Bool
revision_eq (pos a) (pos b) = a == b
revision_eq (negsuc a) (negsuc b) = a == b
revision_eq _ _ = false

-- The round of the first loop for a reserved key.
unfoldable pub apply_write : Documents → Grant → Text → MemoryWrite → State → Result State
unfolding profile_valid
apply_write d g version w state = do
  require (text_eq w.key profile_key) "reserved self memory key"
  granted ← require_row g.profile "profile change not granted"
  p ← require_row (d.read_profile w.value) "invalid self object fields"
  profile_valid d p
  require
      (text_eq p.app_data granted && revision_eq p.revision (next_revision state.profile.revision))
      "profile change differs from grant"
  ok (record state { profile = p; profile_version = version })

unfoldable pub apply_memory : Documents → Grant → Text → List MemoryWrite → State → Result State
unfolding apply_write is_reserved_key
apply_memory d g version [] state = ok state
apply_memory d g version (w ∷ rest) state = do
  next ← if is_reserved_key w.key then apply_write d g version w state else ok state
  apply_memory d g version rest next

-- state.tasks[key] = task
unfoldable pub set_task : Text → Task → List (Text × Task) → List (Text × Task)
set_task key t [] = (key, t) ∷ []
set_task key t ((k, u) ∷ rest) =
    if text_eq k key
    then (key, t) ∷ rest
    else if text_lt key k
    then (key, t) ∷ (k, u) ∷ rest
    else (k, u) ∷ set_task key t rest

abbrev text_at : Option Text → Text → Bool
text_at none text = false
text_at (some granted) text = text_eq granted text

abbrev settles_as : Option Settlement → Text → Text → Bool
settles_as none task_status version = false
settles_as (some s) task_status version =
    text_eq s.task_status task_status && text_eq s.version version

-- Whether the grant allows the note, given the commitment that has its key.
unfoldable pub check_task : Grant → MemoryNote → Option Task → Result (Unit {0})
check_task g n none =
    require (has_status n (codes "open") && text_at (at_key n.key g.create) n.text)
      "commitment creation not granted"
check_task g n (some old) = do
  require (text_eq old.task_status (codes "open") && text_eq old.text n.text)
      "commitment terms immutable or ID settled"
  require (settles_as (at_key n.key g.settle) n.note_status old.version)
      "commitment settlement not granted"

-- The round of the second loop for a reserved key.
unfoldable pub apply_note : Grant → Text → MemoryNote → State → Result State
unfolding is_commitment check_task set_task
apply_note g version n state = do
  require
      (is_commitment n.key
        && (has_type n (codes "task") && (is_empty n.sources && is_empty n.covers)))
      "invalid self commitment note"
  check_task g n (at_key n.key state.tasks)
  ok (record state {
    tasks =
        set_task n.key (record { text = n.text; task_status = n.note_status; version = version })
          state.tasks;
  })

unfoldable pub apply_notes : Grant → Text → List MemoryNote → State → Result State
unfolding apply_note is_reserved_key
apply_notes g version [] state = ok state
apply_notes g version (n ∷ rest) state = do
  next ← if is_reserved_key n.key then apply_note g version n state else ok state
  apply_notes g version rest next

unfoldable pub apply : Documents → State → Proposal → Grant → Text → Result State
unfolding apply_memory apply_notes
apply d state p g version = do
  mid ← apply_memory d g version p.memory state
  apply_notes g version p.notes mid
