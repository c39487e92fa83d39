-- ===== src/SelfState/Kept.antt =====
-- What `apply` of src/self_state.cpp leaves of the commitments that there were.
use cogg_cpp.Base.{
  ◌≡◌, refl, sym, ap, ◌∙◌, subst, ◌⊎◌, inl, inr, List, [], ◌∷◌, ◌&&◌, true, false, if◌then◌else◌,
  Option, none, some, Text, codes, text_eq, text_eq→eq, text_eq_join, ok, Bool-cases, and_parts,
  ok-injective, require-bind, check-bind, row-bind, >>=-eq-ok, arith,
}
use cogg_cpp.Proposal.{Proposal, MemoryWrite, MemoryNote, has_type, is_empty}
use cogg_cpp.SelfState.{
  profile_key, profile_valid, is_reserved_key, is_commitment, Task, State, Grant, Documents, at_key,
}
use cogg_cpp.SelfState.Apply.{
  next_revision, revision_eq, apply_write, apply_memory, set_task, check_task, apply_note,
  apply_notes, apply,
}

pub at_key-set_task :
    (key other : Text) (t : Task) (tasks : List (Text × Task))
    → at_key other (set_task key t tasks)
      ≡ (if text_eq key other then some t else at_key other tasks)
unfolding set_task
at_key-set_task key other t [] = refl
at_key-set_task key other t ((k, u) ∷ rest) =
    ground (arith, text_eq→eq k key, text_eq_join k key other, at_key-set_task key other t rest)

-- A commitment after some proposals: its terms are the old ones, and once settled it stays as it is.
abbrev pub KeepsTask : Task → Option Task → Type 0
KeepsTask t none = ⊥
KeepsTask t (some u) = (u.text ≡ t.text) × ((text_eq t.task_status (codes "open") ≡ true) ⊎ (u ≡ t))

abbrev pub KeepsAt : Option Task → Option Task → Type 0
KeepsAt none o = Unit
KeepsAt (some t) o = KeepsTask t o

-- Every commitment is kept.
abbrev pub AreKept : State → State → Type 0
AreKept state next = (key : Text) → KeepsAt (at_key key state.tasks) (at_key key next.tasks)

KeepsAt-refl : (o : Option Task) → KeepsAt o o
KeepsAt-refl none = tt
KeepsAt-refl (some t) = (refl, inr refl)

KeepsAt-trans : (a b c : Option Task) → KeepsAt a b → KeepsAt b c → KeepsAt a c
KeepsAt-trans none b c h k = tt
KeepsAt-trans (some t) none c h k = elim h [ ]
KeepsAt-trans (some t) (some u) none h k = elim k [ ]
KeepsAt-trans (some t) (some u) (some v) (h, hs) (k, ks) = (
  k ∙ h,
  elim hs [
    | inl o ↦ inl o
    | inr e ↦ elim ks [
      | inl o ↦ inl (ap (λ x. text_eq x.task_status (codes "open")) (sym e) ∙ o)
      | inr f ↦ inr (f ∙ e)
    ]
  ],
)

pub AreKept-refl : (state : State) → AreKept state state
AreKept-refl state key = KeepsAt-refl (at_key key state.tasks)

pub AreKept-trans : (a b c : State) → AreKept a b → AreKept b c → AreKept a c
AreKept-trans a b c h k key =
    KeepsAt-trans (at_key key a.tasks) (at_key key b.tasks) (at_key key c.tasks) (h key) (k key)

check_task-KeepsAt :
    (g : Grant) (n : MemoryNote) (o : Option Task) (version : Text)
    → check_task g n o ≡ ok tt
    → KeepsAt o (some (record { text = n.text; task_status = n.note_status; version = version }))
unfolding check_task
check_task-KeepsAt g n none version h = tt
check_task-KeepsAt g n (some t) version h =
    let (q, h) = require-bind _ _ _ h in
    let (is_open, same) =
      and_parts (text_eq t.task_status (codes "open")) (text_eq t.text n.text) q in
    (sym (text_eq→eq t.text n.text same), inl is_open)

apply_note-AreKept :
    (g : Grant) (version : Text) (n : MemoryNote) (state next : State)
    → apply_note g version n state ≡ ok next
    → AreKept state next
unfolding apply_note
apply_note-AreKept g version n state next h key =
    let (shape, h) =
      require-bind
        (is_commitment n.key
          && (has_type n (codes "task") && (is_empty n.sources && is_empty n.covers)))
        "invalid self commitment note" _ h in
    let (checked, h) = check-bind (check_task g n (at_key n.key state.tasks)) _ h in
    subst (λ x. KeepsAt (at_key key state.tasks) (at_key key x.tasks)) (ok-injective changed next h)
      (subst (KeepsAt (at_key key state.tasks)) (sym (at_key-set_task n.key key task state.tasks))
        (elim (Bool-cases (text_eq n.key key)) [
          | inl q ↦ rw q (
              subst (λ k. KeepsAt (at_key k state.tasks) (some task)) (text_eq→eq n.key key q)
                (check_task-KeepsAt g n (at_key n.key state.tasks) version checked))
          | inr q ↦ rw q (KeepsAt-refl (at_key key state.tasks))
        ]))
  where
    task : Task
    task = record { text = n.text; task_status = n.note_status; version = version }

    changed : State
    changed = record state { tasks = set_task n.key task state.tasks }

apply_notes-AreKept :
    (g : Grant) (version : Text) (ns : List MemoryNote) (state next : State)
    → apply_notes g version ns state ≡ ok next
    → AreKept state next
unfolding apply_notes
apply_notes-AreKept g version [] state next h =
    subst (AreKept state) (ok-injective state next h) (AreKept-refl state)
apply_notes-AreKept g version (n ∷ ns) state next h =
    let (mid, first, h) =
      >>=-eq-ok (if is_reserved_key n.key then apply_note g version n state else ok state)
        (apply_notes g version ns) h in
    AreKept-trans state mid next (round mid (Bool-cases (is_reserved_key n.key)) first)
      (apply_notes-AreKept g version ns mid next h)
  where
    round :
        (mid : State)
        → (is_reserved_key n.key ≡ true) ⊎ (is_reserved_key n.key ≡ false)
        → (if is_reserved_key n.key then apply_note g version n state else ok state) ≡ ok mid
        → AreKept state mid
    round mid (inl q) e = apply_note-AreKept g version n state mid (ground (arith, q, e))
    round mid (inr q) e =
        subst (AreKept state) (ok-injective state mid (ground (arith, q, e))) (AreKept-refl state)

apply_write-AreKept :
    (d : Documents) (g : Grant) (version : Text) (w : MemoryWrite) (state next : State)
    → apply_write d g version w state ≡ ok next
    → next.tasks ≡ state.tasks
unfolding apply_write
apply_write-AreKept d g version w state next h =
    let (q, h) = require-bind (text_eq w.key profile_key) "reserved self memory key" _ h in
    let (granted, q, h) = row-bind g.profile "profile change not granted" _ h in
    let (p, q, h) = row-bind (d.read_profile w.value) "invalid self object fields" _ h in
    let (q, h) = check-bind (profile_valid d p) _ h in
    let (q, h) =
      require-bind
        (text_eq p.app_data granted
          && revision_eq p.revision (next_revision state.profile.revision))
        "profile change differs from grant" _ h in
    sym (
      ap (λ x. x.tasks)
        (ok-injective (record state { profile = p; profile_version = version }) next h))

apply_memory-AreKept :
    (d : Documents) (g : Grant) (version : Text) (ws : List MemoryWrite) (state next : State)
    → apply_memory d g version ws state ≡ ok next
    → next.tasks ≡ state.tasks
unfolding apply_memory
apply_memory-AreKept d g version [] state next h =
    sym (ap (λ x. x.tasks) (ok-injective state next h))
apply_memory-AreKept d g version (w ∷ ws) state next h =
    let (mid, first, h) =
      >>=-eq-ok (if is_reserved_key w.key then apply_write d g version w state else ok state)
        (apply_memory d g version ws) h in
    apply_memory-AreKept d g version ws mid next h
    ∙ round mid (Bool-cases (is_reserved_key w.key)) first
  where
    round :
        (mid : State)
        → (is_reserved_key w.key ≡ true) ⊎ (is_reserved_key w.key ≡ false)
        → (if is_reserved_key w.key then apply_write d g version w state else ok state) ≡ ok mid
        → mid.tasks ≡ state.tasks
    round mid (inl q) e = apply_write-AreKept d g version w state mid (ground (arith, q, e))
    round mid (inr q) e = sym (ap (λ x. x.tasks) (ok-injective state mid (ground (arith, q, e))))

-- Whatever the grant, a proposal that is applied leaves every commitment that there was: with its
-- terms, and, when it had been settled, exactly as it was.
pub apply-AreKept :
    (d : Documents) (state next : State) (p : Proposal) (g : Grant) (version : Text)
    → apply d state p g version ≡ ok next
    → AreKept state next
unfolding apply
apply-AreKept d state next p g version h key =
    let (mid, first, h) =
      >>=-eq-ok (apply_memory d g version p.memory state) (apply_notes g version p.notes) h in
    subst (λ ts. KeepsAt (at_key key ts) (at_key key next.tasks))
      (apply_memory-AreKept d g version p.memory state mid first)
      (apply_notes-AreKept g version p.notes mid next h key)
