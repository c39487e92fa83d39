-- ===== src/Store/Commit/Once.antt =====
-- A commit happens once, and moves its subject by one tick: theorems on `Store::commit_locked` of
-- src/kernel.cpp.
use cogg_cpp.Base.{
  if◌then◌else◌, ℕ, ◌+◌, ◌≡◌, refl, sym, ap, ◌∙◌, subst, ◌⊎◌, inl, inr, Bool-cases, Option, none,
  some, List, [], ◌∷◌, true, false, find, Text, text_eq, text_eq→eq, text_eq_iff, ok, err, conflict,
  arith,
}
use cogg_cpp.Proposal.{Proposal, validate}
use mathlib.Core.Option.{some-injective}
use cogg_cpp.Wake.{wake_plan}
use cogg_cpp.Memory.{MemoryDb}
use cogg_cpp.Store.{
  State, Codec, Body, CommitBody, AttemptRow, SubjectRow, OccasionRow, Emission, Disposition,
  Snapshot, committed, is_reserved, attempt_row, subject_row, occasion_row, apply_writes,
  update_subject, update_attempt, admissions,
}
use cogg_cpp.Store.Rows.{
  has_attempt_id, has_subject_id, find-update_attempt, find-update_attempt_ne, find-update_subject,
  find-update_subject_ne,
}
use cogg_cpp.Store.Commit.{
  TransitionGuard, CapacityCheck, delay_of, is_null, consume, supersede_one, supersede_attempts,
  commit_locked,
}
use cogg_cpp.Store.Commit.Effect.{commit-Accepted, body_of, written}

pub find-supersede :
    (id subject parent : Text) (rows : List AttemptRow)
    → find (has_attempt_id id) (supersede_attempts subject parent rows)
      ≡ elim (find (has_attempt_id id) rows) [
        | none ↦ none
        | some a ↦ some (supersede_one subject parent a)
      ]
unfolding supersede_attempts
find-supersede id subject parent [] = refl
find-supersede id subject parent (a ∷ rest) = ground (arith, find-supersede id subject parent rest)

pub find-consume :
    (oid commit : Text) (rows : List OccasionRow) (o : OccasionRow)
    → find (λ x. text_eq x.id oid) rows ≡ some o
    → is_null o.consumed ≡ true
    → find (λ x. text_eq x.id oid) (consume oid commit rows)
      ≡ some (record o { consumed = some commit })
unfolding consume
find-consume oid commit [] o e h = cc
find-consume oid commit (x ∷ rest) o e h = ground (arith, find-consume oid commit rest o)

-- A settled attempt cannot be committed.
settled_conflict :
    (codec : Codec) (guard : Option TransitionGuard) (capacity : CapacityCheck) (s : State)
    (attempt : Text) (proposal : Proposal) (now : ℕ) (elapsed : Option ℕ)
    (emission : Option Emission) (disposition : Option Disposition) (row : AttemptRow)
    → validate proposal ≡ ok tt
    → attempt_row s attempt ≡ some row
    → is_reserved row.status ≡ false
    → commit_locked codec guard capacity s attempt proposal now elapsed emission disposition
      ≡ err (conflict "attempt already settled")
unfolding commit_locked
settled_conflict codec guard capacity s attempt proposal now elapsed emission disposition row v e
      n =
    rw (v, e, n)

-- In the state that a commit writes, the committed attempt is settled,
pub committed_after :
    (codec : Codec) (s : State) (b : CommitBody) (memory : MemoryDb) (id : Text) (a : AttemptRow)
    → attempt_row s id ≡ some a
    → text_eq b.attempt id ≡ true
    → (row : AttemptRow) × (attempt_row (written codec s b memory) id ≡ some row)
      × (is_reserved row.status ≡ false)
unfolding attempt_row
committed_after codec s b memory id a e same = (
  supersede_one b.subject b.parent (record a { status = committed }),
  ground (
    arith,
    text_eq→eq b.attempt id same,
    find-supersede id b.subject b.parent
        (update_attempt b.attempt (λ (r : AttemptRow). record r { status = committed }) s.attempts),
    find-update_attempt id (λ (r : AttemptRow). record r { status = committed }) s.attempts
        (λ x. refl),
    e,
  ),
  ground arith,
)

-- and so is an attempt that was reserved at the old head.
attempt_after :
    (codec : Codec) (s : State) (b : CommitBody) (memory : MemoryDb) (id : Text) (a : AttemptRow)
    → attempt_row s id ≡ some a
    → ((text_eq b.attempt id ≡ true)
        ⊎ ((text_eq a.subject b.subject ≡ true) × (text_eq a.parent b.parent ≡ true)))
    → (row : AttemptRow) × (attempt_row (written codec s b memory) id ≡ some row)
      × (is_reserved row.status ≡ false)
unfolding attempt_row
attempt_after codec s b memory id a e (inl same) = committed_after codec s b memory id a e same
attempt_after codec s b memory id a e (inr (mine, old)) = elim (Bool-cases (text_eq b.attempt id)) [
  | inl same ↦ committed_after codec s b memory id a e same
  | inr other ↦ (
    supersede_one b.subject b.parent a,
    ground (
      arith,
      find-supersede id b.subject b.parent (
          update_attempt b.attempt (λ (r : AttemptRow). record r { status = committed })
            s.attempts),
      find-update_attempt_ne b.attempt id (λ (r : AttemptRow). record r { status = committed })
          s.attempts (λ x. refl) other,
      e,
    ),
    ground arith,
  )
]

-- In the state that a commit leaves, a commit of a valid proposal for the same attempt, or for
-- another attempt of the subject that was admitted at the same head, is refused with a conflict,
-- whatever its time, emission or disposition.
pub commit_once :
    (codec : Codec) (guard : Option TransitionGuard) (capacity : CapacityCheck) (s t : State)
    (attempt : Text) (proposal : Proposal) (now : ℕ) (elapsed : Option ℕ)
    (emission : Option Emission) (disposition : Option Disposition) (snap : Snapshot) (rival : Text)
    (a row : AttemptRow) (other : Proposal) (later : ℕ) (elapsed' : Option ℕ)
    (emission' : Option Emission) (disposition' : Option Disposition)
    → commit_locked codec guard capacity s attempt proposal now elapsed emission disposition
      ≡ ok (t, snap)
    → attempt_row s attempt ≡ some row
    → attempt_row s rival ≡ some a
    → ((rival ≡ attempt) ⊎ ((a.subject ≡ row.body.subject) × (a.parent ≡ row.body.parent)))
    → validate other ≡ ok tt
    → commit_locked codec guard capacity t rival other later elapsed' emission' disposition'
      ≡ err (conflict "attempt already settled")
commit_once codec guard capacity s t attempt proposal now elapsed emission disposition snap rival a
      row other later elapsed' emission' disposition' returned mine theirs same v =
    let acc =
      commit-Accepted codec guard capacity s attempt proposal now elapsed emission disposition t
        snap returned in
    let b =
      body_of acc.row.body acc.r attempt proposal now acc.at acc.plan elapsed emission
        disposition in
    let (settled, e, done) = attempt_after codec s b acc.memory rival a theirs (
      same_head acc.row row acc.r.head (some-injective _ _ (sym acc.found ∙ mine)) acc.head same) in
    settled_conflict codec guard capacity t rival other later elapsed' emission' disposition'
      settled v (subst (λ x. attempt_row x rival ≡ some settled) (sym acc.state) e) done
  where
    same_head :
        (found row : AttemptRow) (head : Text)
        → found ≡ row
        → head ≡ found.body.parent
        → (rival ≡ attempt) ⊎ ((a.subject ≡ row.body.subject) × (a.parent ≡ row.body.parent))
        → (text_eq attempt rival ≡ true)
          ⊎ ((text_eq a.subject found.body.subject ≡ true) × (text_eq a.parent head ≡ true))
    same_head found row head p h (inl q) = inl ((text_eq_iff attempt rival).1 (sym q))
    same_head found row head p h (inr (q, k)) = inr (
      (text_eq_iff _ _).1 (q ∙ ap (λ (x : AttemptRow). x.body.subject) (sym p)),
      (text_eq_iff _ _).1 (k ∙ ap (λ (x : AttemptRow). x.body.parent) (sym p) ∙ sym h),
    )

-- What a commit of a proposal makes of a state: `b` is the commit's body, `old` and `next` the row of
-- its subject before and after.
abbrev pub Advances : Codec → State → State → Text → Proposal → Type 0
Advances codec s t attempt proposal =
    (b : CommitBody) × (row : AttemptRow) × (old next : SubjectRow) × (o : OccasionRow)
    × (attempt_row s attempt ≡ some row)
    × (b.attempt ≡ attempt)
    × (b.proposal ≡ proposal)
    × (b.subject ≡ row.body.subject)
    × (b.occasion ≡ row.body.occasion)
    × (wake_plan old.limits (delay_of proposal.wake_after_ms) b.committed_at none
          (admissions b.subject s.attempts)
        ≡ ok b.plan)
    × (subject_row s b.subject ≡ some old)
    × (next.head ≡ codec.hash (Body.commit b))
    × (b.parent ≡ old.head)
    × (next.tick ≡ old.tick + 1)
    × (next.memory ≡ apply_writes proposal.memory old.memory)
    × (next.wake ≡ b.plan.granted_at)
    × (next.limits ≡ old.limits)
    × ((other : Text)
        → subject_row t other
          ≡ (if text_eq b.subject other then some next else subject_row s other))
    × (occasion_row s b.occasion ≡ some o)
    × (is_null o.consumed ≡ true)
    × (occasion_row t b.occasion ≡ some (record o { consumed = some next.head }))

-- The row of a subject after an update, whichever subject it is of.
pub find-update :
    (subject other : Text) (f : SubjectRow → SubjectRow) (rows : List SubjectRow) (r : SubjectRow)
    → ((x : SubjectRow) → (f x).id ≡ x.id)
    → find (has_subject_id subject) rows ≡ some r
    → find (has_subject_id other) (update_subject subject f rows)
      ≡ (if text_eq subject other then some (f r) else find (has_subject_id other) rows)
find-update subject other f rows r same e = elim (Bool-cases (text_eq subject other)) [
  | inl q ↦
      ground (arith, q, text_eq→eq subject other q, find-update_subject subject f rows same, e)
  | inr q ↦ ground (arith, q, find-update_subject_ne subject other f rows same q)
]

-- A commit moves the subject of its attempt to the next tick, whose head is the hash of a body that
-- holds the attempt and the proposal and names the old head as its parent, and whose memory is the old
-- one with the proposal's writes; the wake is what the wake plan of the proposal's delay grants. Every other subject is as it was, and the occasion, which no commit had consumed, is
-- consumed by the new one.
pub commit-Advances :
    (codec : Codec) (guard : Option TransitionGuard) (capacity : CapacityCheck) (s t : State)
    (attempt : Text) (proposal : Proposal) (now : ℕ) (elapsed : Option ℕ)
    (emission : Option Emission) (disposition : Option Disposition) (snap : Snapshot)
    → commit_locked codec guard capacity s attempt proposal now elapsed emission disposition
      ≡ ok (t, snap)
    → Advances codec s t attempt proposal
unfolding subject_row occasion_row
commit-Advances codec guard capacity s t attempt proposal now elapsed emission disposition snap e =
    let acc =
      commit-Accepted codec guard capacity s attempt proposal now elapsed emission disposition t
        snap e in
    let b =
      body_of acc.row.body acc.r attempt proposal now acc.at acc.plan elapsed emission
        disposition in
    let f : SubjectRow → SubjectRow = (λ r. record r {
      tick = b.tick;
      head = codec.hash (Body.commit b);
      memory = b.memory;
      wake = b.wake_at;
      accounting_wall = b.committed_at;
    }) in
    (
      b,
      acc.row,
      acc.r,
      f acc.r,
      acc.o,
      acc.found,
      refl,
      refl,
      refl,
      refl,
      acc.planned,
      acc.subject,
      refl,
      refl,
      omega arith,
      refl,
      refl,
      refl,
      λ other. ground (
        arith,
        acc.state,
        find-update b.subject other f s.subjects acc.r (λ r. refl) acc.subject,
      ),
      acc.occasion,
      acc.unconsumed,
      ground (
        arith,
        acc.state,
        find-consume b.occasion (codec.hash (Body.commit b)) s.occasions acc.o acc.occasion
            acc.unconsumed,
      ),
    )
