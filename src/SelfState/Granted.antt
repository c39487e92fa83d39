-- ===== src/SelfState/Granted.antt =====
-- What of self state a commit can write when the guard of src/self_state.cpp stands in it.
use cogg_cpp.Base.{
  ℕ, ◌≡◌, refl, sym, ap, ◌∙◌, subst, ◌⊎◌, inl, inr, List, [], ◌∷◌, true, if◌then◌else◌, All, Option,
  none, some, Text, text_eq, text_eq→eq, text_eq_refl, text_eq_join, ok, Bool-cases, arith,
}
use cogg_cpp.Proposal.{Proposal, MemoryWrite}
use mathlib.Core.Option.{some-injective}
use cogg_cpp.Store.{
  Body, snapshot_of, State, Codec, AttemptRow, SubjectRow, Snapshot, Memory, Emission, assign,
  apply_writes, attempt_row, subject_row,
}
use cogg_cpp.Store.Commit.Effect.{commit-Accepted, body_of}
use cogg_cpp.Store.Commit.Once.{find-update}
use cogg_cpp.Store.Commit.{CapacityCheck, commit_locked}
use cogg_cpp.SelfState.{is_reserved_key, Documents, at_key}
use cogg_cpp.SelfState.Guard.{self_guard}
use cogg_cpp.SelfState.Allowed.{AllowedIn, self_guard-AllowedIn, IsGrantedIn}

at_key-assign :
    (key other value : Text) (m : Memory)
    → at_key other (assign key value m) ≡ (if text_eq key other then some value else at_key other m)
unfolding assign
at_key-assign key other value [] = refl
at_key-assign key other value ((j, w) ∷ m) =
    ground (arith, text_eq→eq key j, text_eq_join key j other, at_key-assign key other value m)

-- A key that changes is given a value that one of the writes has.
apply_writes-at :
    (P : MemoryWrite → Type 0) (key : Text) (ws : List MemoryWrite) (m : Memory)
    → All P ws
    → (at_key key (apply_writes ws m) ≡ at_key key m)
      ⊎ ((w : MemoryWrite) × P w × (w.key ≡ key) × (at_key key (apply_writes ws m) ≡ some w.value))
unfolding apply_writes
apply_writes-at P key [] m h = inl refl
apply_writes-at P key (w ∷ ws) m (h, hs) =
    elim (apply_writes-at P key ws (assign w.key w.value m) hs) [
      | inr k ↦ inr k
      | inl e ↦ elim (Bool-cases (text_eq w.key key)) [
        | inl q ↦
            inr (
              w,
              h,
              text_eq→eq w.key key q,
              ground (arith, e, q, at_key-assign w.key key w.value m),
            )
        | inr q ↦ inl (ground (arith, e, q, at_key-assign w.key key w.value m))
      ]
    ]

-- A commit that the guard of self state let through, of a backend and not of a disposition, leaves
-- the reserved keys of the subject's memory as they were, but for the profile, which changes only to
-- a valid profile whose data is what the grant in the one packet of the admission names.
pub commit_locked-self_guard :
    (d : Documents) (codec : Codec) (capacity : CapacityCheck) (s t : State) (attempt : Text)
    (proposal : Proposal) (now : ℕ) (elapsed : Option ℕ) (emission : Option Emission)
    (snap : Snapshot) (row : AttemptRow) (key : Text)
    → commit_locked codec
        (some (self_guard d codec))
        capacity
        s
        attempt
        proposal
        now
        elapsed
        emission
        none
      ≡ ok (t, snap)
    → attempt_row s attempt ≡ some row
    → is_reserved_key key ≡ true
    → (old next : SubjectRow) × (subject_row s row.body.subject ≡ some old)
      × (subject_row t row.body.subject ≡ some next)
      × ((at_key key next.memory ≡ at_key key old.memory)
          ⊎ ((value : Text) × (at_key key next.memory ≡ some value)
              × IsGrantedIn d row.body key value))
unfolding subject_row
commit_locked-self_guard d codec capacity s t attempt proposal now elapsed emission snap row key h
      found reserved =
    let acc =
      commit-Accepted codec (some (self_guard d codec)) capacity s attempt proposal now elapsed
        emission none t snap h in
    let a = acc.row.body in
    let same : acc.row ≡ row = some-injective acc.row row (sym acc.found ∙ found) in
    let allowed =
      self_guard-AllowedIn d codec a.subject (snapshot_of acc.r) a proposal acc.passed in
    let b = body_of a acc.r attempt proposal now acc.at acc.plan elapsed emission none in
    let f : SubjectRow → SubjectRow = (λ r. record r {
      tick = b.tick;
      head = codec.hash (Body.commit b);
      memory = b.memory;
      wake = b.wake_at;
      accounting_wall = b.committed_at;
    }) in
    subst
      (λ x.
        (old next : SubjectRow) × (subject_row s x.body.subject ≡ some old)
        × (subject_row t x.body.subject ≡ some next)
        × ((at_key key next.memory ≡ at_key key old.memory)
            ⊎ ((value : Text) × (at_key key next.memory ≡ some value)
                × IsGrantedIn d x.body key value)))
      same
      (
        acc.r,
        f acc.r,
        acc.subject,
        ground (
          arith,
          acc.state,
          text_eq_refl a.subject,
          find-update b.subject b.subject f s.subjects acc.r (λ r. refl) acc.subject,
        ),
        elim (apply_writes-at (AllowedIn d a) key proposal.memory acc.r.memory allowed) [
          | inl e ↦ inl e
          | inr (w, k, named, e) ↦ elim k [
            | inl q ↦ ground (arith, ap is_reserved_key named, q, reserved)
            | inr k ↦ inr (w.value, e, subst (λ i. IsGrantedIn d a i w.value) named k)
          ]
        ],
      )
