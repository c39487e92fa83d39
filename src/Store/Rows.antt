-- ===== src/Store/Rows.antt =====
-- The updates of src/kernel.cpp on rows that are looked up by their id: what an UPDATE leaves at an
-- id, and what it leaves alone.
use cogg_cpp.Base.{
  ◌≡◌, refl, none, some, List, [], ◌∷◌, Bool, false, find, Text, text_eq, text_eq_iff, arith,
}
use cogg_cpp.Store.{SubjectRow, AttemptRow, update_attempt, update_subject, admissions}

abbrev pub has_attempt_id : Text → AttemptRow → Bool
has_attempt_id id a = text_eq a.id id

abbrev pub has_subject_id : Text → SubjectRow → Bool
has_subject_id id r = text_eq r.id id

-- An update of the row with an id, at that id and at another, where it keeps the id.
pub find-update_attempt :
    (id : Text) (f : AttemptRow → AttemptRow) (rows : List AttemptRow)
    → ((a : AttemptRow) → (f a).id ≡ a.id)
    → find (has_attempt_id id) (update_attempt id f rows)
      ≡ elim (find (has_attempt_id id) rows) [ none ↦ none | some a ↦ some (f a) ]
unfolding update_attempt
find-update_attempt id f [] h = refl
find-update_attempt id f (a ∷ rest) h = ground (arith, h a, find-update_attempt id f rest h)

pub find-update_attempt_ne :
    (id other : Text) (f : AttemptRow → AttemptRow) (rows : List AttemptRow)
    → ((a : AttemptRow) → (f a).id ≡ a.id)
    → text_eq id other ≡ false
    → find (has_attempt_id other) (update_attempt id f rows) ≡ find (has_attempt_id other) rows
unfolding update_attempt
find-update_attempt_ne id other f [] h ne = refl
find-update_attempt_ne id other f (a ∷ rest) h ne = ground (
  arith,
  h a,
  text_eq_iff a.id id,
  text_eq_iff a.id other,
  text_eq_iff id other,
  find-update_attempt_ne id other f rest h ne,
)

pub find-update_subject :
    (id : Text) (f : SubjectRow → SubjectRow) (rows : List SubjectRow)
    → ((r : SubjectRow) → (f r).id ≡ r.id)
    → find (has_subject_id id) (update_subject id f rows)
      ≡ elim (find (has_subject_id id) rows) [ none ↦ none | some r ↦ some (f r) ]
unfolding update_subject
find-update_subject id f [] h = refl
find-update_subject id f (r ∷ rest) h = ground (arith, h r, find-update_subject id f rest h)

pub find-update_subject_ne :
    (id other : Text) (f : SubjectRow → SubjectRow) (rows : List SubjectRow)
    → ((r : SubjectRow) → (f r).id ≡ r.id)
    → text_eq id other ≡ false
    → find (has_subject_id other) (update_subject id f rows) ≡ find (has_subject_id other) rows
unfolding update_subject
find-update_subject_ne id other f [] h ne = refl
find-update_subject_ne id other f (r ∷ rest) h ne = ground (
  arith,
  h r,
  text_eq_iff r.id id,
  text_eq_iff r.id other,
  text_eq_iff id other,
  find-update_subject_ne id other f rest h ne,
)

-- An update that keeps who was admitted when keeps the admissions.
pub admissions-update :
    (subject id : Text) (f : AttemptRow → AttemptRow) (rows : List AttemptRow)
    → ((a : AttemptRow)
        → ((f a).subject ≡ a.subject) × ((f a).seq ≡ a.seq) × ((f a).admitted_at ≡ a.admitted_at))
    → admissions subject (update_attempt id f rows) ≡ admissions subject rows
unfolding update_attempt admissions
admissions-update subject id f [] h = refl
admissions-update subject id f (a ∷ rest) h =
    ground (arith, h a, admissions-update subject id f rest h)
