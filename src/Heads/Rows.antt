-- ===== src/Heads/Rows.antt =====
-- The columns and the ids of attempts under the updates of src/kernel.cpp.
use cogg_cpp.Base.{◌≡◌, refl, List, [], ◌∷◌, any, All, Text, text_eq, arith}
use cogg_cpp.Store.{AttemptRow, update_attempt}
use cogg_cpp.Store.Commit.{supersede_attempts}
use cogg_cpp.Heads.{Columns, HaveDistinctIds}

-- An update that keeps what an attempt is.
abbrev pub KeepsColumns : (AttemptRow → AttemptRow) → Type 0
KeepsColumns f =
    (x : AttemptRow)
    → ((f x).id ≡ x.id)
      × ((f x).subject ≡ x.subject)
      × ((f x).parent ≡ x.parent)
      × ((f x).body ≡ x.body)

module _ (f : AttemptRow → AttemptRow) (id : Text) (keeps : KeepsColumns f) where
  pub Columns-update :
      (rows : List AttemptRow) → All Columns rows → All Columns (update_attempt id f rows)
  unfolding update_attempt
  Columns-update [] h = tt
  Columns-update (x ∷ rest) (h, hs) = ground (arith, keeps x, Columns-update rest hs)

  ids_update :
      (other : Text) (rows : List AttemptRow)
      → any (λ x. text_eq x.id other) (update_attempt id f rows)
        ≡ any (λ x. text_eq x.id other) rows
  unfolding update_attempt
  ids_update other [] = refl
  ids_update other (x ∷ rest) = ground (arith, keeps x, ids_update other rest)

  pub distinct_update :
      (rows : List AttemptRow) → HaveDistinctIds rows → HaveDistinctIds (update_attempt id f rows)
  unfolding update_attempt
  distinct_update [] h = tt
  distinct_update (x ∷ rest) (h, hs) =
      (ground (arith, keeps x, h, ids_update x.id rest), distinct_update rest hs)

pub Columns-supersede :
    (subject parent : Text) (rows : List AttemptRow)
    → All Columns rows
    → All Columns (supersede_attempts subject parent rows)
unfolding supersede_attempts
Columns-supersede subject parent [] h = tt
Columns-supersede subject parent (x ∷ rest) (h, hs) =
    ground (arith, h, Columns-supersede subject parent rest hs)

ids_supersede :
    (subject parent other : Text) (rows : List AttemptRow)
    → any (λ x. text_eq x.id other) (supersede_attempts subject parent rows)
      ≡ any (λ x. text_eq x.id other) rows
unfolding supersede_attempts
ids_supersede subject parent other [] = refl
ids_supersede subject parent other (x ∷ rest) =
    ground (arith, ids_supersede subject parent other rest)

pub distinct_supersede :
    (subject parent : Text) (rows : List AttemptRow)
    → HaveDistinctIds rows
    → HaveDistinctIds (supersede_attempts subject parent rows)
unfolding supersede_attempts
distinct_supersede subject parent [] h = tt
distinct_supersede subject parent (x ∷ rest) (h, hs) = (
  ground (arith, h, ids_supersede subject parent x.id rest),
  distinct_supersede subject parent rest hs,
)
