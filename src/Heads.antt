-- ===== src/Heads.antt =====
-- The agreement of the writers of src/kernel.cpp with its tip check: after any history of calls
-- `Store::verify_head` accepts every subject.
pub mod Extends
pub mod Rows
pub mod Commits
pub mod Settled
pub mod Admitted
pub mod Agreement
use cogg_cpp.Base.{
  ℕ, suc, ◌-◌, ◌≡◌, ◌==◌, refl, Option, none, some, List, [], ◌∷◌, ◌&&◌, Bool, true, false, ltb,
  if◌then◌else◌, any, All, Text, text_eq, Result, ok, require, require_row, ◌>>=◌, ◌>>◌,
}
use cogg_cpp.Store.{State, Codec, Body, SubjectRow, AttemptRow, CommitRow, is_committed}
use cogg_cpp.Store.Head.{commit_of, attempt_of, projects, check_link, verify_row}

-- The columns of an attempt repeat its body, and its id is no other row's.
abbrev pub Columns : AttemptRow → Type 0
Columns a = (a.subject ≡ a.body.subject) × (a.parent ≡ a.body.parent)

abbrev pub HaveDistinctIds : List AttemptRow → Type 0
HaveDistinctIds [] = Unit {0}
HaveDistinctIds (a ∷ rest) = (any (λ x. text_eq x.id a.id) rest ≡ false) × HaveDistinctIds rest

pub record AreSound (codec : Codec) (s : State) : Type 0 where
  pub heads : All (λ r. verify_row codec s r ≡ ok tt) s.subjects
  pub columns : All Columns s.attempts
  pub distinct : HaveDistinctIds s.attempts
