-- ===== src/Heads/Extends.antt =====
-- What keeps a tip valid in src/kernel.cpp: commits stay, and committed attempts stay committed.
use cogg_cpp.Base.{
  ℕ, ◌-◌, ◌≡◌, ◌==◌, refl, some, List, [], ◌∷◌, ◌&&◌, true, false, inl, inr, Bool-cases,
  if◌then◌else◌, any, find, Text, text_eq, text_eq_iff, text_eq→eq, ok, require-bind, row-bind,
  and_parts, arith,
}
use cogg_cpp.Store.{
  State, Codec, Body, SubjectRow, AttemptRow, CommitRow, is_committed, update_attempt,
}
use cogg_cpp.Store.Commit.{supersede_attempts}
use cogg_cpp.Store.Head.{commit_of, attempt_of, projects, check_link, verify_row}

-- `t` has every commit of `s`, and every committed attempt of `s` with its parent.
pub record Extends (s t : State) : Type 0 where
  pub commits :
      (id subject : Text) (c : CommitRow)
      → commit_of s id subject ≡ some c
      → commit_of t id subject ≡ some c
  pub attempts :
      (id subject : Text) (a : AttemptRow)
      → attempt_of s id subject ≡ some a
      → is_committed a.status ≡ true
      → (b : AttemptRow) × (attempt_of t id subject ≡ some b)
        × (is_committed b.status ≡ true)
        × (b.parent ≡ a.parent)

link-Extends :
    (s t : State) (r : SubjectRow) (body : Body)
    → Extends s t
    → check_link s r body ≡ ok tt
    → check_link t r body ≡ ok tt
unfolding check_link
link-Extends s t r (Body.commit b) x e =
    let (p, p_ok, e1) = row-bind (commit_of s b.parent r.id) _ _ e in
    let (tick, e2) = require-bind (p.tick == r.tick - 1) _ _ e1 in
    let (a, a_ok, e3) = row-bind (attempt_of s b.attempt r.id) _ _ e2 in
    let (done, parent) =
      and_parts (is_committed a.status) (text_eq a.parent b.parent) (ground arith) in
    let (a', a'_ok, done', parent') = x.attempts b.attempt r.id a a_ok done in
    ground (arith, x.commits b.parent r.id p p_ok, tick, a'_ok, done', parent', parent)
link-Extends s t r (Body.genesis g) x e = cc
link-Extends s t r (Body.event g) x e = cc
link-Extends s t r (Body.attempt g) x e = cc
link-Extends s t r (Body.abstention g) x e = cc
link-Extends s t r (Body.input g) x e = cc

-- A tip that was valid stays valid.
pub verify_row-Extends :
    (codec : Codec) (s t : State) (r : SubjectRow)
    → Extends s t
    → verify_row codec s r ≡ ok tt
    → verify_row codec t r ≡ ok tt
unfolding verify_row
verify_row-Extends codec s t r x e =
    let (c, c_ok, e1) = row-bind (commit_of s r.head r.id) _ _ e in
    let (agrees, e2) =
      require-bind (c.tick == r.tick && projects c.body r && text_eq (codec.hash c.body) r.head) _ _
        e1 in
    ground (arith, x.commits r.head r.id c c_ok, agrees, link-Extends s t r c.body x)

-- The row of a subject with another accounting wall has the same tip.
module _ (s : State) (r : SubjectRow) (wall : ℕ) where
  projects-wall :
      (body : Body) → projects body (record r { accounting_wall = wall }) ≡ projects body r
  unfolding projects
  projects-wall (Body.genesis g) = refl
  projects-wall (Body.commit b) = refl
  projects-wall _ = refl

  link-wall :
      (body : Body) → check_link s (record r { accounting_wall = wall }) body ≡ check_link s r body
  unfolding check_link
  link-wall (Body.commit b) = refl
  link-wall _ = refl

  pub verify_row-wall :
      (codec : Codec)
      → verify_row codec s r ≡ ok tt
      → verify_row codec s (record r { accounting_wall = wall }) ≡ ok tt
  unfolding verify_row
  verify_row-wall codec e =
      let (c, c_ok, e1) = row-bind (commit_of s r.head r.id) _ _ e in
      rw (c_ok) (ground (arith, e1, projects-wall c.body, link-wall c.body))

pub commits_same :
    (s t : State)
    → t.commits ≡ s.commits
    → (id subject : Text) → commit_of t id subject ≡ commit_of s id subject
unfolding commit_of
commits_same s t e id subject = ground (arith, e)

-- A commit with a new id hides no other.
pub commits_more :
    (s t : State) (row : CommitRow)
    → t.commits ≡ row ∷ s.commits
    → any (λ c. text_eq c.id row.id) s.commits ≡ false
    → (id subject : Text) (c : CommitRow) → commit_of s id subject ≡ some c
    → commit_of t id subject ≡ some c
unfolding commit_of
commits_more s t row e fresh id subject c h = elim (Bool-cases (text_eq row.id id)) [
  | inl same ↦ absurd (clash same s.commits fresh h)
  | inr other ↦ ground (arith, e, other, h)
]
  where
    clash :
        text_eq row.id id ≡ true
        → (rows : List CommitRow) → any (λ x. text_eq x.id row.id) rows ≡ false
        → find (λ x. text_eq x.id id && text_eq x.subject subject) rows ≡ some c
        → ⊥
    clash same [] f g = cc
    clash same (x ∷ rest) f g = ground (
      arith,
      clash same rest,
      text_eq_iff x.id id,
      text_eq_iff x.id row.id,
      text_eq→eq row.id id same,
    )

-- Updates of attempts that keep who they are, and keep a committed one committed.
pub attempts_update :
    (f : AttemptRow → AttemptRow) (id other : Text) (rows : List AttemptRow) (subject : Text)
    (a : AttemptRow)
    → ((x : AttemptRow)
        → ((f x).id ≡ x.id)
          × ((f x).subject ≡ x.subject)
          × ((f x).parent ≡ x.parent)
          × (is_committed x.status ≡ true → is_committed (f x).status ≡ true))
    → find (λ x. text_eq x.id id && text_eq x.subject subject) rows ≡ some a
    → is_committed a.status ≡ true
    → (b : AttemptRow) × (find
          (λ x. text_eq x.id id && text_eq x.subject subject)
          (update_attempt other f rows)
        ≡ some b)
      × (is_committed b.status ≡ true)
      × (b.parent ≡ a.parent)
unfolding update_attempt
attempts_update f id other [] subject a h e c = cc
attempts_update f id other (x ∷ rest) subject a h e c =
    elim (Bool-cases (text_eq x.id id && text_eq x.subject subject)) [
      | inl hit ↦ (
        if text_eq x.id other then f x else x,
        ground (arith, h x, hit),
        ground (arith, h x, hit),
        ground (arith, h x, hit),
      )
      | inr miss ↦
          let (b, b_ok, b_done, b_parent) =
            attempts_update f id other rest subject a h (ground (arith, miss)) c in
          (b, ground (arith, h x, miss, b_ok), b_done, b_parent)
    ]

pub attempts_supersede :
    (mine parent id : Text) (rows : List AttemptRow) (subject : Text) (a : AttemptRow)
    → find (λ x. text_eq x.id id && text_eq x.subject subject) rows ≡ some a
    → is_committed a.status ≡ true
    → find (λ x. text_eq x.id id && text_eq x.subject subject) (supersede_attempts mine parent rows)
      ≡ some a
unfolding supersede_attempts
attempts_supersede mine parent id [] subject a e c = cc
attempts_supersede mine parent id (x ∷ rest) subject a e c =
    elim (Bool-cases (text_eq x.id id && text_eq x.subject subject)) [
      | inl hit ↦ ground (arith, hit)
      | inr miss ↦
          ground
            (arith, miss, attempts_supersede mine parent id rest subject a (ground (arith, miss)) c)
    ]
