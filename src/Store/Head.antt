-- ===== src/Store/Head.antt =====
-- The check of the tip: `Store::verify_head` of src/kernel.cpp.
use cogg_cpp.Base.{
  ℕ, ◌-◌, ◌==◌, Option, none, some, [], ◌∷◌, ◌&&◌, Bool, true, false, ltb, if◌then◌else◌, find,
  Text, text_eq, Result, ok, err, error, require, require_row, ◌>>=◌, ◌>>◌,
}
use cogg_cpp.Store.{
  State, Codec, Body, Memory, SubjectRow, CommitRow, AttemptRow, is_committed, subject_row,
}

-- WHERE id=? AND subject=?
unfoldable pub commit_of : State → Text → Text → Option CommitRow
commit_of s id subject = find (λ c. text_eq c.id id && text_eq c.subject subject) s.commits

unfoldable pub attempt_of : State → Text → Text → Option AttemptRow
attempt_of s id subject = find (λ a. text_eq a.id id && text_eq a.subject subject) s.attempts

-- operator== of two memory objects, and of two instants or nulls.
unfoldable pub memory_eq : Memory → Memory → Bool
memory_eq [] [] = true
memory_eq [] (y ∷ ys) = false
memory_eq (x ∷ xs) [] = false
memory_eq ((j, v) ∷ xs) ((k, w) ∷ ys) = text_eq j k && (text_eq v w && memory_eq xs ys)

abbrev pub time_eq : Option ℕ → Option ℕ → Bool
time_eq none none = true
time_eq (some a) (some b) = a == b
time_eq _ _ = false

-- The members of a commit's body that its tip check reads: those of `genesis` have tick 0 and no
-- wake.
unfoldable pub projects : Body → SubjectRow → Bool
projects (Body.genesis g) r =
    0 == r.tick && text_eq g.subject r.id && (memory_eq g.memory r.memory && time_eq none r.wake)
projects (Body.commit b) r =
    b.tick == r.tick
    && text_eq b.subject r.id
    && (memory_eq b.memory r.memory && time_eq b.wake_at r.wake)
projects _ r = false

-- The checks for a tip above genesis: the parent at the tick below, and the committed attempt.
unfoldable pub check_link : State → SubjectRow → Body → Result (Unit {0})
check_link s r (Body.commit b) = do
  p ← require_row (commit_of s b.parent r.id) "head parent link mismatch"
  require (p.tick == r.tick - 1) "head parent link mismatch"
  a ← require_row (attempt_of s b.attempt r.id) "head attempt mismatch"
  require (is_committed a.status && text_eq a.parent b.parent) "head attempt mismatch"
check_link s r _ = err (error "head parent link mismatch")

-- The checks of `verify_head` on the row of a subject.
unfoldable pub verify_row : Codec → State → SubjectRow → Result (Unit {0})
verify_row codec s r = do
  c ← require_row (commit_of s r.head r.id) "head commit missing"
  require (c.tick == r.tick && projects c.body r && text_eq (codec.hash c.body) r.head)
      "head commit projection mismatch"
  if ltb 0 r.tick then check_link s r c.body else ok tt

unfoldable pub verify_head : Codec → State → Text → Result (Unit {0})
verify_head codec s subject = do
  r ← require_row (subject_row s subject) "subject not found"
  verify_row codec s r
