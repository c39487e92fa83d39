-- ===== src/Heads/Commits.antt =====
-- A commit of src/kernel.cpp leaves a tip that `verify_head` accepts, and the other tips valid.
use cogg_cpp.Base.{
  ℕ, suc, ◌≡◌, ◌==◌, refl, sym, subst, ◌∙◌, Option, none, some, List, [], ◌∷◌, ◌&&◌, ◌||◌, true,
  false, if◌then◌else◌, any, find, find-holds, All, All-find, Text, text_eq, text_eq→eq,
  text_eq_refl, ok, require-bind, row-bind, arith,
}
use cogg_cpp.Proposal.{Proposal}
use cogg_cpp.Memory.{MemoryDb}
use cogg_cpp.Store.{
  State, Codec, Body, CommitBody, SubjectRow, AttemptRow, CommitRow, Memory, Emission, Disposition,
  Snapshot, committed, attempt_row, subject_row, update_attempt, update_subject,
}
use cogg_cpp.Store.Commit.{CapacityCheck, TransitionGuard, commit_is_new}
use cogg_cpp.Store.Commit.Effect.{Accepted, body_of, written}
use cogg_cpp.Store.Head.{
  commit_of, attempt_of, memory_eq, time_eq, projects, check_link, verify_row,
}
use cogg_cpp.Heads.{Columns, AreSound}
use cogg_cpp.Heads.Rows.{Columns-update, distinct_update, Columns-supersede, distinct_supersede}
use cogg_cpp.Heads.Extends.{
  Extends, verify_row-Extends, commits_more, attempts_update, attempts_supersede,
}

pub memory_eq_refl : (m : Memory) → memory_eq m m ≡ true
unfolding memory_eq
memory_eq_refl [] = refl
memory_eq_refl ((k, v) ∷ m) = ground (arith, text_eq_refl k, text_eq_refl v, memory_eq_refl m)

time_eq_refl : (t : Option ℕ) → time_eq t t ≡ true
time_eq_refl none = refl
time_eq_refl (some t) = ground arith

any_id :
    (b : CommitBody) (id : Text) (rows : List CommitRow)
    → any (λ c. text_eq c.id id || (text_eq c.subject b.subject && c.tick == b.tick)) rows ≡ false
    → any (λ c. text_eq c.id id) rows ≡ false
any_id b id [] h = refl
any_id b id (c ∷ rest) h = ground (arith, any_id b id rest)

abbrev settle : AttemptRow → AttemptRow
settle a = record a { status = committed }

written-Extends :
    (codec : Codec) (s : State) (b : CommitBody) (memory : MemoryDb)
    → commit_is_new b (codec.hash (Body.commit b)) s.commits ≡ true
    → Extends s (written codec s b memory)
unfolding attempt_of
written-Extends codec s b memory fresh = record {
  commits =
      commits_more s (written codec s b memory) _ refl
        (any_id b (codec.hash (Body.commit b)) s.commits (ground arith));
  attempts = λ id subject a e c.
      let (x, x_ok, x_done, x_parent) =
        attempts_update settle id b.attempt s.attempts subject a
          (λ y. (refl, refl, refl, λ h. refl)) e c in
      (
        x,
        attempts_supersede b.subject b.parent id (update_attempt b.attempt settle s.attempts)
            subject x x_ok x_done,
        x_done,
        x_parent,
      );
}

-- The attempt that is found by its id is found by its id and its subject.
attempt_of-row :
    (rows : List AttemptRow) (id : Text) (row : AttemptRow)
    → find (λ a. text_eq a.id id) rows ≡ some row
    → find (λ a. text_eq a.id id && text_eq a.subject row.subject) rows ≡ some row
attempt_of-row [] id row e = cc
attempt_of-row (a ∷ rest) id row e =
    ground (arith, attempt_of-row rest id row, text_eq_refl row.subject)

settled_attempt :
    (rows : List AttemptRow) (id subject : Text) (row : AttemptRow)
    → find (λ a. text_eq a.id id && text_eq a.subject subject) rows ≡ some row
    → find (λ a. text_eq a.id id && text_eq a.subject subject) (update_attempt id settle rows)
      ≡ some (settle row)
unfolding update_attempt
settled_attempt [] id subject row e = cc
settled_attempt (a ∷ rest) id subject row e = ground (arith, settled_attempt rest id subject row)

-- The row that a commit writes for a subject.
abbrev moved : Codec → CommitBody → SubjectRow → SubjectRow
moved codec b r = record r {
  tick = b.tick;
  head = codec.hash (Body.commit b);
  memory = b.memory;
  wake = b.wake_at;
  accounting_wall = b.committed_at;
}

new_tip :
    (codec : Codec) (s : State) (b : CommitBody) (memory : MemoryDb) (r old : SubjectRow)
    (row : AttemptRow)
    → commit_is_new b (codec.hash (Body.commit b)) s.commits ≡ true
    → r.id ≡ b.subject
    → old.id ≡ b.subject
    → b.parent ≡ old.head
    → b.tick ≡ suc old.tick
    → verify_row codec s old ≡ ok tt
    → find (λ a. text_eq a.id b.attempt) s.attempts ≡ some row
    → row.subject ≡ b.subject
    → row.parent ≡ b.parent
    → verify_row codec (written codec s b memory) (moved codec b r) ≡ ok tt
unfolding verify_row check_link projects commit_of attempt_of
new_tip codec s b memory r old row fresh mine same head tick valid found subject parent =
    let (c, c_ok, e1) = row-bind (commit_of s old.head old.id) _ _ valid in
    let (agrees, e2) =
      require-bind
        (c.tick == old.tick && projects c.body old && text_eq (codec.hash c.body) old.head) _ _
        e1 in
    let kept = (written-Extends codec s b memory fresh).commits old.head old.id c c_ok in
    let settled =
      attempts_supersede b.subject b.parent b.attempt _ row.subject (settle row)
        (settled_attempt s.attempts b.attempt row.subject row
          (attempt_of-row s.attempts b.attempt row found))
        refl in
    ground (
      arith,
      text_eq_refl (codec.hash (Body.commit b)),
      text_eq_refl b.subject,
      text_eq_refl b.parent,
      memory_eq_refl b.memory,
      time_eq_refl b.wake_at,
      kept,
      agrees,
      settled,
    )

-- Every row after a commit, from every row before it.
rows_after :
    (codec : Codec) (s : State) (b : CommitBody) (memory : MemoryDb) (old : SubjectRow)
    (row : AttemptRow) (rows : List SubjectRow)
    → commit_is_new b (codec.hash (Body.commit b)) s.commits ≡ true
    → old.id ≡ b.subject
    → b.parent ≡ old.head
    → b.tick ≡ suc old.tick
    → verify_row codec s old ≡ ok tt
    → find (λ a. text_eq a.id b.attempt) s.attempts ≡ some row
    → row.subject ≡ b.subject
    → row.parent ≡ b.parent
    → All (λ r. verify_row codec s r ≡ ok tt) rows
    → All
        (λ r. verify_row codec (written codec s b memory) r ≡ ok tt)
        (update_subject b.subject (moved codec b) rows)
unfolding update_subject
rows_after codec s b memory old row [] fresh same head tick valid found subject parent h = tt
rows_after codec s b memory old row (r ∷ rest) fresh same head tick valid found subject parent
      (h, hs) =
    let later =
      rows_after codec s b memory old row rest fresh same head tick valid found subject parent hs in
    (elim (text_eq r.id b.subject)
        as (λ e.
          text_eq r.id b.subject ≡ e
          → All (λ x. verify_row codec (written codec s b memory) x ≡ ok tt)
              ((if e then moved codec b r else r)
                ∷ update_subject b.subject (moved codec b) rest)) [
                  | true ↦ λ e. (
                    new_tip codec s b memory r old row fresh (text_eq→eq r.id b.subject e) same head
                        tick valid found subject parent,
                    later,
                  )
                  | false ↦ λ e. (
                    verify_row-Extends codec s (written codec s b memory) r
                        (written-Extends codec s b memory fresh) h,
                    later,
                  )
                ])
      refl

-- A commit that was accepted keeps the store sound.
pub Accepted-AreSound :
    (codec : Codec) (guard : Option TransitionGuard) (capacity : CapacityCheck) (s t : State)
    (attempt : Text) (proposal : Proposal) (now : ℕ) (elapsed : Option ℕ)
    (emission : Option Emission) (disposition : Option Disposition) (snap : Snapshot)
    → Accepted codec guard capacity s attempt proposal now elapsed emission disposition t snap
    → AreSound codec s
    → AreSound codec t
unfolding attempt_row subject_row
Accepted-AreSound codec guard capacity s t attempt proposal now elapsed emission disposition snap
      acc h =
    subst (AreSound codec) (sym acc.state) (record {
      heads =
          rows_after codec s b acc.memory acc.r acc.row s.subjects acc.fresh old_id refl refl valid
            acc.found columns.0 (columns.1 ∙ sym acc.head) h.heads;
      columns =
          Columns-supersede b.subject b.parent _
            (Columns-update settle b.attempt (λ x. (refl, refl, refl, refl)) s.attempts h.columns);
      distinct =
          distinct_supersede b.subject b.parent _ (
            distinct_update settle b.attempt (λ x. (refl, refl, refl, refl)) s.attempts h.distinct);
    })
  where
    b : CommitBody
    b = body_of acc.row.body acc.r attempt proposal now acc.at acc.plan elapsed emission disposition

    columns : Columns acc.row
    columns = All-find Columns (λ a. text_eq a.id attempt) s.attempts acc.row h.columns acc.found

    old_id : acc.r.id ≡ b.subject
    old_id =
        text_eq→eq acc.r.id b.subject
          (find-holds (λ x. text_eq x.id b.subject) s.subjects acc.r acc.subject)

    valid : verify_row codec s acc.r ≡ ok tt
    valid =
        All-find (λ x. verify_row codec s x ≡ ok tt) (λ x. text_eq x.id b.subject) s.subjects acc.r
          h.heads acc.subject
