-- ===== src/Heads/Agreement.antt =====
-- Theorems on `Store::verify_head` of src/kernel.cpp over whole histories.
use cogg_cpp.Base.{
  ◌≡◌, refl, sym, subst, none, some, ◌∷◌, not, any, All, All-find, All-weaken, Text, text_eq,
  text_eq_refl, ok, require-bind, >>=-eq-ok, ok-injective, arith,
}
use cogg_cpp.Budget.{limits_json, check_time}
use cogg_cpp.Proposal.{text_fits}
use cogg_cpp.Memory.{MemoryDb}
use cogg_cpp.Store.{State, Codec, Body, GenesisBody, SubjectRow, CommitRow, subject_row, snapshot}
use cogg_cpp.Store.Inbox.{create, submit, enqueue, insert_genesis}
use cogg_cpp.Store.Commit.{commit, check_elapsed}
use cogg_cpp.Store.Head.{commit_of, attempt_of, projects, verify_row, verify_head}
use cogg_cpp.Heads.{Columns, HaveDistinctIds, AreSound}
use cogg_cpp.Heads.Extends.{Extends, verify_row-Extends, commits_more}
use cogg_cpp.Runs.{
  Step, Reachable, creates, submits, admits, commits, abstains, fails, marks, rebuilds, start, next,
}
use cogg_cpp.Heads.Settled.{
  enqueue-AreSound, locked-AreSound, abstain-AreSound, fail-AreSound, mark_failed-AreSound,
}
use cogg_cpp.Heads.Admitted.{admit-AreSound}
use cogg_cpp.Heads.Commits.{memory_eq_refl}

genesis-AreSound :
    (codec : Codec) (g : GenesisBody) (s t : State)
    → insert_genesis codec g s ≡ ok t
    → AreSound codec s
    → AreSound codec t
unfolding insert_genesis commit_of attempt_of verify_row projects
genesis-AreSound codec g s t e h =
    let (fresh, e1) =
      require-bind (not (any (λ (r : SubjectRow). text_eq r.id g.subject) s.subjects)) _ _ e in
    let id = codec.hash (Body.genesis g) in
    let (unique, e2) =
      require-bind (not (any (λ (c : CommitRow). text_eq c.id id) s.commits)) _ _ e1 in
    let new : CommitRow = record {
      id = id;
      subject = g.subject;
      tick = 0;
      body = Body.genesis g;
    } in
    let more : t.commits ≡ new ∷ s.commits = ground arith in
    let x : Extends s t = record {
      commits = commits_more s t new more (ground arith);
      attempts = λ i subject a q d. (a, ground arith, d, refl);
    } in
    let subjects : t.subjects
        ≡ record {
          id = g.subject;
          tick = 0;
          head = id;
          memory = g.memory;
          wake = none;
          limits = g.limits;
          accounting_wall = g.created_at;
        }
          ∷ s.subjects =
      ground arith in
    record {
      heads = subst (All (λ r. verify_row codec t r ≡ ok tt)) (sym subjects) (
        ground (arith, more, text_eq_refl id, text_eq_refl g.subject, memory_eq_refl g.memory),
        All-weaken s.subjects (λ r. verify_row-Extends codec s t r x) h.heads,
      );
      columns = subst (All Columns) {x = s.attempts} {y = t.attempts} (ground arith) h.columns;
      distinct = subst HaveDistinctIds {x = s.attempts} {y = t.attempts} (ground arith) h.distinct;
    }

rebuilt-AreSound :
    (codec : Codec) (s : State) (db : MemoryDb)
    → AreSound codec s
    → AreSound codec (record s { memory_db = db })
unfolding verify_row commit_of attempt_of cogg_cpp.Store.Head.check_link
rebuilt-AreSound codec s db h = record {
  heads = h.heads;
  columns = h.columns;
  distinct = h.distinct;
}

Step-AreSound : {codec : Codec} {s t : State} → Step codec s t → AreSound codec s → AreSound codec t
unfolding create submit commit
Step-AreSound {codec} {s} {t} (creates subject limits now memory nonce e) h =
    let (size, e1) = require-bind _ _ _ e in
    let (name, e2) = require-bind (text_fits subject 128) _ _ e1 in
    let (at, clock, e3) = >>=-eq-ok (check_time now) _ e2 in
    let (l, valid, e4) = >>=-eq-ok (limits_json limits) _ e3 in
    let (u, inserted, e5) = >>=-eq-ok (insert_genesis codec _ s) _ e4 in
    let (snap, found, e6) = >>=-eq-ok (snapshot u subject) _ e5 in
    let ((v, id), queued, e7) = >>=-eq-ok (enqueue codec u snap _ _ _ at) _ e6 in
    subst (AreSound codec) (ok-injective v t e7)
      (enqueue-AreSound codec u v snap _ _ _ at id queued (genesis-AreSound codec _ s u inserted h))
Step-AreSound {codec} {s} {t} (submits subject key payload id now e) h =
    let (at, clock, e1) = >>=-eq-ok (check_time now) _ e in
    let (fits, e2) = require-bind (text_fits key 200) _ _ e1 in
    let (small, e3) = require-bind _ _ _ e2 in
    let (snap, q, r) = >>=-eq-ok (snapshot s subject) _ e3 in
    enqueue-AreSound codec s t snap _ _ _ at id r h
Step-AreSound {codec} {s} {t}
      (admits size subject backend now policy fits execution context nonce a e) h =
    admit-AreSound codec size s t subject backend now policy fits execution context nonce a e h
Step-AreSound {codec} {s} {t} (commits guard capacity attempt proposal now elapsed emission snap e)
      h =
    let (duration, d_ok, e1) = >>=-eq-ok (check_elapsed elapsed) _ e in
    let (at, now_ok, e2) = >>=-eq-ok (check_time now) _ e1 in
    locked-AreSound codec guard capacity s t attempt proposal at duration emission none snap e2 h
Step-AreSound {codec} {s} {t} (abstains attempt outcome provider id e) h =
    abstain-AreSound codec s t attempt outcome provider id e h
Step-AreSound {codec} {s} {t} (fails capacity attempt reason scope now snap e) h =
    fail-AreSound codec capacity s t attempt reason scope now snap e h
Step-AreSound {codec} {s} {t} (marks attempt reason e) h =
    subst (AreSound codec) (sym e) (mark_failed-AreSound codec s attempt reason h)
Step-AreSound {codec} {s} {t} (rebuilds db e) h =
    subst (AreSound codec) (sym e) (rebuilt-AreSound codec s db h)

Reachable-AreSound : {codec : Codec} {s : State} → Reachable codec s → AreSound codec s
Reachable-AreSound start = record { heads = tt; columns = tt; distinct = tt }
Reachable-AreSound (next r step) = Step-AreSound step (Reachable-AreSound r)

-- In every state that a store can come to, whatever calls were made and in whatever order, the tip
-- check accepts every subject that the store has.
pub verify_head-Reachable :
    (codec : Codec) (s : State) (subject : Text) (r : SubjectRow)
    → Reachable codec s
    → subject_row s subject ≡ some r
    → verify_head codec s subject ≡ ok tt
unfolding verify_head subject_row
verify_head-Reachable codec s subject r reached found = ground (
  arith,
  found,
  All-find (λ x. verify_row codec s x ≡ ok tt) (λ x. text_eq x.id subject) s.subjects r
      (Reachable-AreSound reached).heads found,
)
