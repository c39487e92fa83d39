-- ===== src/Runs/Quota.antt =====
-- The quota of src/kernel.cpp over whole histories: in every state that a store can come to, the
-- admissions of each subject stay within its limits.
use cogg_cpp.Base.{
  ℕ, ◌≤◌, ◌≡◌, refl, some, length, keep, All-find, Text, text_eq, text_eq→eq, find-holds, subst,
  sym,
}
use cogg_cpp.Budget.Window.{IsPaced, in_window, window_quota}
use cogg_cpp.Store.{State, Codec, SubjectRow, subject_row, admissions}
use cogg_cpp.Runs.{
  Step, Reachable, creates, submits, admits, commits, abstains, fails, marks, rebuilds, start, next,
}
use cogg_cpp.Runs.Accounts.{Keeps, owners, traces, owner, traces_of, traces_of-admissions}
use cogg_cpp.Runs.Kept.{IsAccounted, same, submit-Same, create-IsAccounted}
use cogg_cpp.Runs.Admissions.{find-owner, admit-IsAccounted}
use cogg_cpp.Runs.Settlements.{commit-Same, abstain_keeps, fail-Same, mark_failed-Same}
use cogg_cpp.Store.Settle.{mark_failed}

Step-IsAccounted : {codec : Codec} {s t : State} → Step codec s t → IsAccounted s → IsAccounted t
Step-IsAccounted {codec} {s} {t} (creates subject limits now memory nonce e) h =
    create-IsAccounted codec s t subject limits now memory nonce e h
Step-IsAccounted {codec} {s} {t} (submits subject key payload id now e) h =
    same s t (submit-Same codec s t subject key payload id now e) h
Step-IsAccounted {codec} {s} {t}
      (admits size subject backend now policy fits execution context nonce a e) h =
    admit-IsAccounted codec size s t subject backend now policy fits execution context nonce a e h
Step-IsAccounted {codec} {s} {t}
      (commits guard capacity attempt proposal now elapsed emission snap e) h =
    same s t (commit-Same codec guard capacity s t attempt proposal now elapsed emission snap e) h
Step-IsAccounted {codec} {s} {t} (abstains attempt outcome provider id e) h =
    same s t (abstain_keeps codec s t attempt outcome provider id e) h
Step-IsAccounted {codec} {s} {t} (fails capacity attempt reason scope now snap e) h =
    same s t (fail-Same codec capacity s t attempt reason scope now snap e) h
Step-IsAccounted {codec} {s} {t} (marks attempt reason e) h =
    subst IsAccounted (sym e)
      (same s (mark_failed attempt reason s) (mark_failed-Same attempt reason s) h)
Step-IsAccounted {codec} {s} {t} (rebuilds db e) h =
    subst IsAccounted (sym e) (same s (record s { memory_db = db }) (refl, refl) h)

Reachable-IsAccounted : {codec : Codec} {s : State} → Reachable codec s → IsAccounted s
Reachable-IsAccounted start = record { distinct = tt; paced = tt; numbered = tt; owned = tt }
Reachable-IsAccounted (next r step) = Step-IsAccounted step (Reachable-IsAccounted r)

-- In every state that a store can come to, whatever calls were made and in whatever order, the
-- admissions of each subject lie at least its minimum interval apart, and no window of its period
-- holds more of them than its limit.
pub Reachable-quota :
    (codec : Codec) (s : State) (subject : Text) (r : SubjectRow)
    → Reachable codec s
    → subject_row s subject ≡ some r
    → IsPaced r.limits (admissions subject s.attempts)
      × ((now : ℕ)
          → length (keep (in_window r.limits now) (admissions subject s.attempts))
            ≤ r.limits.max_attempts)
unfolding subject_row
Reachable-quota codec s subject r reached found =
    (paced, window_quota r.limits (admissions subject s.attempts) paced)
  where
    kept : Keeps (owner r) (traces s)
    kept =
        All-find (λ o. Keeps o (traces s)) (λ o. text_eq o.id subject) (owners s) (owner r)
          (Reachable-IsAccounted reached).paced (find-owner s.subjects subject r found)

    paced : IsPaced r.limits (admissions subject s.attempts)
    paced = subst (IsPaced r.limits) (traces_of-admissions subject s.attempts) (
        subst (λ i. IsPaced r.limits (traces_of i (traces s)))
          (text_eq→eq r.id subject (find-holds (λ x. text_eq x.id subject) s.subjects r found))
          kept.1)
