-- ===== src/Runs/Admissions.antt =====
-- What `Store::admit` of src/kernel.cpp adds to the accounts of a store.
use cogg_cpp.Base.{
  ℕ, suc, ◌-◌, ◌≤◌, ◌≡◌, refl, sym, ap, subst, ◌∙◌, Option, none, some, List, [], ◌∷◌, map, Bool,
  true, false, inl, inr, Option-cases, max, length, find, keep, Text, text_eq, ℤ, Result, ok,
  require-bind, no_conflict-bind, check-bind, row-bind, >>=-eq-ok, ok-first, arith,
}
use cogg_cpp.Budget.{Config, Budget, budget, check_time}
use cogg_cpp.Proposal.{text_fits}
use cogg_cpp.Store.{
  State, Codec, AttemptBody, SubjectRow, AttemptRow, Snapshot, Pending, Decision, Input, Execution,
  Context, subject_row, snapshot, admissions,
}
use cogg_cpp.Store.Schedule.{schedule, status_of, next_occasion}
use cogg_cpp.Budget.{Admission, row_at, order_rows, after_lower, seq_through}
use cogg_cpp.Store.Inbox.{enqueue}
use cogg_cpp.Store.Admit.{
  Occasion, is_ready, admit_decided, context_is_current, backend_matches, Present, Attempt, select,
  reserve, admit, write_attempt, temporal_at, unsettled, body_of, inputs_of, project, check_fits,
}
use cogg_cpp.Evidence.{AdmissionContext, validate_admission_context, validate_execution}
use cogg_cpp.Store.Inbox.Idempotent.{snapshot-id}
use cogg_cpp.Runs.Kept.{Same, IsAccounted, enqueue-Same, owners-update}
use cogg_cpp.Runs.Accounts.{
  Trace, owner, trace, owners, traces, traces_of-admissions, AreAccounted, new_trace,
}

length-traces : (rows : List AttemptRow) → length (map trace rows) ≡ length rows
length-traces [] = refl
length-traces (a ∷ rest) = omega (arith, length-traces rest)

pub find-owner :
    (rows : List SubjectRow) (id : Text) (r : SubjectRow)
    → find (λ x. text_eq x.id id) rows ≡ some r
    → find (λ x. text_eq x.id id) (map owner rows) ≡ some (owner r)
find-owner [] id r e = cc
find-owner (x ∷ rest) id r e = ground (arith, find-owner rest id r)

select-Same :
    (id : Option Text) (codec : Codec) (s t : State) (snap : Snapshot) (o : Pending) (observed : ℕ)
    (chosen : Occasion)
    → select id codec s snap o observed ≡ ok (t, chosen)
    → Same s t
unfolding select
select-Same none codec s t snap o observed chosen e =
    let ((u, id), queued, e1) = >>=-eq-ok (enqueue codec s snap _ _ _ observed) _ e in
    subst (Same s) {x = u} {y = t} (ground arith)
      (enqueue-Same codec s u snap _ _ _ observed id queued)
select-Same (some id) codec s t snap o observed chosen e = (ground arith, ground arith)

-- The accounts with one more admission.
abbrev with_trace : Text → ℕ → List Trace → List Trace
with_trace subject at ts = record { subject = subject; seq = suc (length ts); at = at } ∷ ts

write_attempt-traces :
    (codec : Codec) (s t : State) (body : AttemptBody)
    → write_attempt codec s body ≡ ok t
    → (owners t ≡ owners s) × (traces t ≡ with_trace body.subject body.admitted_at (traces s))
unfolding write_attempt
write_attempt-traces codec s t body e = (
  ground (
    arith,
    owners-update body.subject (λ (r : SubjectRow). record r { accounting_wall = body.admitted_at })
        s.subjects (λ r. refl),
  ),
  ground (arith, length-traces s.attempts),
)

-- What a reservation adds to the accounts.
reserve-traces :
    (codec : Codec) (s t : State) (snap : Snapshot) (backend : Text) (observed : ℕ) (d : Decision)
    (o : Pending) (policy : Option (Present → Result Context)) (fits : Option (Present → Bool))
    (execution : Option Execution) (context : Option AdmissionContext) (nonce : Text) (a : Attempt)
    → reserve codec s snap backend observed d o policy fits execution context nonce ≡ ok (t, a)
    → (owners t ≡ owners s) × (traces t ≡ with_trace snap.subject d.accounting_at (traces s))
unfolding reserve
reserve-traces codec s t snap backend observed d o policy fits execution context nonce a e =
    let ((u, chosen), selected, e1) = >>=-eq-ok (select o.id codec s snap o observed) _ e in
    let (temporal, t_ok, e2) = >>=-eq-ok (temporal_at codec u snap observed d chosen) _ e1 in
    let first : Present = record {
      state = snap;
      occasion = chosen;
      prior_unsettled_attempt = unsettled u snap.subject;
      temporal = temporal;
      inputs = inputs_of context;
      context = none;
    } in
    let (x, x_ok, e3) = >>=-eq-ok (project policy first) _ e2 in
    let present : Present = record first { context = x } in
    let (f_ok, e4) = check-bind (check_fits fits present) _ e3 in
    let (v, v_ok, e5) =
      >>=-eq-ok
        (write_attempt codec u (body_of present backend observed d.accounting_at execution nonce)) _
        e4 in
    let (kept_owners, kept_traces) = select-Same o.id codec s u snap o observed chosen selected in
    let (new_owners, new_traces) = write_attempt-traces codec u v _ v_ok in
    let done : v ≡ t = ok-first v t _ a e5 in
    (
      subst (λ y. owners y ≡ owners s) done (new_owners ∙ kept_owners),
      subst (λ y. traces y ≡ with_trace snap.subject d.accounting_at (traces s)) done
          (new_traces ∙ ap (with_trace snap.subject d.accounting_at) kept_traces),
    )

schedule_parts :
    (codec : Codec) (s : State) (subject : Text) (observed : ℕ) (d : Decision)
    → schedule codec s subject observed ≡ ok d
    → (r : SubjectRow) × (subject_row s subject ≡ some r)
      × (d.accounting_at ≡ max observed r.accounting_wall)
      × (budget r.limits d.accounting_at none (admissions subject s.attempts) ≡ ok d.budget)
      × (d.status ≡ status_of d.occasion r.wake d.accounting_at d.budget)
unfolding schedule
schedule_parts codec s subject observed d e =
    let (r, found, e1) = row-bind (subject_row s subject) _ _ e in
    let (b, b_ok, e2) =
      >>=-eq-ok
        (budget r.limits (max observed r.accounting_wall) none (admissions subject s.attempts)) _
        e1 in
    let (o, o_ok, e3) = >>=-eq-ok (next_occasion codec s r observed) _ e2 in
    (r, found, ground arith, ground arith, ground arith)

ready_eligible :
    (o : Option Pending) (wake : Option ℕ) (now : ℕ) (rows : List Admission) (c : Config)
    {b : Budget}
    → budget c now none rows ≡ ok b
    → is_ready (status_of o wake now b) ≡ true
    → b.eligible_at ≤ now
unfolding status_of budget
ready_eligible none none now rows c e h = cc
ready_eligible none (some t) now rows c e h = cc
ready_eligible (some o) wake now rows c e h =
    elim (Option-cases (
      row_at (c.max_attempts - 1) (
        order_rows
          (keep (λ a. after_lower now c.period_ms a.at) (keep (seq_through none) rows))))) [
            | inl q ↦ ground (arith, q)
            | inr (a, q) ↦ ground (arith, q)
          ]

admit_decided-IsAccounted :
    (o : Option Pending) (go : Bool) (codec : Codec) (s t : State) (snap : Snapshot)
    (r : SubjectRow) (backend : Text) (observed : ℕ) (d : Decision)
    (policy : Option (Present → Result Context)) (fits : Option (Present → Bool))
    (execution : Option Execution) (context : Option AdmissionContext) (nonce : Text)
    (a : Option Attempt)
    → admit_decided o go codec s snap backend observed d policy fits execution context nonce
      ≡ ok (t, a)
    → subject_row s snap.subject ≡ some r
    → budget r.limits d.accounting_at none (admissions snap.subject s.attempts) ≡ ok d.budget
    → (go ≡ true → d.budget.eligible_at ≤ d.accounting_at)
    → IsAccounted s
    → IsAccounted t
unfolding admit_decided subject_row
admit_decided-IsAccounted (some o) true codec s t snap r backend observed d policy fits execution
      context nonce a e found b_ok due h =
    let ((u, x), reserved_ok, e1) =
      >>=-eq-ok (reserve codec s snap backend observed d o policy fits execution context nonce) _
        e in
    let (os, ts) =
      reserve-traces codec s u snap backend observed d o policy fits execution context nonce x
        reserved_ok in
    let more =
      new_trace (owners s) (owner r) (traces s) snap.subject d.accounting_at {b = d.budget} h
        (find-owner s.subjects snap.subject r found) (rw traces_of-admissions b_ok) (due refl) in
    subst IsAccounted (ok-first u t (some x) a e1) (
      subst (λ y. AreAccounted y (traces u)) (sym os)
        (subst (AreAccounted (owners s)) (sym ts) more))
admit_decided-IsAccounted none go codec s t snap r backend observed d policy fits execution context
      nonce a e found b_ok due h =
    subst IsAccounted (ok-first s t none a e) h
admit_decided-IsAccounted (some o) false codec s t snap r backend observed d policy fits execution
      context nonce a e found b_ok due h =
    subst IsAccounted (ok-first s t none a e) h

pub admit-IsAccounted :
    (codec : Codec) (size : List Input → ℕ) (s t : State) (subject backend : Text) (now : ℤ)
    (policy : Option (Present → Result Context)) (fits : Option (Present → Bool))
    (execution : Option Execution) (context : Option AdmissionContext) (nonce : Text)
    (a : Option Attempt)
    → admit codec size s subject backend now policy fits execution context nonce ≡ ok (t, a)
    → IsAccounted s
    → IsAccounted t
unfolding admit
admit-IsAccounted codec size s t subject backend now policy fits execution context nonce a e h =
    let (c_ok, e1) = check-bind (validate_admission_context codec size context) _ e in
    let (x_ok, e2) = check-bind (validate_execution execution) _ e1 in
    let (m_ok, e3) = require-bind (backend_matches execution backend) _ _ e2 in
    let (at, now_ok, e4) = >>=-eq-ok (check_time now) _ e3 in
    let (b_ok, e5) = require-bind (text_fits backend 200) _ _ e4 in
    let (snap, snap_ok, e6) = >>=-eq-ok (snapshot s subject) _ e5 in
    let (d, planned, e7) = >>=-eq-ok (schedule codec s subject at) _ e6 in
    let (current, e8) = no_conflict-bind (context_is_current context snap d.occasion) _ _ e7 in
    let (r, found, clock_ok, budget_ok, status) = schedule_parts codec s subject at d planned in
    let same_subject = snapshot-id s subject snap snap_ok in
    admit_decided-IsAccounted d.occasion (is_ready d.status) codec s t snap r backend at d policy
      fits execution context nonce a e8 (rw same_subject found) (rw same_subject budget_ok)
      (λ go.
        ready_eligible d.occasion r.wake d.accounting_at _ r.limits budget_ok (rw status at go))
      h
