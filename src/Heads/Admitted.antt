-- ===== src/Heads/Admitted.antt =====
-- Admissions of src/kernel.cpp keep every tip valid.
use cogg_cpp.Base.{
  ℕ, ◌≡◌, refl, subst, Option, none, some, List, [], ◌∷◌, ◌&&◌, Bool, true, false, not, inl, inr,
  Bool-cases, if◌then◌else◌, any, find, All, Text, text_eq, text_eq_iff, text_eq→eq, ℤ, Result, ok,
  require-bind, no_conflict-bind, check-bind, >>=-eq-ok, ok-first, ok-injective, arith,
}
use cogg_cpp.Budget.{check_time}
use cogg_cpp.Proposal.{text_fits}
use cogg_cpp.Store.{
  State, Codec, Body, AttemptBody, SubjectRow, AttemptRow, Snapshot, Pending, Decision, Context,
  Execution, Input, snapshot, update_subject,
}
use cogg_cpp.Store.Schedule.{schedule}
use cogg_cpp.Store.Inbox.{enqueue}
use cogg_cpp.Store.Admit.{
  Present, Attempt, Occasion, select, temporal_at, unsettled, inputs_of, project, check_fits,
  body_of, row_of, write_attempt, reserve, admit_decided, admit, backend_matches,
  context_is_current, is_ready, next_seq,
}
use cogg_cpp.Store.Head.{commit_of, attempt_of, verify_row}
use cogg_cpp.Evidence.{AdmissionContext, validate_admission_context, validate_execution}
use cogg_cpp.Heads.{AreSound}
use cogg_cpp.Heads.Extends.{Extends, verify_row-Extends, verify_row-wall}
use cogg_cpp.Heads.Settled.{enqueue-AreSound}

select-AreSound :
    (id : Option Text) (codec : Codec) (s t : State) (snap : Snapshot) (o : Pending) (observed : ℕ)
    (chosen : Occasion)
    → select id codec s snap o observed ≡ ok (t, chosen)
    → AreSound codec s
    → AreSound codec t
unfolding select
select-AreSound none codec s t snap o observed chosen e h =
    let ((u, id), queued, e1) = >>=-eq-ok (enqueue codec s snap _ _ _ observed) _ e in
    subst (AreSound codec) {x = u} {y = t} (ground arith)
      (enqueue-AreSound codec s u snap _ _ _ observed id queued h)
select-AreSound (some id) codec s t snap o observed chosen e h =
    subst (AreSound codec) {x = s} {y = t} (ground arith) h

-- An attempt with a new id hides no other.
attempts_more :
    (rows : List AttemptRow) (new a : AttemptRow) (id subject : Text)
    → any (λ x. text_eq x.id new.id) rows ≡ false
    → find (λ x. text_eq x.id id && text_eq x.subject subject) rows ≡ some a
    → find (λ x. text_eq x.id id && text_eq x.subject subject) (new ∷ rows) ≡ some a
attempts_more rows new a id subject fresh e = elim (Bool-cases (text_eq new.id id)) [
  | inl same ↦ absurd (clash (text_eq→eq new.id id same) rows fresh e)
  | inr other ↦ ground (arith, other)
]
  where
    clash :
        new.id ≡ id
        → (ys : List AttemptRow) → any (λ x. text_eq x.id new.id) ys ≡ false
        → find (λ x. text_eq x.id id && text_eq x.subject subject) ys ≡ some a
        → ⊥
    clash q [] f g = cc
    clash q (x ∷ rest) f g =
        ground (arith, clash q rest, text_eq_iff x.id id, text_eq_iff x.id new.id)

walls_after :
    (codec : Codec) (s t : State) (subject : Text) (wall : ℕ) (rows : List SubjectRow)
    → Extends s t
    → All (λ r. verify_row codec s r ≡ ok tt) rows
    → All
        (λ r. verify_row codec t r ≡ ok tt)
        (update_subject subject (λ r. record r { accounting_wall = wall }) rows)
unfolding update_subject
walls_after codec s t subject wall [] x h = tt
walls_after codec s t subject wall (r ∷ rest) x (h, hs) =
    let kept = verify_row-Extends codec s t r x h in
    (
      (elim (text_eq r.id subject)
          as (λ b.
            verify_row codec t (if b then record r { accounting_wall = wall } else r) ≡ ok tt) [
              | true ↦ verify_row-wall t r wall codec kept
              | false ↦ kept
            ]),
      walls_after codec s t subject wall rest x hs,
    )

-- The state after an admission was written.
abbrev reserved_state : Codec → State → AttemptBody → State
reserved_state codec s body = record s {
  subjects =
      update_subject body.subject (λ r. record r { accounting_wall = body.admitted_at }) s.subjects;
  attempts = row_of codec body (next_seq s.attempts) ∷ s.attempts;
}

write_attempt-AreSound :
    (codec : Codec) (s t : State) (body : AttemptBody)
    → write_attempt codec s body ≡ ok t
    → AreSound codec s
    → AreSound codec t
unfolding write_attempt attempt_of commit_of
write_attempt-AreSound codec s t body e h =
    let (unique, e1) =
      require-bind
        (not (any (λ (a : AttemptRow). text_eq a.id (codec.hash (Body.attempt body))) s.attempts)) _
        _ e in
    let fresh : any (λ (a : AttemptRow). text_eq a.id (codec.hash (Body.attempt body))) s.attempts
        ≡ false =
      ground arith in
    let new = row_of codec body (next_seq s.attempts) in
    let x : Extends s (reserved_state codec s body) = record {
      commits = λ id subject c q. q;
      attempts =
          λ id subject a q d. (a, attempts_more s.attempts new a id subject fresh q, d, refl);
    } in
    subst (AreSound codec) {x = reserved_state codec s body} {y = t} (ok-injective _ _ e1) (record {
      heads =
          walls_after codec s (reserved_state codec s body) body.subject body.admitted_at s.subjects
            x h.heads;
      columns = ((refl, refl), h.columns);
      distinct = (fresh, h.distinct);
    })

reserve-AreSound :
    (codec : Codec) (s t : State) (snap : Snapshot) (backend : Text) (observed : ℕ) (d : Decision)
    (o : Pending) (policy : Option (Present → Result Context)) (fits : Option (Present → Bool))
    (execution : Option Execution) (context : Option AdmissionContext) (nonce : Text) (a : Attempt)
    → reserve codec s snap backend observed d o policy fits execution context nonce ≡ ok (t, a)
    → AreSound codec s
    → AreSound codec t
unfolding reserve
reserve-AreSound codec s t snap backend observed d o policy fits execution context nonce a e h =
    let ((u, chosen), selected, e1) = >>=-eq-ok (select o.id codec s snap o observed) _ e in
    let (temporal, t_ok, e2) = >>=-eq-ok (temporal_at codec u snap observed d chosen) _ e1 in
    let first : Present = record {
      state = snap;
      occasion = chosen;
      prior_unsettled_attempt = unsettled u snap.subject;
      temporal = temporal;
      inputs = inputs_of context;
      context = none;
    } in
    let (x, x_ok, e3) = >>=-eq-ok (project policy first) _ e2 in
    let present : Present = record first { context = x } in
    let (f_ok, e4) = check-bind (check_fits fits present) _ e3 in
    let (v, v_ok, e5) =
      >>=-eq-ok
        (write_attempt codec u (body_of present backend observed d.accounting_at execution nonce)) _
        e4 in
    subst (AreSound codec) {x = v} {y = t} (ok-first v t _ a e5) (
      write_attempt-AreSound codec u v _ v_ok
        (select-AreSound o.id codec s u snap o observed chosen selected h))

admit_decided-AreSound :
    (o : Option Pending) (go : Bool) (codec : Codec) (s t : State) (snap : Snapshot)
    (backend : Text) (observed : ℕ) (d : Decision) (policy : Option (Present → Result Context))
    (fits : Option (Present → Bool)) (execution : Option Execution)
    (context : Option AdmissionContext) (nonce : Text) (a : Option Attempt)
    → admit_decided o go codec s snap backend observed d policy fits execution context nonce
      ≡ ok (t, a)
    → AreSound codec s
    → AreSound codec t
unfolding admit_decided
admit_decided-AreSound (some o) true codec s t snap backend observed d policy fits execution context
      nonce a e h =
    let ((u, x), reserved_ok, e1) =
      >>=-eq-ok (reserve codec s snap backend observed d o policy fits execution context nonce) _
        e in
    subst (AreSound codec) (ok-first u t (some x) a e1) (
      reserve-AreSound codec s u snap backend observed d o policy fits execution context nonce x
        reserved_ok h)
admit_decided-AreSound none go codec s t snap backend observed d policy fits execution context nonce
      a e h =
    subst (AreSound codec) (ok-first s t none a e) h
admit_decided-AreSound (some o) false codec s t snap backend observed d policy fits execution
      context nonce a e h =
    subst (AreSound codec) (ok-first s t none a e) h

pub admit-AreSound :
    (codec : Codec) (size : List Input → ℕ) (s t : State) (subject backend : Text) (now : ℤ)
    (policy : Option (Present → Result Context)) (fits : Option (Present → Bool))
    (execution : Option Execution) (context : Option AdmissionContext) (nonce : Text)
    (a : Option Attempt)
    → admit codec size s subject backend now policy fits execution context nonce ≡ ok (t, a)
    → AreSound codec s
    → AreSound codec t
unfolding admit
admit-AreSound codec size s t subject backend now policy fits execution context nonce a e h =
    let (c_ok, e1) = check-bind (validate_admission_context codec size context) _ e in
    let (x_ok, e2) = check-bind (validate_execution execution) _ e1 in
    let (m_ok, e3) = require-bind (backend_matches execution backend) _ _ e2 in
    let (at, now_ok, e4) = >>=-eq-ok (check_time now) _ e3 in
    let (b_ok, e5) = require-bind (text_fits backend 200) _ _ e4 in
    let (snap, snap_ok, e6) = >>=-eq-ok (snapshot s subject) _ e5 in
    let (d, planned, e7) = >>=-eq-ok (schedule codec s subject at) _ e6 in
    let (current, e8) = no_conflict-bind (context_is_current context snap d.occasion) _ _ e7 in
    admit_decided-AreSound d.occasion (is_ready d.status) codec s t snap backend at d policy fits
      execution context nonce a e8 h
