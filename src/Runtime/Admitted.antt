-- ===== src/Runtime/Admitted.antt =====
-- What a step of `Runtime` in src/kernel.cpp leaves of the attempt that it admitted.
use cogg_cpp.Base.{
  ℕ, ◌≡◌, refl, ap, ◌∙◌, subst, ◌⊎◌, inl, inr, List, Bool, true, false, any, not, Option, none,
  some, Text, text_eq, text_eq_refl, ℤ, Failure, Result, ok, err, require-bind, no_conflict-bind,
  check-bind, >>=-eq-ok, ok-injective,
}
use cogg_cpp.Budget.{check_time}
use cogg_cpp.Proposal.{text_fits}
use cogg_cpp.Store.{
  State, Codec, Body, AttemptBody, AttemptRow, Snapshot, Pending, Decision, Input, Execution,
  Context, snapshot, attempt_row,
}
use cogg_cpp.Store.Schedule.{schedule}
use cogg_cpp.Store.Admit.{
  is_ready, admit_decided, context_is_current, backend_matches, Present, Attempt, select, reserve,
  admit, insert_attempt, write_attempt, temporal_at, unsettled, body_of, inputs_of, project,
  check_fits, row_of, next_seq,
}
use cogg_cpp.Evidence.{AdmissionContext, validate_admission_context, validate_execution}
use cogg_cpp.Runtime.{StepResult}
use cogg_cpp.Runtime.Execute.{execute_attempt}
use cogg_cpp.Runtime.Settled.{IsSettled}
use cogg_cpp.Runtime.Always.{execute_attempt-IsSettled}
use cogg_cpp.Runtime.Step.{
  Host, Members, reset, verify_once, admission, session_of, keep_result, run_admitted, attempt_once,
}

write_attempt-found :
    (codec : Codec) (s t : State) (body : AttemptBody)
    → write_attempt codec s body ≡ ok t
    → attempt_row t (codec.hash (Body.attempt body))
      ≡ some (row_of codec body (next_seq s.attempts))
unfolding write_attempt insert_attempt attempt_row
write_attempt-found codec s t body e =
    let (fresh, e) =
      require-bind (not (any (λ a. text_eq a.id (codec.hash (Body.attempt body))) s.attempts)) _ _
        e in
    subst
      (λ x.
        attempt_row x (codec.hash (Body.attempt body))
        ≡ some (row_of codec body (next_seq s.attempts)))
      (ok-injective _ t e) (rw (text_eq_refl (codec.hash (Body.attempt body))) refl)

-- An attempt that was admitted has a row.
abbrev HasRow : State → Attempt → Type 0
HasRow t a = (row : AttemptRow) × (attempt_row t a.id ≡ some row)

abbrev MayHaveRow : State × Option Attempt → Type 0
MayHaveRow (t, none) = Unit
MayHaveRow (t, some a) = HasRow t a

reserve-HasRow :
    (codec : Codec) (s t : State) (snap : Snapshot) (backend : Text) (observed : ℕ) (d : Decision)
    (o : Pending) (policy : Option (Present → Result Context)) (fits : Option (Present → Bool))
    (execution : Option Execution) (context : Option AdmissionContext) (nonce : Text) (a : Attempt)
    → reserve codec s snap backend observed d o policy fits execution context nonce ≡ ok (t, a)
    → HasRow t a
unfolding reserve
reserve-HasRow codec s t snap backend observed d o policy fits execution context nonce a e =
    let ((u, chosen), selected, e) = >>=-eq-ok (select o.id codec s snap o observed) _ e in
    let (temporal, q, e) = >>=-eq-ok (temporal_at codec u snap observed d chosen) _ e in
    let first : Present = record {
      state = snap;
      occasion = chosen;
      prior_unsettled_attempt = unsettled u snap.subject;
      temporal = temporal;
      inputs = inputs_of context;
      context = none;
    } in
    let (x, q, e) = >>=-eq-ok (project policy first) _ e in
    let present : Present = record first { context = x } in
    let (q, e) = check-bind (check_fits fits present) _ e in
    let body = body_of present backend observed d.accounting_at execution nonce in
    let (v, written, e) = >>=-eq-ok (write_attempt codec u body) _ e in
    subst (λ p. HasRow p.0 p.1)
      (ok-injective (v, record { id = codec.hash (Body.attempt body); present = present }) (t, a) e)
      (row_of codec body (next_seq u.attempts), write_attempt-found codec u v body written)

admit_decided-HasRow :
    (o : Option Pending) (go : Bool) (codec : Codec) (s t : State) (snap : Snapshot)
    (backend : Text) (observed : ℕ) (d : Decision) (policy : Option (Present → Result Context))
    (fits : Option (Present → Bool)) (execution : Option Execution)
    (context : Option AdmissionContext) (nonce : Text) (a : Attempt)
    → admit_decided o go codec s snap backend observed d policy fits execution context nonce
      ≡ ok (t, some a)
    → HasRow t a
unfolding admit_decided
admit_decided-HasRow (some o) true codec s t snap backend observed d policy fits execution context
      nonce a e =
    let ((u, x), reserved, e) =
      >>=-eq-ok (reserve codec s snap backend observed d o policy fits execution context nonce) _
        e in
    subst MayHaveRow (ok-injective (u, some x) (t, some a) e) (
      reserve-HasRow codec s u snap backend observed d o policy fits execution context nonce x
        reserved)
admit_decided-HasRow none go codec s t snap backend observed d policy fits execution context nonce a
      e =
    cc
admit_decided-HasRow (some o) false codec s t snap backend observed d policy fits execution context
      nonce a e =
    cc

admit-HasRow :
    (codec : Codec) (size : List Input → ℕ) (s t : State) (subject backend : Text) (now : ℤ)
    (policy : Option (Present → Result Context)) (fits : Option (Present → Bool))
    (execution : Option Execution) (context : Option AdmissionContext) (nonce : Text) (a : Attempt)
    → admit codec size s subject backend now policy fits execution context nonce ≡ ok (t, some a)
    → HasRow t a
unfolding admit
admit-HasRow codec size s t subject backend now policy fits execution context nonce a e =
    let (q, e) = check-bind (validate_admission_context codec size context) _ e in
    let (q, e) = check-bind (validate_execution execution) _ e in
    let (q, e) = require-bind (backend_matches execution backend) _ _ e in
    let (observed, q, e) = >>=-eq-ok (check_time now) _ e in
    let (q, e) = require-bind (text_fits backend 200) _ _ e in
    let (snap, q, e) = >>=-eq-ok (snapshot s subject) _ e in
    let (d, q, e) = >>=-eq-ok (schedule codec s subject observed) _ e in
    let (q, e) = no_conflict-bind (context_is_current context snap d.occasion) _ _ e in
    admit_decided-HasRow d.occasion (is_ready d.status) codec s t snap backend observed d policy
      fits execution context nonce a e

-- What a call that returned left: nothing, or an attempt that is settled.
abbrev pub Leaves : Host → Text → ℤ → Option AdmissionContext → State → State → Type 0
Leaves h subject now context s t =
    (admission h subject now context s ≡ ok (t, none))
    ⊎ ((u : State) × (a : Attempt) × (admission h subject now context s ≡ ok (u, some a))
        × IsSettled t a.id)

err_or_ok : {A : Type 0} (f : Failure) (a : A) → ◌≡◌ {A = Result A} (err f) (ok a) → ⊥
err_or_ok f a e = cc

run_admitted-Leaves :
    (h : Host) (redact : Bool) (subject : Text) (now : ℤ) (context : Option AdmissionContext)
    (timeout : ℤ) (m m' : Members) (s t : State) (out : StepResult)
    (r : Result (State × Option Attempt))
    → admission h subject now context s ≡ r
    → run_admitted h redact timeout m s r ≡ (t, m', ok out)
    → Leaves h subject now context s t
unfolding run_admitted keep_result
run_admitted-Leaves h redact subject now context timeout m m' s t out (err e) q k =
    elim (err_or_ok e out (ap (λ y. y.2) k)) [ ]
run_admitted-Leaves h redact subject now context timeout m m' s t out (ok (u, none)) q k =
    inl (q ∙ ap (λ y. ok (y, none)) (ap (λ y. y.0) k))
run_admitted-Leaves h redact subject now context timeout m m' s t out (ok (u, some a)) q k = inr (
  u,
  a,
  q,
  settled (execute_attempt (session_of h redact a) h.backend none none timeout u) refl k,
)
  where
    settled :
        (run : State × Result StepResult)
        → execute_attempt (session_of h redact a) h.backend none none timeout u ≡ run
        → keep_result m run ≡ (t, m', ok out)
        → IsSettled t a.id
    settled (v, err e) p k = elim (err_or_ok e out (ap (λ y. y.2) k)) [ ]
    settled (v, ok o) p k =
        let (row, found) =
          admit-HasRow h.codec h.inputs_size s u subject h.backend_name now h.policy h.fits none
            context h.nonce a q in
        subst (λ y. IsSettled y a.id) (ap (λ y. y.0) k)
          (execute_attempt-IsSettled (session_of h redact a) h.backend none none timeout u v row o
            found p)

-- When a step of a runtime returns, from any store, either nothing was admitted, and the store is the
-- one that the admission left, or the attempt that was admitted is settled: none is left reserved.
pub attempt_once-Leaves :
    (h : Host) (redact : Bool) (subject : Text) (now : ℤ) (context : Option AdmissionContext)
    (timeout : ℤ) (m m' : Members) (s t : State) (out : StepResult)
    → attempt_once h redact subject now context timeout m s ≡ (t, m', ok out)
    → Leaves h subject now context s t
unfolding attempt_once
attempt_once-Leaves h redact subject now context timeout m m' s t out k =
    verified (verify_once h subject s (reset m)) k
  where
    verified :
        (o : Result Members)
        → (elim o [
          | err e ↦ (s, reset m, err e)
          | ok next ↦ run_admitted h redact timeout next s (admission h subject now context s)
        ])
          ≡ (t, m', ok out)
        → Leaves h subject now context s t
    verified (err e) q = elim (err_or_ok e out (ap (λ y. y.2) q)) [ ]
    verified (ok next) q =
        run_admitted-Leaves h redact subject now context timeout next m' s t out
          (admission h subject now context s) refl q
