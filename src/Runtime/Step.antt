-- ===== src/Runtime/Step.antt =====
-- `Runtime::step_result`, `Runtime::step` and `Runtime::fail_scoped` of src/kernel.cpp. The check of
-- a whole history, `Store::verify`, is an argument.
use cogg_cpp.Base.{
  ℕ, List, [], ◌∷◌, Bool, true, false, if◌then◌else◌, Option, none, some, Text, codes, text_eq,
  contains, ℤ, pos, error, Result, ok, err, ◌>>=◌, ◌>>◌,
}
use cogg_cpp.Proposal.{Abstention}
use cogg_cpp.Evidence.{AdmissionContext}
use cogg_cpp.Store.{State, Codec, Input, Context, Snapshot}
use cogg_cpp.Store.Admit.{Present, Attempt, admit}
use cogg_cpp.Store.Commit.{TransitionGuard, CapacityCheck}
use cogg_cpp.Store.Settle.{FailureScope, fail}
use cogg_cpp.Runtime.{Backend, Clocks, StepResult, empty_result}
use cogg_cpp.Runtime.Execute.{Session, execute_attempt}

-- The store, the backend and the environment of one step.
pub record Host : Type 0 where
  pub codec : Codec
  pub inputs_size : List Input → ℕ
  pub verify : State → Text → Result (Unit {0})
  pub guard : Option TransitionGuard
  pub capacity : CapacityCheck
  pub backend : Backend
  pub backend_name : Text
  pub policy : Option (Present → Result Context)
  pub fits : Option (Present → Bool)
  pub clocks : Clocks
  pub nonce : Text

-- The members of a Runtime that change.
pub record Members : Type 0 where
  pub verified : List Text
  pub abstained : Option Abstention
  pub disposed : Option Snapshot
  pub maintenance_error : Text

abbrev pub Stepped {ℓ} : Type ℓ → Type ℓ
Stepped A = State × Members × Result A

-- abstention_.reset() and the two lines after it
abbrev pub reset : Members → Members
reset m = record m { abstained = none; disposed = none; maintenance_error = [] }

unfoldable pub verify_once : Host → Text → State → Members → Result Members
verify_once h subject s m =
    if contains m.verified subject
    then ok m
    else (do h.verify s subject; ok (record m { verified = subject ∷ m.verified }))

abbrev pub admission :
    Host → Text → ℤ → Option AdmissionContext → State → Result (State × Option Attempt)
admission h subject now context s =
    admit h.codec h.inputs_size s subject h.backend_name now h.policy h.fits none context h.nonce

abbrev pub session_of : Host → Bool → Attempt → Session
session_of h redact a = record {
  codec = h.codec;
  guard = h.guard;
  capacity = h.capacity;
  attempt = a;
  clocks = h.clocks;
  options = record { redact_diagnostics = redact; rethrow_commit_overflow = false };
}

abbrev disposed_of : StepResult → Option Snapshot
disposed_of out = if text_eq out.status (codes "disposed") then out.snapshot else none

-- The members after an attempt.
unfoldable pub keep_result : Members → State × Result StepResult → Stepped StepResult
keep_result m (t, err e) = (t, m, err e)
keep_result m (t, ok out) = (
  t,
  record m {
    abstained = out.abstained;
    disposed = disposed_of out;
    maintenance_error = out.maintenance_error;
  },
  ok out,
)

-- From the answer of `admit` on; `nothing` is what is returned when nothing is admitted.
unfoldable pub run_admitted :
    Host → Bool → ℤ → Members → State → Result (State × Option Attempt) → Stepped StepResult
unfolding execute_attempt keep_result
run_admitted h redact timeout m s (err e) = (s, m, err e)
run_admitted h redact timeout m s (ok (t, none)) = (t, m, ok (empty_result []))
run_admitted h redact timeout m s (ok (t, some a)) =
    keep_result m (execute_attempt (session_of h redact a) h.backend none none timeout t)

unfoldable pub attempt_once :
    Host → Bool → Text → ℤ → Option AdmissionContext → ℤ → Members → State → Stepped StepResult
unfolding verify_once admit run_admitted
attempt_once h redact subject now context timeout m s = elim (verify_once h subject s (reset m)) [
  | err e ↦ (s, reset m, err e)
  | ok next ↦ run_admitted h redact timeout next s (admission h subject now context s)
]

unfoldable pub step_result :
    Host → Text → ℤ → Option AdmissionContext → ℤ → Members → State → Stepped StepResult
unfolding attempt_once
step_result h subject now context timeout m s = attempt_once h true subject now context timeout m s

-- The end of `step`: an exception that was captured is thrown again, here as one error.
unfoldable pub committed_of : StepResult → Result (Option Snapshot)
committed_of out =
    if out.exception
    then err (error "backend exception")
    else ok (if text_eq out.status (codes "committed") then out.snapshot else none)

-- `step` hands no cancellation to the attempt.
abbrev uncancelled : Host → Host
uncancelled h = record h { clocks = record h.clocks { is_cancelled = false } }

unfoldable pub step :
    Host → Text → ℤ → Option AdmissionContext → Members → State → Stepped (Option Snapshot)
unfolding attempt_once committed_of
step h subject now context m s =
    let run = attempt_once (uncancelled h) false subject now context (pos 3600000) m s in
    (run.0, run.1, run.2 >>= committed_of)

unfoldable pub fail_scoped :
    Host → Text → Text → FailureScope → Members → State → Result (State × Members)
unfolding fail
fail_scoped h attempt reason scope m s = do
  at ← h.clocks.wall_at_failure
  (t, snap) ← fail h.codec h.capacity s attempt reason scope at
  ok (t, record m { disposed = snap })
