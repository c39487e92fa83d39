-- ===== src/Tests/Witnesses.antt =====
-- The theorems applied to the sample history and to small inputs.
use cogg_cpp.Base.{
  find, ◌++◌, ℕ, ◌≤◌, ◌<◌, ◌≡◌, refl, inl, none, some, false, List, [], ◌∷◌, length, keep, codes,
  text_eq, ltb, pos, ok, err, error, conflict, arith,
}
use cogg_cpp.Budget.{Admission, Budget, budget, check_time, add, usage_sql, budget_of}
use cogg_cpp.Budget.Window.{IsPaced, in_window, budget-IsPaced, eligible_used, window_quota}
use cogg_cpp.Wake.{WakePlan, wake_plan, plan_of}
use cogg_cpp.Wake.Bounds.{Grants, wake_plan_granted}
use cogg_cpp.Proposal.{validate}
use cogg_cpp.Store.Inbox.{is_keyed}
use cogg_cpp.Store.{
  payload_eq, document, subject_row, attempt_row, occasion_row, admissions, snapshot, SubjectRow,
  apply_writes,
}
use cogg_cpp.Store.Inbox.{submit}
use cogg_cpp.Store.Inbox.Idempotent.{submit_again, submit_reused}
use cogg_cpp.Store.Schedule.{schedule, event, clock}
use cogg_cpp.Store.Admit.{admit_decided, reserve, select, temporal_at, write_attempt}
use cogg_cpp.Store.Commit.{
  commit, commit_locked, commit_time, check_origin, write_commit, memory_transition,
}
use cogg_cpp.Memory.{memory_apply}
use cogg_cpp.Store.Commit.Once.{Advances, commit_once, commit-Advances}
use cogg_cpp.Evidence.{validate_admission_context, validate_execution, validate_emission}
use cogg_cpp.Store.Head.{verify_head}
use cogg_cpp.Runs.{Reachable, start, next, creates, submits, admits, commits}
use cogg_cpp.Runs.Quota.{Reachable-quota}
use cogg_cpp.Heads.Agreement.{verify_head-Reachable}
use cogg_cpp.Tests.{
  sample_config, sample_codec, sample_limits, alice, ready_attempt, reply, no_capacity,
  created_store, created_lem, submitted_store, submitted_lem, admitted_store, admitted,
  admitted_lem, committed_store, committed_snapshot, committed_lem, admitted_found,
}

admitted-Reachable : Reachable sample_codec admitted_store
admitted-Reachable =
    next
      (next (next start (creates alice sample_limits (pos 10) [] (codes "n") created_lem))
        (submits alice (codes "k") (codes "hello") (codes "eventuser:k") (pos 20) submitted_lem))
      (admits length alice (codes "model") (pos 30) none none none none (codes "r") admitted
        admitted_lem)

commit_lem :
    commit sample_codec none no_capacity admitted_store ready_attempt reply (pos 40) none none
    ≡ ok (committed_store, committed_snapshot)
unfolding commit check_time
commit_lem = committed_lem

committed-Reachable : Reachable sample_codec committed_store
committed-Reachable =
    next admitted-Reachable (
      commits none no_capacity ready_attempt reply (pos 40) none none committed_snapshot commit_lem)

alice_found : (r : SubjectRow) × (subject_row committed_store alice ≡ some r)
unfolding committed_store text_eq validate attempt_row validate_admission_context validate_execution
    snapshot submitted_store schedule budget admissions admit_decided reserve select temporal_at
    clock write_attempt check_origin validate_emission commit_time event subject_row apply_writes
    wake_plan write_commit memory_transition memory_apply occasion_row
alice_found = (_, refl)

reply_valid : validate reply ≡ ok tt
unfolding validate text_eq
reply_valid = refl

other_text :
    payload_eq sample_codec.json_eq (document (codes "hello")) (document (codes "other")) ≡ false
unfolding payload_eq text_eq
other_text = refl

new_key : find (is_keyed alice (codes "user:" ++ codes "k")) created_store.occasions ≡ none
unfolding created_store text_eq
new_key = refl

Reachable-quota_example :
    IsPaced alice_found.0.limits (admissions alice committed_store.attempts)
    × ((now : ℕ)
        → length
            (keep (in_window alice_found.0.limits now) (admissions alice committed_store.attempts))
          ≤ alice_found.0.limits.max_attempts)
Reachable-quota_example =
    Reachable-quota sample_codec committed_store alice alice_found.0 committed-Reachable
      alice_found.1

verify_head-Reachable_example : verify_head sample_codec committed_store alice ≡ ok tt
verify_head-Reachable_example =
    verify_head-Reachable sample_codec committed_store alice alice_found.0 committed-Reachable
      alice_found.1

commit_once_example :
    commit_locked sample_codec none no_capacity committed_store ready_attempt reply 50 none none
      none
    ≡ err (conflict "attempt already settled")
commit_once_example =
    commit_once sample_codec none no_capacity admitted_store committed_store ready_attempt reply 40
      none none none committed_snapshot ready_attempt admitted_found.0 admitted_found.0 reply 50
      none none none committed_lem admitted_found.1 admitted_found.1 (inl refl) reply_valid

commit-Advances_example : Advances sample_codec admitted_store committed_store ready_attempt reply
commit-Advances_example =
    commit-Advances sample_codec none no_capacity admitted_store committed_store ready_attempt reply
      40 none none none committed_snapshot committed_lem

submit_again_example :
    submit sample_codec submitted_store alice (codes "k") (codes "hello") (pos 25)
    ≡ ok (submitted_store, codes "eventuser:k")
submit_again_example =
    submit_again sample_codec created_store submitted_store alice (codes "k") (codes "hello")
      (codes "eventuser:k") (pos 20) submitted_lem 25

submit_reused_example :
    submit sample_codec submitted_store alice (codes "k") (codes "other") (pos 25)
    ≡ err (error "idempotency key reused with different content")
submit_reused_example =
    submit_reused sample_codec created_store submitted_store alice (codes "k") (codes "hello")
      (codes "eventuser:k") (codes "other") (pos 20) new_key submitted_lem other_text refl 25

abbrev two_rows : List Admission
two_rows = record { seq = 2; at = 300 } ∷ record { seq = 1; at = 50 } ∷ []

abbrev late_budget : Budget
late_budget = record {
  used = 1;
  limit = 2;
  period_ms = 1000;
  through_seq = 2;
  floor_at = 1100;
  quota_at = 1100;
  eligible_at = 1100;
}

late_budget_lem : budget sample_config 1100 none two_rows ≡ ok late_budget
unfolding budget usage_sql budget_of add
late_budget_lem = refl

two_rows-IsPaced : IsPaced sample_config two_rows
two_rows-IsPaced = ((omega arith, tt), (omega arith, tt), omega arith, (tt, tt, omega arith, tt))

budget-IsPaced_example : IsPaced sample_config (record { seq = 3; at = 1100 } ∷ two_rows)
budget-IsPaced_example =
    budget-IsPaced sample_config 1100 3 two_rows (omega arith) two_rows-IsPaced
      (omega arith, (omega arith, tt)) late_budget_lem (omega arith)

eligible_used_example : length (keep (λ a. ltb 100 a.at) two_rows) < 2
eligible_used_example =
    eligible_used sample_config 1100 none two_rows (omega arith) late_budget_lem (omega arith)

window_quota_example : length (keep (in_window sample_config 400) two_rows) ≤ 2
window_quota_example = window_quota sample_config two_rows two_rows-IsPaced 400

late_plan : (p : WakePlan) × (wake_plan sample_config (some 7) 1100 none two_rows ≡ ok p)
unfolding wake_plan plan_of budget usage_sql budget_of add
late_plan = (_, refl)

wake_plan_granted_example : Grants sample_config 7 1100 none two_rows late_plan.0
wake_plan_granted_example =
    wake_plan_granted sample_config 7 1100 none two_rows (omega arith) late_plan.1
