-- ===== src/Reports/Review/Tests.antt =====
-- Runs of the review, and the theorems at concrete inputs.
use protect_platform.Reports.Review.Stale.{approve_found_once}
use protect_platform.Shared.Levels.{high_risk}
use protect_platform.Tickets.{finalize_found}
use protect_platform.Tickets.{finalize_ticket_for_report}
use protect_platform.Scores.Consistency.{IsConsistent}
use protect_platform.Scores.{discord_key, raise_score, score_of}
use protect_platform.Policy.{trusted_command_weight_for_severity, level_from_score}
use protect_platform.Reports.Review.Once.{reviewed_once, Review}
use protect_platform.Store.{Report, has_key, enqueue, enqueue_many, log_with_tx, Db, User}
use protect_platform.Reports.Review.Approved.{approve_tx-IsApproved, HasReportedUser, IsApproved}
use protect_platform.Reports.Review.{
  report_id, truncate_event_reason, tell_approved, approve_found, approve_checked, approve_tx,
}
use protect_platform.Prelude.{◌≢◌, [], some, String, ok, refl, ◌≡◌, update, arith, find, Result}
use protect_platform.Samples.{plain_js, empty_db, policy, env, value_or, state_or}
use protect_platform.Reports.Samples.{suspect, waiting, with_report}

abbrev approving : Result (User × Db)
approving = approve_tx plain_js policy (env "a") "r1" "1" high_risk with_report

abbrev saved : User
saved = value_or suspect approving

abbrev with_approved : Db
with_approved = state_or empty_db approving

approves : approving ≡ ok (saved, with_approved)
unfolding approve_tx approve_checked approve_found tell_approved raise_score log_with_tx
    enqueue_many enqueue has_key level_from_score trusted_command_weight_for_severity find update
    finalize_ticket_for_report finalize_found truncate_event_reason
approves = refl

approved_level : saved.flag_level ≡ high_risk
unfolding approve_tx approve_checked approve_found tell_approved raise_score log_with_tx
    enqueue_many enqueue has_key level_from_score trusted_command_weight_for_severity find update
    finalize_ticket_for_report finalize_found truncate_event_reason
approved_level = refl

found_suspect :
    (key : User → String) (k : String) (u : User)
    → find key k with_report.users ≡ some u
    → suspect ≡ u
unfolding find
found_suspect key k u h = ground arith

found_waiting : (r : Report) → find report_id "r1" with_report.reports ≡ some r → waiting ≡ r
unfolding find
found_waiting r h = ground arith

consistent : IsConsistent policy with_report.users with_report.flags
unfolding find score_of level_from_score
consistent = record {
  score = λ id u h. ground arith;
  level = λ id u h. ground arith;
  indexed = λ id u h. rw (← found_suspect discord_key id u h) refl;
}

reported : HasReportedUser "r1" with_report
unfolding find
reported = record { user = λ r h. (suspect, rw (← found_waiting r h) refl) }

approve_tx-IsApproved_example :
    IsApproved policy (env "a") "r1" "1" high_risk with_report saved with_approved
approve_tx-IsApproved_example =
    approve_tx-IsApproved plain_js policy (env "a") "r1" "1" high_risk with_report saved
      with_approved consistent reported approves

-- Other users and flags come in between.
abbrev later : Db
later = record with_approved { users = []; flags = [] }

reviewed_once_example : ¬ Review plain_js policy "r1" later empty_db
reviewed_once_example =
    reviewed_once (Review.by_approval (env "a") "1" high_risk saved approves) refl

writes_approval :
    approve_found plain_js policy (env "a") "1" high_risk waiting with_report
    ≡ ok (saved, with_approved)
unfolding approve_tx approve_checked approve_found tell_approved raise_score log_with_tx
    enqueue_many enqueue has_key level_from_score trusted_command_weight_for_severity find update
    finalize_ticket_for_report finalize_found truncate_event_reason
writes_approval = refl

approve_found_once_example :
    approve_found plain_js policy (env "b") "2" high_risk waiting with_approved
    ≢ ok (saved, empty_db)
approve_found_once_example =
    approve_found_once plain_js policy (env "a") (env "b") "1" "2" high_risk high_risk waiting
      waiting with_report with_approved with_approved empty_db saved saved refl writes_approval
      (λ k h. h)
