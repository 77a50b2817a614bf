-- ===== src/Reports/Review/Kept.antt =====
-- apps/api/src/reports/reports.service.ts: what a review needs, and what a rejection leaves alone.
use protect_platform.Tickets.{finalize_ticket_for_report-keeps, Verdict, finalize_ticket_for_report}
use protect_platform.Scores.Raising.{raise_score-known}
use protect_platform.Scores.{raise_score}
use protect_platform.Reports.Review.Approved.{approve_tx-reads, HasReportedUser}
use protect_platform.Shared.Levels.{FlagLevel}
use protect_platform.Prelude.{update, arith, create, find, ok, ◌≡◌, Option, String}
use protect_platform.Policy.{trusted_command_weight_for_severity, FlagPolicy}
use protect_platform.Store.{
  log_with_tx-IsFramed, log_with_tx, ◌>>◌, bind-ok, check-ok, required-ok, User, Db, Env,
}
use protect_platform.Js.{Js}
use protect_platform.Reports.Review.{
  rejected_report, approval_flag, update_report, awaits_review, report_id, approve_tx,
  reject_checked, reject_tx, approve_found,
}

-- The user of a report that is approved has a row.
pub approve_tx-HasReportedUser :
    (js : Js) (policy : FlagPolicy) (env : Env) (id admin : String) (severity : FlagLevel)
    (saved : User) (db db' : Db)
    → approve_tx js policy env id admin severity db ≡ ok (saved, db')
    → HasReportedUser id db
unfolding approve_found
approve_tx-HasReportedUser js policy env id admin severity saved db db' h =
    let (r, there, _, _, h1) = approve_tx-reads js policy env id admin severity db saved db' h in
    let weight = trusted_command_weight_for_severity policy severity in
    let (_, _, raised, _) =
      bind-ok (raise_score policy env r.reported_user_id weight) _
        (record db { flags = create (approval_flag env weight r) db.flags }) h1 in
    let (u, known) = raise_score-known policy env r.reported_user_id weight _ raised in
    record { user = λ s found. (u, ground (arith, there, found, known)) }

pub reject_tx-keeps :
    (env : Env) (id admin : String) (note : Option String) (u : Unit {0}) (db db' : Db)
    → reject_tx env id admin note db ≡ ok (u, db')
    → (db'.users ≡ db.users) × (db'.flags ≡ db.flags)
unfolding reject_tx reject_checked
reject_tx-keeps env id admin note u db db' h =
    let (r, there, h1) =
      required-ok (find report_id id db.reports) _ (reject_checked env admin note) db h in
    let (waited, h2) =
      check-ok (awaits_review r.status) _
        (λ _.
          update_report r.id (rejected_report env admin note)
          >> (log_with_tx env _
              >> finalize_ticket_for_report env (env.uuid 0) r.id Verdict.rejected admin))
        db h1 in
    let (_, mid, logged, h3) =
      bind-ok (log_with_tx env _) _
        (record db { reports = update report_id r.id (rejected_report env admin note) db.reports })
        h2 in
    let f = log_with_tx-IsFramed env _ _ logged in
    let (users', flags', _) =
      finalize_ticket_for_report-keeps env (env.uuid 0) r.id Verdict.rejected admin mid h3 in
    (cc (users', f.users), cc (flags', f.flags))
