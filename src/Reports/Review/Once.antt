-- ===== src/Reports/Review/Once.antt =====
-- apps/api/src/reports/reports.service.ts: a report is reviewed once.
use protect_platform.Scores.Raising.{raise_score-reports}
use protect_platform.Tickets.{finalize_ticket_for_report-keeps, Verdict, finalize_ticket_for_report}
use protect_platform.Scores.{raise_score}
use protect_platform.Reports.Review.Approved.{tell_approved-keeps, approve_tx-reads}
use protect_platform.Shared.Levels.{FlagLevel}
use protect_platform.Reports.Review.{
  approved, tell_approved, rejected_report, approval_flag, update_report, awaits_review, approve_tx,
  reject_checked, report_id, reject_tx, approve_found,
}
use protect_platform.Store.{
  log_with_tx-IsFramed, log_with_tx, ◌>>◌, bind-ok, check-ok, required-ok, User, Env, Db, Report,
}
use protect_platform.Policy.{trusted_command_weight_for_severity, FlagPolicy}
use protect_platform.Js.{Js}
use protect_platform.Prelude.{
  refl, create, eq_refl, false, find-key, ok, true, find-update, Option, update, some, ◌≡◌, find,
  List, arith, String,
}

-- A review of the report with the identifier that succeeds, and the state that it leaves.
pub data Review (js : Js) (policy : FlagPolicy) (id : String) (db : Db) : Db → Type 0 where
  by_approval :
      {db' : Db} (env : Env) (admin : String) (severity : FlagLevel) (saved : User)
      → approve_tx js policy env id admin severity db ≡ ok (saved, db')
      → Review js policy id db db'
  by_rejection :
      {db' : Db} (env : Env) (admin : String) (note : Option String) (u : Unit {0})
      → reject_tx env id admin note db ≡ ok (u, db')
      → Review js policy id db db'

-- What a review finds and leaves.
record IsClosed (id : String) (db db' : Db) : Type 0 where
  before : Report
  is_before : find report_id id db.reports ≡ some before
  waited : awaits_review before.status ≡ true
  after : Report
  is_after : find report_id id db'.reports ≡ some after
  closed : awaits_review after.status ≡ false

find-changed :
    (id : String) (r : Report) (f : Report → Report) (reports : List Report)
    → ((x : Report) → (f x).id ≡ x.id)
    → find report_id id reports ≡ some r
    → find report_id id (update report_id r.id f reports) ≡ some (f r)
find-changed id r f reports keeps there = ground (
  arith,
  there,
  find-update report_id r.id id f reports keeps,
  find-key report_id id r reports there,
  eq_refl id,
)

module _ (js : Js) (policy : FlagPolicy) (env : Env) (id admin : String) (db : Db) where
  approve_tx-IsClosed :
      (severity : FlagLevel) (saved : User) (db' : Db)
      → approve_tx js policy env id admin severity db ≡ ok (saved, db')
      → IsClosed id db db'
  unfolding approve_found
  approve_tx-IsClosed severity saved db' h =
      let (r, there, waited, unflagged, h1) =
        approve_tx-reads js policy env id admin severity db saved db' h in
      let weight = trusted_command_weight_for_severity policy severity in
      let flags = create (approval_flag env weight r) db.flags in
      let (u, mid, raised, h2) =
        bind-ok (raise_score policy env r.reported_user_id weight) _ (record db { flags = flags })
          h1 in
      let (_, last, told, end) = bind-ok (tell_approved js env admin r u) _ _ h2 in
      let (users', flags', reports') = tell_approved-keeps js env admin r u _ told in
      let e : last ≡ db' = ground arith in
      record {
        before = r;
        is_before = there;
        waited = waited;
        after = approved env (env.uuid 0) admin r;
        is_after =
            rw (← e, reports', raise_score-reports policy env r.reported_user_id weight _ raised)
              (find-changed id r (approved env (env.uuid 0) admin) db.reports (λ x. refl) there);
        closed = refl;
      }

  reject_tx-IsClosed :
      (note : Option String) (u : Unit {0}) (db' : Db)
      → reject_tx env id admin note db ≡ ok (u, db')
      → IsClosed id db db'
  unfolding reject_tx reject_checked
  reject_tx-IsClosed note u db' h =
      let (r, there, h1) =
        required-ok (find report_id id db.reports) _ (reject_checked env admin note) db h in
      let (waited, h2) =
        check-ok (awaits_review r.status) _
          (λ _.
            update_report r.id (rejected_report env admin note)
            >> (log_with_tx env _
                >> finalize_ticket_for_report env (env.uuid 0) r.id Verdict.rejected admin))
          db h1 in
      let (_, mid, logged, h3) =
        bind-ok (log_with_tx env _) _
          (record db {
            reports = update report_id r.id (rejected_report env admin note) db.reports;
          })
          h2 in
      let (users', flags', reports') =
        finalize_ticket_for_report-keeps env (env.uuid 0) r.id Verdict.rejected admin mid h3 in
      record {
        before = r;
        is_before = there;
        waited = waited;
        after = rejected_report env admin note r;
        is_after =
            rw (reports', (log_with_tx-IsFramed env _ _ logged).reports)
              (find-changed id r (rejected_report env admin note) db.reports (λ x. refl) there);
        closed = refl;
      }

Review-IsClosed :
    {js : Js} {policy : FlagPolicy} {id : String} {db db' : Db}
    → Review js policy id db db'
    → IsClosed id db db'
Review-IsClosed {js} {policy} {id} {db} {db'} (by_approval env admin severity saved h) =
    approve_tx-IsClosed js policy env id admin db severity saved db' h
Review-IsClosed {js} {policy} {id} {db} {db'} (by_rejection env admin note u h) =
    reject_tx-IsClosed js policy env id admin db note u db' h

-- A report that has been approved or rejected can be neither approved nor rejected again, by
-- whomever, in any later state in which its row is as the first review left it, whatever else has
-- changed. The second review is one whose reads come after the commit of the first.
pub reviewed_once :
    {js : Js} {policy : FlagPolicy} {id : String} {db db' later last : Db}
    → Review js policy id db db'
    → find report_id id later.reports ≡ find report_id id db'.reports
    → ¬ Review js policy id later last
reviewed_once first same second =
    let a = Review-IsClosed first in
    let b = Review-IsClosed second in
    ground (arith, same, a.is_after, a.closed, b.is_before, b.waited)
