-- ===== src/Reports/Review/Approved.antt =====
-- apps/api/src/reports/reports.service.ts: what an approval does to the report and to the user.
use protect_platform.Flags.Created.{score_of-create}
use protect_platform.Scores.Raising.{raised-IsConsistent, raise_score_lem}
use protect_platform.Tickets.{Verdict, finalize_ticket_for_report-keeps}
use protect_platform.Scores.{user_id}
use protect_platform.Scores.Consistency.{IsConsistent}
use protect_platform.Reports.Review.{
  is_actionable, approved, approval_flag, awaits_review, report_id, approve_checked, approve_found,
  tell_approved, approve_tx,
}
use protect_platform.Shared.Levels.{FlagLevel}
use protect_platform.Store.{
  required-ok, found, ◌>>=◌, gets, ◌>>◌, check, enqueue_many-IsFramed, log_with_tx-IsFramed,
  IsFramed-trans, check-ok, enqueue_many, log_with_tx, bind-ok, Report, User, Db, Env,
}
use protect_platform.Policy.{level_from_score, trusted_command_weight_for_severity, FlagPolicy}
use protect_platform.Js.{Js}
use protect_platform.Prelude.{
  refl, not_found, find-key, find-update, is_some, not, eq_refl, bad_request, arith, create, ◌+◌,
  true, some, ok, find, ◌≡◌, String, none,
}

pub tell_approved-keeps :
    (js : Js) (env : Env) (admin : String) (r : Report) (saved : User) (db : Db) {u : Unit {0}}
    {db' : Db}
    → tell_approved js env admin r saved db ≡ ok (u, db')
    → (db'.users ≡ db.users) × (db'.flags ≡ db.flags) × (db'.reports ≡ db.reports)
unfolding tell_approved
tell_approved-keeps js env admin r saved db h =
    let (_, mid, logged, h1) = bind-ok (log_with_tx env _) _ db h in
    let (_, mid', queued, h2) = bind-ok (enqueue_many env 1 _) _ mid h1 in
    let (users, flags, reports) =
      finalize_ticket_for_report-keeps env (env.uuid 3) r.id Verdict.resolved admin mid' h2 in
    let framed =
      IsFramed-trans (log_with_tx-IsFramed env _ db logged)
        (enqueue_many-IsFramed env 1 _ mid queued) in
    (cc (users, framed.users), cc (flags, framed.flags), cc (reports, framed.reports))

-- The foreign key of a report: the user that it is about has a row.
pub record HasReportedUser (id : String) (db : Db) : Type 0 where
  pub user :
      (r : Report)
      → find report_id id db.reports ≡ some r
      → (u : User) × (find user_id r.reported_user_id db.users ≡ some u)

-- What a successful approval has done: to the user who was reported, and to the report.
pub record IsApproved (policy : FlagPolicy) (env : Env) (id admin : String) (severity : FlagLevel)
    (db : Db) (saved : User) (db' : Db) : Type 0 where
  pub report : Report
  pub is_report : find report_id id db.reports ≡ some report
  pub waited : awaits_review report.status ≡ true
  pub unflagged : report.flag_id ≡ none
  pub before : User
  pub is_before : find user_id report.reported_user_id db.users ≡ some before
  pub score :
      saved.flag_score ≡ before.flag_score + trusted_command_weight_for_severity policy severity
  pub level : saved.flag_level ≡ level_from_score policy saved.flag_score
  pub version : saved.state_version ≡ before.state_version + 1
  pub flags :
      db'.flags
      ≡ create
          (approval_flag env (trusted_command_weight_for_severity policy severity) report)
          db.flags
  pub closed : find report_id id db'.reports ≡ some (approved env (env.uuid 0) admin report)
  pub consistent : IsConsistent policy db'.users db'.flags

module _ (js : Js) (policy : FlagPolicy) (env : Env) (id admin : String) (severity : FlagLevel)
    (db : Db) where
  -- The reads and the guards let the approval through.
  pub approve_tx-reads :
      (saved : User) (db' : Db)
      → approve_tx js policy env id admin severity db ≡ ok (saved, db')
      → (r : Report) × (find report_id id db.reports ≡ some r)
        × (awaits_review r.status ≡ true)
        × (r.flag_id ≡ none)
        × (approve_found js policy env admin severity r db ≡ ok (saved, db'))
  unfolding approve_tx approve_checked
  approve_tx-reads saved db' h =
      let (actionable, h1) =
        check-ok (is_actionable severity) _
          (λ _. gets (λ (s : Db). find report_id id s.reports) >>= λ row.
            found row (not_found "Report not found")
            >>= approve_checked js policy env admin severity)
          db h in
      let (r, there, h2) =
        required-ok (find report_id id db.reports) _ (approve_checked js policy env admin severity)
          db h1 in
      let (waited, h3) =
        check-ok (awaits_review r.status) _
          (λ _.
            check (not (is_some r.flag_id)) (bad_request "Report already has a flag")
            >> approve_found js policy env admin severity r)
          db h2 in
      let (unflagged, h4) =
        check-ok (not (is_some r.flag_id)) _ (λ _. approve_found js policy env admin severity r) db
          h3 in
      (r, there, waited, ground arith, h4)

  -- An approval of a report whose user exists raises the user's score by the weight of the
  -- severity, with the level and the version that go with it, adds one flag, and closes the report
  -- with that flag. Scores and levels stay consistent.
  pub approve_tx-IsApproved :
      (saved : User) (db' : Db)
      → IsConsistent policy db.users db.flags
      → HasReportedUser id db
      → approve_tx js policy env id admin severity db ≡ ok (saved, db')
      → IsApproved policy env id admin severity db saved db'
  unfolding approve_found
  approve_tx-IsApproved saved db' c exists h =
      let (r, there, waited, unflagged, h1) = approve_tx-reads saved db' h in
      let (u, known) = exists.user r there in
      let weight = trusted_command_weight_for_severity policy severity in
      let flags = create (approval_flag env weight r) db.flags in
      let run =
        raise_score_lem policy env r.reported_user_id weight u (record db { flags = flags })
          known in
      let (_, last, told, end) = bind-ok (tell_approved js env admin r _) _ _ (rw run at h1) in
      let (users', flags', reports') = tell_approved-keeps js env admin r _ _ told in
      let e : last ≡ db' = ground arith in
      record {
        report = r;
        is_report = there;
        waited = waited;
        unflagged = unflagged;
        before = u;
        is_before = known;
        score = ground arith;
        level = ground arith;
        version = ground arith;
        flags = rw (← e) flags';
        closed =
            rw (← e, reports')
              (ground (
                arith,
                there,
                find-update report_id r.id id (approved env (env.uuid 0) admin) db.reports
                    (λ v. refl),
                find-key report_id id r db.reports there,
                eq_refl id,
              ));
        consistent =
            rw (← e, users', flags')
              (raised-IsConsistent policy env r.reported_user_id weight u db.users db.flags flags
                known c
                (ground (
                  arith,
                  score_of-create r.reported_user_id (approval_flag env weight r) db.flags,
                  eq_refl r.reported_user_id,
                ))
                (λ j other.
                  ground (arith, score_of-create j (approval_flag env weight r) db.flags)));
      }
