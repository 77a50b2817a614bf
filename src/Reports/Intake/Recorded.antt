-- ===== src/Reports/Intake/Recorded.antt =====
-- apps/api/src/reports/reports.service.ts: what a new report does to users and flags.
use protect_platform.Reports.Review.{report_id}
use protect_platform.Reports.AntiAbuse.{dedupe_key}
use protect_platform.Flags.Created.{score_of-create}
use protect_platform.Scores.Raising.{raised-IsConsistent, raise_score_lem}
use protect_platform.Flags.{new_flag}
use protect_platform.Js.{Js}
use protect_platform.Tickets.{create_for_pending_report}
use protect_platform.Scores.Consistency.{upsert_user-IsConsistent, IsConsistent, IsFresh}
use protect_platform.Shared.Levels.{clean}
use protect_platform.Scores.{discord_key, user_id}
use protect_platform.Reports.Intake.{
  link_flag, params, new_report, tell_instant, create_instant_tx, create_pending_tx, upsert_both,
  CreateReportDto,
}
use protect_platform.Prelude.{
  update, eq_refl, ℕ, create, Option, inr, find-create, arith, List, inl, Option-cases, none, ok,
  some, false, ◌≡◌, find, ◌==◌, String,
}
use protect_platform.Policy.{community_report_weight, level_from_score, FlagPolicy}
use protect_platform.Store.{
  ReportStatus, enqueue-IsFramed, enqueue_many-IsFramed, log_with_tx-IsFramed, IsFramed-trans,
  IsFramed, log_with_tx, FlagSource, bind-ok, Report, enqueue, Flag, new_user, User, Db, Env,
  upsert_user,
}

-- A second upsert finds the rows that were there.
upsert_user-there :
    (env : Env) (id discord_id j : String) (u v : User) (db db' : Db)
    → find user_id j db.users ≡ some u
    → upsert_user env id discord_id db ≡ ok (v, db')
    → find user_id j db'.users ≡ some u
unfolding upsert_user
upsert_user-there env id discord_id j u v db db' there h =
    elim (Option-cases (find discord_key discord_id db.users)) [
      | inl missing ↦
          ground
            (arith, missing, there, find-create user_id j (new_user env id discord_id) db.users)
      | inr (w, known) ↦ ground (arith, known, there)
    ]

-- An upsert takes no identifier but its own.
upsert_user-unused :
    (env : Env) (id discord_id j : String) (v : User) (db db' : Db)
    → (id == j) ≡ false
    → find user_id j db.users ≡ none
    → upsert_user env id discord_id db ≡ ok (v, db')
    → find user_id j db'.users ≡ none
unfolding upsert_user
upsert_user-unused env id discord_id j v db db' other unused h =
    elim (Option-cases (find discord_key discord_id db.users)) [
      | inl missing ↦ ground (
        arith,
        missing,
        unused,
        other,
        find-create user_id j (new_user env id discord_id) db.users,
      )
      | inr (w, known) ↦ ground (arith, known, unused)
    ]

tell_instant-IsFramed :
    (js : Js) (env : Env) (dto : CreateReportDto) (r : Report) (weight : ℕ) (saved : User) (db : Db)
    {u : Unit {0}} {db' : Db}
    → tell_instant js env dto r weight saved db ≡ ok (u, db')
    → IsFramed db db'
unfolding tell_instant
tell_instant-IsFramed js env dto r weight saved db h =
    let (_, mid, logged, h1) = bind-ok (log_with_tx env _) _ db h in
    IsFramed-trans (log_with_tx-IsFramed env _ db logged) (enqueue_many-IsFramed env 4 _ mid h1)

create_for_pending_report-keeps :
    (env : Env) (id event_id report_id : String) (guild_id : Option String) (reporter : String)
    (db : Db) {u : Unit {0}} {db' : Db}
    → create_for_pending_report env id event_id report_id guild_id reporter db ≡ ok (u, db')
    → (db'.users ≡ db.users) × (db'.flags ≡ db.flags)
unfolding create_for_pending_report enqueue
create_for_pending_report-keeps env id event_id report_id guild_id reporter db h = ground arith

module _ (policy : FlagPolicy) (env : Env) (dto : CreateReportDto) (db : Db)
    (starts : level_from_score policy 0 ≡ clean) (two : (env.uuid 0 == env.uuid 1) ≡ false)
    (fresh : IsFresh (env.uuid 0) db.users db.flags)
    (fresh' : IsFresh (env.uuid 1) db.users db.flags)
    (c : IsConsistent policy db.users db.flags) where
  -- Both users have a row afterwards, that of the reported one is returned, and nothing but the
  -- users has changed.
  upsert_both_lem :
      (u : User) × (users : List User) × (upsert_both env dto db
        ≡ ok (u, record db { users = users }))
      × (find user_id u.id users ≡ some u)
      × IsConsistent policy users db.flags
  unfolding upsert_both
  upsert_both_lem =
      let (u, users, done, there, _, _, kept) =
        upsert_user-IsConsistent policy env (env.uuid 0) dto.target_discord_id db fresh starts c in
      let mid : Db = record db { users = users } in
      let unused =
        upsert_user-unused env (env.uuid 0) dto.target_discord_id (env.uuid 1) u db mid two
          fresh'.no_user done in
      let (v, users', done', _, _, _, kept') =
        upsert_user-IsConsistent policy env (env.uuid 1) dto.reporter_discord_id mid
          (record { no_user = unused; no_flags = fresh'.no_flags }) starts kept in
      (
        u,
        users',
        rw (done, done'),
        upsert_user-there env (env.uuid 1) dto.reporter_discord_id u.id u v mid
            (record mid { users = users' }) there done',
        kept',
      )

  -- A report of the community leaves the flags alone and the users consistent.
  pub create_pending_tx-IsConsistent :
      (js : Js) (r : Report) (db' : Db)
      → create_pending_tx js env dto db ≡ ok (r, db')
      → IsConsistent policy db'.users db'.flags × (db'.flags ≡ db.flags)
  unfolding create_pending_tx
  create_pending_tx-IsConsistent js r db' h =
      let (u, users, done, there, kept) = upsert_both_lem in
      let (_, mid, logged, h1) = bind-ok (log_with_tx env _) _ _ (rw done at h) in
      let (_, mid', queued, h2) = bind-ok (enqueue env (env.uuid 3) _) _ mid h1 in
      let (_, last, opened, end) =
        bind-ok
          (create_for_pending_report env (env.uuid 4) (env.uuid 5) (env.uuid 2) dto.guild_id
            dto.reporter_discord_id)
          _ mid' h2 in
      let f = log_with_tx-IsFramed env _ _ logged in
      let g = enqueue-IsFramed env (env.uuid 3) _ mid queued in
      let (same_users, same_flags) =
        create_for_pending_report-keeps env (env.uuid 4) (env.uuid 5) (env.uuid 2) dto.guild_id
          dto.reporter_discord_id mid' opened in
      let e : last ≡ db' = ground arith in
      (
        rw (← e, same_users, same_flags, g.users, g.flags, f.users, f.flags) kept,
        rw (← e, same_flags, g.flags, f.flags),
      )

  -- The flag of an instant report on the user with the identifier.
  abbrev pub instant_flag : String → Flag
  instant_flag uid =
      new_flag env (env.uuid 3) uid (community_report_weight policy) dto.reason
        FlagSource.community_report dto.reporter_discord_id dto.guild_id

  -- An instant report adds its flag and leaves the users consistent with it.
  pub create_instant_tx-IsConsistent :
      (js : Js) (r : Report) (saved : User) (db' : Db)
      → create_instant_tx js policy env dto db ≡ ok ((r, saved), db')
      → IsConsistent policy db'.users db'.flags
        × (uid : String) × (db'.flags ≡ create (instant_flag uid) db.flags)
  unfolding create_instant_tx
  create_instant_tx-IsConsistent js r saved db' h =
      let (u, users, done, there, kept) = upsert_both_lem in
      let weight = community_report_weight policy in
      let flags : List Flag = create (instant_flag u.id) db.flags in
      let row =
        new_report env (env.uuid 2) dto u.id (dedupe_key js (params dto)) ReportStatus.accepted in
      let run =
        raise_score_lem policy env u.id weight u
          (record db {
            users = users;
            reports = update report_id row.id (link_flag (env.uuid 3)) (create row db.reports);
            flags = flags;
          })
          there in
      let (_, last, told, end) =
        bind-ok (tell_instant js env dto _ weight _) _ _ (rw (done, run) at h) in
      let f = tell_instant-IsFramed js env dto _ weight _ _ told in
      let e : last ≡ db' = ground arith in
      (
        rw (← e, f.users, f.flags)
            (raised-IsConsistent policy env u.id weight u users db.flags flags there kept
              (ground (arith, score_of-create u.id (instant_flag u.id) db.flags, eq_refl u.id))
              (λ j other. ground (arith, score_of-create j (instant_flag u.id) db.flags))),
        u.id,
        rw (← e, f.flags),
      )
