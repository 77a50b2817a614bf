-- ===== src/Reports/Create/Admitted.antt =====
-- apps/api/src/reports/reports.service.ts: whose reports `create` takes, and on which path.
use protect_platform.Redis.{World}
use protect_platform.Entitlements.{licensed_allowlist, is_guild_licensed}
use protect_platform.Prelude.{
  refl, err, eq_iff, inr, inl, Result, ◌⊎◌, false, none, ok, true, ◌&&◌, is_some, [], ◌∷◌, some,
  ◌||◌, not, Option, Bool, arith, ◌≡◌, String,
}
use protect_platform.Store.{User, Report, check-ok, Db, Env}
use protect_platform.Auth.{
  find_trusted, find_account, is_discord_platform_admin, AppRole, resolve_principal, AuthIdentity,
  RequestPrincipal, principal_has_any_role,
}
use protect_platform.Reports.Intake.{create_instant_report, create_pending_report, CreateReportDto}
use protect_platform.Reports.Create.{
  create_by_route, as_instant, as_pending, proceed, assert_alleged_flag_level_if_required, Created,
  may_report_for, assert_reporter_access, route_by_guild, is_bot, trimmed_guild, Route,
  assert_community_reporter_eligible, community_route, instant_route, Site,
  reporter_instant_applies, reporter_is_eligible, choose_route,
}
use protect_platform.Auth.Roles.{account_is_admin, resolve_principal_roles}

-- The test for reports of the community, which reads the tables itself, is the test for one of the
-- roles USER, TRUSTED and ADMIN that the authorization service gives the reporter.
pub reporter_is_eligible-principal_has_any_role :
    (site : Site) (reporter : String) (db : Db)
    → reporter_is_eligible site reporter db
      ≡ principal_has_any_role
          (resolve_principal site.js site.admin_discord_ids db (AuthIdentity.user reporter))
          (AppRole.user ∷ AppRole.trusted ∷ AppRole.admin ∷ [])
unfolding reporter_is_eligible principal_has_any_role
reporter_is_eligible-principal_has_any_role site reporter db =
    let (admin, user, checker, trusted, bot) =
      resolve_principal_roles site.js site.admin_discord_ids db reporter in
    ground (arith, admin, user, trusted)

-- The reporter is on the list of admins, or has an admin's account or a row of trust.
abbrev pub is_staff : Site → String → Db → Bool
is_staff site reporter db =
    is_discord_platform_admin site.js reporter site.admin_discord_ids
    || account_is_admin (find_account reporter db)
    || is_some (find_trusted reporter db)

instant-is_staff :
    (site : Site) (dto : CreateReportDto) (db : Db)
    → reporter_instant_applies site dto db ≡ is_staff site dto.reporter_discord_id db
unfolding reporter_instant_applies principal_has_any_role
instant-is_staff site dto db =
    let (admin, user, checker, trusted, bot) =
      resolve_principal_roles site.js site.admin_discord_ids db dto.reporter_discord_id in
    ground (arith, admin, trusted)

-- What holds of a report by its path.
pub IsRouted : Site → Env → CreateReportDto → RequestPrincipal → Db → Route → Type 0
IsRouted site env dto principal db (Route.pending guild) =
    (trimmed_guild site.js dto.guild_id ≡ some guild)
    × (is_some dto.alleged_flag_level ≡ true)
    × (reporter_is_eligible site dto.reporter_discord_id db ≡ true)
    × (is_guild_licensed (licensed_allowlist site.js site.licensed_guild_ids) env.now guild db
        ≡ true)
IsRouted site env dto principal db Route.instant =
    (trimmed_guild site.js dto.guild_id ≡ none)
    × (is_staff site dto.reporter_discord_id db ≡ true)
    × ((is_bot principal.identity && not (is_some dto.alleged_flag_level)) ≡ false)

-- The caller is the bot, an admin, or the reporter.
pub IsOwn : CreateReportDto → RequestPrincipal → Type 0
IsOwn dto principal =
    (principal.identity ≡ AuthIdentity.bot)
    ⊎ ((principal_has_any_role principal (AppRole.admin ∷ []) ≡ true)
        ⊎ (principal.identity ≡ AuthIdentity.user dto.reporter_discord_id))

may_report_for-own :
    (who : AuthIdentity) (admin : Bool) (reporter : String)
    → may_report_for who admin reporter ≡ true
    → (who ≡ AuthIdentity.bot) ⊎ ((admin ≡ true) ⊎ (who ≡ AuthIdentity.user reporter))
may_report_for-own AuthIdentity.bot admin reporter h = inl refl
may_report_for-own (AuthIdentity.user id) true reporter h = inr (inl refl)
may_report_for-own (AuthIdentity.user id) false reporter h =
    inr (inr (ground (arith, h, eq_iff id reporter)))

by_guild-IsRouted :
    (site : Site) (env : Env) (dto : CreateReportDto) (principal : RequestPrincipal)
    (o : Option String) (db db' : Db) (route : Route)
    → trimmed_guild site.js dto.guild_id ≡ o
    → not ((is_bot principal.identity || is_some o) && not (is_some dto.alleged_flag_level)) ≡ true
    → route_by_guild site env dto o db ≡ ok (route, db')
    → IsRouted site env dto principal db route
unfolding IsRouted instant_route community_route assert_community_reporter_eligible
by_guild-IsRouted site env dto principal none db db' route none_given severe h =
    let staff : (reporter_instant_applies site dto db ≡ true) × (route ≡ Route.instant) =
      ground arith in
    rw staff.1
      (none_given, ground (arith, staff.0, instant-is_staff site dto db), ground (arith, severe))
by_guild-IsRouted site env dto principal (some guild) db db' route given severe h =
    let (eligible, h1) = check-ok (reporter_is_eligible site dto.reporter_discord_id db) _ _ db h in
    let (licensed, h2) =
      check-ok
        (is_guild_licensed (licensed_allowlist site.js site.licensed_guild_ids) env.now guild db) _
        _ db h1 in
    let end : route ≡ Route.pending guild = ground (arith, h2) in
    rw end (given, ground (arith, severe), eligible, licensed)

choose_route-IsRouted :
    (site : Site) (env : Env) (dto : CreateReportDto) (principal : RequestPrincipal) (db db' : Db)
    (route : Route)
    → choose_route site env dto principal db ≡ ok (route, db')
    → IsOwn dto principal × IsRouted site env dto principal db route
unfolding choose_route assert_reporter_access assert_alleged_flag_level_if_required IsOwn
choose_route-IsRouted site env dto principal db db' route h =
    let (own, h1) =
      check-ok
        (may_report_for principal.identity (principal_has_any_role principal (AppRole.admin ∷ []))
          dto.reporter_discord_id)
        _ _ db h in
    let (severe, h2) =
      check-ok
        (not (
          (is_bot principal.identity || is_some (trimmed_guild site.js dto.guild_id))
          && not (is_some dto.alleged_flag_level)))
        _ _ db h1 in
    (
      may_report_for-own principal.identity _ dto.reporter_discord_id own,
      by_guild-IsRouted site env dto principal (trimmed_guild site.js dto.guild_id) db db' route
          refl severe h2,
    )

-- The path of a created report.
abbrev pub IsOn : Route → Created → Type 0
IsOn (Route.pending guild) (Created.pending r) = Unit {0}
IsOn Route.instant (Created.instant r) = Unit {0}
IsOn _ _ = ⊥

pending-IsOn :
    (guild : String) (run : Result Report × World) (c : Created) (w' : World)
    → as_pending run ≡ (ok c, w')
    → IsOn (Route.pending guild) c
pending-IsOn guild (ok r, w) (Created.pending r') w' h = tt
pending-IsOn guild (ok r, w) (Created.instant r') w' h = ground (arith, h)
pending-IsOn guild (err e, w) c w' h = ground (arith, h)

instant-IsOn :
    (run : Result (Report × User) × World) (c : Created) (w' : World)
    → as_instant run ≡ (ok c, w')
    → IsOn Route.instant c
instant-IsOn (ok r, w) (Created.instant r') w' h = tt
instant-IsOn (ok r, w) (Created.pending r') w' h = ground (arith, h)
instant-IsOn (err e, w) c w' h = ground (arith, h)

proceed-IsOn :
    (site : Site) (env : Env) (dto : CreateReportDto) (chosen : Result (Route × Db)) (w : World)
    (c : Created) (w' : World)
    → proceed site env dto chosen w ≡ (ok c, w')
    → (route : Route) × (db : Db) × (chosen ≡ ok (route, db)) × IsOn route c
proceed-IsOn site env dto (err e) w c w' h = ground arith
proceed-IsOn site env dto (ok (Route.pending guild, db)) w c w' h = (
  Route.pending guild,
  db,
  refl,
  pending-IsOn guild
      (create_pending_report site.js site.limits env (record dto { guild_id = some guild }) w) c w'
      h,
)
proceed-IsOn site env dto (ok (Route.instant, db)) w c w' h = (
  Route.instant,
  db,
  refl,
  instant-IsOn (create_instant_report site.js site.limits site.policy env dto w) c w' h,
)

-- A report that `create` accepts comes from the bot, an admin or the reporter. If it waits for
-- review, it names a guild that has a licence, a severity, and its reporter is eligible. If it is
-- accepted at once, it names no guild, and its reporter is on the list of admins or has an admin's
-- account or a row of trust.
pub create_admitted :
    (site : Site) (env : Env) (dto : CreateReportDto) (principal : RequestPrincipal) (w w' : World)
    (c : Created)
    → create_by_route site env dto principal w ≡ (ok c, w')
    → IsOwn dto principal
      × (route : Route) × IsRouted site env dto principal w.db route
      × IsOn route c
unfolding create_by_route
create_admitted site env dto principal w w' c h =
    let (route, db, chosen, on) =
      proceed-IsOn site env dto (choose_route site env dto principal w.db) w c w' h in
    let (own, routed) = choose_route-IsRouted site env dto principal w.db db route chosen in
    (own, route, routed, on)
