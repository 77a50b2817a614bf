-- ===== src/Reports/Create.antt =====
-- apps/api/src/reports/reports.service.ts: `create`, which admits a report and chooses its path.
pub mod Admitted
mod Tests
use protect_platform.Entitlements.{licensed_allowlist, is_guild_licensed}
use protect_platform.Policy.{FlagPolicy}
use protect_platform.Redis.{World}
use protect_platform.Reports.AntiAbuse.{Limits}
use protect_platform.Reports.Intake.{create_instant_report, create_pending_report, CreateReportDto}
use protect_platform.Js.{is_empty, Js}
use protect_platform.Prelude.{
  bad_request, [], ◌&&◌, ◌∷◌, ◌==◌, is_some, none, not, ok, forbidden, ◌||◌, true, false,
  if◌then◌else◌, err, some, Bool, Result, Option, String,
}
use protect_platform.Store.{
  throw, pure, check, gets, PlatformAccount, Db, User, Tx, Env, PlatformRole, Report, ◌>>=◌, ◌>>◌,
}
use protect_platform.Auth.{
  resolve_principal, AppRole, is_discord_platform_admin, principal_has_any_role, RequestPrincipal,
  AuthIdentity, find_account, find_trusted,
}

-- The settings of the deployment that `create` reads.
pub record Site : Type 0 where
  pub js : Js
  pub limits : Limits
  pub policy : FlagPolicy
  pub admin_discord_ids : Option String
  pub licensed_guild_ids : Option String

abbrev is_privileged : PlatformRole → Bool
is_privileged PlatformRole.checker = false
is_privileged _ = true

abbrev pub is_user_or_admin : Option PlatformAccount → Bool
is_user_or_admin none = false
is_user_or_admin (some a) = is_privileged a.role

-- The test in `assertCommunityReporterEligible`.
unfoldable pub reporter_is_eligible : Site → String → Db → Bool
reporter_is_eligible site reporter db =
    is_discord_platform_admin site.js reporter site.admin_discord_ids
    || is_some (find_trusted reporter db)
    || is_user_or_admin (find_account reporter db)

pub assert_community_reporter_eligible : Site → String → Tx (Unit {0})
assert_community_reporter_eligible site reporter db =
    check (reporter_is_eligible site reporter db)
      (forbidden
        "Community reports require a dashboard account with the User role. A platform admin can promote your account in Sentra.")
      db

-- A user who is no admin reports in his own name; the bot reports in anyone's.
abbrev pub may_report_for : AuthIdentity → Bool → String → Bool
may_report_for AuthIdentity.bot is_admin reporter = true
may_report_for (AuthIdentity.user id) is_admin reporter = is_admin || id == reporter

pub assert_reporter_access : CreateReportDto → RequestPrincipal → Tx (Unit {0})
assert_reporter_access dto principal =
    check
      (may_report_for principal.identity (principal_has_any_role principal (AppRole.admin ∷ []))
        dto.reporter_discord_id)
      (forbidden "Cannot report on behalf of another user")

abbrev pub is_bot : AuthIdentity → Bool
is_bot AuthIdentity.bot = true
is_bot (AuthIdentity.user id) = false

-- `dto.guildId?.trim()`; an empty text is no guild.
abbrev pub trimmed_guild : Js → Option String → Option String
trimmed_guild js none = none
trimmed_guild js (some g) = if is_empty (js.trim g) then none else some (js.trim g)

pub assert_alleged_flag_level_if_required :
    Site → CreateReportDto → RequestPrincipal → Tx (Unit {0})
assert_alleged_flag_level_if_required site dto principal =
    check
      (not (
        (is_bot principal.identity || is_some (trimmed_guild site.js dto.guild_id))
        && not (is_some dto.alleged_flag_level)))
      (bad_request "allegedFlagLevel is required")

pub reporter_instant_applies : Site → CreateReportDto → Db → Bool
reporter_instant_applies site dto db =
    principal_has_any_role
      (resolve_principal site.js site.admin_discord_ids db
        (AuthIdentity.user dto.reporter_discord_id))
      (AppRole.trusted ∷ AppRole.admin ∷ [])

-- The path that a report takes: with its guild, or at once.
pub data Route : Type 0 where
  pending : String → Route
  instant : Route

pub community_route : Site → Env → CreateReportDto → String → Tx Route
community_route site env dto guild = do
  assert_community_reporter_eligible site dto.reporter_discord_id
  licensed ←
      gets (is_guild_licensed (licensed_allowlist site.js site.licensed_guild_ids) env.now guild)
  check licensed (forbidden "This server has no active Sentra license for reports")
  pure (Route.pending guild)

pub instant_route : Site → CreateReportDto → Tx Route
instant_route site dto = do
  applies ← gets (reporter_instant_applies site dto)
  if applies
      then pure Route.instant
      else (assert_community_reporter_eligible site dto.reporter_discord_id
          >> throw (bad_request "guildId is required for community reports"))

abbrev pub route_by_guild : Site → Env → CreateReportDto → Option String → Tx Route
route_by_guild site env dto none = instant_route site dto
route_by_guild site env dto (some guild) = community_route site env dto guild

pub choose_route : Site → Env → CreateReportDto → RequestPrincipal → Tx Route
choose_route site env dto principal = do
  assert_reporter_access dto principal
  assert_alleged_flag_level_if_required site dto principal
  route_by_guild site env dto (trimmed_guild site.js dto.guild_id)

-- What `create` returns.
pub data Created : Type 0 where
  pending : Report → Created
  instant : Report × User → Created

abbrev as_pending : Result Report × World → Result Created × World
as_pending (err e, w) = (err e, w)
as_pending (ok r, w) = (ok (Created.pending r), w)

abbrev as_instant : Result (Report × User) × World → Result Created × World
as_instant (err e, w) = (err e, w)
as_instant (ok r, w) = (ok (Created.instant r), w)

abbrev pub proceed :
    Site → Env → CreateReportDto → Result (Route × Db) → World → Result Created × World
proceed site env dto (err e) w = (err e, w)
proceed site env dto (ok (Route.pending guild, db)) w =
    as_pending
      (create_pending_report site.js site.limits env (record dto { guild_id = some guild }) w)
proceed site env dto (ok (Route.instant, db)) w =
    as_instant (create_instant_report site.js site.limits site.policy env dto w)

pub create_by_route :
    Site → Env → CreateReportDto → RequestPrincipal → World → Result Created × World
create_by_route site env dto principal w =
    proceed site env dto (choose_route site env dto principal w.db) w
