-- ===== src/Reports/Create/Tests.antt =====
-- Runs of `create`, and its theorems at concrete inputs.
use protect_platform.Samples.{policy}
use protect_platform.Reports.Review.{truncate_event_reason}
use protect_platform.Tickets.{create_for_pending_report}
use protect_platform.Reports.AntiAbuse.{dedupe_key, find_duplicate, claim_slots, assert_can_report}
use protect_platform.Js.{is_snowflake, split_commas}
use protect_platform.Entitlements.{licensed_allowlist, row_is_active, is_guild_licensed}
use protect_platform.Shared.Levels.{FlagLevel}
use protect_platform.Reports.Samples.{waiting}
use protect_platform.Redis.{World}
use protect_platform.Auth.{
  parse_admin_discord_ids, is_discord_platform_admin, resolve_principal, principal_has_any_role,
  AppRole, AuthIdentity, RequestPrincipal,
}
use protect_platform.Reports.Create.Admitted.{
  reporter_is_eligible-principal_has_any_role, create_admitted, IsOn, IsRouted, IsOwn,
}
use protect_platform.Prelude.{
  refl, delete, put, lookup, find_first, find, [], ◌∷◌, none, err, ◌≡◌, some, ok, Result,
}
use protect_platform.Samples.{empty_redis, env, empty_db, plain_js}
use protect_platform.Store.{
  MemberSyncState, has_key, enqueue, log_with_tx, upsert_user, LicenseStatus, PlatformRole, Db,
}
use protect_platform.Reports.Intake.{
  upsert_both, create_pending_tx, submit, create_pending_report, CreateReportDto,
}
use protect_platform.Reports.Create.{
  assert_community_reporter_eligible, community_route, assert_alleged_flag_level_if_required,
  assert_reporter_access, Route, choose_route, reporter_is_eligible, Created, create_by_route, Site,
}

abbrev site : Site
site = record {
  js = plain_js;
  limits = record { dedupe_window_sec = 86400; cooldown_sec = 120; max_per_day = 5 };
  policy = policy;
  admin_discord_ids = none;
  licensed_guild_ids = none;
}

abbrev db : Db
db = record empty_db {
  accounts = record { discord_user_id = "7"; role = PlatformRole.user } ∷ [];
  entitlements =
      record {
        guild_id = "5";
        status = LicenseStatus.active;
        valid_from = 0;
        valid_until = none;
        plan_code = none;
        stripe_customer_id = none;
        stripe_subscription_id = none;
        created_by_discord_id = none;
        last_member_sync_at = none;
        member_sync_state = MemberSyncState.idle;
      }
      ∷ [];
}

abbrev dto : CreateReportDto
dto = record {
  reporter_discord_id = "7";
  target_discord_id = "9";
  reason = "aimbot";
  guild_id = some "5";
  alleged_flag_level = some FlagLevel.watch;
}

abbrev caller : RequestPrincipal
caller = record { identity = AuthIdentity.user "7"; roles = AppRole.user ∷ [] }

abbrev world : World
world = record { db = db; redis = some empty_redis }

abbrev run : Result Created × World
run = create_by_route site (env "a") dto caller world

abbrev result_or : Created → Result Created → Created
result_or c (ok c') = c'
result_or c (err e) = c

abbrev made : Created
made = result_or (Created.pending waiting) run.0

creates : run ≡ (ok made, run.1)
unfolding create_by_route choose_route assert_reporter_access assert_alleged_flag_level_if_required
    community_route assert_community_reporter_eligible reporter_is_eligible is_guild_licensed
    row_is_active is_discord_platform_admin parse_admin_discord_ids licensed_allowlist split_commas
    find principal_has_any_role create_pending_report submit assert_can_report claim_slots
    find_duplicate is_snowflake find_first lookup put delete create_pending_tx upsert_both
    upsert_user log_with_tx enqueue has_key create_for_pending_report dedupe_key
    truncate_event_reason
creates = refl

create_admitted_example :
    IsOwn dto caller
    × (route : Route) × IsRouted site (env "a") dto caller db route
    × IsOn route made
create_admitted_example = create_admitted site (env "a") dto caller world run.1 made creates

reporter_is_eligible-principal_has_any_role_example :
    reporter_is_eligible site "7" db
    ≡ principal_has_any_role
        (resolve_principal plain_js none db (AuthIdentity.user "7"))
        (AppRole.user ∷ AppRole.trusted ∷ AppRole.admin ∷ [])
reporter_is_eligible-principal_has_any_role_example =
    reporter_is_eligible-principal_has_any_role site "7" db
