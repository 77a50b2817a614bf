-- ===== src/BotController/Routes.antt =====
-- apps/api/src/bot/bot.controller.ts: the lists of reports for the bot, and the routes that pass a
-- request on.
use protect_platform.Servers.Lifecycle.{record_bot_guild_lifecycle, Snapshot, GuildEvent}
use protect_platform.PlatformStats.{get_public_snapshot, increment_manual_checks}
use protect_platform.Servers.Members.{
  scan_discord_ids, batch_upsert_guild_members, mark_member_sync_idle, Hit, GuildMemberBatchRow,
}
use protect_platform.AdminGuilds.{request_member_sync}
use protect_platform.Reports.Views.{
  list_pending, list_mine_for_reporter, get_for_bot_viewer, ReportDetail, PendingItem, ReportView,
}
use protect_platform.Js.{is_empty, Js}
use protect_platform.Prelude.{
  none, if◌then◌else◌, some, bad_request, ok, err, or_else, Bool, Result, String, Option, List, ℕ,
}
use protect_platform.BotController.{assert_bot_actor_admin, BotSite}
use protect_platform.Store.{pure, gets, ◌>>=◌, throw, PlatformStatsSnapshot, Tx, Env, Db}

-- `Number(limitRaw ?? n)`, for a limit that is a natural number.
abbrev limit_of : ℕ → Option ℕ → ℕ
limit_of n limit = or_else limit n

unfoldable pub bot_reports_pending : BotSite → Option String → Option ℕ → Tx (List PendingItem)
bot_reports_pending site header limit = do
  _ ← assert_bot_actor_admin site.js site.admin_ids header
  gets (list_pending (limit_of 25 limit))

-- The acting user, who need not be an administrator here.
unfoldable pub actor_of : Js → Option String → Tx String
actor_of js none = throw (bad_request "actor_required")
actor_of js (some header) =
    if is_empty (js.trim header)
    then throw (bad_request "actor_required")
    else pure (js.trim header)

pub bot_reports_mine : BotSite → Option String → Option ℕ → Tx (List ReportView)
bot_reports_mine site header limit = do
  actor ← actor_of site.js header
  gets (list_mine_for_reporter actor (limit_of 15 limit))

unfoldable pub bot_report_get_one : BotSite → String → Option String → Tx ReportDetail
bot_report_get_one site id header = do
  actor ← actor_of site.js header
  get_for_bot_viewer site.js site.admin_ids id actor

-- A request that fails keeps the state that was written before it.
abbrev after_actor : {A : Type 0} → (Db → Result A × Db) → Result (String × Db) → Db → Result A × Db
after_actor run (err e) db = (err e, db)
after_actor run (ok _) db = run db

unfoldable pub bot_request_member_sync :
    BotSite → Env → String → Option String → Db → Result (Unit {0}) × Db
bot_request_member_sync site env guild header db =
    after_actor (request_member_sync site.js env guild)
      (assert_bot_actor_admin site.js site.admin_ids header db) db

pub public_stats : Env → Bool → Tx PlatformStatsSnapshot
public_stats env refresh_on_miss = get_public_snapshot env refresh_on_miss

pub increment_check_counter : Env → Tx (Unit {0})
increment_check_counter env = increment_manual_checks env

pub guild_lifecycle : Env → Option ℕ → GuildEvent → Snapshot → Tx (Unit {0})
guild_lifecycle env setting event body = record_bot_guild_lifecycle env setting event body

-- The service's default for the source of the rows.
pub members_batch : Env → String → List GuildMemberBatchRow → Tx ℕ
members_batch env guild members = batch_upsert_guild_members env "SYNC" guild members

pub members_elevation_scan : List String → Option String → Db → List Hit
members_elevation_scan ids alert_min_level db = scan_discord_ids ids alert_min_level db

pub members_sync_done : Env → String → Tx (Unit {0})
members_sync_done env guild = mark_member_sync_idle env guild
