-- ===== src/BotController/Tests.antt =====
-- Routes called for the administrator 7.
use protect_platform.BotController.Routes.{bot_request_member_sync, bot_reports_pending}
use protect_platform.Reports.Views.{PendingItem}
use protect_platform.Shared.Levels.{FlagLevel}
use protect_platform.BotController.Acting.{bot_routes-IsActing, IsActing}
use protect_platform.Store.{User, Db}
use protect_platform.Samples.{policy, flagged, env, plain_js}
use protect_platform.AdminGuilds.{EntitlementBody}
use protect_platform.Prelude.{List, ℕ, Option, ok, ◌≡◌, some, String}
use protect_platform.BotController.{
  bot_blacklist_guild, bot_admin_unflag, bot_report_reject, bot_report_approve,
  bot_upsert_entitlement, BotSite,
}

abbrev site : BotSite
site = record { js = plain_js; policy = policy; admin_ids = some "7" }

bot_routes-IsActing_example :
    ((guild : String) (body : EntitlementBody) (u : Unit {0}) (db' : Db)
      → bot_upsert_entitlement site (env "r") guild body (some "7") flagged ≡ ok (u, db')
      → IsActing site (some "7"))
    × ((id : String) (severity : FlagLevel) (u : User) (db' : Db)
        → bot_report_approve site (env "r") id severity (some "7") flagged ≡ ok (u, db')
        → IsActing site (some "7"))
    × ((id : String) (note : Option String) (u : Unit {0}) (db' : Db)
        → bot_report_reject site (env "r") id note (some "7") flagged ≡ ok (u, db')
        → IsActing site (some "7"))
    × ((target flag_id : String) (u : User) (db' : Db)
        → bot_admin_unflag site (env "r") target flag_id (some "7") flagged ≡ ok (u, db')
        → IsActing site (some "7"))
    × ((guild : String) (reason : Option String) (u : Unit {0}) (db' : Db)
        → bot_blacklist_guild site (env "r") guild reason (some "7") flagged ≡ ok (u, db')
        → IsActing site (some "7"))
    × ((limit : Option ℕ) (items : List PendingItem) (db' : Db)
        → bot_reports_pending site (some "7") limit flagged ≡ ok (items, db')
        → IsActing site (some "7"))
    × ((guild : String) (u : Unit {0})
        → (bot_request_member_sync site (env "r") guild (some "7") flagged).0 ≡ ok u
        → IsActing site (some "7"))
bot_routes-IsActing_example = bot_routes-IsActing site (env "r") (some "7") flagged
