-- ===== src/BotController/Acting.antt =====
-- apps/api/src/bot/bot.controller.ts: who may act through the bot, and whom it lets report.
use protect_platform.Reports.Views.{PendingItem}
use protect_platform.BotController.Routes.{bot_reports_pending, bot_request_member_sync}
use protect_platform.Shared.Levels.{FlagLevel}
use protect_platform.AdminGuilds.{EntitlementBody}
use protect_platform.Store.{User, Env, ◌>>=◌, Db, Tx}
use protect_platform.Auth.{find_account, is_discord_platform_admin}
use protect_platform.Reports.Create.{Site, reporter_is_eligible}
use protect_platform.Prelude.{
  List, ℕ, refl, inr, none, arith, inl, ok, Option-cases, true, some, ◌≡◌, String, Option,
}
use protect_platform.BotController.{
  bot_blacklist_guild, bot_admin_unflag, bot_report_reject, bot_report_approve,
  bot_upsert_entitlement, assert_bot_actor_admin, BotSite, discord_capabilities,
}

-- The header names a platform administrator.
pub record IsActing (site : BotSite) (header : Option String) : Type 0 where
  pub text_ : String
  pub is_text : header ≡ some text_
  pub is_admin : is_discord_platform_admin site.js (site.js.trim text_) site.admin_ids ≡ true

module _ (site : BotSite) where
  assert_bot_actor_admin-IsActing :
      {A : Type 0} (header : Option String) (f : String → Tx A) (db : Db) {a : A} {db' : Db}
      → (assert_bot_actor_admin site.js site.admin_ids header >>= f) db ≡ ok (a, db')
      → IsActing site header
  unfolding assert_bot_actor_admin
  assert_bot_actor_admin-IsActing none f db h = cc h
  assert_bot_actor_admin-IsActing (some text) f db h = record {
    text_ = text;
    is_text = refl;
    is_admin = ground (arith, h);
  }

  bot_request_member_sync-IsActing :
      (env : Env) (guild : String) (header : Option String) (db : Db) (u : Unit {0})
      → (bot_request_member_sync site env guild header db).0 ≡ ok u
      → IsActing site header
  unfolding bot_request_member_sync assert_bot_actor_admin
  bot_request_member_sync-IsActing env guild none db u h = cc h
  bot_request_member_sync-IsActing env guild (some text) db u h = record {
    text_ = text;
    is_text = refl;
    is_admin = ground (arith, h);
  }

  -- A route that the bot calls for an administrator, to license a guild, to review a report, to take a
  -- flag away, to block a guild, to list the pending reports or to ask for a synchronisation, succeeds
  -- only if the header names a platform administrator.
  pub bot_routes-IsActing :
      (env : Env) (header : Option String) (db : Db)
      → ((guild : String) (body : EntitlementBody) (u : Unit {0}) (db' : Db)
          → bot_upsert_entitlement site env guild body header db ≡ ok (u, db')
          → IsActing site header)
        × ((id : String) (severity : FlagLevel) (u : User) (db' : Db)
            → bot_report_approve site env id severity header db ≡ ok (u, db')
            → IsActing site header)
        × ((id : String) (note : Option String) (u : Unit {0}) (db' : Db)
            → bot_report_reject site env id note header db ≡ ok (u, db')
            → IsActing site header)
        × ((target flag_id : String) (u : User) (db' : Db)
            → bot_admin_unflag site env target flag_id header db ≡ ok (u, db')
            → IsActing site header)
        × ((guild : String) (reason : Option String) (u : Unit {0}) (db' : Db)
            → bot_blacklist_guild site env guild reason header db ≡ ok (u, db')
            → IsActing site header)
        × ((limit : Option ℕ) (items : List PendingItem) (db' : Db)
            → bot_reports_pending site header limit db ≡ ok (items, db')
            → IsActing site header)
        × ((guild : String) (u : Unit {0})
            → (bot_request_member_sync site env guild header db).0 ≡ ok u
            → IsActing site header)
  unfolding bot_upsert_entitlement bot_report_approve bot_report_reject bot_admin_unflag
      bot_blacklist_guild bot_reports_pending
  bot_routes-IsActing env header db = (
    λ guild body u db' h. assert_bot_actor_admin-IsActing header _ db h,
    λ id severity u db' h. assert_bot_actor_admin-IsActing header _ db h,
    λ id note u db' h. assert_bot_actor_admin-IsActing header _ db h,
    λ target flag_id u db' h. assert_bot_actor_admin-IsActing header _ db h,
    λ guild reason u db' h. assert_bot_actor_admin-IsActing header _ db h,
    λ limit items db' h. assert_bot_actor_admin-IsActing header _ db h,
    λ guild u h. bot_request_member_sync-IsActing env guild header db u h,
  )

-- The bot tells a user that he may report exactly if the API takes his report.
pub discord_capabilities-reporter_is_eligible :
    (site : Site) (discord_id : String) (db : Db)
    → (discord_capabilities site.js site.admin_discord_ids discord_id
        db).can_submit_community_report
      ≡ reporter_is_eligible site discord_id db
unfolding discord_capabilities reporter_is_eligible is_discord_platform_admin
discord_capabilities-reporter_is_eligible site discord_id db =
    elim (Option-cases (find_account discord_id db)) [
      | inl missing ↦ ground (arith, missing)
      | inr (account, there) ↦ ground (arith, there)
    ]
