-- ===== src/BotController.antt =====
-- apps/api/src/bot/bot.controller.ts: the routes of the bot. The guards before them are
-- Auth.Guards. Routes has the lists of reports and the routes that pass a request on.
use protect_platform.Flags.Admin.{delete_flag_tx}
use protect_platform.Servers.Configure.{upsert_config}
use protect_platform.Servers.Members.{is_guild_blacklisted, add_guild_blacklist}
use protect_platform.Tickets.{rejected}
use protect_platform.Reports.Review.{reject_tx, approve_tx}
use protect_platform.Entitlements.{is_guild_licensed}
use protect_platform.Auth.{
  is_discord_platform_admin, parse_admin_discord_ids, find_trusted, find_account,
}
use protect_platform.AdminGuilds.{upsert_guild_entitlement, EntitlementBody}
use protect_platform.Servers.Lifecycle.{record_bot_guild_snapshot, Snapshot}
use protect_platform.Shared.Levels.{FlagLevel}
use protect_platform.Policy.{FlagPolicy}
use protect_platform.Js.{is_empty, Js}
use protect_platform.Store.{
  pure, ActorKind, check, throw, User, ◌>>◌, Server, ◌>>=◌, Db, PlatformAccount, Config, Tx, Env,
  PlatformRole,
}
use protect_platform.Prelude.{
  not, includes, ◌||◌, bad_request, ◌==◌, if◌then◌else◌, none, true, is_some, forbidden, false,
  some, ℕ, Bool, String, List, Option,
}
pub mod Acting
pub mod Routes
mod Tests

-- `assertBotActorAdmin`: the acting user whom the bot names in a header.
unfoldable pub assert_bot_actor_admin : Js → Option String → Option String → Tx String
assert_bot_actor_admin js admin_ids none = throw (forbidden "admin_actor_required")
assert_bot_actor_admin js admin_ids (some header) =
    let actor = js.trim header in
    if is_empty actor
    then throw (forbidden "admin_actor_required")
    else if not (is_discord_platform_admin js actor admin_ids)
    then throw (forbidden "admin_actor_required")
    else pure actor

pub record GuildSummary : Type 0 where
  pub guild_id : String
  pub licensed : Bool
  pub blacklisted : Bool

pub guild_summary : List String → ℕ → String → Db → GuildSummary
guild_summary allowlist now guild db = record {
  guild_id = guild;
  licensed = is_guild_licensed allowlist now guild db;
  blacklisted = is_guild_blacklisted guild db;
}

pub record Capabilities : Type 0 where
  pub platform_role : PlatformRole
  pub can_submit_community_report : Bool

abbrev role_of : Option PlatformAccount → PlatformRole
role_of none = PlatformRole.checker
role_of (some a) = a.role

abbrev has_platform_role : PlatformRole → Option PlatformAccount → Bool
has_platform_role r none = false
has_platform_role PlatformRole.user (some a) = elim a.role [ PlatformRole.user ↦ true | _ ↦ false ]
has_platform_role PlatformRole.admin (some a) = elim a.role [
  | PlatformRole.admin ↦ true
  | _ ↦ false
]
has_platform_role PlatformRole.checker (some a) = elim a.role [
  | PlatformRole.checker ↦ true
  | _ ↦ false
]

unfoldable pub discord_capabilities : Js → Option String → String → Db → Capabilities
discord_capabilities js admin_ids discord_id db =
    let account = find_account discord_id db in
    record {
      platform_role = role_of account;
      can_submit_community_report =
          is_some (find_trusted discord_id db)
          || includes discord_id (parse_admin_discord_ids js admin_ids)
          || has_platform_role PlatformRole.user account
          || has_platform_role PlatformRole.admin account;
    }

-- What the routes need of the process.
pub record BotSite : Type 0 where
  pub js : Js
  pub policy : FlagPolicy
  pub admin_ids : Option String

module _ (site : BotSite) (env : Env) where
  unfoldable pub bot_upsert_entitlement : String → EntitlementBody → Option String → Tx (Unit {0})
  bot_upsert_entitlement guild body header = do
    actor ← assert_bot_actor_admin site.js site.admin_ids header
    upsert_guild_entitlement env guild body actor

  pub guild_snapshot : String → Snapshot → Tx (Unit {0})
  guild_snapshot guild body = do
    check (body.guild_id == guild) (bad_request "guildId_mismatch")
    record_bot_guild_snapshot env body

  unfoldable pub bot_report_approve : String → FlagLevel → Option String → Tx User
  bot_report_approve id severity header = do
    actor ← assert_bot_actor_admin site.js site.admin_ids header
    approve_tx site.js site.policy env id actor severity

  unfoldable pub bot_report_reject : String → Option String → Option String → Tx (Unit {0})
  bot_report_reject id note header = do
    actor ← assert_bot_actor_admin site.js site.admin_ids header
    reject_tx env id actor note

  unfoldable pub bot_admin_unflag : String → String → Option String → Tx User
  bot_admin_unflag target flag_id header = do
    actor ← assert_bot_actor_admin site.js site.admin_ids header
    delete_flag_tx site.policy env actor target flag_id

  unfoldable pub bot_blacklist_guild : String → Option String → Option String → Tx (Unit {0})
  bot_blacklist_guild guild reason header = do
    actor ← assert_bot_actor_admin site.js site.admin_ids header
    add_guild_blacklist guild actor reason

-- `server/config`: the bot names the acting user in the body.
pub proxy_server_config : Js → Env → String → Config → String → Tx Server
proxy_server_config js env guild dto actor = upsert_config js env guild dto actor ActorKind.user
