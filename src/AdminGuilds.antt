-- ===== src/AdminGuilds.antt =====
-- apps/api/src/admin/admin-guilds.service.ts: the guilds as an administrator sees and changes them.
-- The writes of `upsertEntitlement`, which the source makes one after the other, are one step.
pub mod Requested
mod Tests
use protect_platform.Servers.Lifecycle.{inactive_row}
use protect_platform.Servers.{new_server, save_server, newest_first, upsert_server}
use protect_platform.Entitlements.{in_state, upsert_entitlement, guild_key}
use protect_platform.Shared.Events.{
  type_name, guild_members_sync, guild_metadata_refresh, DomainEventType,
}
use protect_platform.Js.{Js}
use protect_platform.Prelude.{
  ok, err, Result, update, [], ◌∷◌, create, none, some, map, find, List, ℕ, String, Option,
}
use protect_platform.Store.{
  ActorKind, AuditAction, log_with_tx, num, MemberSyncState, null, text, modify, Json, gets,
  enqueue, OutboxEnqueueItem, GuildEntitlement, Tx, Server, Env, LicenseStatus, Db, ◌>>=◌, ◌>>◌,
}
use Prim.Native.String.{◌++◌}

pub record GuildView : Type 0 where
  pub server : Server
  pub entitlement : Option GuildEntitlement

abbrev view_guild : Db → Server → GuildView
view_guild db s = record { server = s; entitlement = find guild_key s.guild_id db.entitlements }

pub list_guilds : Db → List GuildView
list_guilds db = map (view_guild db) (newest_first db.servers)

-- UpsertEntitlementBodyDto, with its dates read: `valid_until` is none where it is empty.
pub record EntitlementBody : Type 0 where
  pub status : LicenseStatus
  pub valid_from : ℕ
  pub valid_until : Option ℕ
  pub plan_code : Option String
  pub stripe_customer_id : Option String
  pub stripe_subscription_id : Option String

abbrev pub entitlement_from : String → EntitlementBody → String → GuildEntitlement
entitlement_from guild dto actor = record {
  guild_id = guild;
  status = dto.status;
  valid_from = dto.valid_from;
  valid_until = dto.valid_until;
  plan_code = dto.plan_code;
  stripe_customer_id = dto.stripe_customer_id;
  stripe_subscription_id = dto.stripe_subscription_id;
  created_by_discord_id = some actor;
  last_member_sync_at = none;
  member_sync_state = MemberSyncState.idle;
}

abbrev status_name : LicenseStatus → String
status_name LicenseStatus.inactive = "INACTIVE"
status_name LicenseStatus.trial = "TRIAL"
status_name LicenseStatus.active = "ACTIVE"
status_name LicenseStatus.past_due = "PAST_DUE"
status_name LicenseStatus.canceled = "CANCELED"

abbrev end_of : Option ℕ → Json
end_of none = null
end_of (some t) = num t

unfoldable pub upsert_guild_entitlement : Env → String → EntitlementBody → String → Tx (Unit {0})
upsert_guild_entitlement env guild dto actor = do
  upsert_server env (env.uuid 0) guild
  upsert_entitlement (entitlement_from guild dto actor)
  log_with_tx env record {
    action = AuditAction.entitlement_updated;
    entity_type = "guild_entitlement";
    entity_id = guild;
    target_id = some guild;
    actor_discord_id = some actor;
    actor_kind = ActorKind.user;
    metadata =
        ("status", text (status_name dto.status))
        ∷ ("validFrom", num dto.valid_from)
        ∷ ("validUntil", end_of dto.valid_until)
        ∷ [];
  }

abbrev pub queued_row : Env → String → GuildEntitlement
queued_row env guild = record (inactive_row env.now guild) {
  member_sync_state = MemberSyncState.queued;
}

-- A guild without an entitlement is given an inactive one.
abbrev pub queue_sync : Env → String → Option GuildEntitlement → Db → Db
queue_sync env guild none db =
    record (save_server (new_server env (env.uuid 0) guild) (λ s. s) db) {
      entitlements = create (queued_row env guild) db.entitlements;
    }
queue_sync env guild (some e) db = record db {
  entitlements = update guild_key guild (in_state MemberSyncState.queued) db.entitlements;
}

abbrev pub request_item : Js → Env → DomainEventType → String → OutboxEnqueueItem
request_item js env event_type guild = record {
  event_type = event_type;
  payload = ("guildId", text guild) ∷ [];
  idempotency_key = some (type_name event_type ++ ":" ++ guild ++ ":" ++ js.decimal env.now);
}

-- The event has a transaction of its own: if it fails, what was written before it stays.
abbrev pub kept_after : Db → Result (Unit {0} × Db) → Result (Unit {0}) × Db
kept_after db (err e) = (err e, db)
kept_after db (ok (u, db')) = (ok u, db')

unfoldable pub request_member_sync : Js → Env → String → Db → Result (Unit {0}) × Db
request_member_sync js env guild db =
    let queued = queue_sync env guild (find guild_key guild db.entitlements) db in
    kept_after queued
      (enqueue env (env.uuid 1) (request_item js env guild_members_sync guild) queued)

pub request_metadata_refresh : Js → Env → String → Tx (Unit {0})
request_metadata_refresh js env guild =
    enqueue env (env.uuid 0) (request_item js env guild_metadata_refresh guild)
