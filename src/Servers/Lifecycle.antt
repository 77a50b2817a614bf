-- ===== src/Servers/Lifecycle.antt =====
-- apps/api/src/servers/servers.service.ts: what the bot reports of the guilds it joins and leaves,
-- `recordBotGuildSnapshot` and `recordBotGuildLifecycle`.
pub mod Rejoin
use protect_platform.Shared.Events.{DomainEventType}
use protect_platform.Store.{enqueue, ActorKind, AuditAction, log_with_tx, ◌>>=◌, ◌>>◌}
use Prim.Native.String.{◌++◌}
use protect_platform.Entitlements.{guild_key, ms_per_day}
use protect_platform.Servers.{save_server, new_server}
use protect_platform.Store.{
  num, MemberSyncState, text, modify, null, pure, LicenseStatus, Server, guild_discovered, Json, Tx,
  Env, GuildEntitlement, OutboxEnqueueItem,
}
use protect_platform.Prelude.{
  [], find, ◌*◌, ◌∷◌, ◌+◌, or_else, none, create, ltb, min, some, if◌then◌else◌, List, String, ℕ,
  Option,
}

-- What the bot says of a guild.
pub record Snapshot : Type 0 where
  pub guild_id : String
  pub discord_name : Option String
  pub icon_hash : Option String
  pub approximate_member_count : Option ℕ
  pub owner_discord_id : Option String
  pub vanity_url_code : Option String
  pub premium_tier : Option ℕ

abbrev or_old {ℓ} : {A : Type ℓ} → Option A → Option A → Option A
or_old none old = old
or_old (some a) old = some a

abbrev pub created : Env → String → Snapshot → Server
created env id dto = record (new_server env id dto.guild_id) {
  discord_name = dto.discord_name;
  icon_hash = dto.icon_hash;
  approximate_member_count = dto.approximate_member_count;
  owner_discord_id = dto.owner_discord_id;
  vanity_url_code = dto.vanity_url_code;
  premium_tier = dto.premium_tier;
}

-- A field that the snapshot leaves out keeps the column as it is.
abbrev pub renewed : Env → Snapshot → Server → Server
renewed env dto s = record s {
  discord_name = or_old dto.discord_name s.discord_name;
  icon_hash = or_old dto.icon_hash s.icon_hash;
  approximate_member_count = or_old dto.approximate_member_count s.approximate_member_count;
  owner_discord_id = or_old dto.owner_discord_id s.owner_discord_id;
  vanity_url_code = or_old dto.vanity_url_code s.vanity_url_code;
  premium_tier = or_old dto.premium_tier s.premium_tier;
  updated_at = env.now;
}

pub record_bot_guild_snapshot : Env → Snapshot → Tx (Unit {0})
record_bot_guild_snapshot env dto =
    modify (save_server (created env (env.uuid 0) dto) (renewed env dto))

pub data GuildEvent : Type 0 where
  join leave : GuildEvent

abbrev on_create : Env → GuildEvent → Server → Server
on_create env join s = record s { bot_joined_at = some env.now }
on_create env leave s = record s { removed_at = some env.now }

abbrev on_update : Env → GuildEvent → Server → Server
on_update env join s = record s { bot_joined_at = some env.now; removed_at = none }
on_update env leave s = record s { removed_at = some env.now }

-- `Math.max(0, Math.min(3650, Number(setting ?? 0) || 0))`, of a setting that is a natural number.
abbrev trial_days : Option ℕ → ℕ
trial_days setting = min 3650 (or_else setting 0)

abbrev pub inactive_row : ℕ → String → GuildEntitlement
inactive_row now guild = record {
  guild_id = guild;
  status = LicenseStatus.inactive;
  valid_from = now;
  valid_until = none;
  plan_code = none;
  stripe_customer_id = none;
  stripe_subscription_id = none;
  created_by_discord_id = none;
  last_member_sync_at = none;
  member_sync_state = MemberSyncState.idle;
}

abbrev trial_row : ℕ → ℕ → String → GuildEntitlement
trial_row now days guild = record (inactive_row now guild) {
  status = LicenseStatus.trial;
  valid_until = some (now + days * ms_per_day);
}

abbrev first_row : ℕ → Option ℕ → String → GuildEntitlement
first_row now setting guild =
    if ltb 0 (trial_days setting)
    then trial_row now (trial_days setting) guild
    else inactive_row now guild

abbrev create_if_none :
    GuildEntitlement → Option GuildEntitlement → List GuildEntitlement → List GuildEntitlement
create_if_none row none rows = create row rows
create_if_none row (some e) rows = rows

abbrev ensure_entitlement : ℕ → Option ℕ → String → Tx (Unit {0})
ensure_entitlement now setting guild = modify (λ db. record db {
  entitlements =
      create_if_none (first_row now setting guild) (find guild_key guild db.entitlements)
        db.entitlements;
})

abbrev optional_text : Option String → Json
optional_text none = null
optional_text (some s) = text s

abbrev optional_num : Option ℕ → Json
optional_num none = null
optional_num (some n) = num n

abbrev discovered_key : String → String
discovered_key guild = "guild.discovered:" ++ guild

abbrev discovered : Snapshot → OutboxEnqueueItem
discovered dto = record {
  event_type = DomainEventType.guild_discovered;
  payload =
      ("guildId", text dto.guild_id)
      ∷ ("name", optional_text dto.discord_name)
      ∷ ("approximateMemberCount", optional_num dto.approximate_member_count)
      ∷ [];
  idempotency_key = some (discovered_key dto.guild_id);
}

-- What a join announces; a leave announces nothing.
abbrev announce : Env → GuildEvent → Snapshot → Tx (Unit {0})
announce env leave dto = pure tt
announce env join dto = do
  log_with_tx env record {
    action = AuditAction.guild_discovered;
    entity_type = "server";
    entity_id = dto.guild_id;
    target_id = some dto.guild_id;
    actor_discord_id = none;
    actor_kind = ActorKind.bot;
    metadata =
        ("name", optional_text dto.discord_name)
        ∷ ("approximateMemberCount", optional_num dto.approximate_member_count)
        ∷ [];
  }
  enqueue env (env.uuid 1) (discovered dto)

-- `setting` is SENTRA_AUTO_TRIAL_DAYS.
unfoldable pub record_bot_guild_lifecycle : Env → Option ℕ → GuildEvent → Snapshot → Tx (Unit {0})
record_bot_guild_lifecycle env setting event dto = do
  modify (
      save_server (on_create env event (created env (env.uuid 0) dto))
        (λ s. on_update env event (renewed env dto s)))
  ensure_entitlement env.now setting dto.guild_id
  announce env event dto
