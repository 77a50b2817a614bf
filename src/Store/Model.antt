-- ===== src/Store/Model.antt =====
-- apps/api/prisma/schema.prisma: the tables that the modelled services read and write. Times are
-- milliseconds, identifiers are texts. Columns that no modelled code reads are left out.
use protect_platform.Prelude.{ℕ, String, Bool, Option, List}
use protect_platform.Shared.Levels.{FlagLevel}

pub data FlagSource : Type 0 where
  trusted_command community_report admin_override api report_escalation system : FlagSource

pub data ReportStatus : Type 0 where
  pending accepted rejected spam : ReportStatus

pub data TicketStatus : Type 0 where
  open_ needs_evidence evidence_submitted under_review resolved rejected : TicketStatus

pub data OutboxStatus : Type 0 where
  pending processing dispatched failed : OutboxStatus

pub data LicenseStatus : Type 0 where
  inactive trial active past_due canceled : LicenseStatus

pub data MemberSyncState : Type 0 where
  idle queued running paused : MemberSyncState

pub data LicenseKeyStatus : Type 0 where
  unused redeemed revoked : LicenseKeyStatus

pub data PlatformRole : Type 0 where
  checker user admin : PlatformRole

pub data ActorKind : Type 0 where
  user bot system : ActorKind

pub data AuditAction : Type 0 where
  flag_created flag_deleted flag_updated report_created report_approved report_rejected :
      AuditAction
  server_config_updated guild_discovered entitlement_updated : AuditAction
  license_key_generated license_key_redeemed license_key_revoked : AuditAction

-- What a guild's configuration holds under a name: a scalar or a list of texts.
pub data ConfigValue : Type 0 where
  no_value : ConfigValue
  flag_value : Bool → ConfigValue
  num_value : ℕ → ConfigValue
  text_value : String → ConfigValue
  texts_value : List String → ConfigValue

abbrev pub Config : Type 0
Config = List (String × ConfigValue)

-- The scalars of a JSON object, and a configuration in it.
pub data Json : Type 0 where
  null : Json
  flag : Bool → Json
  num : ℕ → Json
  text : String → Json
  config : Config → Json

abbrev pub JsonObject : Type 0
JsonObject = List (String × Json)

pub record User : Type 0 where
  pub id : String
  pub discord_id : String
  pub flag_score : ℕ
  pub flag_level : FlagLevel
  pub state_version : ℕ
  pub updated_at : ℕ

pub record Flag : Type 0 where
  pub id : String
  pub user_id : String
  pub weight : ℕ
  pub effective_weight : Option ℕ
  pub reason : String
  pub source : FlagSource
  pub actor_discord_id : String
  pub guild_id : Option String
  pub created_at : ℕ

pub record Report : Type 0 where
  pub id : String
  pub reporter_discord_id : String
  pub reported_user_id : String
  pub guild_id : Option String
  pub alleged_flag_level : Option FlagLevel
  pub reason : String
  pub dedupe_key : Option String
  pub status : ReportStatus
  pub created_at : ℕ
  pub resolved_at : Option ℕ
  pub resolver_note : Option String
  pub reviewed_by_discord_id : Option String
  pub reviewed_at : Option ℕ
  pub flag_id : Option String

pub record SupportTicket : Type 0 where
  pub id : String
  pub report_id : String
  pub guild_id : Option String
  pub reporter_discord_id : String
  pub status : TicketStatus
  pub admin_note : Option String
  pub user_message : Option String
  pub evidence_links : List String
  pub assigned_admin_discord_id : Option String
  pub created_at : ℕ
  pub updated_at : ℕ

pub record SupportTicketAttachment : Type 0 where
  pub id : String
  pub ticket_id : String
  pub storage_key : String
  pub mime_type : String
  pub size_bytes : ℕ
  pub created_at : ℕ

pub data MessageAuthor : Type 0 where
  user admin system : MessageAuthor

pub record SupportTicketMessage : Type 0 where
  pub id : String
  pub ticket_id : String
  pub author_kind : MessageAuthor
  pub author_discord_id : Option String
  pub body : String
  pub created_at : ℕ

pub record OutboxEvent : Type 0 where
  pub id : String
  pub event_type : String
  pub payload : JsonObject
  pub correlation_id : Option String
  pub idempotency_key : Option String
  pub status : OutboxStatus
  pub attempts : ℕ
  pub next_retry_at : Option ℕ
  pub last_error : Option String
  pub created_at : ℕ
  pub dispatched_at : Option ℕ
  pub processing_started_at : Option ℕ

pub record AuditLog : Type 0 where
  pub timestamp : ℕ
  pub action : AuditAction
  pub entity_type : String
  pub entity_id : String
  pub target_id : Option String
  pub actor_discord_id : Option String
  pub actor_kind : ActorKind
  pub correlation_id : Option String
  pub metadata : JsonObject

pub record TrustedUser : Type 0 where
  pub discord_user_id : String
  pub trust_level : ℕ

pub record PlatformAccount : Type 0 where
  pub discord_user_id : String
  pub role : PlatformRole

pub record LicenseKey : Type 0 where
  pub id : String
  pub code : String
  pub status : LicenseKeyStatus
  pub plan_code : Option String
  pub preset_valid_days : Option ℕ
  pub notes : Option String
  pub created_by_discord_id : Option String
  pub redeemed_at : Option ℕ
  pub redeemed_guild_id : Option String
  pub redeemed_by_discord_id : Option String
  pub revoked_at : Option ℕ

pub record GuildEntitlement : Type 0 where
  pub guild_id : String
  pub status : LicenseStatus
  pub valid_from : ℕ
  pub valid_until : Option ℕ
  pub plan_code : Option String
  pub stripe_customer_id : Option String
  pub stripe_subscription_id : Option String
  pub created_by_discord_id : Option String
  pub last_member_sync_at : Option ℕ
  pub member_sync_state : MemberSyncState

pub record Server : Type 0 where
  pub id : String
  pub guild_id : String
  pub config : Config
  pub discord_name : Option String
  pub icon_hash : Option String
  pub approximate_member_count : Option ℕ
  pub bot_joined_at : Option ℕ
  pub removed_at : Option ℕ
  pub owner_discord_id : Option String
  pub vanity_url_code : Option String
  pub premium_tier : Option ℕ
  pub updated_at : ℕ

pub record GuildMemberCache : Type 0 where
  pub id : String
  pub guild_id : String
  pub discord_user_id : String
  pub username : Option String
  pub global_name : Option String
  pub avatar_hash : Option String
  pub first_seen_at : ℕ
  pub source : String

pub record GuildBlacklist : Type 0 where
  pub guild_id : String
  pub reason : Option String
  pub created_by_discord_id : Option String

pub record PlatformStatsSnapshot : Type 0 where
  pub id : String
  pub guilds_active : ℕ
  pub tracked_member_distinct : ℕ
  pub users_flagged : ℕ
  pub manual_checks_total : ℕ
  pub updated_at : ℕ

pub record Db : Type 0 where
  pub users : List User
  pub flags : List Flag
  pub reports : List Report
  pub tickets : List SupportTicket
  pub attachments : List SupportTicketAttachment
  pub messages : List SupportTicketMessage
  pub outbox : List OutboxEvent
  pub processed : List String
  pub audit : List AuditLog
  pub trusted : List TrustedUser
  pub accounts : List PlatformAccount
  pub license_keys : List LicenseKey
  pub entitlements : List GuildEntitlement
  pub servers : List Server
  pub members : List GuildMemberCache
  pub blacklist : List GuildBlacklist
  pub stats : List PlatformStatsSnapshot
