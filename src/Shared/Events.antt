-- ===== src/Shared/Events.antt =====
-- packages/shared/src/domain-events.ts: event types, their channels, and the envelope.
pub mod Channels
use protect_platform.Prelude.{
  if◌then◌else◌, ℕ, String, Bool, true, false, ◌||◌, Option, none, some, List, [], ◌∷◌, ◌==◌,
}

pub data DomainEventType : Type 0 where
  user_flagged user_reported user_updated server_config_updated : DomainEventType
  report_pending guild_members_sync guild_metadata_refresh guild_discovered : DomainEventType
  support_ticket_created support_ticket_evidence_submitted support_ticket_resolved : DomainEventType
  flag_removed : DomainEventType

-- The string that the union type `DomainEventType` stands for.
abbrev pub type_name : DomainEventType → String
type_name user_flagged = "user.flagged"
type_name user_reported = "user.reported"
type_name user_updated = "user.updated"
type_name server_config_updated = "server.config.updated"
type_name report_pending = "report.pending"
type_name guild_members_sync = "guild.members.sync"
type_name guild_metadata_refresh = "guild.metadata.refresh"
type_name guild_discovered = "guild.discovered"
type_name support_ticket_created = "support.ticket.created"
type_name support_ticket_evidence_submitted = "support.ticket.evidence_submitted"
type_name support_ticket_resolved = "support.ticket.resolved"
type_name flag_removed = "flag.removed"

unfoldable pub channel_for_event_type : DomainEventType → String
channel_for_event_type user_flagged = "protect:user.flagged"
channel_for_event_type user_reported = "protect:user.reported"
channel_for_event_type user_updated = "protect:user.updated"
channel_for_event_type server_config_updated = "protect:server.config.updated"
channel_for_event_type report_pending = "protect:report.pending"
channel_for_event_type guild_members_sync = "protect:guild.members.sync"
channel_for_event_type guild_metadata_refresh = "protect:guild.metadata.refresh"
channel_for_event_type guild_discovered = "protect:guild.discovered"
channel_for_event_type support_ticket_created = "protect:support.ticket.created"
channel_for_event_type support_ticket_evidence_submitted =
    "protect:support.ticket.evidence_submitted"
channel_for_event_type support_ticket_resolved = "protect:support.ticket.resolved"
channel_for_event_type flag_removed = "protect:flag.removed"

unfoldable pub is_domain_event_type : String → Bool
is_domain_event_type s =
    s == "user.flagged"
    || s == "user.reported"
    || s == "user.updated"
    || s == "server.config.updated"
    || s == "report.pending"
    || s == "guild.members.sync"
    || s == "guild.metadata.refresh"
    || s == "guild.discovered"
    || s == "support.ticket.created"
    || s == "support.ticket.evidence_submitted"
    || s == "support.ticket.resolved"
    || s == "flag.removed"

abbrev pub event_types : List DomainEventType
event_types =
    user_flagged ∷ user_reported ∷ user_updated ∷ server_config_updated ∷ report_pending
    ∷ guild_members_sync ∷ guild_metadata_refresh ∷ guild_discovered ∷ support_ticket_created
    ∷ support_ticket_evidence_submitted ∷ support_ticket_resolved ∷ flag_removed ∷ []

-- The member of the union type that a text is, if it is one.
pub parse_in : List DomainEventType → String → Option DomainEventType
parse_in [] s = none
parse_in (t ∷ ts) s = if s == type_name t then some t else parse_in ts s

unfoldable pub parse : String → Option DomainEventType
unfolding parse_in
parse s = parse_in event_types s

-- `DomainEventEnvelope`; the payload stays what it is.
pub record DomainEventEnvelope (P : Type 0) : Type 0 where
  pub schema_version : ℕ
  pub event_id : String
  pub event_type : DomainEventType
  pub occurred_at : ℕ
  pub correlation_id : Option String
  pub payload : P

-- `x ? { correlationId: x } : {}`: an empty text counts as none.
abbrev pub truthy : Option String → Option String
truthy none = none
truthy (some s) = if s == "" then none else some s

unfoldable pub build_domain_envelope :
    {P : Type 0} → String → DomainEventType → ℕ → Option String → P → DomainEventEnvelope P
build_domain_envelope outbox_id event_type occurred_at correlation_id payload = record {
  schema_version = 1;
  event_id = outbox_id;
  event_type = event_type;
  occurred_at = occurred_at;
  correlation_id = truthy correlation_id;
  payload = payload;
}
