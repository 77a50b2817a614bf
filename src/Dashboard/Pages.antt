-- ===== src/Dashboard/Pages.antt =====
-- apps/api/src/dashboard/dashboard.service.ts: the dashboards of a user and of administrators, put
-- together from their parts. The parts that the source reads at once are read one after the other.
use protect_platform.Users.Flagged.{list_flagged}
use protect_platform.Redis.{UserPublic}
use protect_platform.Paging.{CursorPage}
use protect_platform.Reports.Views.{is_pending}
use protect_platform.PlatformStats.{get_public_snapshot}
use protect_platform.Dashboard.Series.{Trunc, Range, start_at, build_merged_series, SeriesPoint}
use protect_platform.Reports.Views.{list_mine_for_reporter, ReportView}
use protect_platform.Tickets.Views.{
  updated, ReportLine, line_of_ticket, admin_list, AdminTicketItem,
}
use protect_platform.AuditLogs.{list_audit, AuditListFilter}
use protect_platform.Dashboard.{
  is_of_reporter, count_flag_creates_since, my_ticket_buckets, TicketBucketSummary,
}
use protect_platform.Auth.{RequestPrincipal, AuthIdentity}
use protect_platform.Store.{
  gets, pure, ◌>>=◌, throw, Tx, AuditAction, Env, TicketStatus, SupportTicket, Db, AuditLog,
  PlatformStatsSnapshot,
}
use protect_platform.Prelude.{
  keep, sort_desc, count_where, forbidden, take, none, map, Option, Bool, ◌*◌, ◌/◌, List, String, ℕ,
}

pub record ActivityItem : Type 0 where
  pub id : String
  pub timestamp : ℕ
  pub action : AuditAction
  pub entity_type : String
  pub entity_id : String
  pub target_id : Option String
  pub actor_discord_id : Option String

-- `row_id` is the identifier that the database gave the row.
abbrev to_activity : (AuditLog → String) → AuditLog → ActivityItem
to_activity row_id r = record {
  id = row_id r;
  timestamp = r.timestamp;
  action = r.action;
  entity_type = r.entity_type;
  entity_id = r.entity_id;
  target_id = r.target_id;
  actor_discord_id = r.actor_discord_id;
}

abbrev every_row : ℕ → AuditListFilter
every_row limit = record {
  limit = limit;
  action = none;
  actor_discord_id = none;
  target_id = none;
  since = none;
  until = none;
  cursor = none;
}

abbrev recent_activity : (AuditLog → String) → ℕ → Db → List ActivityItem
recent_activity row_id limit db =
    map (to_activity row_id) (list_audit row_id (every_row limit) db).items

-- Midnight in UTC.
abbrev start_of_utc_day : ℕ → ℕ
start_of_utc_day now = now / 86400000 * 86400000

pub record TicketPreview : Type 0 where
  pub id : String
  pub status : TicketStatus
  pub report_id : String
  pub guild_id : Option String
  pub created_at : ℕ
  pub updated_at : ℕ
  pub report : ReportLine

abbrev ticket_preview : Db → SupportTicket → TicketPreview
ticket_preview db t = record {
  id = t.id;
  status = t.status;
  report_id = t.report_id;
  guild_id = t.guild_id;
  created_at = t.created_at;
  updated_at = t.updated_at;
  report = line_of_ticket db t;
}

pub my_tickets_preview : String → Db → List TicketPreview
my_tickets_preview discord_id db =
    map (ticket_preview db)
      (take 8 (sort_desc updated (keep (is_of_reporter discord_id) db.tickets)))

pub my_reports_preview : String → Db → List ReportView
my_reports_preview discord_id db = list_mine_for_reporter discord_id 8 db

pub record MeDashboard : Type 0 where
  pub platform_snapshot : PlatformStatsSnapshot
  pub ticket_buckets : TicketBucketSummary
  pub tickets_preview : List TicketPreview
  pub reports_preview : List ReportView
  pub recent : List ActivityItem
  pub detections_today : ℕ
  pub detections_last_24h : List SeriesPoint

abbrev me_dashboard : (AuditLog → String) → Env → String → PlatformStatsSnapshot → Db → MeDashboard
me_dashboard row_id env discord_id snapshot db = record {
  platform_snapshot = snapshot;
  ticket_buckets = my_ticket_buckets discord_id db;
  tickets_preview = my_tickets_preview discord_id db;
  reports_preview = my_reports_preview discord_id db;
  recent = recent_activity row_id 15 db;
  detections_today = count_flag_creates_since (start_of_utc_day env.now) db;
  detections_last_24h = build_merged_series (start_at Range.last_24h env.now) Trunc.hour db;
}

abbrev user_of_identity : AuthIdentity → Tx String
user_of_identity AuthIdentity.bot = throw (forbidden "Forbidden")
user_of_identity (AuthIdentity.user id) = pure id

pub get_me_dashboard : (AuditLog → String) → Env → Bool → RequestPrincipal → Tx MeDashboard
get_me_dashboard row_id env refresh_on_miss principal = do
  discord_id ← user_of_identity principal.identity
  snapshot ← get_public_snapshot env refresh_on_miss
  gets (me_dashboard row_id env discord_id snapshot)

pub record AdminDashboard : Type 0 where
  pub platform_snapshot : PlatformStatsSnapshot
  pub tickets : List AdminTicketItem × TicketBucketSummary
  pub reports_pending : ℕ
  pub recent : List ActivityItem
  pub detections_today : ℕ
  pub detections_last_24h : List SeriesPoint
  pub flagged_preview : CursorPage UserPublic

abbrev admin_dashboard : (AuditLog → String) → Env → PlatformStatsSnapshot → Db → AdminDashboard
admin_dashboard row_id env snapshot db = record {
  platform_snapshot = snapshot;
  tickets = admin_list db;
  reports_pending = count_where is_pending db.reports;
  recent = recent_activity row_id 20 db;
  detections_today = count_flag_creates_since (start_of_utc_day env.now) db;
  detections_last_24h = build_merged_series (start_at Range.last_24h env.now) Trunc.hour db;
  flagged_preview = list_flagged none none 30 db;
}

pub get_admin_dashboard : (AuditLog → String) → Env → Bool → Tx AdminDashboard
get_admin_dashboard row_id env refresh_on_miss = do
  snapshot ← get_public_snapshot env refresh_on_miss
  gets (admin_dashboard row_id env snapshot)
