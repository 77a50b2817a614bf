-- ===== src/Tickets/Views.antt =====
-- apps/api/src/tickets/tickets.service.ts: the lists of tickets, the views of one ticket and its
-- messages.
use protect_platform.Reports.Review.{report_id}
use protect_platform.Tickets.{ticket_key}
use protect_platform.Reports.Views.{target_of}
use protect_platform.Shared.Levels.{FlagLevel}
use protect_platform.Tickets.Evidence.{is_ticket_of, assert_ticket_user}
use protect_platform.Dashboard.{
  my_ticket_buckets, is_of_reporter, ticket_buckets, TicketBucketSummary,
}
use protect_platform.Auth.{AppRole, principal_has_any_role, RequestPrincipal}
use protect_platform.Store.{
  found, check, gets, ◌>>◌, ◌>>=◌, ReportStatus, Report, TicketStatus, Tx, SupportTicketAttachment,
  SupportTicket, Db, SupportTicketMessage,
}
use protect_platform.Prelude.{
  false, true, not_found, none, forbidden, find_first, leb, some, if◌then◌else◌, [], keep, ◌==◌,
  sort_desc, find, ℕ, ◌∷◌, take, map, Bool, Option, List, String,
}
pub mod Seen
mod Tests

pub record AttachmentView : Type 0 where
  pub id : String
  pub mime_type : String
  pub size_bytes : ℕ
  pub created_at : ℕ

abbrev attachment_view : SupportTicketAttachment → AttachmentView
attachment_view a = record {
  id = a.id;
  mime_type = a.mime_type;
  size_bytes = a.size_bytes;
  created_at = a.created_at;
}

abbrev pub is_attached_to : String → SupportTicketAttachment → Bool
is_attached_to ticket_id a = a.ticket_id == ticket_id

-- What a ticket shows of its report. Foreign keys keep the report and its user in the tables; a
-- missing one would show as the empty values here.
pub record ReportLine : Type 0 where
  pub target_discord_id : String
  pub report_status : Option ReportStatus
  pub report_reason : String
  pub alleged_flag_level : Option FlagLevel

abbrev report_line : Db → Option Report → ReportLine
report_line db none = record {
  target_discord_id = "";
  report_status = none;
  report_reason = "";
  alleged_flag_level = none;
}
report_line db (some r) = record {
  target_discord_id = target_of db r;
  report_status = some r.status;
  report_reason = r.reason;
  alleged_flag_level = r.alleged_flag_level;
}

abbrev pub line_of_ticket : Db → SupportTicket → ReportLine
line_of_ticket db t = report_line db (find report_id t.report_id db.reports)

-- A ticket in the list of administrators.
pub record AdminTicketItem : Type 0 where
  pub id : String
  pub status : TicketStatus
  pub report_id : String
  pub guild_id : Option String
  pub reporter_discord_id : String
  pub created_at : ℕ
  pub updated_at : ℕ
  pub report : ReportLine
  pub admin_note : Option String

abbrev pub admin_item : Db → SupportTicket → AdminTicketItem
admin_item db t = record {
  id = t.id;
  status = t.status;
  report_id = t.report_id;
  guild_id = t.guild_id;
  reporter_discord_id = t.reporter_discord_id;
  created_at = t.created_at;
  updated_at = t.updated_at;
  report = line_of_ticket db t;
  admin_note = t.admin_note;
}

-- A ticket as its reporter sees it.
pub record TicketView : Type 0 where
  pub id : String
  pub status : TicketStatus
  pub report_id : String
  pub guild_id : Option String
  pub created_at : ℕ
  pub updated_at : ℕ
  pub evidence_links : List String
  pub admin_note : Option String
  pub user_message : Option String
  pub report : ReportLine
  pub attachments : List AttachmentView

abbrev pub ticket_view : Db → SupportTicket → TicketView
ticket_view db t = record {
  id = t.id;
  status = t.status;
  report_id = t.report_id;
  guild_id = t.guild_id;
  created_at = t.created_at;
  updated_at = t.updated_at;
  evidence_links = t.evidence_links;
  admin_note = t.admin_note;
  user_message = t.user_message;
  report = line_of_ticket db t;
  attachments = map attachment_view (keep (is_attached_to t.id) db.attachments);
}

abbrev pub created : SupportTicket → ℕ
created t = t.created_at

abbrev pub updated : SupportTicket → ℕ
updated t = t.updated_at

-- The tickets of a user, the newest first.
abbrev pub tickets_of : String → Db → List SupportTicket
tickets_of discord_id db = sort_desc created (keep (is_of_reporter discord_id) db.tickets)

pub list_mine : RequestPrincipal → Tx (List TicketView × TicketBucketSummary)
list_mine principal = do
  discord_id ← assert_ticket_user principal
  gets (λ db. (map (ticket_view db) (tickets_of discord_id db), my_ticket_buckets discord_id db))

pub get_mine : RequestPrincipal → String → Tx TicketView
get_mine principal ticket_id = do
  discord_id ← assert_ticket_user principal
  row ← gets (λ db. find_first (is_ticket_of ticket_id discord_id) db.tickets)
  t ← found row (not_found "Ticket not found")
  gets (λ db. ticket_view db t)

abbrev is_admin : RequestPrincipal → Bool
is_admin principal = principal_has_any_role principal (AppRole.admin ∷ [])

-- An administrator's view of a ticket also names its reporter.
pub get_for_admin : RequestPrincipal → String → Tx (String × TicketView)
get_for_admin principal ticket_id = do
  check (is_admin principal) (forbidden "Forbidden")
  row ← gets (λ db. find ticket_key ticket_id db.tickets)
  t ← found row (not_found "Ticket not found")
  gets (λ db. (t.reporter_discord_id, ticket_view db t))

abbrev pub recent_tickets : Db → List SupportTicket
recent_tickets db = take 200 (sort_desc updated db.tickets)

unfoldable pub admin_list : Db → List AdminTicketItem × TicketBucketSummary
admin_list db = (map (admin_item db) (recent_tickets db), ticket_buckets db.tickets)

abbrev pub sent_in : String → SupportTicketMessage → Bool
sent_in ticket_id m = m.ticket_id == ticket_id

abbrev insert_message : SupportTicketMessage → List SupportTicketMessage → List SupportTicketMessage
insert_message m [] = m ∷ []
insert_message m (n ∷ ns) =
    let rest = insert_message m ns in if leb m.created_at n.created_at then m ∷ n ∷ ns else n ∷ rest

-- `orderBy: { createdAt: 'asc' }`
unfoldable pub oldest_messages : List SupportTicketMessage → List SupportTicketMessage
oldest_messages [] = []
oldest_messages (m ∷ ms) = insert_message m (oldest_messages ms)

-- Who may read the messages of a ticket.
readable_ticket : RequestPrincipal → String → Bool → Tx SupportTicket
readable_ticket principal ticket_id true = do
  check (is_admin principal) (forbidden "Forbidden")
  row ← gets (λ db. find ticket_key ticket_id db.tickets)
  found row (not_found "Ticket not found")
readable_ticket principal ticket_id false = do
  discord_id ← assert_ticket_user principal
  row ← gets (λ db. find_first (is_ticket_of ticket_id discord_id) db.tickets)
  found row (not_found "Ticket not found")

pub list_ticket_messages : RequestPrincipal → String → Bool → Tx (List SupportTicketMessage)
list_ticket_messages principal ticket_id as_admin = do
  _ ← readable_ticket principal ticket_id as_admin
  gets (λ db. oldest_messages (keep (sent_in ticket_id) db.messages))
