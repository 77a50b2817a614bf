-- ===== src/Reports/Views.antt =====
-- apps/api/src/reports/reports.service.ts: the lists of reports and the views of one report.
use protect_platform.Auth.{is_discord_platform_admin}
use protect_platform.Tickets.{report_key}
use protect_platform.Scores.{user_id}
use protect_platform.Reports.Review.{report_id, awaits_review}
use protect_platform.Shared.Levels.{FlagLevel}
use protect_platform.Reports.Displays.{pick_display, MemberDisplay, Pair, load_member_displays}
use protect_platform.Js.{Js}
use protect_platform.Store.{
  pure, check, found, gets, ◌>>◌, ◌>>=◌, SupportTicket, GuildMemberCache, User, ReportStatus,
  TicketStatus, Tx, Report, Db,
}
use protect_platform.Prelude.{
  forbidden, not_found, none, eqb, [], keep, max, leb, some, min, ◌&&◌, if◌then◌else◌, ◌||◌, take,
  ◌∷◌, map, find, ◌==◌, ℕ, String, Option, List, Bool,
}
pub mod Names
pub mod Seen
mod Tests

abbrev discord_id_of : Option User → String
discord_id_of none = ""
discord_id_of (some u) = u.discord_id

-- `reportedUser: { select: { discordId } }`, which a foreign key keeps in the table.
abbrev pub target_of : Db → Report → String
target_of db r = discord_id_of (find user_id r.reported_user_id db.users)

abbrev pub reporter_pair : Report → Pair
reporter_pair r = (r.guild_id, r.reporter_discord_id)

abbrev pub target_pair : Db → Report → Pair
target_pair db r = (r.guild_id, target_of db r)

abbrev pub ticket_of : Db → Report → Option SupportTicket
ticket_of db r = find report_key r.id db.tickets

abbrev id_of : Option SupportTicket → Option String
id_of none = none
id_of (some t) = some t.id

abbrev status_of : Option SupportTicket → Option TicketStatus
status_of none = none
status_of (some t) = some t.status

-- What every view of a report shows.
pub record ReportView : Type 0 where
  pub id : String
  pub status : ReportStatus
  pub target_discord_id : String
  pub guild_id : Option String
  pub reason : String
  pub created_at : ℕ
  pub target_display : Option MemberDisplay

abbrev pub view_of : List GuildMemberCache → Db → Report → ReportView
view_of rows db r = record {
  id = r.id;
  status = r.status;
  target_discord_id = target_of db r;
  guild_id = r.guild_id;
  reason = r.reason;
  created_at = r.created_at;
  target_display = pick_display rows r.guild_id (target_of db r);
}

-- An item of the list of pending reports.
pub record PendingItem : Type 0 where
  pub view : ReportView
  pub reporter_discord_id : String
  pub alleged_flag_level : Option FlagLevel
  pub ticket_id : Option String
  pub ticket_status : Option TicketStatus
  pub reporter_display : Option MemberDisplay

abbrev pub pending_item : List GuildMemberCache → Db → Report → PendingItem
pending_item rows db r = record {
  view = view_of rows db r;
  reporter_discord_id = r.reporter_discord_id;
  alleged_flag_level = r.alleged_flag_level;
  ticket_id = id_of (ticket_of db r);
  ticket_status = status_of (ticket_of db r);
  reporter_display = pick_display rows r.guild_id r.reporter_discord_id;
}

-- The view of one report.
pub record ReportDetail : Type 0 where
  pub view : ReportView
  pub reporter_discord_id : String
  pub alleged_flag_level : Option FlagLevel
  pub reviewed_at : Option ℕ
  pub resolver_note : Option String
  pub reporter_display : Option MemberDisplay

abbrev pub detail_of : Db → Report → ReportDetail
detail_of db r =
    let rows = load_member_displays (reporter_pair r ∷ target_pair db r ∷ []) db in
    record {
      view = view_of rows db r;
      reporter_discord_id = r.reporter_discord_id;
      alleged_flag_level = r.alleged_flag_level;
      reviewed_at = r.reviewed_at;
      resolver_note = r.resolver_note;
      reporter_display = pick_display rows r.guild_id r.reporter_discord_id;
    }

-- The view of one report on the dashboard.
pub record JwtReportDetail : Type 0 where
  pub detail : ReportDetail
  pub ticket_id : Option String
  pub ticket_status : Option TicketStatus
  pub can_moderate : Bool

abbrev pub jwt_detail_of : Bool → Db → Report → JwtReportDetail
jwt_detail_of is_admin db r = record {
  detail = detail_of db r;
  ticket_id = id_of (ticket_of db r);
  ticket_status = status_of (ticket_of db r);
  can_moderate = is_admin && awaits_review r.status;
}

abbrev pub may_view : Bool → String → Report → Bool
may_view is_admin viewer r = is_admin || r.reporter_discord_id == viewer

-- The read of a report, and the guard on who asks for it.
unfoldable pub viewed : String → Bool → String → Tx Report
viewed id is_admin viewer = do
  row ← gets (λ db. find report_id id db.reports)
  r ← found row (not_found "Report not found")
  check (may_view is_admin viewer r) (forbidden "Not allowed to view this report")
  pure r

unfoldable pub get_for_bot_viewer : Js → Option String → String → String → Tx ReportDetail
get_for_bot_viewer js admin_ids id viewer = do
  r ← viewed id (is_discord_platform_admin js viewer admin_ids) viewer
  gets (λ db. detail_of db r)

unfoldable pub get_jwt_report_detail : String → String → Bool → Tx JwtReportDetail
get_jwt_report_detail id viewer is_admin = do
  r ← viewed id is_admin viewer
  gets (λ db. jwt_detail_of is_admin db r)

-- `orderBy: { createdAt: 'desc' }`
abbrev insert_newest : Report → List Report → List Report
insert_newest r [] = r ∷ []
insert_newest r (s ∷ ss) =
    let rest = insert_newest r ss in if leb s.created_at r.created_at then r ∷ s ∷ ss else s ∷ rest

unfoldable pub newest_reports : List Report → List Report
newest_reports [] = []
newest_reports (r ∷ rs) = insert_newest r (newest_reports rs)

abbrev pub clamp : ℕ → ℕ → ℕ
clamp high n = min (max n 1) high

abbrev pub is_pending : Report → Bool
is_pending r = awaits_review r.status

abbrev pub pending_reports : ℕ → Db → List Report
pending_reports limit db = take (clamp 100 limit) (newest_reports (keep is_pending db.reports))

abbrev pub pairs_of : Db → List Report → List Pair
pairs_of db [] = []
pairs_of db (r ∷ rs) = reporter_pair r ∷ target_pair db r ∷ pairs_of db rs

unfoldable pub list_pending : ℕ → Db → List PendingItem
list_pending limit db =
    let rows = pending_reports limit db in
    map (pending_item (load_member_displays (pairs_of db rows) db) db) rows

abbrev pub is_by : String → Report → Bool
is_by reporter r = r.reporter_discord_id == reporter

-- `Number(limitRaw) || 15`
abbrev limit_or : ℕ → ℕ
limit_or n = if eqb n 0 then 15 else n

abbrev pub reports_by : String → ℕ → Db → List Report
reports_by reporter limit db =
    take (clamp 50 (limit_or limit)) (newest_reports (keep (is_by reporter) db.reports))

unfoldable pub list_mine_for_reporter : String → ℕ → Db → List ReportView
list_mine_for_reporter reporter limit db =
    let rows = reports_by reporter limit db in
    map (view_of (load_member_displays (map (target_pair db) rows) db) db) rows
