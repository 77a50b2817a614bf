-- ===== src/Dashboard.antt =====
-- apps/api/src/dashboard/dashboard.service.ts: the numbers of the dashboards, and the rows that are
-- sent to an open one. Times are milliseconds.
use protect_platform.Prelude.{
  ◌&&◌, false, leb, eqb, keep, true, if◌then◌else◌, ◌==◌, count_where, take, ltb, Bool, ◌+◌, [],
  ◌∷◌, ℕ, List, String,
}
use protect_platform.Store.{SupportTicket, Db, AuditLog, TicketStatus, AuditAction}
pub mod Counted
pub mod Polled
pub mod Series
pub mod Pages
mod Tests

pub record TicketBucketSummary : Type 0 where
  pub open_ : ℕ
  pub pending : ℕ
  pub closed : ℕ

abbrev pub status_code : TicketStatus → ℕ
status_code TicketStatus.open_ = 0
status_code TicketStatus.needs_evidence = 1
status_code TicketStatus.evidence_submitted = 2
status_code TicketStatus.under_review = 3
status_code TicketStatus.resolved = 4
status_code TicketStatus.rejected = 5

abbrev pub has_status : ℕ → SupportTicket → Bool
has_status k t = eqb (status_code t.status) k

-- `groupBy` with `_count`: a row for each status that occurs.
abbrev group : List SupportTicket → List ℕ → List (ℕ × ℕ)
group tickets [] = []
group tickets (k ∷ ks) =
    let rest = group tickets ks in
    if ltb 0 (count_where (has_status k) tickets)
    then (k, count_where (has_status k) tickets) ∷ rest
    else rest

abbrev count_of : ℕ → List (ℕ × ℕ) → ℕ
count_of k [] = 0
count_of k ((j, n) ∷ rows) = if eqb j k then n else count_of k rows

unfoldable pub aggregate_ticket_statuses : List (ℕ × ℕ) → TicketBucketSummary
aggregate_ticket_statuses rows = record {
  open_ = count_of 0 rows + count_of 1 rows;
  pending = count_of 2 rows + count_of 3 rows;
  closed = count_of 4 rows + count_of 5 rows;
}

abbrev pub is_of_reporter : String → SupportTicket → Bool
is_of_reporter discord_id t = t.reporter_discord_id == discord_id

-- The buckets of some tickets, by their groups.
unfoldable pub ticket_buckets : List SupportTicket → TicketBucketSummary
ticket_buckets tickets = aggregate_ticket_statuses (group tickets (0 ∷ 1 ∷ 2 ∷ 3 ∷ 4 ∷ 5 ∷ []))

unfoldable pub my_ticket_buckets : String → Db → TicketBucketSummary
my_ticket_buckets discord_id db = ticket_buckets (keep (is_of_reporter discord_id) db.tickets)

abbrev pub is_flag_created : AuditAction → Bool
is_flag_created AuditAction.flag_created = true
is_flag_created _ = false

unfoldable pub count_flag_creates_since : ℕ → Db → ℕ
count_flag_creates_since since db =
    count_where (λ r. is_flag_created r.action && leb since r.timestamp) db.audit

-- `orderBy: { timestamp: 'asc' }`. Rows of the same time, which the source orders by their random
-- identifiers, stay in the order of the table.
abbrev pub insert_by_time : AuditLog → List AuditLog → List AuditLog
insert_by_time r [] = r ∷ []
insert_by_time r (s ∷ ss) =
    let rest = insert_by_time r ss in if leb r.timestamp s.timestamp then r ∷ s ∷ ss else s ∷ rest

unfoldable pub oldest_first : List AuditLog → List AuditLog
oldest_first [] = []
oldest_first (r ∷ rs) = insert_by_time r (oldest_first rs)

abbrev pub page_size : ℕ
page_size = 100

abbrev pub last_time : ℕ → List AuditLog → ℕ
last_time since [] = since
last_time since (r ∷ rs) = last_time r.timestamp rs

abbrev pub is_after : ℕ → AuditLog → Bool
is_after since r = ltb since r.timestamp

-- The rows, and the watermark that the next poll starts from.
unfoldable pub poll_audit_since : ℕ → Db → List AuditLog × ℕ
poll_audit_since since db =
    let rows = take page_size (oldest_first (keep (is_after since) db.audit)) in
    (rows, last_time since rows)
