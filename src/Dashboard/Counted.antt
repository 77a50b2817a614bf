-- ===== src/Dashboard/Counted.antt =====
-- apps/api/src/dashboard/dashboard.service.ts: the buckets of tickets leave no ticket out.
use protect_platform.Store.{TicketStatus, Db, SupportTicket}
use protect_platform.Dashboard.{
  ticket_buckets, status_code, is_of_reporter, has_status, aggregate_ticket_statuses,
  my_ticket_buckets,
}
use protect_platform.Prelude.{
  false, eqb, [], ◌<◌, true, Bool, ℕ, keep, ◌∷◌, arith, count_where, ◌+◌, ◌≡◌, String, length, List,
}

status_code-bounded : (s : TicketStatus) → status_code s < 6
status_code-bounded TicketStatus.open_ = omega arith
status_code-bounded TicketStatus.needs_evidence = omega arith
status_code-bounded TicketStatus.evidence_submitted = omega arith
status_code-bounded TicketStatus.under_review = omega arith
status_code-bounded TicketStatus.resolved = omega arith
status_code-bounded TicketStatus.rejected = omega arith

abbrev one_if : Bool → ℕ
one_if true = 1
one_if false = 0

one_bucket :
    (n : ℕ)
    → n < 6
    → one_if (eqb n 0)
        + one_if (eqb n 1)
        + one_if (eqb n 2)
        + one_if (eqb n 3)
        + one_if (eqb n 4)
        + one_if (eqb n 5)
      ≡ 1
one_bucket n h = ground (arith, h)

count_cons :
    (k : ℕ) (t : SupportTicket) (ts : List SupportTicket)
    → count_where (has_status k) (t ∷ ts)
      ≡ one_if (eqb (status_code t.status) k) + count_where (has_status k) ts
count_cons k t ts = ground arith

split_by_status :
    (ts : List SupportTicket)
    → length ts
      ≡ count_where (has_status 0) ts
        + count_where (has_status 1) ts
        + count_where (has_status 2) ts
        + count_where (has_status 3) ts
        + count_where (has_status 4) ts
        + count_where (has_status 5) ts
split_by_status [] = omega arith
split_by_status (t ∷ ts) =
    let here = one_bucket (status_code t.status) (status_code-bounded t.status) in
    omega (
      arith,
      here,
      split_by_status ts,
      count_cons 0 t ts,
      count_cons 1 t ts,
      count_cons 2 t ts,
      count_cons 3 t ts,
      count_cons 4 t ts,
      count_cons 5 t ts,
    )

-- The buckets of some tickets count each of them once.
pub ticket_buckets-total :
    (ts : List SupportTicket)
    → (ticket_buckets ts).open_ + (ticket_buckets ts).pending + (ticket_buckets ts).closed
      ≡ length ts
unfolding ticket_buckets aggregate_ticket_statuses
ticket_buckets-total ts = ground (arith, split_by_status ts)

-- The open, pending and closed tickets of a user are together as many as the tickets of the user.
pub my_ticket_buckets_total :
    (discord_id : String) (db : Db)
    → (my_ticket_buckets discord_id db).open_
        + (my_ticket_buckets discord_id db).pending
        + (my_ticket_buckets discord_id db).closed
      ≡ count_where (is_of_reporter discord_id) db.tickets
unfolding my_ticket_buckets
my_ticket_buckets_total discord_id db =
    ticket_buckets-total (keep (is_of_reporter discord_id) db.tickets)
