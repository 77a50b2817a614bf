-- ===== src/Tickets.antt =====
-- apps/api/src/tickets/tickets.service.ts: the two operations that reports call.
pub mod Evidence
pub mod Chat
pub mod Views
use protect_platform.Flags.{or_null}
use protect_platform.Shared.Events.{support_ticket_created, support_ticket_resolved}
use protect_platform.Store.{
  check, modify, gets, text, pure, Db, Tx, JsonObject, TicketStatus, enqueue, SupportTicket, Env,
}
use Prim.Native.String.{◌++◌}
use protect_platform.Store.{◌>>=◌, ◌>>◌}
use protect_platform.Prelude.{
  create, unique_violation, is_some, not, update, arith, find, ◌∷◌, ok, ◌≡◌, some, [], String,
  Option, none,
}

abbrev pub report_key : SupportTicket → String
report_key t = t.report_id

abbrev pub ticket_key : SupportTicket → String
ticket_key t = t.id

abbrev pub new_ticket : Env → String → String → Option String → String → SupportTicket
new_ticket env id report_id guild_id reporter = record {
  id = id;
  report_id = report_id;
  guild_id = guild_id;
  reporter_discord_id = reporter;
  status = TicketStatus.open_;
  admin_note = none;
  user_message = none;
  evidence_links = [];
  assigned_admin_discord_id = none;
  created_at = env.now;
  updated_at = env.now;
}

-- `id` is the `randomUUID` of the ticket and `event_id` the event's. A report has one ticket at most.
unfoldable pub create_for_pending_report :
    Env → (id event_id report_id : String) → Option String → String → Tx (Unit {0})
create_for_pending_report env id event_id report_id guild_id reporter = do
  present ← gets (λ db. find report_key report_id db.tickets)
  check (not (is_some present)) (unique_violation "report_id")
  modify (λ db. record db {
    tickets = create (new_ticket env id report_id guild_id reporter) db.tickets;
  })
  enqueue env event_id (record {
    event_type = support_ticket_created;
    payload =
        ("ticketId", text id)
        ∷ ("reportId", text report_id)
        ∷ ("reporterDiscordId", text reporter)
        ∷ ("guildId", or_null guild_id)
        ∷ ("status", text "OPEN")
        ∷ [];
    idempotency_key = some ("support.ticket.created:" ++ id);
  })

-- `'RESOLVED' | 'REJECTED'`
pub data Verdict : Type 0 where
  resolved rejected : Verdict

abbrev pub verdict_name : Verdict → String
verdict_name Verdict.resolved = "RESOLVED"
verdict_name Verdict.rejected = "REJECTED"

abbrev pub verdict_status : Verdict → TicketStatus
verdict_status Verdict.resolved = TicketStatus.resolved
verdict_status Verdict.rejected = TicketStatus.rejected

abbrev pub finalized_ticket : Env → Verdict → String → SupportTicket → SupportTicket
finalized_ticket env verdict admin t = record t {
  status = verdict_status verdict;
  assigned_admin_discord_id = some admin;
  updated_at = env.now;
}

abbrev pub resolved_payload : SupportTicket → String → Verdict → JsonObject
resolved_payload t report_id verdict =
    ("ticketId", text t.id)
    ∷ ("reportId", text report_id)
    ∷ ("reporterDiscordId", text t.reporter_discord_id)
    ∷ ("guildId", or_null t.guild_id)
    ∷ ("status", text (verdict_name verdict))
    ∷ []

unfoldable pub finalize_found :
    Env → (event_id report_id : String) → Verdict → String → Option SupportTicket → Tx (Unit {0})
finalize_found env event_id report_id verdict admin none = pure tt
finalize_found env event_id report_id verdict admin (some t) = do
  modify (λ db. record db {
    tickets = update ticket_key t.id (finalized_ticket env verdict admin) db.tickets;
  })
  enqueue env event_id (record {
    event_type = support_ticket_resolved;
    payload = resolved_payload t report_id verdict;
    idempotency_key =
        some
          ("support.ticket.resolved:" ++ t.id ++ ":" ++ verdict_name verdict ++ ":" ++ report_id);
  })

unfoldable pub finalize_ticket_for_report :
    Env → (event_id report_id : String) → Verdict → String → Tx (Unit {0})
finalize_ticket_for_report env event_id report_id verdict admin = do
  ticket ← gets (λ db. find report_key report_id db.tickets)
  finalize_found env event_id report_id verdict admin ticket

-- A verdict on a ticket leaves users, flags and reports alone.
finalize_found-keeps :
    (env : Env) (event_id report_id : String) (verdict : Verdict) (admin : String)
    (t : Option SupportTicket) (db : Db) {u : Unit {0}} {db' : Db}
    → finalize_found env event_id report_id verdict admin t db ≡ ok (u, db')
    → (db'.users ≡ db.users) × (db'.flags ≡ db.flags) × (db'.reports ≡ db.reports)
unfolding finalize_found enqueue
finalize_found-keeps env event_id report_id verdict admin none db h = ground arith
finalize_found-keeps env event_id report_id verdict admin (some t) db h = ground arith

pub finalize_ticket_for_report-keeps :
    (env : Env) (event_id report_id : String) (verdict : Verdict) (admin : String) (db : Db)
    {u : Unit {0}} {db' : Db}
    → finalize_ticket_for_report env event_id report_id verdict admin db ≡ ok (u, db')
    → (db'.users ≡ db.users) × (db'.flags ≡ db.flags) × (db'.reports ≡ db.reports)
unfolding finalize_ticket_for_report
finalize_ticket_for_report-keeps env event_id report_id verdict admin db h =
    finalize_found-keeps env event_id report_id verdict admin (find report_key report_id db.tickets)
      db h
