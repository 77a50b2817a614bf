-- ===== src/Tickets/Chat.antt =====
-- apps/api/src/tickets/tickets.service.ts: what an admin changes of a ticket, its messages, and who
-- may read an attachment.
use protect_platform.Tickets.{ticket_key}
use protect_platform.LicenseKeys.{assert_admin}
use protect_platform.Prelude.{
  forbidden, not_found, bad_request, find_first, update, create, find, is_some, ◌&&◌, false, ◌==◌,
  true, some, not, leb, or_else, Bool, Option, String, ℕ,
}
use protect_platform.Auth.{RequestPrincipal}
use protect_platform.Js.{Js}
use protect_platform.Store.{
  pure, found, modify, gets, check, SupportTicketAttachment, Tx, MessageAuthor, SupportTicket,
  TicketStatus, Env, ◌>>=◌, ◌>>◌,
}
use protect_platform.Tickets.Evidence.{is_ticket_of, assert_ticket_user}

-- The body of `adminPatch`: a missing field, or a new value, which may be null.
pub record TicketPatch : Type 0 where
  pub status : Option TicketStatus
  pub admin_note : Option (Option String)
  pub user_message : Option (Option String)

abbrev pub is_empty_patch : TicketPatch → Bool
is_empty_patch p =
    not (is_some p.status) && not (is_some p.admin_note) && not (is_some p.user_message)

abbrev pub patched_ticket : Env → TicketPatch → SupportTicket → SupportTicket
patched_ticket env p t = record t {
  status = or_else p.status t.status;
  admin_note = or_else p.admin_note t.admin_note;
  user_message = or_else p.user_message t.user_message;
  updated_at = env.now;
}

abbrev pub update_ticket : String → (SupportTicket → SupportTicket) → Tx (Unit {0})
update_ticket id f = modify (λ db. record db { tickets = update ticket_key id f db.tickets })

unfoldable pub admin_patch : Env → String → TicketPatch → Tx (Unit {0})
admin_patch env ticket_id p = do
  row ← gets (λ db. find ticket_key ticket_id db.tickets)
  t ← found row (not_found "Ticket not found")
  check (not (is_empty_patch p)) (bad_request "No changes")
  update_ticket ticket_id (patched_ticket env p)

abbrev pub is_closed : TicketStatus → Bool
is_closed TicketStatus.resolved = true
is_closed TicketStatus.rejected = true
is_closed _ = false

pub assert_ticket_open_for_chat : SupportTicket → Tx (Unit {0})
assert_ticket_open_for_chat t =
    check (not (is_closed t.status)) (bad_request "This ticket is closed")

abbrev pub add_message : Env → String → MessageAuthor → String → String → Tx (Unit {0})
add_message env ticket_id author discord_id body = modify (λ db. record db {
  messages =
      create
        (record {
          id = env.uuid 0;
          ticket_id = ticket_id;
          author_kind = author;
          author_discord_id = some discord_id;
          body = body;
          created_at = env.now;
        })
        db.messages;
})

abbrev is_sendable : ℕ → Bool
is_sendable n = leb 1 n && leb n 4000

abbrev pub touched : Env → SupportTicket → SupportTicket
touched env t = record t { updated_at = env.now }

abbrev pub assigned : Env → String → SupportTicket → SupportTicket → SupportTicket
assigned env admin before t = record t {
  updated_at = env.now;
  assigned_admin_discord_id = some (or_else before.assigned_admin_discord_id admin);
}

-- What both senders do once the ticket is found.
pub send :
    Js
    → Env
    → SupportTicket
    → MessageAuthor
    → String
    → String
    → (SupportTicket → SupportTicket)
    → Tx (Unit {0})
send js env t author discord_id body f = do
  assert_ticket_open_for_chat t
  let sent = js.trim body
  check (is_sendable (js.size sent)) (bad_request "Message must be 1–4000 characters")
  add_message env t.id author discord_id sent
  update_ticket t.id f

pub post_ticket_message_from_user : Js → Env → RequestPrincipal → String → String → Tx (Unit {0})
post_ticket_message_from_user js env principal ticket_id body = do
  discord_id ← assert_ticket_user principal
  row ← gets (λ db. find_first (is_ticket_of ticket_id discord_id) db.tickets)
  t ← found row (not_found "Ticket not found")
  send js env t MessageAuthor.user discord_id body (touched env)

pub post_ticket_message_from_admin : Js → Env → RequestPrincipal → String → String → Tx (Unit {0})
post_ticket_message_from_admin js env principal ticket_id body = do
  admin ← assert_admin principal
  row ← gets (λ db. find ticket_key ticket_id db.tickets)
  t ← found row (not_found "Ticket not found")
  send js env t MessageAuthor.admin admin body (assigned env admin t)

abbrev is_attachment_of : String → String → SupportTicketAttachment → Bool
is_attachment_of attachment_id ticket_id a = (a.id == attachment_id) && (a.ticket_id == ticket_id)

-- `getAttachmentForUser` up to the file; the ticket of an attachment exists.
pub get_attachment_for_user : RequestPrincipal → String → String → Tx SupportTicketAttachment
get_attachment_for_user principal ticket_id attachment_id = do
  discord_id ← assert_ticket_user principal
  row ← gets (λ db. find_first (is_attachment_of attachment_id ticket_id) db.attachments)
  a ← found row (not_found "Attachment not found")
  owner ← gets (λ db. find ticket_key ticket_id db.tickets)
  t ← found owner (not_found "Ticket not found")
  check (t.reporter_discord_id == discord_id) (forbidden "Forbidden")
  pure a
