-- ===== src/Tickets/Views/Tests.antt =====
-- Runs of the views of tickets, and their theorems at concrete inputs.
use protect_platform.Tickets.{new_ticket}
use protect_platform.Tickets.Views.Seen.{list_ticket_messages-MayRead, MayRead}
use protect_platform.Samples.{env, empty_db}
use protect_platform.Prelude.{
  true, ok, false, none, [], forbidden, refl, ◌∷◌, not_found, All, find_first, err, some, length,
  ◌≡◌, sort_desc,
}
use protect_platform.Tickets.Evidence.{assert_ticket_user}
use protect_platform.Auth.{AppRole, principal_has_any_role, AuthIdentity, RequestPrincipal}
use protect_platform.Store.{MessageAuthor, SupportTicket, SupportTicketMessage, Db}
use protect_platform.Tickets.Views.{
  sent_in, oldest_messages, readable_ticket, list_ticket_messages, get_mine, admin_list,
  get_for_admin,
}

abbrev reporter : RequestPrincipal
reporter = record { identity = AuthIdentity.user "7"; roles = AppRole.user ∷ [] }

abbrev stranger : RequestPrincipal
stranger = record { identity = AuthIdentity.user "8"; roles = AppRole.user ∷ [] }

abbrev message : SupportTicketMessage
message = record {
  id = "m1";
  ticket_id = "t1";
  author_kind = MessageAuthor.user;
  author_discord_id = some "7";
  body = "Here it is";
  created_at = 5;
}

abbrev with_tickets : Db
with_tickets = record empty_db {
  tickets = new_ticket (env "a") "t1" "r1" none "7" ∷ new_ticket (env "b") "t2" "r2" none "8" ∷ [];
  messages = message ∷ record message { id = "m2"; ticket_id = "t2" } ∷ [];
}

reads : list_ticket_messages reporter "t1" false with_tickets ≡ ok (message ∷ [], with_tickets)
unfolding list_ticket_messages readable_ticket assert_ticket_user principal_has_any_role find_first
    oldest_messages
reads = refl

hidden : list_ticket_messages stranger "t1" false with_tickets ≡ err (not_found "Ticket not found")
unfolding list_ticket_messages readable_ticket assert_ticket_user principal_has_any_role find_first
    oldest_messages
hidden = refl

not_admin : get_for_admin reporter "t1" with_tickets ≡ err (forbidden "Forbidden")
unfolding get_for_admin principal_has_any_role
not_admin = refl

mine : get_mine stranger "t1" with_tickets ≡ err (not_found "Ticket not found")
unfolding get_mine assert_ticket_user principal_has_any_role find_first
mine = refl

listed : length (admin_list with_tickets).0 ≡ 2
unfolding admin_list sort_desc
listed = refl

list_ticket_messages-MayRead_example :
    (t : SupportTicket) × (t.id ≡ "t1")
    × MayRead reporter t
    × All (λ m. sent_in "t1" m ≡ true) (message ∷ [])
    × (with_tickets ≡ with_tickets)
list_ticket_messages-MayRead_example =
    list_ticket_messages-MayRead reporter "t1" false with_tickets with_tickets (message ∷ []) reads
