-- ===== src/Tickets/Views/Seen.antt =====
-- apps/api/src/tickets/tickets.service.ts: who reads what of a ticket, and the numbers beside a list.
use protect_platform.Tickets.{ticket_key}
use protect_platform.Dashboard.Counted.{ticket_buckets-total, my_ticket_buckets_total}
use protect_platform.Dashboard.{is_of_reporter, my_ticket_buckets, TicketBucketSummary}
use protect_platform.Store.{found, check-ok, bind-ok, SupportTicketMessage, Db, SupportTicket}
use protect_platform.Auth.{AuthIdentity, AppRole, principal_has_any_role, RequestPrincipal}
use protect_platform.Tickets.Evidence.{is_ticket_of, assert_ticket_user}
use protect_platform.Prelude.{
  sort_desc, length-take, min, false, refl, find-key, length-sort_desc, none, suc, inr, find, leb,
  ap, inl, sym, ApiError, ◌∙◌, Bool-cases, keep, Option, map, length, eq_iff, ◌⊎◌, All, true, arith,
  ◌+◌, [], ok, some, ◌∷◌, ◌≡◌, List, Bool, String, find_first,
}
use protect_platform.Tickets.Views.{
  updated, recent_tickets, admin_item, admin_list, created, tickets_of, ticket_view,
  readable_ticket, insert_message, oldest_messages, sent_in, TicketView, list_ticket_messages,
  list_mine,
}

-- The reader is an administrator, or the user who reported and may have tickets.
abbrev pub MayRead : RequestPrincipal → SupportTicket → Type 0
MayRead principal t =
    (principal_has_any_role principal (AppRole.admin ∷ []) ≡ true)
    ⊎ ((principal.identity ≡ AuthIdentity.user t.reporter_discord_id)
        × (principal_has_any_role principal (AppRole.user ∷ AppRole.admin ∷ []) ≡ true))

assert_ticket_user-identity :
    (principal : RequestPrincipal) (db : Db) {d : String} {db' : Db}
    → assert_ticket_user principal db ≡ ok (d, db')
    → (principal.identity ≡ AuthIdentity.user d)
      × (principal_has_any_role principal (AppRole.user ∷ AppRole.admin ∷ []) ≡ true)
      × (db' ≡ db)
unfolding assert_ticket_user
assert_ticket_user-identity principal db h = ground arith

found_ticket :
    (ticket_id discord_id : String) (t : SupportTicket) (ts : List SupportTicket)
    → find_first (is_ticket_of ticket_id discord_id) ts ≡ some t
    → (t.id ≡ ticket_id) × (t.reporter_discord_id ≡ discord_id)
unfolding find_first
found_ticket ticket_id discord_id t [] h = ground arith
found_ticket ticket_id discord_id t (s ∷ ts) h = ground (
  arith,
  eq_iff s.id ticket_id,
  eq_iff s.reporter_discord_id discord_id,
  found_ticket ticket_id discord_id t ts,
)

found-ok :
    {A : Type 0} (o : Option A) (e : ApiError) (db : Db) {a : A} {db' : Db}
    → found o e db ≡ ok (a, db')
    → (o ≡ some a) × (db' ≡ db)
found-ok none e db h = cc
found-ok (some b) e db h = (cc, cc)

readable_ticket-MayRead :
    (principal : RequestPrincipal) (ticket_id : String) (as_admin : Bool) (t : SupportTicket)
    (db db' : Db)
    → readable_ticket principal ticket_id as_admin db ≡ ok (t, db')
    → (t.id ≡ ticket_id) × MayRead principal t × (db' ≡ db)
unfolding readable_ticket
readable_ticket-MayRead principal ticket_id true t db db' h =
    let (admin, h1) = check-ok (principal_has_any_role principal (AppRole.admin ∷ [])) _ _ db h in
    let (there, same) = found-ok (find ticket_key ticket_id db.tickets) _ db h1 in
    (find-key ticket_key ticket_id t db.tickets there, inl admin, same)
readable_ticket-MayRead principal ticket_id false t db db' h =
    let (d, mid, h1, k1) = bind-ok (assert_ticket_user principal) _ db h in
    let (who, role, e) = assert_ticket_user-identity principal db h1 in
    let (there, same) = found-ok (find_first (is_ticket_of ticket_id d) mid.tickets) _ mid k1 in
    let (id, reporter) = found_ticket ticket_id d t mid.tickets there in
    (id, inr (who ∙ ap AuthIdentity.user (sym reporter), role), same ∙ e)

module _ (P : SupportTicketMessage → Type 0) where
  All-insert_message :
      (m : SupportTicketMessage) (ns : List SupportTicketMessage)
      → P m
      → All P ns
      → All P (insert_message m ns)
  All-insert_message m [] one h = (one, tt)
  All-insert_message m (n ∷ ns) one (first, rest) =
      elim (Bool-cases (leb m.created_at n.created_at)) [
        | inl before ↦ rw before (one, (first, rest))
        | inr behind ↦ rw behind (first, All-insert_message m ns one rest)
      ]

  All-oldest_messages : (ms : List SupportTicketMessage) → All P ms → All P (oldest_messages ms)
  unfolding oldest_messages
  All-oldest_messages [] h = tt
  All-oldest_messages (m ∷ ms) (first, rest) =
      All-insert_message m (oldest_messages ms) first (All-oldest_messages ms rest)

keep-sent_in :
    (ticket_id : String) (ms : List SupportTicketMessage)
    → All (λ m. sent_in ticket_id m ≡ true) (keep (sent_in ticket_id) ms)
keep-sent_in ticket_id [] = tt
keep-sent_in ticket_id (m ∷ ms) = elim (Bool-cases (sent_in ticket_id m)) [
  | inl here ↦ rw here (here, keep-sent_in ticket_id ms)
  | inr other ↦ rw other (keep-sent_in ticket_id ms)
]

-- Messages of a ticket are given only to administrators and to the user who reported, and they are
-- the messages of that ticket, which exists.
pub list_ticket_messages-MayRead :
    (principal : RequestPrincipal) (ticket_id : String) (as_admin : Bool) (db db' : Db)
    (ms : List SupportTicketMessage)
    → list_ticket_messages principal ticket_id as_admin db ≡ ok (ms, db')
    → (t : SupportTicket) × (t.id ≡ ticket_id)
      × MayRead principal t
      × All (λ m. sent_in ticket_id m ≡ true) ms
      × (db' ≡ db)
unfolding list_ticket_messages
list_ticket_messages-MayRead principal ticket_id as_admin db db' ms h =
    let (t, mid, seen, end) = bind-ok (readable_ticket principal ticket_id as_admin) _ db h in
    let (id, reader, same) = readable_ticket-MayRead principal ticket_id as_admin t db mid seen in
    let e : ms ≡ oldest_messages (keep (sent_in ticket_id) mid.messages) = ground (arith, end) in
    let kept : db' ≡ mid = ground (arith, end) in
    (
      t,
      id,
      reader,
      rw e (
          All-oldest_messages (λ m. sent_in ticket_id m ≡ true)
            (keep (sent_in ticket_id) mid.messages) (keep-sent_in ticket_id mid.messages)),
      kept ∙ same,
    )

length-views : (db : Db) (ts : List SupportTicket) → length (map (ticket_view db) ts) ≡ length ts
length-views db [] = refl
length-views db (t ∷ ts) = ap suc (length-views db ts)

my_ticket_buckets-tickets :
    (discord_id : String) (db : Db)
    → (my_ticket_buckets discord_id db).open_
        + (my_ticket_buckets discord_id db).pending
        + (my_ticket_buckets discord_id db).closed
      ≡ length (tickets_of discord_id db)
my_ticket_buckets-tickets discord_id db =
    my_ticket_buckets_total discord_id db
    ∙ sym (length-sort_desc created (keep (is_of_reporter discord_id) db.tickets))

-- The buckets beside a user's list of tickets count each ticket of the list once.
pub list_mine-buckets :
    (principal : RequestPrincipal) (db db' : Db) (views : List TicketView)
    (buckets : TicketBucketSummary)
    → list_mine principal db ≡ ok ((views, buckets), db')
    → buckets.open_ + buckets.pending + buckets.closed ≡ length views
unfolding list_mine
list_mine-buckets principal db db' views buckets h =
    let (d, mid, who, end) = bind-ok (assert_ticket_user principal) _ db h in
    let some_views : views ≡ map (ticket_view mid) (tickets_of d mid) = ground (arith, end) in
    let some_buckets : buckets ≡ my_ticket_buckets d mid = ground (arith, end) in
    rw (some_views, some_buckets)
      (my_ticket_buckets-tickets d mid ∙ sym (length-views mid (tickets_of d mid)))

length-items : (db : Db) (ts : List SupportTicket) → length (map (admin_item db) ts) ≡ length ts
length-items db [] = refl
length-items db (t ∷ ts) = ap suc (length-items db ts)

-- The list of administrators shows at most 200 tickets, and the buckets beside it count all.
pub admin_list-buckets :
    (db : Db)
    → (length (admin_list db).0 ≡ min 200 (length db.tickets))
      × ((admin_list db).1.open_ + (admin_list db).1.pending + (admin_list db).1.closed
          ≡ length db.tickets)
unfolding admin_list
admin_list-buckets db = (
  length-items db (recent_tickets db)
      ∙ length-take 200 (sort_desc updated db.tickets)
      ∙ ap (min 200) (length-sort_desc updated db.tickets),
  ticket_buckets-total db.tickets,
)
