-- ===== src/Tickets/Evidence/Repeated.antt =====
-- apps/api/src/tickets/tickets.service.ts and schema.prisma: the event of submitted evidence has a key
-- of the ticket, the number of images, and the number of links that the ticket has then.
use protect_platform.Tickets.Evidence.Submitted.{
  find_first-update_ticket, skip_check, submit_evidence-IsSubmitted,
}
use protect_platform.Tickets.{ticket_key}
use protect_platform.Tickets.Evidence.{normalize_links, submit_evidence, is_ticket_of, Upload}
use protect_platform.Tickets.Chat.{is_empty_patch, patched_ticket, TicketPatch, admin_patch}
use protect_platform.Store.{required-ok, Db, SupportTicket, Env}
use protect_platform.Prelude.{
  refl, map_row, length-append, ◌∙◌, update, ap, arith, not, ◌≢◌, [], find, length, some, ok,
  find_first, Option, List, ℕ, ◌≡◌, String,
}
use protect_platform.Auth.{AuthIdentity, RequestPrincipal}
use protect_platform.Js.{Js}

module _ (js : Js) (principal : RequestPrincipal) (discord_id ticket_id : String)
    (is_user : principal.identity ≡ AuthIdentity.user discord_id) where
  admin_patch-ticket :
      (env : Env) (p : TicketPatch) (t : SupportTicket) (db db' : Db) (u : Unit {0})
      → find_first (is_ticket_of ticket_id discord_id) db.tickets ≡ some t
      → admin_patch env ticket_id p db ≡ ok (u, db')
      → (find_first (is_ticket_of ticket_id discord_id) db'.tickets ≡ some (patched_ticket env p t))
        × (db'.outbox ≡ db.outbox)
  unfolding admin_patch
  admin_patch-ticket env p t db db' u there h =
      let (row, known, k1) = required-ok (find ticket_key ticket_id db.tickets) _ _ db h in
      let k2 = skip_check (not (is_empty_patch p)) _ _ db k1 in
      let e : db'
          ≡ record db { tickets = update ticket_key ticket_id (patched_ticket env p) db.tickets } =
        cc in
      (
        ap (λ (s : Db). find_first (is_ticket_of ticket_id discord_id) s.tickets) e
            ∙ find_first-update_ticket ticket_id discord_id (patched_ticket env p) db.tickets
                (λ s. refl) (λ s. refl)
            ∙ ap (map_row (patched_ticket env p)) there,
        ap (λ (s : Db). s.outbox) e,
      )

  -- Evidence that was submitted and that an administrator asks for again cannot be submitted again
  -- with as many images and no link: the event of the second submission has the key of the first,
  -- which the unique index refuses, so that the images are not recorded.
  pub resubmission_refused :
      (env env' env'' : Env) (max_bytes : ℕ) (raw raw' : List (Option String))
      (files files' : List Upload) (p : TicketPatch) (db db' asked db'' : Db) (u v w : Unit {0})
      → submit_evidence js env max_bytes principal ticket_id raw files db ≡ ok (u, db')
      → admin_patch env' ticket_id p db' ≡ ok (v, asked)
      → length files' ≡ length files
      → normalize_links js raw' ≡ []
      → submit_evidence js env'' max_bytes principal ticket_id raw' files' asked ≢ ok (w, db'')
  resubmission_refused env env' env'' max_bytes raw raw' files files' p db db' asked db'' u v w
        first patched as_many no_links again =
      let a =
        submit_evidence-IsSubmitted js principal discord_id ticket_id is_user env max_bytes raw
          files db db' u first in
      let b =
        submit_evidence-IsSubmitted js principal discord_id ticket_id is_user env'' max_bytes raw'
          files' asked db'' w again in
      let (there, outbox) = admin_patch-ticket env' p a.after db' asked v a.is_after patched in
      let same : b.before ≡ patched_ticket env' p a.after = ground (arith, there, b.is_before) in
      let id : b.before.id ≡ a.before.id = ap (λ (t : SupportTicket). t.id) same ∙ a.same_id in
      let before_links : length b.before.evidence_links ≡ length a.links =
        ap (λ (t : SupportTicket). length t.evidence_links) same ∙ ap length a.kept_links in
      let after_links : length b.links ≡ length a.links = omega (
        arith,
        before_links,
        ap length b.is_links,
        length-append b.before.evidence_links (normalize_links js raw'),
        ap length no_links,
      ) in
      let key : b.key ≡ a.key = cc (b.is_key, a.is_key, id, as_many, after_links) in
      ground (arith, b.unused, a.used, key, outbox)
