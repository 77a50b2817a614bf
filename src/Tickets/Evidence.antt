-- ===== src/Tickets/Evidence.antt =====
-- apps/api/src/tickets/tickets.service.ts: `submitEvidence`. The files that the source writes to the
-- disk are not modelled. A list of links with values that are no text has `none` for these.
pub mod Submitted
pub mod Repeated
mod Tests
use protect_platform.Flags.{or_null}
use protect_platform.Shared.Events.{support_ticket_evidence_submitted}
use protect_platform.Tickets.{ticket_key}
use protect_platform.Prelude.{
  append, not_found, forbidden, find_first, ◌&&◌, ◌||◌, false, eqb, update, bad_request, drop, true,
  ◌==◌, [], some, leb, length, ltb, ◌%◌, take, ◌+◌, ◌∷◌, if◌then◌else◌, or_else, keep, none, Bool,
  map, Option, List, ℕ,
}
use protect_platform.Auth.{AppRole, principal_has_any_role, AuthIdentity, RequestPrincipal}
use protect_platform.Js.{Js}
use protect_platform.Store.{
  num, text, enqueue, found, throw, modify, gets, pure, check, Tx, SupportTicket, TicketStatus,
  SupportTicketAttachment, Env, ◌>>=◌, ◌>>◌,
}
use Prim.Native.String.{String, ◌++◌}

pub record Upload : Type 0 where
  pub size : ℕ
  pub buffer : List ℕ

abbrev same_bytes : List ℕ → List ℕ → Bool
same_bytes [] [] = true
same_bytes (x ∷ xs) (y ∷ ys) = let rest = same_bytes xs ys in eqb x y && rest
same_bytes _ _ = false

-- `buf.toString('ascii', from, from + n)` as numbers: node drops the high bit.
abbrev ascii : ℕ → ℕ → List ℕ → List ℕ
ascii from n buf = map (λ b. b % 128) (take n (drop from buf))

abbrev is_jpeg : List ℕ → Bool
is_jpeg buf = same_bytes (take 3 buf) (255 ∷ 216 ∷ 255 ∷ [])

abbrev is_png : List ℕ → Bool
is_png buf =
    leb 8 (length buf)
    && same_bytes (take 1 buf) (137 ∷ [])
    && same_bytes (ascii 1 3 buf) (80 ∷ 78 ∷ 71 ∷ [])

abbrev is_gif : List ℕ → Bool
is_gif buf =
    same_bytes (ascii 0 6 buf) (71 ∷ 73 ∷ 70 ∷ 56 ∷ 55 ∷ 97 ∷ [])
    || same_bytes (ascii 0 6 buf) (71 ∷ 73 ∷ 70 ∷ 56 ∷ 57 ∷ 97 ∷ [])

abbrev is_webp : List ℕ → Bool
is_webp buf =
    leb 12 (length buf)
    && same_bytes (ascii 0 4 buf) (82 ∷ 73 ∷ 70 ∷ 70 ∷ [])
    && same_bytes (ascii 8 4 buf) (87 ∷ 69 ∷ 66 ∷ 80 ∷ [])

unfoldable pub sniff_image_mime : List ℕ → Option String
sniff_image_mime buf =
    if is_jpeg buf
    then some "image/jpeg"
    else if is_png buf
    then some "image/png"
    else if is_gif buf
    then some "image/gif"
    else if is_webp buf
    then some "image/webp"
    else none

abbrev texts : List (Option String) → List String
texts [] = []
texts (none ∷ xs) = texts xs
texts (some s ∷ xs) = s ∷ texts xs

pub normalize_links : Js → List (Option String) → List String
normalize_links js raw =
    keep (λ s. ltb 0 (js.size s) && ltb (js.size s) 4000) (map js.trim (texts raw))

unfoldable pub assert_ticket_user : RequestPrincipal → Tx String
assert_ticket_user principal = do
  discord_id ← elim principal.identity [
    | AuthIdentity.bot ↦ throw (forbidden "Forbidden")
    | AuthIdentity.user id ↦ pure id
  ]
  check (principal_has_any_role principal (AppRole.user ∷ AppRole.admin ∷ []))
      (forbidden "Tickets require User dashboard access")
  pure discord_id

-- `findFirst({ where: { id: ticketId, reporterDiscordId } })`
abbrev pub is_ticket_of : String → String → SupportTicket → Bool
is_ticket_of ticket_id discord_id t = (t.id == ticket_id) && (t.reporter_discord_id == discord_id)

abbrev pub needs_evidence : TicketStatus → Bool
needs_evidence TicketStatus.needs_evidence = true
needs_evidence _ = false

-- The checks of one file, and of all of them in order.
abbrev check_mime : Option String → Tx (Unit {0})
check_mime none = throw (bad_request "Only JPEG, PNG, WebP, and GIF images are allowed")
check_mime (some mime) = pure tt

pub check_file : Js → ℕ → Upload → Tx (Unit {0})
check_file js max_bytes f = do
  check (leb f.size max_bytes)
      (bad_request ("Each image must be ≤ " ++ js.decimal max_bytes ++ " bytes"))
  check (ltb 0 (length f.buffer)) (bad_request "Empty upload")
  check_mime (sniff_image_mime f.buffer)

pub check_files : Js → ℕ → List Upload → Tx (Unit {0})
check_files js max_bytes [] = pure tt
check_files js max_bytes (f ∷ fs) = check_file js max_bytes f >> check_files js max_bytes fs

abbrev pub new_attachment : Env → String → String → Upload → SupportTicketAttachment
new_attachment env ticket_id id f = record {
  id = id;
  ticket_id = ticket_id;
  storage_key = ticket_id ++ "/" ++ id;
  mime_type = or_else (sniff_image_mime f.buffer) "";
  size_bytes = length f.buffer;
  created_at = env.now;
}

-- The attachments take the identifiers from `i` on.
abbrev pub attachments_of : Env → String → ℕ → List Upload → List SupportTicketAttachment
attachments_of env ticket_id i [] = []
attachments_of env ticket_id i (f ∷ fs) =
    new_attachment env ticket_id (env.uuid i) f ∷ attachments_of env ticket_id (i + 1) fs

abbrev pub submitted : Env → List String → SupportTicket → SupportTicket
submitted env links t = record t {
  evidence_links = links;
  status = TicketStatus.evidence_submitted;
  user_message = none;
  updated_at = env.now;
}

abbrev pub evidence_key : Js → String → (attachments links : ℕ) → String
evidence_key js id attachments links =
    "support.ticket.evidence:" ++ id ++ ":" ++ js.decimal attachments ++ ":" ++ js.decimal links

-- The transaction, for the ticket as it was read before.
unfoldable pub submit_tx : Js → Env → SupportTicket → List String → List Upload → Tx (Unit {0})
submit_tx js env t links files = do
  modify (λ db. record db {
    attachments = append db.attachments (attachments_of env t.id 0 files);
    tickets = update ticket_key t.id (submitted env (append t.evidence_links links)) db.tickets;
  })
  enqueue env (env.uuid (length files)) (record {
    event_type = support_ticket_evidence_submitted;
    payload =
        ("ticketId", text t.id)
        ∷ ("reportId", text t.report_id)
        ∷ ("reporterDiscordId", text t.reporter_discord_id)
        ∷ ("guildId", or_null t.guild_id)
        ∷ ("attachmentCount", num (length files))
        ∷ ("linkCount", num (length links))
        ∷ [];
    idempotency_key =
        some (evidence_key js t.id (length files) (length (append t.evidence_links links)));
  })

-- What is done with the ticket of the request, once it is found.
pub submit_found :
    Js → Env → (max_bytes : ℕ) → List (Option String) → List Upload → SupportTicket → Tx (Unit {0})
submit_found js env max_bytes raw files t = do
  check (needs_evidence t.status) (bad_request "Evidence is not requested for this ticket")
  let links = normalize_links js raw
  check (leb (length links) 20) (bad_request "At most 20 links")
  check (ltb 0 (length files) || ltb 0 (length links))
      (bad_request "Provide at least one image or link")
  check (leb (length files) 8) (bad_request "At most 8 images per request")
  check_files js max_bytes files
  submit_tx js env t links files

pub submit_evidence :
    Js
    → Env
    → (max_bytes : ℕ) → RequestPrincipal
    → String
    → List (Option String)
    → List Upload
    → Tx (Unit {0})
submit_evidence js env max_bytes principal ticket_id raw files = do
  discord_id ← assert_ticket_user principal
  row ← gets (λ db. find_first (is_ticket_of ticket_id discord_id) db.tickets)
  t ← found row (not_found "Ticket not found")
  submit_found js env max_bytes raw files t
