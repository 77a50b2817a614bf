-- ===== src/Tickets/Evidence/Submitted.antt =====
-- apps/api/src/tickets/tickets.service.ts: what a submission of evidence finds and leaves.
use protect_platform.Shared.Events.{support_ticket_evidence_submitted}
use protect_platform.Tickets.{ticket_key}
use protect_platform.Auth.{AuthIdentity, RequestPrincipal}
use protect_platform.Js.{Js}
use protect_platform.Prelude.{
  ◌||◌, ap, ltb, length, eq_iff, [], refl, leb, ◌∙◌, ◌∷◌, false, map_row, true, arith, some, ok,
  append, Option, update, ◌≡◌, ApiError, ℕ, find_first, List, String, Bool,
}
use protect_platform.Store.{
  enqueue-IsFramed, enqueue-key, required-ok, has_key, bind-ok, ◌>>◌, check, SupportTicket, Db, Env,
  Tx,
}
use protect_platform.Tickets.Evidence.{
  attachments_of, submitted, needs_evidence, evidence_key, submit_evidence, normalize_links,
  is_ticket_of, submit_tx, Upload, assert_ticket_user, check_file, submit_found, check_files,
}

module _ (ticket_id discord_id : String) where
  -- A change of the ticket that leaves its key and its reporter alone is what is found afterwards.
  pub find_first-update_ticket :
      (f : SupportTicket → SupportTicket) (ts : List SupportTicket)
      → ((t : SupportTicket) → (f t).id ≡ t.id)
      → ((t : SupportTicket) → (f t).reporter_discord_id ≡ t.reporter_discord_id)
      → find_first (is_ticket_of ticket_id discord_id) (update ticket_key ticket_id f ts)
        ≡ map_row f (find_first (is_ticket_of ticket_id discord_id) ts)
  unfolding find_first update
  find_first-update_ticket f [] same_id same_reporter = refl
  find_first-update_ticket f (t ∷ ts) same_id same_reporter =
      ground
        (arith, same_id t, same_reporter t, find_first-update_ticket f ts same_id same_reporter)

  found-id :
      (t : SupportTicket) (ts : List SupportTicket)
      → find_first (is_ticket_of ticket_id discord_id) ts ≡ some t
      → t.id ≡ ticket_id
  unfolding find_first
  found-id t [] h = ground arith
  found-id t (s ∷ ts) h = ground (arith, eq_iff s.id ticket_id, found-id t ts)

module _ (js : Js) (env : Env) (t : SupportTicket) (links : List String) (files : List Upload) where
  abbrev all_links : List String
  all_links = append t.evidence_links links

  -- The key is new to the outbox, and there afterwards.
  submit_tx-key :
      (db db' : Db) (u : Unit {0})
      → submit_tx js env t links files db ≡ ok (u, db')
      → (has_key (some (evidence_key js t.id (length files) (length all_links))) db.outbox ≡ false)
        × (has_key (some (evidence_key js t.id (length files) (length all_links))) db'.outbox
            ≡ true)
        × (db'.tickets ≡ update ticket_key t.id (submitted env all_links) db.tickets)
  unfolding submit_tx
  submit_tx-key db db' u h =
      let mid : Db = record db {
        attachments = append db.attachments (attachments_of env t.id 0 files);
        tickets = update ticket_key t.id (submitted env all_links) db.tickets;
      } in
      let (new, there, _) =
        enqueue-key env (env.uuid (length files))
          (evidence_key js t.id (length files) (length all_links)) support_ticket_evidence_submitted
          _ mid h in
      (new, there, (enqueue-IsFramed env (env.uuid (length files)) _ mid h).tickets)

-- What a submission that succeeds finds and leaves.
pub record IsSubmitted (js : Js) (ticket_id discord_id : String) (raw : List (Option String))
    (files : List Upload) (db db' : Db) : Type 0 where
  pub before : SupportTicket
  pub is_before : find_first (is_ticket_of ticket_id discord_id) db.tickets ≡ some before
  pub links : List String
  pub is_links : links ≡ append before.evidence_links (normalize_links js raw)
  pub key : String
  pub is_key : key ≡ evidence_key js before.id (length files) (length links)
  pub unused : has_key (some key) db.outbox ≡ false
  pub used : has_key (some key) db'.outbox ≡ true
  pub after : SupportTicket
  pub is_after : find_first (is_ticket_of ticket_id discord_id) db'.tickets ≡ some after
  pub same_id : after.id ≡ before.id
  pub kept_links : after.evidence_links ≡ links

check-keeps :
    (test : Bool) (e : ApiError) (db : Db) {u : Unit {0}} {db' : Db}
    → check test e db ≡ ok (u, db')
    → (test ≡ true) × (db' ≡ db)
check-keeps true e db h = (refl, cc)
check-keeps false e db h = cc

check_file-keeps :
    (js : Js) (max_bytes : ℕ) (f : Upload) (db : Db) {u : Unit {0}} {db' : Db}
    → check_file js max_bytes f db ≡ ok (u, db')
    → db' ≡ db
unfolding check_file
check_file-keeps js max_bytes f db h = ground arith

check_files-keeps :
    (js : Js) (max_bytes : ℕ) (fs : List Upload) (db : Db) {u : Unit {0}} {db' : Db}
    → check_files js max_bytes fs db ≡ ok (u, db')
    → db' ≡ db
unfolding check_files
check_files-keeps js max_bytes [] db h = ground arith
check_files-keeps js max_bytes (f ∷ fs) db h =
    let (_, mid, first, rest) = bind-ok (check_file js max_bytes f) _ db h in
    check_files-keeps js max_bytes fs mid rest ∙ check_file-keeps js max_bytes f db first

assert_ticket_user-reads :
    (principal : RequestPrincipal) (discord_id : String) (db : Db) {r : String} {db' : Db}
    → principal.identity ≡ AuthIdentity.user discord_id
    → assert_ticket_user principal db ≡ ok (r, db')
    → (r ≡ discord_id) × (db' ≡ db)
unfolding assert_ticket_user
assert_ticket_user-reads principal discord_id db is_user h = ground (arith, is_user)

-- A step that changes nothing can be left out of a run that succeeds.
skip-ok :
    {B : Type 0} (m : Tx (Unit {0})) (k : Tx B) (db : Db) {b : B} {db' : Db}
    → ((u : Unit {0}) (mid : Db) → m db ≡ ok (u, mid) → mid ≡ db)
    → (m >> k) db ≡ ok (b, db')
    → k db ≡ ok (b, db')
skip-ok m k db keeps h =
    let (u, mid, first, rest) = bind-ok m (λ _. k) db h in rw (keeps u mid first) at rest

pub skip_check :
    {B : Type 0} (test : Bool) (e : ApiError) (k : Tx B) (db : Db) {b : B} {db' : Db}
    → (check test e >> k) db ≡ ok (b, db')
    → k db ≡ ok (b, db')
skip_check test e k db h =
    skip-ok (check test e) k db (λ u mid first. (check-keeps test e db first).1) h

submit_found-submit_tx :
    (js : Js) (env : Env) (max_bytes : ℕ) (raw : List (Option String)) (files : List Upload)
    (t : SupportTicket) (db db' : Db) (u : Unit {0})
    → submit_found js env max_bytes raw files t db ≡ ok (u, db')
    → submit_tx js env t (normalize_links js raw) files db ≡ ok (u, db')
unfolding submit_found
submit_found-submit_tx js env max_bytes raw files t db db' u h =
    let links = normalize_links js raw in
    let h1 = skip_check (needs_evidence t.status) _ _ db h in
    let h2 = skip_check (leb (length links) 20) _ _ db h1 in
    let h3 = skip_check (ltb 0 (length files) || ltb 0 (length links)) _ _ db h2 in
    let h4 = skip_check (leb (length files) 8) _ _ db h3 in
    skip-ok (check_files js max_bytes files) (submit_tx js env t links files) db
      (λ v mid first. check_files-keeps js max_bytes files db first) h4

module _ (js : Js) (principal : RequestPrincipal) (discord_id ticket_id : String)
    (is_user : principal.identity ≡ AuthIdentity.user discord_id) where
  assemble :
      (env : Env) (raw : List (Option String)) (files : List Upload) (t : SupportTicket)
      (db db' : Db) (u : Unit {0})
      → find_first (is_ticket_of ticket_id discord_id) db.tickets ≡ some t
      → submit_tx js env t (normalize_links js raw) files db ≡ ok (u, db')
      → IsSubmitted js ticket_id discord_id raw files db db'
  assemble env raw files t db db' u found h =
      let links = append t.evidence_links (normalize_links js raw) in
      let (new, used, tickets) = submit_tx-key js env t (normalize_links js raw) files db db' u h in
      let same_id = found-id ticket_id discord_id t db.tickets found in
      record {
        before = t;
        is_before = found;
        links = links;
        is_links = refl;
        key = evidence_key js t.id (length files) (length links);
        is_key = refl;
        unused = new;
        used = used;
        after = submitted env links t;
        is_after =
            ap (find_first (is_ticket_of ticket_id discord_id)) tickets
            ∙ ap
                (λ id.
                  find_first (is_ticket_of ticket_id discord_id)
                    (update ticket_key id (submitted env links) db.tickets))
                same_id
            ∙ find_first-update_ticket ticket_id discord_id (submitted env links) db.tickets
                (λ s. refl) (λ s. refl)
            ∙ ap (map_row (submitted env links)) found;
        same_id = refl;
        kept_links = refl;
      }

  pub submit_evidence-IsSubmitted :
      (env : Env) (max_bytes : ℕ) (raw : List (Option String)) (files : List Upload) (db db' : Db)
      (u : Unit {0})
      → submit_evidence js env max_bytes principal ticket_id raw files db ≡ ok (u, db')
      → IsSubmitted js ticket_id discord_id raw files db db'
  unfolding submit_evidence
  submit_evidence-IsSubmitted env max_bytes raw files db db' u h =
      let (d, s1, h1, k1) = bind-ok (assert_ticket_user principal) _ db h in
      let (same, e1) = assert_ticket_user-reads principal discord_id db is_user h1 in
      let (t, there, k2) =
        required-ok (find_first (is_ticket_of ticket_id d) s1.tickets) _ _ s1 k1 in
      let k3 = submit_found-submit_tx js env max_bytes raw files t s1 db' u k2 in
      assemble env raw files t db db' u (rw (same, e1) at there) (rw e1 at k3)
