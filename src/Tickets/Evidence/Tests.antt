-- ===== src/Tickets/Evidence/Tests.antt =====
-- A run of two submissions of evidence, and the theorem on the second.
use protect_platform.Tickets.Evidence.Repeated.{resubmission_refused}
use protect_platform.Tickets.{new_ticket}
use protect_platform.Samples.{env, plain_js, empty_db, state_or}
use protect_platform.Tickets.Evidence.{
  sniff_image_mime, check_file, check_files, assert_ticket_user, submit_tx, submit_found, Upload,
  normalize_links, submit_evidence,
}
use protect_platform.Auth.{principal_has_any_role, AppRole, AuthIdentity, RequestPrincipal}
use protect_platform.Tickets.Chat.{admin_patch, TicketPatch}
use protect_platform.Store.{has_key, enqueue, TicketStatus, SupportTicket, Db}
use protect_platform.Prelude.{
  unique_violation, err, update, find_first, find, ok, refl, none, ◌≢◌, ◌≡◌, [], some, ◌∷◌, Result,
}

abbrev reporter : RequestPrincipal
reporter = record { identity = AuthIdentity.user "7"; roles = AppRole.user ∷ [] }

abbrev ticket : SupportTicket
ticket = record (new_ticket (env "t") "t1" "r1" none "7") { status = TicketStatus.needs_evidence }

abbrev asking : Db
asking = record empty_db { tickets = ticket ∷ [] }

-- The first bytes of a JPEG file.
abbrev image : Upload
image = record { size = 3; buffer = 255 ∷ 216 ∷ 255 ∷ [] }

abbrev ask_again : TicketPatch
ask_again = record {
  status = some TicketStatus.needs_evidence;
  admin_note = none;
  user_message = some (some "A sharper image, please");
}

abbrev submitting : Result (Unit {0} × Db)
submitting = submit_evidence plain_js (env "a") 5000000 reporter "t1" [] (image ∷ []) asking

abbrev with_image : Db
with_image = state_or empty_db submitting

submits : submitting ≡ ok (tt, with_image)
unfolding submit_evidence submit_found submit_tx assert_ticket_user normalize_links check_files
    check_file sniff_image_mime enqueue has_key find_first update principal_has_any_role
submits = refl

abbrev asked : Db
asked = state_or empty_db (admin_patch (env "b") "t1" ask_again with_image)

asks : admin_patch (env "b") "t1" ask_again with_image ≡ ok (tt, asked)
unfolding admin_patch submit_evidence submit_found submit_tx assert_ticket_user normalize_links
    check_files check_file sniff_image_mime enqueue has_key find find_first update
    principal_has_any_role
asks = refl

no_links : normalize_links plain_js [] ≡ []
unfolding normalize_links
no_links = refl

fails :
    submit_evidence plain_js (env "c") 5000000 reporter "t1" [] (image ∷ []) asked
    ≡ err (unique_violation "idempotency_key")
unfolding admin_patch submit_evidence submit_found submit_tx assert_ticket_user normalize_links
    check_files check_file sniff_image_mime enqueue has_key find find_first update
    principal_has_any_role
fails = refl

resubmission_refused_example :
    submit_evidence plain_js (env "c") 5000000 reporter "t1" [] (image ∷ []) asked
    ≢ ok (tt, empty_db)
resubmission_refused_example =
    resubmission_refused plain_js reporter "7" "t1" refl (env "a") (env "b") (env "c") 5000000 [] []
      (image ∷ []) (image ∷ []) ask_again asking with_image asked empty_db tt tt tt submits asks
      refl no_links
