-- ===== src/Bot/Sync/Uploaded.antt =====
-- apps/bot/src/services/memberSync.ts with apps/api/src/servers/servers.service.ts: what a
-- synchronisation sends, and what the API has afterwards.
use mathlib.Core.List.{append-nil}
use protect_platform.Servers.Members.Refined.{
  batch_upsert_guild_members-directory, directory, Directory, assign_all,
}
use protect_platform.Servers.Members.{
  has_server, Hit, batch_upsert_guild_members, GuildMemberBatchRow,
}
use protect_platform.Store.{Db, Env}
use protect_platform.Prelude.{
  Bool-cases, leb, false, if◌then◌else◌, inr, inl, map, Option-cases, Bool, sym, ◌+◌, true, some,
  length-drop, refl, length-take, take-append-drop, ◌∙◌, take, ap, zero, suc, arith, err, ok, All,
  [], Result, ◌≡◌, drop, append, ◌≤◌, ◌∷◌, String, ◌<◌, length, ℕ, List,
}
use protect_platform.Bot.Sync.{
  on_failure, completed, alert_cap, sync_done, with_members, after_upload, row_id, chunks, finish,
  post_sync_elevation_alerts, upload, scan_chunks, alert_hits, sync_guild_members_to_api, SyncWorld,
  cap_line, uploaded, SyncStep, chunks_in,
}

module _ {A : Type 0} where
  -- The lists of a list, one after the other.
  abbrev concat : List (List A) → List A
  concat [] = []
  concat (xs ∷ xss) = append xs (concat xss)

  chunks_in-concat :
      (size fuel : ℕ) (rows : List A)
      → 0 < size
      → length rows ≤ fuel
      → (concat (chunks_in size fuel rows) ≡ rows)
        × All (λ chunk. length chunk ≤ size) (chunks_in size fuel rows)
  unfolding chunks_in
  chunks_in-concat size zero [] pos h = (refl, tt)
  chunks_in-concat size zero (row ∷ rows) pos h = ground (arith, h)
  chunks_in-concat size (suc fuel) [] pos h = (refl, tt)
  chunks_in-concat size (suc fuel) (row ∷ rows) pos h =
      let rest = drop size (row ∷ rows) in
      let (same, small) =
        chunks_in-concat size fuel rest pos
          (omega (arith, h, pos, length-drop size (row ∷ rows))) in
      (
        ap (append (take size (row ∷ rows))) same ∙ take-append-drop size (row ∷ rows),
        (omega (arith, length-take size (row ∷ rows)), small),
      )

-- The batches among the steps.
unfoldable pub uploads : List SyncStep → List (List GuildMemberBatchRow)
uploads [] = []
uploads (uploaded rows ∷ steps) = rows ∷ uploads steps
uploads (_ ∷ steps) = uploads steps

uploads-append : (xs ys : List SyncStep) → uploads (append xs ys) ≡ append (uploads xs) (uploads ys)
unfolding uploads
uploads-append [] ys = refl
uploads-append (uploaded rows ∷ xs) ys = ap (λ l. rows ∷ l) (uploads-append xs ys)
uploads-append (_ ∷ xs) ys = uploads-append xs ys

uploads-alert_hits : (sent : ℕ) (hits : List Hit) → uploads (alert_hits sent hits).0 ≡ []
unfolding uploads alert_hits
uploads-alert_hits sent [] = refl
uploads-alert_hits sent (u ∷ us) = ground (arith, uploads-alert_hits (sent + 1) us)

uploads-cap_line : (sent : ℕ) → uploads (cap_line sent) ≡ []
unfolding uploads
uploads-cap_line sent = ground arith

module _ (world : SyncWorld) where
  uploads-scan_chunks :
      (chunks : List (List String)) (sent : ℕ) → uploads (scan_chunks world chunks sent) ≡ []
  unfolding uploads scan_chunks
  uploads-scan_chunks [] sent = uploads-cap_line sent
  uploads-scan_chunks (ids ∷ rest) sent = elim (Option-cases (world.scan ids)) [
    | inl missing ↦ rw missing refl
    | inr (hits, there) ↦
        let said = alert_hits sent hits in
        rw
          (
            there,
            uploads-append said.0
                (if leb alert_cap said.1 then cap_line said.1 else scan_chunks world rest said.1),
            uploads-alert_hits sent hits,
          )
          (elim (Bool-cases (leb alert_cap said.1)) [
            | inl full ↦ rw full refl
            | inr more ↦ rw more (uploads-scan_chunks rest said.1)
          ])
  ]

  uploads-post_sync_elevation_alerts :
      (ids : List String) → uploads (post_sync_elevation_alerts world ids) ≡ []
  unfolding post_sync_elevation_alerts uploads
  uploads-post_sync_elevation_alerts ids =
      ground (arith, uploads-scan_chunks (chunks_in 500 (length ids) ids) 0)

  uploads-finish : (rows : List GuildMemberBatchRow) → uploads (finish world rows) ≡ []
  unfolding uploads
  uploads-finish rows =
      let ids = map row_id rows in
      let last : List SyncStep =
        if world.accepts_done
        then sync_done ∷ completed (length rows) ∷ []
        else sync_done ∷ on_failure in
      let quiet : uploads last ≡ [] = ground arith in
      rw
        (
          uploads-append (post_sync_elevation_alerts world ids) last,
          uploads-post_sync_elevation_alerts ids,
          quiet,
        )
        refl

  after_upload-accepted :
      (rows : List GuildMemberBatchRow) (r : List SyncStep × Bool)
      → r.1 ≡ true
      → after_upload world rows r ≡ append r.0 (finish world rows)
  after_upload-accepted rows (steps, true) h = refl
  after_upload-accepted rows (steps, false) h = cc h

  upload-accepted :
      (batches : List (List GuildMemberBatchRow))
      → ((batch : List GuildMemberBatchRow) → world.accepts batch ≡ true)
      → (uploads (upload world batches).0 ≡ batches) × ((upload world batches).1 ≡ true)
  unfolding upload uploads
  upload-accepted [] h = (refl, refl)
  upload-accepted (rows ∷ rest) h =
      let (same, all_sent) = upload-accepted rest h in
      rw (h rows) (ap (λ l. rows ∷ l) same, all_sent)

abbrev after : Db → Result (ℕ × Db) → Db
after db (ok (n, db')) = db'
after db (err e) = db

-- The API's database after a number of batches, request `i` in the surroundings `envs i`.
unfoldable pub applied : (ℕ → Env) → ℕ → String → List (List GuildMemberBatchRow) → Db → Db
applied envs i guild [] db = db
applied envs i guild (rows ∷ rest) db =
    applied envs (suc i) guild rest
      (after db (batch_upsert_guild_members (envs i) "SYNC" guild rows db))

assign_all-append :
    (source guild : String) (xs ys : List GuildMemberBatchRow) (d : Directory)
    → assign_all source guild (append xs ys) d
      ≡ assign_all source guild ys (assign_all source guild xs d)
unfolding assign_all
assign_all-append source guild [] ys d = refl
assign_all-append source guild (x ∷ xs) ys d = assign_all-append source guild xs ys _

applied-directory :
    (envs : ℕ → Env) (i : ℕ) (guild : String) (batches : List (List GuildMemberBatchRow)) (db : Db)
    → has_server guild db ≡ true
    → directory (applied envs i guild batches db).members
      ≡ assign_all "SYNC" guild (concat batches) (directory db.members)
unfolding applied assign_all
applied-directory envs i guild [] db known = refl
applied-directory envs i guild (rows ∷ rest) db known =
    let (db', works, assigned, kept) =
      batch_upsert_guild_members-directory (envs i) "SYNC" guild rows db known in
    ap (λ r. directory (applied envs (suc i) guild rest (after db r)).members) works
    ∙ (applied-directory envs (suc i) guild rest db' (rw kept known)
        ∙ ap (assign_all "SYNC" guild (concat rest)) assigned
        ∙ sym (assign_all-append "SYNC" guild rows (concat rest) (directory db.members)))

-- A synchronisation of a guild with a server row whose batches are all accepted sends them in batches of at most 400 members, and
-- leaves the API with the profiles that one batch of all the members would have left.
pub sync_guild_members_to_api-directory :
    (world : SyncWorld) (envs : ℕ → Env) (guild : String) (rows : List GuildMemberBatchRow)
    (db : Db)
    → world.members ≡ some rows
    → has_server guild db ≡ true
    → ((batch : List GuildMemberBatchRow) → world.accepts batch ≡ true)
    → (directory (applied envs 0 guild (uploads (sync_guild_members_to_api world)) db).members
        ≡ assign_all "SYNC" guild rows (directory db.members))
      × All (λ batch. length batch ≤ 400) (uploads (sync_guild_members_to_api world))
unfolding sync_guild_members_to_api uploads
sync_guild_members_to_api-directory world envs guild rows db there known accepts =
    let batches = chunks 400 rows in
    let (same, small) = chunks_in-concat 400 (length rows) rows (omega arith) (omega arith) in
    let (sent, all_sent) = upload-accepted world batches accepts in
    let is_batches : uploads (sync_guild_members_to_api world) ≡ batches =
      ap (λ o. uploads (with_members world o)) there
      ∙ ap uploads (after_upload-accepted world rows (upload world batches) all_sent)
      ∙ uploads-append (upload world batches).0 (finish world rows)
      ∙ ap (append (uploads (upload world batches).0)) (uploads-finish world rows)
      ∙ ap (λ l. append l []) sent
      ∙ append-nil batches in
    rw is_batches (rw (applied-directory envs 0 guild batches db known, same) refl, small)
