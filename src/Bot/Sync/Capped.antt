-- ===== src/Bot/Sync/Capped.antt =====
-- apps/bot/src/services/memberSync.ts: how many alerts a synchronisation sends, and how it ends.
use protect_platform.Servers.Members.{GuildMemberBatchRow, Hit}
use protect_platform.Prelude.{
  map, length, refl, append, any, count-append, if◌then◌else◌, [], inr, leb, inl, Option-cases,
  Bool-cases, ◌∷◌, arith, ◌≡◌, ◌+◌, count_where, ◌≤◌, false, String, List, true, ℕ, Bool,
}
use protect_platform.Bot.Sync.{
  completed, row_id, on_failure, chunks_in, finish, after_upload, post_sync_elevation_alerts,
  sync_guild_members_to_api, upload, cap_line, alert_cap, sync_done, alerted, scan_chunks, SyncStep,
  alert_hits, SyncWorld,
}

abbrev pub is_alert : SyncStep → Bool
is_alert (alerted hit) = true
is_alert _ = false

abbrev pub is_done_step : SyncStep → Bool
is_done_step sync_done = true
is_done_step _ = false

alert_hits-capped :
    (sent : ℕ) (hits : List Hit)
    → sent ≤ 35
    → (count_where is_alert (alert_hits sent hits).0 + sent ≡ (alert_hits sent hits).1)
      × ((alert_hits sent hits).1 ≤ 35)
unfolding alert_hits
alert_hits-capped sent [] h = (omega arith, h)
alert_hits-capped sent (u ∷ us) h = elim (Bool-cases (leb 35 sent)) [
  | inl full ↦ rw full (omega arith, h)
  | inr more ↦
      let (count, small) = alert_hits-capped (sent + 1) us (ground (arith, more)) in
      rw more (omega (arith, count), small)
]

any-append_right :
    (p : SyncStep → Bool) (xs ys : List SyncStep) → any p ys ≡ true → any p (append xs ys) ≡ true
any-append_right p [] ys h = h
any-append_right p (x ∷ xs) ys h = ground (arith, any-append_right p xs ys h)

module _ (world : SyncWorld) where
  scan_chunks-capped :
      (chunks : List (List String)) (sent : ℕ)
      → sent ≤ 35
      → count_where is_alert (scan_chunks world chunks sent) + sent ≤ 35
  unfolding scan_chunks
  scan_chunks-capped [] sent h = ground (arith, h)
  scan_chunks-capped (ids ∷ rest) sent h = elim (Option-cases (world.scan ids)) [
    | inl missing ↦ rw missing (omega (arith, h))
    | inr (hits, there) ↦
        let said = alert_hits sent hits in
        let (count, small) = alert_hits-capped sent hits h in
        let next =
          if leb alert_cap said.1 then cap_line said.1 else scan_chunks world rest said.1 in
        let both = count-append is_alert said.0 next in
        elim (Bool-cases (leb 35 said.1)) [
          | inl full ↦ ground (arith, there, count, small, both, full)
          | inr more ↦
              let later = scan_chunks-capped rest said.1 small in
              ground (arith, there, count, both, more, later)
        ]
  ]

  post-capped :
      (ids : List String) → count_where is_alert (post_sync_elevation_alerts world ids) ≤ 35
  unfolding post_sync_elevation_alerts
  post-capped ids =
      ground (arith, scan_chunks-capped (chunks_in 500 (length ids) ids) 0 (omega arith))

  no_alerts-upload :
      (batches : List (List GuildMemberBatchRow))
      → count_where is_alert (upload world batches).0 ≡ 0
  unfolding upload
  no_alerts-upload [] = refl
  no_alerts-upload (rows ∷ rest) = ground (arith, no_alerts-upload rest)

  finish-capped :
      (rows : List GuildMemberBatchRow)
      → (count_where is_alert (finish world rows) ≤ 35)
        × (any is_done_step (finish world rows) ≡ true)
  finish-capped rows =
      let alerts = post_sync_elevation_alerts world (map row_id rows) in
      let last =
        if world.accepts_done
        then sync_done ∷ completed (length rows) ∷ []
        else sync_done ∷ on_failure in
      let none_more : count_where is_alert last ≡ 0 = ground arith in
      let is_done : any is_done_step last ≡ true = ground arith in
      (
        omega (arith, post-capped (map row_id rows), none_more, count-append is_alert alerts last),
        any-append_right is_done_step alerts last is_done,
      )

  after_upload-capped :
      (rows : List GuildMemberBatchRow) (r : List SyncStep × Bool)
      → count_where is_alert r.0 ≡ 0
      → (count_where is_alert (after_upload world rows r) ≤ 35)
        × (any is_done_step (after_upload world rows r) ≡ true)
  after_upload-capped rows (steps, true) h =
      let (few, done) = finish-capped rows in
      (
        omega (arith, few, h, count-append is_alert steps (finish world rows)),
        any-append_right is_done_step steps (finish world rows) done,
      )
  after_upload-capped rows (steps, false) h = (
    omega (arith, h, count-append is_alert steps on_failure),
    any-append_right is_done_step steps on_failure refl,
  )

  -- However a synchronisation goes, it sends at most 35 alerts, and it always asks the API to end the
  -- guild's synchronisation, also where the members cannot be fetched or a batch is refused.
  pub sync_guild_members_to_api-capped :
      (count_where is_alert (sync_guild_members_to_api world) ≤ 35)
      × (any is_done_step (sync_guild_members_to_api world) ≡ true)
  unfolding sync_guild_members_to_api
  sync_guild_members_to_api-capped = elim (Option-cases world.members) [
    | inl missing ↦ rw missing (omega arith, refl)
    | inr (rows, there) ↦ rw there (
        after_upload-capped rows (upload world (chunks_in 400 (length rows) rows))
          (no_alerts-upload (chunks_in 400 (length rows) rows)))
  ]
