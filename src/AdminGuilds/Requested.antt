-- ===== src/AdminGuilds/Requested.antt =====
-- apps/api/src/admin/admin-guilds.service.ts and apps/api/src/servers/servers.service.ts: how a
-- member synchronisation goes from its request to its end.
use protect_platform.AdminGuilds.{queued_row, queue_sync, request_member_sync}
use protect_platform.Store.{GuildEntitlement, MemberSyncState, enqueue, Db, Env}
use protect_platform.Entitlements.{in_state, guild_key, set_member_sync_state}
use protect_platform.Prelude.{
  refl, eq_refl, inr, find-create, inl, find-update, Option-cases, arith, ℕ, none, ok, find, ◌∷◌,
  some, ◌≡◌, List, Option, String,
}
use protect_platform.Js.{Js}
use protect_platform.Servers.Members.{
  mark_member_sync_idle, GuildMemberBatchRow, batch_upsert_guild_members,
}

-- The state of a guild's synchronisation.
abbrev state_of : Option GuildEntitlement → Option MemberSyncState
state_of none = none
state_of (some e) = some e.member_sync_state

abbrev pub sync_state : String → Db → Option MemberSyncState
sync_state guild db = state_of (find guild_key guild db.entitlements)

module _ (js : Js) (env : Env) (guild : String) (db : Db) where
  queue_sync-state :
      sync_state guild (queue_sync env guild (find guild_key guild db.entitlements) db)
      ≡ some MemberSyncState.queued
  queue_sync-state = elim (Option-cases (find guild_key guild db.entitlements)) [
    | inl missing ↦
        rw
          (
            missing,
            find-create guild_key guild (queued_row env guild) db.entitlements,
            eq_refl guild,
          )
          (ground (arith, missing))
    | inr (e, there) ↦
        rw
          (
            there,
            find-update guild_key guild guild (in_state MemberSyncState.queued) db.entitlements
                (λ e. refl),
          )
          (ground (arith, eq_refl guild, there))
  ]

  request-state :
      sync_state guild (request_member_sync js env guild db).1 ≡ some MemberSyncState.queued
  unfolding request_member_sync enqueue
  request-state = ground (arith, queue_sync-state)

batch-state :
    (env : Env) (source guild : String) (row : GuildMemberBatchRow)
    (rows : List GuildMemberBatchRow) (db : Db) (n : ℕ) (db' : Db)
    → sync_state guild db ≡ some MemberSyncState.queued
    → batch_upsert_guild_members env source guild (row ∷ rows) db ≡ ok (n, db')
    → sync_state guild db' ≡ some MemberSyncState.running
unfolding batch_upsert_guild_members set_member_sync_state
batch-state env source guild row rows db n db' before h =
    elim (Option-cases (find guild_key guild db.entitlements)) [
      | inl missing ↦ ground (arith, missing, before)
      | inr (e, there) ↦
          let started =
            find-update guild_key guild guild (in_state MemberSyncState.running) db.entitlements
              (λ e. refl) in
          ground (arith, there, before, started, eq_refl guild, h)
    ]

done-state :
    (env : Env) (guild : String) (db : Db) (before : MemberSyncState) (u : Unit {0}) (db' : Db)
    → sync_state guild db ≡ some before
    → mark_member_sync_idle env guild db ≡ ok (u, db')
    → sync_state guild db' ≡ some MemberSyncState.idle
unfolding mark_member_sync_idle
done-state env guild db before u db' was h =
    let ended =
      find-update guild_key guild guild
        (λ e. record e {
          member_sync_state = MemberSyncState.idle;
          last_member_sync_at = some env.now;
        })
        db.entitlements (λ e. refl) in
    elim (Option-cases (find guild_key guild db.entitlements)) [
      | inl missing ↦ ground (arith, missing, was)
      | inr (e, there) ↦ ground (arith, there, ended, eq_refl guild, h)
    ]

-- A request puts a guild's synchronisation in the state QUEUED, also where the guild had no
-- entitlement and where the event of the request fails. The first batch that is not empty then puts
-- it in RUNNING, and the end in IDLE.
pub request_member_sync-sync_state :
    (js : Js) (env env' env'' : Env) (source guild : String) (row : GuildMemberBatchRow)
    (rows : List GuildMemberBatchRow) (db db' db'' : Db) (n : ℕ) (u : Unit {0})
    → batch_upsert_guild_members env' source guild
        (row ∷ rows)
        (request_member_sync js env guild db).1
      ≡ ok (n, db')
    → mark_member_sync_idle env'' guild db' ≡ ok (u, db'')
    → (sync_state guild (request_member_sync js env guild db).1 ≡ some MemberSyncState.queued)
      × (sync_state guild db' ≡ some MemberSyncState.running)
      × (sync_state guild db'' ≡ some MemberSyncState.idle)
request_member_sync-sync_state js env env' env'' source guild row rows db db' db'' n u batch end =
    let queued = request-state js env guild db in
    let running =
      batch-state env' source guild row rows (request_member_sync js env guild db).1 n db' queued
        batch in
    (queued, running, done-state env'' guild db' MemberSyncState.running u db'' running end)
