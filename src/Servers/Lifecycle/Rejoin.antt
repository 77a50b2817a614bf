-- ===== src/Servers/Lifecycle/Rejoin.antt =====
-- apps/api/src/servers/servers.service.ts and schema.prisma: the event of a join has an idempotency
-- key that names the guild only, and the column is unique.
use protect_platform.Servers.{server_key, save_server}
use protect_platform.Servers.Lifecycle.{
  discovered, discovered_key, renewed, on_update, created, join, on_create, leave,
  record_bot_guild_lifecycle, Snapshot,
}
use protect_platform.Prelude.{
  refl, inr, inl, Option-cases, eq_refl, row_or, upsert, find-upsert, unique_violation, err, true,
  false, find, arith, some, ok, ◌≡◌, ℕ, Option,
}
use protect_platform.Store.{enqueue-key, Server, has_key, log_with_tx, enqueue, Db, Env}

module _ (env : Env) (setting : Option ℕ) (dto : Snapshot) (db : Db) where
  abbrev arrived : Db
  arrived =
      save_server (on_create env join (created env (env.uuid 0) dto))
        (λ s. on_update env join (renewed env dto s)) db

  join_uses_key :
      (u : Unit {0}) (db' : Db)
      → record_bot_guild_lifecycle env setting join dto db ≡ ok (u, db')
      → (has_key (some (discovered_key dto.guild_id)) db.outbox ≡ false)
        × (has_key (some (discovered_key dto.guild_id)) db'.outbox ≡ true)
  unfolding record_bot_guild_lifecycle log_with_tx
  join_uses_key u db' h =
      let (unused, used, _) =
        enqueue-key env (env.uuid 1) (discovered_key dto.guild_id) _ (discovered dto).payload _ h in
      (unused, used)

  leave_keeps_outbox :
      (u : Unit {0}) (db' : Db)
      → record_bot_guild_lifecycle env setting leave dto db ≡ ok (u, db')
      → db'.outbox ≡ db.outbox
  unfolding record_bot_guild_lifecycle
  leave_keeps_outbox u db' h = ground arith

  join_is_refused :
      has_key (some (discovered_key dto.guild_id)) db.outbox ≡ true
      → record_bot_guild_lifecycle env setting join dto db
        ≡ err (unique_violation "idempotency_key")
  unfolding record_bot_guild_lifecycle enqueue log_with_tx
  join_is_refused there = ground (arith, there)

  leave_marks :
      (u : Unit {0}) (db' : Db)
      → record_bot_guild_lifecycle env setting leave dto db ≡ ok (u, db')
      → (s : Server) × (find server_key dto.guild_id db'.servers ≡ some s)
        × (s.removed_at ≡ some env.now)
  unfolding record_bot_guild_lifecycle
  leave_marks u db' h =
      let row = on_create env leave (created env (env.uuid 0) dto) in
      let change = λ (s : Server). on_update env leave (renewed env dto s) in
      let found_row =
        find-upsert server_key dto.guild_id dto.guild_id row change db.servers refl (λ s. refl) in
      let same : db'.servers ≡ upsert server_key dto.guild_id row change db.servers =
        ground arith in
      (
        row_or row change (find server_key dto.guild_id db.servers),
        rw (same, found_row, eq_refl dto.guild_id) refl,
        elim (Option-cases (find server_key dto.guild_id db.servers)) [
          | inl missing ↦ rw missing refl
          | inr (s, there) ↦ rw there refl
        ],
      )

-- A guild that the bot has joined, left and joins again is refused by the unique index, whatever the
-- second join says of it: the transaction is rolled back, so the guild stays marked as left.
pub rejoin_refused :
    (env env' env'' : Env) (setting : Option ℕ) (dto dto' dto'' : Snapshot) (db db' db'' : Db)
    (u u' : Unit {0})
    → dto'.guild_id ≡ dto.guild_id
    → dto''.guild_id ≡ dto.guild_id
    → record_bot_guild_lifecycle env setting join dto db ≡ ok (u, db')
    → record_bot_guild_lifecycle env' setting leave dto' db' ≡ ok (u', db'')
    → (record_bot_guild_lifecycle env'' setting join dto'' db''
        ≡ err (unique_violation "idempotency_key"))
      × ((s : Server) × (find server_key dto.guild_id db''.servers ≡ some s)
          × (s.removed_at ≡ some env'.now))
rejoin_refused env env' env'' setting dto dto' dto'' db db' db'' u u' same same' joined left =
    let (unused, used) = join_uses_key env setting dto db u db' joined in
    let kept = leave_keeps_outbox env' setting dto' db' u' db'' left in
    let there : has_key (some (discovered_key dto''.guild_id)) db''.outbox ≡ true =
      rw (kept, same') used in
    let (s, is_there, marked) = leave_marks env' setting dto' db' u' db'' left in
    (join_is_refused env'' setting dto'' db'' there, (s, rw (← same) is_there, marked))
