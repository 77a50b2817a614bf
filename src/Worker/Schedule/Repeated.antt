-- ===== src/Worker/Schedule/Repeated.antt =====
-- apps/worker/src/member-sync-schedule-job.ts: a second run in the same interval writes nothing.
use protect_platform.Prelude.{
  leb, none, refl, eq_refl, ◌/◌, [], arith, ◌<◌, length, ◌∷◌, ◌+◌, true, false, ◌≡◌, some, not, any,
  List, String, ℕ,
}
use protect_platform.Store.{
  outbox_row, same_key, any-create, any-create_kept, has_key, Db, Env, enqueue,
}
use protect_platform.Js.{Js}
use protect_platform.Worker.Schedule.{
  licensed_guilds, run_member_sync_schedule, after_guild, sync_item, schedule_key, Counts,
  enqueue_guilds,
}

-- The rows of the guilds are in the outbox.
abbrev HasRows : Js → ℕ → List String → Db → Type 0
HasRows js bucket guilds db =
    any (λ g. not (has_key (some (schedule_key js g bucket)) db.outbox)) guilds ≡ false

module _ (js : Js) (env : Env) (bucket i : ℕ) (guild : String) (c : Counts) (db : Db) where
  -- The key is there afterwards, whether the row is new or not.
  after_guild-has :
      has_key
        (some (schedule_key js guild bucket))
        (after_guild js env bucket i guild c db).1.outbox
      ≡ true
  unfolding enqueue has_key
  after_guild-has = ground (
    arith,
    eq_refl (schedule_key js guild bucket),
    any-create (λ r. same_key (schedule_key js guild bucket) r.idempotency_key)
        (outbox_row env (env.uuid i) (sync_item js bucket guild)) db.outbox,
  )

  after_guild-keeps :
      (k : String)
      → has_key (some k) db.outbox ≡ true
      → has_key (some k) (after_guild js env bucket i guild c db).1.outbox ≡ true
  unfolding enqueue has_key
  after_guild-keeps k h = ground (
    arith,
    any-create_kept (λ r. same_key k r.idempotency_key)
        (outbox_row env (env.uuid i) (sync_item js bucket guild)) db.outbox h,
  )

  after_guild-entitlements :
      (after_guild js env bucket i guild c db).1.entitlements ≡ db.entitlements
  unfolding enqueue
  after_guild-entitlements = ground arith

module _ (js : Js) (env : Env) (bucket : ℕ) where
  enqueue_guilds-keeps :
      (guilds : List String) (i : ℕ) (c : Counts) (db : Db) (k : String)
      → has_key (some k) db.outbox ≡ true
      → has_key (some k) (enqueue_guilds js env bucket i guilds c db).1.outbox ≡ true
  unfolding enqueue_guilds
  enqueue_guilds-keeps [] i c db k h = h
  enqueue_guilds-keeps (g ∷ gs) i c db k h =
      let after = after_guild js env bucket i g c db in
      enqueue_guilds-keeps gs (i + 1) after.0 after.1 k
        (after_guild-keeps js env bucket i g c db k h)

  enqueue_guilds-HasRows :
      (guilds : List String) (i : ℕ) (c : Counts) (db : Db)
      → HasRows js bucket guilds (enqueue_guilds js env bucket i guilds c db).1
  unfolding enqueue_guilds
  enqueue_guilds-HasRows [] i c db = refl
  enqueue_guilds-HasRows (g ∷ gs) i c db =
      let after = after_guild js env bucket i g c db in
      ground (
        arith,
        enqueue_guilds-keeps gs (i + 1) after.0 after.1 (schedule_key js g bucket)
            (after_guild-has js env bucket i g c db),
        enqueue_guilds-HasRows gs (i + 1) after.0 after.1,
      )

  enqueue_guilds-entitlements :
      (guilds : List String) (i : ℕ) (c : Counts) (db : Db)
      → (enqueue_guilds js env bucket i guilds c db).1.entitlements ≡ db.entitlements
  unfolding enqueue_guilds
  enqueue_guilds-entitlements [] i c db = refl
  enqueue_guilds-entitlements (g ∷ gs) i c db =
      let after = after_guild js env bucket i g c db in
      cc (
        enqueue_guilds-entitlements gs (i + 1) after.0 after.1,
        after_guild-entitlements js env bucket i g c db,
      )

  -- Guilds whose rows are there are skipped, all of them.
  enqueue_guilds_skips :
      (guilds : List String) (i total : ℕ) (c : Counts) (db : Db)
      → total ≡ c.skipped + length guilds
      → HasRows js bucket guilds db
      → enqueue_guilds js env bucket i guilds c db ≡ (record c { skipped = total }, db)
  unfolding enqueue_guilds enqueue
  enqueue_guilds_skips [] i total c db e h = ground arith
  enqueue_guilds_skips (g ∷ gs) i total c db e h =
      let there : has_key (some (schedule_key js g bucket)) db.outbox ≡ true = ground (arith, h) in
      rw there (
        enqueue_guilds_skips gs (i + 1) total (record c { skipped = c.skipped + 1 }) db
          (omega (arith, e)) (ground (arith, h)))

-- A second run in the same interval, for the same licensed guilds, enqueues nothing, counts each
-- of the guilds as skipped, and leaves the database as the first run left it.
pub run_member_sync_schedule_again :
    (js : Js) (env env' : Env) (interval_ms : ℕ) (db : Db)
    → 0 < interval_ms
    → env'.now / interval_ms ≡ env.now / interval_ms
    → licensed_guilds env'.now db ≡ licensed_guilds env.now db
    → run_member_sync_schedule js env' interval_ms
        (run_member_sync_schedule js env interval_ms db).1
      ≡ (
        record { enqueued = 0; skipped = length (licensed_guilds env.now db) },
        (run_member_sync_schedule js env interval_ms db).1,
      )
unfolding run_member_sync_schedule
run_member_sync_schedule_again js env env' interval_ms db pos same licensed =
    let env0 = record env { correlation = none } in
    let bucket = env.now / interval_ms in
    let gs = licensed_guilds env.now db in
    let zero_counts : Counts = record { enqueued = 0; skipped = 0 } in
    let first = enqueue_guilds js env0 bucket 0 gs zero_counts db in
    let on : leb interval_ms 0 ≡ false = ground (arith, pos) in
    let kept : first.1.entitlements ≡ db.entitlements =
      enqueue_guilds-entitlements js env0 bucket gs 0 zero_counts db in
    rw (on, same, kept, licensed)
      (enqueue_guilds_skips js (record env' { correlation = none }) bucket gs 0 (length gs)
        zero_counts first.1 (omega arith)
        (enqueue_guilds-HasRows js env0 bucket gs 0 zero_counts db))
