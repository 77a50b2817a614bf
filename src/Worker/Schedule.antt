-- ===== src/Worker/Schedule.antt =====
-- apps/worker/src/member-sync-schedule-job.ts: a row for each licensed guild in each interval.
pub mod Repeated
mod Tests
use Prim.Native.String.{◌++◌}
use protect_platform.Shared.Events.{guild_members_sync}
use protect_platform.Entitlements.{active_license_where, guild_key}
use protect_platform.Js.{Js}
use protect_platform.Prelude.{
  ◌/◌, some, none, [], keep, ok, leb, if◌then◌else◌, map, ◌+◌, ◌∷◌, err, String, List, ℕ, Result,
}
use protect_platform.Store.{text, enqueue, OutboxEnqueueItem, Env, Db}

pub record Counts : Type 0 where
  pub enqueued : ℕ
  pub skipped : ℕ

abbrev pub schedule_key : Js → String → ℕ → String
schedule_key js guild bucket = "guild.members.sync:scheduled:" ++ guild ++ ":" ++ js.decimal bucket

abbrev pub sync_item : Js → ℕ → String → OutboxEnqueueItem
sync_item js bucket guild = record {
  event_type = guild_members_sync;
  payload = ("guildId", text guild) ∷ [];
  idempotency_key = some (schedule_key js guild bucket);
}

-- A row that the unique index refuses is counted as skipped.
abbrev pub counted : Counts → Db → Result (Unit {0} × Db) → Counts × Db
counted c db (err e) = (record c { skipped = c.skipped + 1 }, db)
counted c db (ok (u, db')) = (record c { enqueued = c.enqueued + 1 }, db')

abbrev pub after_guild : Js → Env → ℕ → ℕ → String → Counts → Db → Counts × Db
after_guild js env bucket i guild c db =
    counted c db (enqueue env (env.uuid i) (sync_item js bucket guild) db)

unfoldable pub enqueue_guilds : Js → Env → ℕ → ℕ → List String → Counts → Db → Counts × Db
enqueue_guilds js env bucket i [] c db = (c, db)
enqueue_guilds js env bucket i (guild ∷ guilds) c db =
    let after = after_guild js env bucket i guild c db in
    enqueue_guilds js env bucket (i + 1) guilds after.0 after.1

abbrev pub licensed_guilds : ℕ → Db → List String
licensed_guilds now db = map guild_key (keep (active_license_where now) db.entitlements)

-- The outbox rows of the worker carry no correlation id.
pub run_member_sync_schedule : Js → Env → (interval_ms : ℕ) → Db → Counts × Db
run_member_sync_schedule js env interval_ms db =
    if leb interval_ms 0
    then (record { enqueued = 0; skipped = 0 }, db)
    else enqueue_guilds js (record env { correlation = none }) (env.now / interval_ms) 0
        (licensed_guilds env.now db) (record { enqueued = 0; skipped = 0 }) db
