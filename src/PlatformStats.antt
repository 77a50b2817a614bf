-- ===== src/PlatformStats.antt =====
-- apps/api/src/platform-stats/platform-stats.service.ts and apps/worker/src/platform-stats-job.ts:
-- the row of platform statistics and its counter of checks. A query that fails is not modelled.
pub mod Counted
mod Tests
use protect_platform.Shared.Levels.{FlagLevel}
use protect_platform.Prelude.{
  count_where, [], ok, keep, upsert, includes, true, ◌∷◌, if◌then◌else◌, find, length, map, false,
  or_else, is_some, ◌+◌, not, ℕ, update, List, Bool, String,
}
use protect_platform.Store.{
  gets, modify, Tx, Server, Env, User, GuildMemberCache, Db, PlatformStatsSnapshot, ◌>>=◌, ◌>>◌,
}

abbrev pub snapshot_id : String
snapshot_id = "default"

abbrev pub stats_key : PlatformStatsSnapshot → String
stats_key s = s.id

-- `COUNT(DISTINCT …)`: a value counts where it is seen last.
abbrev pub count_distinct : List String → ℕ
count_distinct [] = 0
count_distinct (x ∷ xs) = let rest = count_distinct xs in if includes x xs then rest else rest + 1

abbrev is_here : Server → Bool
is_here s = not (is_some s.removed_at)

abbrev is_not_clean : User → Bool
is_not_clean u = elim u.flag_level [ FlagLevel.clean ↦ false | _ ↦ true ]

abbrev user_of : GuildMemberCache → String
user_of m = m.discord_user_id

abbrev pub fresh : Env → ℕ → Db → PlatformStatsSnapshot
fresh env checks db = record {
  id = snapshot_id;
  guilds_active = count_where is_here db.servers;
  tracked_member_distinct = count_distinct (map user_of db.members);
  users_flagged = count_where is_not_clean db.users;
  manual_checks_total = checks;
  updated_at = env.now;
}

-- The aggregates are written over the old ones, and the counter of checks is kept.
abbrev pub refreshed : Env → Db → PlatformStatsSnapshot → PlatformStatsSnapshot
refreshed env db s = record (fresh env s.manual_checks_total db) { id = s.id }

unfoldable pub refresh_aggregates : Env → Tx (Unit {0})
refresh_aggregates env = modify (λ db. record db {
  stats = upsert stats_key snapshot_id (fresh env 0 db) (refreshed env db) db.stats;
})

abbrev pub one_more : Env → PlatformStatsSnapshot → PlatformStatsSnapshot
one_more env s = record s { manual_checks_total = s.manual_checks_total + 1; updated_at = env.now }

abbrev pub first_check : Env → PlatformStatsSnapshot
first_check env = record {
  id = snapshot_id;
  guilds_active = 0;
  tracked_member_distinct = 0;
  users_flagged = 0;
  manual_checks_total = 1;
  updated_at = env.now;
}

abbrev pub has_stats : Db → Bool
has_stats db = is_some (find stats_key snapshot_id db.stats)

-- `update` throws on a missing row, and the `catch` upserts it.
unfoldable pub increment_manual_checks : Env → Tx (Unit {0})
increment_manual_checks env db =
    if has_stats db
    then modify
        (λ db'. record db' { stats = update stats_key snapshot_id (one_more env) db'.stats }) db
    else modify
        (λ db'. record db' {
          stats = upsert stats_key snapshot_id (first_check env) (one_more env) db'.stats;
        })
        db

abbrev pub no_stats : Env → PlatformStatsSnapshot
no_stats env = record (first_check env) { manual_checks_total = 0 }

abbrev pub again : Env → Db → PlatformStatsSnapshot
again env db = or_else (find stats_key snapshot_id db.stats) (no_stats env)

-- What the API gives out, and the database after it. `refresh_on_miss` is false if
-- API_SNAPSHOT_REFRESH_ON_MISS is `0`.
unfoldable pub get_public_snapshot : Env → Bool → Tx PlatformStatsSnapshot
get_public_snapshot env refresh_on_miss db =
    if has_stats db
    then ok (again env db, db)
    else if not refresh_on_miss
    then ok (no_stats env, db)
    else (refresh_aggregates env >>= λ _. gets (again env)) db

-- The worker's refresh: `update` throws if the row is missing, and the caller only logs that.
unfoldable pub run_platform_stats_refresh : Env → Db → Db
run_platform_stats_refresh env db = record db {
  stats = update stats_key snapshot_id (refreshed env db) db.stats;
}
