-- ===== src/PlatformStats/Counted.antt =====
-- apps/api/src/platform-stats/platform-stats.service.ts: the counter of checks counts them, however
-- the aggregates are refreshed in between.
use protect_platform.PlatformStats.{
  one_more, first_check, refreshed, fresh, get_public_snapshot, run_platform_stats_refresh,
  snapshot_id, refresh_aggregates, stats_key, increment_manual_checks,
}
use protect_platform.Prelude.{
  suc, ◌∷◌, [], [], find-update, refl, inr, inl, find-upsert, Option-cases, arith, none, err, some,
  ◌+◌, ok, find, upsert, Result, ◌≡◌, Option, Bool, List, ℕ,
}
use protect_platform.Store.{PlatformStatsSnapshot, Db, Env}

-- The calls that touch the statistics.
pub data StatsCall : Type 0 where
  -- `incrementManualChecks`, `refreshAggregates`, and the worker's `runPlatformStatsRefreshSafe`
  increment refresh work : StatsCall
  -- `getPublicSnapshot`, with or without API_SNAPSHOT_REFRESH_ON_MISS
  view : Bool → StatsCall

abbrev after_call : {A : Type 0} → Db → Result (A × Db) → Db
after_call db (ok (a, db')) = db'
after_call db (err e) = db

unfoldable pub call : StatsCall → Env → Db → Db
call increment env db = after_call db (increment_manual_checks env db)
call refresh env db = after_call db (refresh_aggregates env db)
call work env db = run_platform_stats_refresh env db
call (view on_miss) env db = after_call db (get_public_snapshot env on_miss db)

unfoldable pub calls : List (StatsCall × Env) → Db → Db
calls [] db = db
calls ((c, env) ∷ cs) db = calls cs (call c env db)

abbrev total_of : Option PlatformStatsSnapshot → ℕ
total_of none = 0
total_of (some s) = s.manual_checks_total

abbrev pub checks : Db → ℕ
checks db = total_of (find stats_key snapshot_id db.stats)

abbrev pub increments : List (StatsCall × Env) → ℕ
increments [] = 0
increments ((increment, env) ∷ cs) = suc (increments cs)
increments ((_, env) ∷ cs) = increments cs

abbrev step : StatsCall → ℕ
step increment = 1
step _ = 0

increments_cons :
    (c : StatsCall) (env : Env) (cs : List (StatsCall × Env))
    → increments ((c, env) ∷ cs) ≡ step c + increments cs
increments_cons increment env cs = omega arith
increments_cons refresh env cs = omega arith
increments_cons work env cs = omega arith
increments_cons (view on_miss) env cs = omega arith

module _ (env : Env) (db : Db) where
  checks-refresh :
      checks (record db {
        stats = upsert stats_key snapshot_id (fresh env 0 db) (refreshed env db) db.stats;
      })
      ≡ checks db
  checks-refresh =
      rw
        (find-upsert stats_key snapshot_id snapshot_id (fresh env 0 db) (refreshed env db) db.stats
          refl λ s. refl)
        (elim (Option-cases (find stats_key snapshot_id db.stats)) [
          | inl missing ↦ rw missing refl
          | inr (s, there) ↦ rw there refl
        ])

  checks-call : (c : StatsCall) → checks (call c env db) ≡ checks db + step c
  unfolding call increment_manual_checks refresh_aggregates run_platform_stats_refresh
      get_public_snapshot
  checks-call increment = elim (Option-cases (find stats_key snapshot_id db.stats)) [
    | inl missing ↦
        let first =
          find-upsert stats_key snapshot_id snapshot_id (first_check env) (one_more env) db.stats
            refl λ s. refl in
        ground (arith, missing, first)
    | inr (s, there) ↦
        let more =
          find-update stats_key snapshot_id snapshot_id (one_more env) db.stats λ s. refl in
        ground (arith, there, more)
  ]
  checks-call refresh = omega (arith, checks-refresh)
  checks-call work =
      let same =
        find-update stats_key snapshot_id snapshot_id (refreshed env db) db.stats λ s. refl in
      elim (Option-cases (find stats_key snapshot_id db.stats)) [
        | inl missing ↦ ground (arith, missing, same)
        | inr (s, there) ↦ ground (arith, there, same)
      ]
  checks-call (view on_miss) = ground (arith, checks-refresh)

-- Whatever calls of the API and the worker are made in whatever order, the counter of checks grows by
-- the number of increments among them.
pub checks-calls :
    (cs : List (StatsCall × Env)) (db : Db) → checks (calls cs db) ≡ checks db + increments cs
unfolding calls
checks-calls [] db = omega arith
checks-calls ((c, env) ∷ cs) db =
    rw (checks-calls cs (call c env db), checks-call env db c)
      (omega (arith, increments_cons c env cs))
