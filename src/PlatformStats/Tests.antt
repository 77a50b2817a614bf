-- ===== src/PlatformStats/Tests.antt =====
-- The counter of checks applied to a few calls.
use protect_platform.PlatformStats.{
  get_public_snapshot, run_platform_stats_refresh, refresh_aggregates, increment_manual_checks,
}
use protect_platform.Samples.{env, flagged}
use protect_platform.Store.{Env}
use protect_platform.Prelude.{refl, update, find, upsert, [], true, ◌∷◌, ◌≡◌, List}
use protect_platform.PlatformStats.Counted.{
  call, refresh, view, work, increment, StatsCall, calls, checks,
}

abbrev day : List (StatsCall × Env)
day =
    (increment, env "one")
    ∷ (work, env "two")
    ∷ (view true, env "three")
    ∷ (increment, env "four")
    ∷ (refresh, env "five")
    ∷ []

day_total : checks (calls day flagged) ≡ 2
unfolding calls call increment_manual_checks refresh_aggregates run_platform_stats_refresh
    get_public_snapshot upsert find update
day_total = refl
