-- ===== src/Worker/Loop/Tests.antt =====
-- Runs of the loop's tests, and the theorems at concrete inputs.
use protect_platform.Prelude.{[], ◌∷◌, true, refl, ◌≡◌}
use protect_platform.Worker.Loop.{
  after_turn, jobs_to_start, WorkerConfig, Clocks, next_sleep_ms, effective_batch,
}
use protect_platform.Worker.Loop.Pace.{turn, Job, is_started, turns}

abbrev config : WorkerConfig
config = record {
  poll_ms = 500;
  batch = 50;
  max_batch = 200;
  decay_interval_ms = 300;
  min_idle_ms = 10;
  backlog_warn = 1000;
  platform_stats_interval_ms = 120;
  member_sync_interval_ms = 0;
}

abbrev clocks : Clocks
clocks = record { last_decay_at = 0; last_member_sync_schedule_at = 0; last_platform_stats_at = 0 }

batches : effective_batch config ≡ 50
unfolding effective_batch
batches = refl

-- The loop sleeps four times as long behind a large backlog.
sleeps : (next_sleep_ms config 0 ≡ 510) × (next_sleep_ms config 5000 ≡ 2010)
unfolding next_sleep_ms
sleeps = (refl, refl)

starts : is_started Job.decay (jobs_to_start config true 400 clocks) ≡ true
unfolding jobs_to_start
starts = refl

restarts :
    is_started Job.decay (
      jobs_to_start config true 700
        (turns config ((true, 600) ∷ []) (turn config (true, 400) clocks)))
    ≡ true
unfolding jobs_to_start after_turn turns
restarts = refl
