-- ===== src/Worker/Loop.antt =====
-- apps/worker/src/main.ts: the worker's loop.
mod Pace
mod Tests
use protect_platform.Prelude.{◌*◌, ltb, max, leb, ◌/◌, if◌then◌else◌, ◌&&◌, ◌+◌, Bool, min, ℕ}

-- The settings, with their defaults filled in.
pub record WorkerConfig : Type 0 where
  pub poll_ms : ℕ
  pub batch : ℕ
  pub max_batch : ℕ
  pub decay_interval_ms : ℕ
  pub min_idle_ms : ℕ
  pub backlog_warn : ℕ
  pub platform_stats_interval_ms : ℕ
  pub member_sync_interval_ms : ℕ

pub effective_batch : WorkerConfig → ℕ
effective_batch config = min config.batch config.max_batch

pub next_sleep_ms : WorkerConfig → ℕ → ℕ
next_sleep_ms config backlog_pending =
    let factor = 1 + min 3 (backlog_pending / max 1 config.backlog_warn) in
    min 8000 (config.poll_ms * factor) + config.min_idle_ms

-- When each job last ran.
pub record Clocks : Type 0 where
  pub last_decay_at : ℕ
  pub last_member_sync_schedule_at : ℕ
  pub last_platform_stats_at : ℕ

-- The jobs that one turn of the loop starts.
pub record Started : Type 0 where
  pub decay : Bool
  pub member_sync : Bool
  pub platform_stats : Bool

abbrev restarted : Bool → ℕ → ℕ → ℕ
restarted b now last = if b then now else last

-- The tests of one turn; a clock that has gone back starts nothing. `running` is false once a signal has come.
pub jobs_to_start : WorkerConfig → Bool → ℕ → Clocks → Started
jobs_to_start config running now c = record {
  decay = running && leb (c.last_decay_at + config.decay_interval_ms) now;
  member_sync =
      running
      && ltb 0 config.member_sync_interval_ms
      && leb (c.last_member_sync_schedule_at + config.member_sync_interval_ms) now;
  platform_stats =
      running && leb (c.last_platform_stats_at + config.platform_stats_interval_ms) now;
}

pub after_turn : Started → ℕ → Clocks → Clocks
after_turn s now c = record {
  last_decay_at = restarted s.decay now c.last_decay_at;
  last_member_sync_schedule_at = restarted s.member_sync now c.last_member_sync_schedule_at;
  last_platform_stats_at = restarted s.platform_stats now c.last_platform_stats_at;
}
