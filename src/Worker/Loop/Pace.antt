-- ===== src/Worker/Loop/Pace.antt =====
-- apps/worker/src/main.ts: how long the loop sleeps, and how often it starts its jobs.
use protect_platform.Prelude.{
  ◌*◌, false, max, min, [], true, ltb, ◌∷◌, ◌/◌, arith, ◌≡◌, ◌+◌, any, ◌<◌, Bool, ◌≤◌, List, ℕ,
}
use native.Mathlib.Nat.{mul-div-le, le-div_iff_mul-le, mul-le-mul_left}
use protect_platform.Worker.Loop.{
  jobs_to_start, WorkerConfig, after_turn, Started, Clocks, next_sleep_ms,
}

div_mono : {small large : ℕ} (k : ℕ) → 0 < k → small ≤ large → small / k ≤ large / k
div_mono {small} {large} k pos h = (le-div_iff_mul-le pos).1 (omega (arith, mul-div-le small k, h))

-- The worker never sleeps longer for a smaller backlog than for a larger one, at most 8 seconds and
-- the idle time, and at least the shorter of the polling interval and 8 seconds, and the idle time.
pub next_sleep_ms-IsPaced :
    (config : WorkerConfig) (small large : ℕ)
    → small ≤ large
    → (next_sleep_ms config small ≤ next_sleep_ms config large)
      × (next_sleep_ms config large ≤ 8000 + config.min_idle_ms)
      × (min 8000 config.poll_ms + config.min_idle_ms ≤ next_sleep_ms config small)
unfolding next_sleep_ms
next_sleep_ms-IsPaced config small large h =
    let k = max 1 config.backlog_warn in
    let a = small / k in
    let b = large / k in
    let le : a ≤ b = div_mono k (omega arith) h in
    let grown : config.poll_ms * (1 + min 3 a) ≤ config.poll_ms * (1 + min 3 b) =
      mul-le-mul_left config.poll_ms (omega (arith, le)) in
    let least : config.poll_ms * 1 ≤ config.poll_ms * (1 + min 3 a) =
      mul-le-mul_left config.poll_ms (omega arith) in
    (omega (arith, grown), omega arith, omega (arith, least))

-- One of the jobs, its interval, and whether a turn starts it.
pub data Job : Type 0 where
  decay member_sync platform_stats : Job

abbrev pub interval_of : WorkerConfig → Job → ℕ
interval_of config Job.decay = config.decay_interval_ms
interval_of config Job.member_sync = config.member_sync_interval_ms
interval_of config Job.platform_stats = config.platform_stats_interval_ms

abbrev pub is_started : Job → Started → Bool
is_started Job.decay s = s.decay
is_started Job.member_sync s = s.member_sync
is_started Job.platform_stats s = s.platform_stats

abbrev last_of : Job → Clocks → ℕ
last_of Job.decay c = c.last_decay_at
last_of Job.member_sync c = c.last_member_sync_schedule_at
last_of Job.platform_stats c = c.last_platform_stats_at

-- Turns of the loop, each with the state of the signal and the clock.
abbrev pub turn : WorkerConfig → Bool × ℕ → Clocks → Clocks
turn config (running, now) c = after_turn (jobs_to_start config running now c) now c

unfoldable pub turns : WorkerConfig → List (Bool × ℕ) → Clocks → Clocks
turns config [] c = c
turns config (t ∷ ts) c = turns config ts (turn config t c)

-- Every turn is at that time or later.
abbrev pub IsFrom : ℕ → List (Bool × ℕ) → Type 0
IsFrom start ts = any (λ t. ltb t.1 start) ts ≡ false

turn-last :
    (config : WorkerConfig) (job : Job) (start : ℕ) (t : Bool × ℕ) (c : Clocks)
    → start ≤ t.1
    → start ≤ last_of job c
    → start ≤ last_of job (turn config t c)
unfolding after_turn
turn-last config Job.decay start t c from h = ground arith
turn-last config Job.member_sync start t c from h = ground arith
turn-last config Job.platform_stats start t c from h = ground arith

turns-last :
    (config : WorkerConfig) (job : Job) (start : ℕ) (ts : List (Bool × ℕ)) (c : Clocks)
    → IsFrom start ts
    → start ≤ last_of job c
    → start ≤ last_of job (turns config ts c)
unfolding turns
turns-last config job start [] c from h = h
turns-last config job start (t ∷ ts) c from h =
    turns-last config job start ts (turn config t c) (ground arith)
      (turn-last config job start t c (ground arith) h)

started-last :
    (config : WorkerConfig) (job : Job) (running : Bool) (now : ℕ) (c : Clocks)
    → is_started job (jobs_to_start config running now c) ≡ true
    → last_of job (turn config (running, now) c) ≡ now
unfolding after_turn
started-last config Job.decay running now c h = ground arith
started-last config Job.member_sync running now c h = ground arith
started-last config Job.platform_stats running now c h = ground arith

due-last :
    (config : WorkerConfig) (job : Job) (running : Bool) (now : ℕ) (c : Clocks)
    → is_started job (jobs_to_start config running now c) ≡ true
    → last_of job c + interval_of config job ≤ now
unfolding jobs_to_start
due-last config Job.decay running now c h = ground arith
due-last config Job.member_sync running now c h = ground arith
due-last config Job.platform_stats running now c h = ground arith

-- Two turns of the loop that start the same job are at least its interval apart, whatever turns lie
-- between them, where the clock does not go back behind the first of the two.
pub jobs_to_start_spaced :
    (config : WorkerConfig) (job : Job) (running running' : Bool) (now now' : ℕ) (c : Clocks)
    (between : List (Bool × ℕ))
    → IsFrom now between
    → is_started job (jobs_to_start config running now c) ≡ true
    → is_started job
        (jobs_to_start config running' now' (turns config between (turn config (running, now) c)))
      ≡ true
    → now + interval_of config job ≤ now'
jobs_to_start_spaced config job running running' now now' c between from first second =
    let start = started-last config job running now c first in
    let last =
      turns-last config job now between (turn config (running, now) c) from
        (omega (arith, start)) in
    omega (
      arith,
      last,
      due-last config job running' now' (turns config between (turn config (running, now) c))
          second,
    )
