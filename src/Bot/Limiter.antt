-- ===== src/Bot/Limiter.antt =====
-- apps/bot/src/services/guildRateLimiter.ts: commands of a guild in a minute.
mod Window
mod Tests
use protect_platform.Js.{is_empty}
use protect_platform.Prelude.{
  put, lookup, false, none, Dict, true, some, leb, if◌then◌else◌, ◌+◌, String, Bool, Option, ℕ,
}

pub record Bucket : Type 0 where
  pub count : ℕ
  pub reset_at : ℕ

abbrev pub window_ms : ℕ
window_ms = 60000

-- The bucket in force: a new one where there is none or its minute is over.
abbrev pub current : ℕ → Option Bucket → Bucket
current now none = record { count = 0; reset_at = now + window_ms }
current now (some b) =
    if leb b.reset_at now then record { count = 0; reset_at = now + window_ms } else b

abbrev taken : ℕ → Bucket → Bool × Bucket
taken per_minute b =
    if leb per_minute b.count then (false, b) else (true, record b { count = b.count + 1 })

-- One guild's bucket.
pub consume : ℕ → ℕ → Option Bucket → Bool × Bucket
consume per_minute now b = taken per_minute (current now b)

-- `tryConsume` on the map of buckets; without a guild everything is allowed.
pub try_consume : ℕ → Option String → ℕ → Dict Bucket → Bool × Dict Bucket
try_consume per_minute none now buckets = (true, buckets)
try_consume per_minute (some guild) now buckets =
    if is_empty guild
    then (true, buckets)
    else let after = consume per_minute now (lookup guild buckets) in
      (after.0, put guild after.1 buckets)
