-- ===== src/Bot/Breaker.antt =====
-- apps/bot/src/services/circuitBreaker.ts: calls of the API stop for a while after failures in a row.
mod Opened
mod Tests
use protect_platform.Prelude.{◌+◌, ltb, leb, if◌then◌else◌, Bool, ℕ}

pub record CircuitBreaker : Type 0 where
  pub failures : ℕ
  pub opened_until : ℕ
  pub threshold : ℕ
  pub open_ms : ℕ

pub new_breaker : ℕ → ℕ → CircuitBreaker
new_breaker threshold open_ms = record {
  failures = 0;
  opened_until = 0;
  threshold = threshold;
  open_ms = open_ms;
}

-- `beforeCall` throws CIRCUIT_OPEN.
unfoldable pub is_open : ℕ → CircuitBreaker → Bool
is_open now b = ltb now b.opened_until

unfoldable pub record_success : CircuitBreaker → CircuitBreaker
record_success b = record b { failures = 0 }

unfoldable pub record_failure : ℕ → CircuitBreaker → CircuitBreaker
record_failure now b =
    if leb b.threshold (b.failures + 1)
    then record b { opened_until = now + b.open_ms; failures = 0 }
    else record b { failures = b.failures + 1 }
