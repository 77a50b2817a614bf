-- ===== src/Bot/Breaker/Opened.antt =====
-- apps/bot/src/services/circuitBreaker.ts: when the breaker is open.
use protect_platform.Prelude.{refl}
use protect_platform.Prelude.{◌<◌, ltb, false, leb, arith, ◌≡◌, length, ◌+◌, map, [], ◌∷◌, List, ℕ}
use protect_platform.Bot.Breaker.{is_open, record_success, record_failure, CircuitBreaker}

-- What the bot records of its calls, with the clock.
pub data CallResult : Type 0 where
  success : CallResult
  failure : ℕ → CallResult

unfoldable pub recorded : List CallResult → CircuitBreaker → CircuitBreaker
recorded [] b = b
recorded (CallResult.success ∷ os) b = recorded os (record_success b)
recorded (CallResult.failure now ∷ os) b = recorded os (record_failure now b)

abbrev pub failed_in_a_row : List ℕ → List CallResult
failed_in_a_row ts = map CallResult.failure ts

abbrev pub last_or : ℕ → List ℕ → ℕ
last_or d [] = d
last_or d (t ∷ ts) = last_or t ts

-- The state after the failures that are missing to the threshold.
counted_up :
    (ts : List ℕ) (t : ℕ) (b : CircuitBreaker)
    → b.failures + length (t ∷ ts) ≡ b.threshold
    → recorded (failed_in_a_row (t ∷ ts)) b
      ≡ record b { failures = 0; opened_until = last_or t ts + b.open_ms }
unfolding recorded record_failure
counted_up [] t b h = ground (arith, h)
counted_up (t' ∷ ts) t b h =
    let below : leb b.threshold (b.failures + 1) ≡ false = ground (arith, h) in
    let step : record_failure t b ≡ record b { failures = b.failures + 1 } =
      ground (arith, below) in
    rw (recorded, step)
      (counted_up ts t' (record b { failures = b.failures + 1 }) (omega (arith, h)))

-- After as many failures in a row as the threshold says, a success before them, the breaker is open
-- until the time that the last failure sets and not longer: a call is refused exactly before it.
pub recorded-is_open :
    (ts : List ℕ) (t now : ℕ) (b : CircuitBreaker)
    → length (t ∷ ts) ≡ b.threshold
    → is_open now (recorded (CallResult.success ∷ failed_in_a_row (t ∷ ts)) b)
      ≡ ltb now (last_or t ts + b.open_ms)
unfolding recorded record_success is_open
recorded-is_open ts t now b h = rw (counted_up ts t (record_success b) (omega (arith, h)))

-- Fewer failures in a row than the threshold open nothing: the breaker is as open as it was.
pub recorded_few :
    (ts : List ℕ) (now : ℕ) (b : CircuitBreaker)
    → b.failures + length ts < b.threshold
    → is_open now (recorded (failed_in_a_row ts) b) ≡ is_open now b
unfolding recorded record_failure is_open
recorded_few [] now b h = refl
recorded_few (t ∷ ts) now b h =
    let below : leb b.threshold (b.failures + 1) ≡ false = ground (arith, h) in
    let step : record_failure t b ≡ record b { failures = b.failures + 1 } =
      ground (arith, below) in
    rw (recorded, step)
      (recorded_few ts now (record b { failures = b.failures + 1 }) (omega (arith, h)))
