-- ===== src/Bot/Breaker/Tests.antt =====
-- Runs of the breaker.
use protect_platform.Prelude.{refl}
use protect_platform.Prelude.{false, true, ◌≡◌, [], ◌∷◌}
use protect_platform.Bot.Breaker.Opened.{failed_in_a_row, recorded}
use protect_platform.Bot.Breaker.{is_open, record_failure, new_breaker}

opens : is_open 108 (recorded (failed_in_a_row (1 ∷ 5 ∷ 9 ∷ [])) (new_breaker 3 100)) ≡ true
unfolding new_breaker recorded record_failure is_open
opens = refl

closes : is_open 109 (recorded (failed_in_a_row (1 ∷ 5 ∷ 9 ∷ [])) (new_breaker 3 100)) ≡ false
unfolding new_breaker recorded record_failure is_open
closes = refl
