-- ===== src/Bot/Limiter/Tests.antt =====
-- Runs of the limiter, and its theorem at a concrete input.
use protect_platform.Prelude.{refl}
use protect_platform.Prelude.{false, [], true, delete, put, ◌≡◌, some, lookup}
use protect_platform.Bot.Limiter.{consume, try_consume}

third_refused :
    (try_consume 2 (some "g") 3 (try_consume 2 (some "g") 2 (try_consume 2 (some "g") 1 []).1).1).0
    ≡ false
unfolding try_consume consume lookup put delete
third_refused = refl

after_a_minute : (consume 2 60001 (some (record { count = 2; reset_at = 60001 }))).0 ≡ true
unfolding consume
after_a_minute = refl
