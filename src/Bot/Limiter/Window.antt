-- ===== src/Bot/Limiter/Window.antt =====
-- apps/bot/src/services/guildRateLimiter.ts: the limit in a minute.
use protect_platform.Prelude.{
  leb_false→lt, true, inr, leb→le, inl, Bool-cases, arith, length, min, ◌≤◌, [], ◌+◌, false,
  if◌then◌else◌, ◌≡◌, some, leb, any, ◌∷◌, List, ℕ,
}
use protect_platform.Bot.Limiter.{consume, Bucket}

-- Calls for one guild at those times, with the number of them that were allowed.
unfoldable pub calls : ℕ → List ℕ → Bucket → ℕ × Bucket
unfolding consume
calls per_minute [] b = (0, b)
calls per_minute (now ∷ times) b =
    let after = consume per_minute now (some b) in
    let rest = calls per_minute times after.1 in ((if after.0 then 1 else 0) + rest.0, rest.1)

-- Calls within a bucket's minute are allowed exactly up to the limit: with those that the bucket
-- has counted before, they are as many as were made, or the limit if that is less.
pub calls-IsLimited :
    (per_minute : ℕ) (times : List ℕ) (b : Bucket)
    → any (λ t. leb b.reset_at t) times ≡ false
    → b.count ≤ per_minute
    → (b.count + (calls per_minute times b).0 ≡ min per_minute (b.count + length times))
unfolding calls consume
calls-IsLimited per_minute [] b h le = omega (arith, le)
calls-IsLimited per_minute (now ∷ times) b h le =
    let live : leb b.reset_at now ≡ false = ground (arith, h) in
    let later : any (λ t. leb b.reset_at t) times ≡ false = ground (arith, h) in
    elim (Bool-cases (leb per_minute b.count)) [
      | inl full ↦
          let step : consume per_minute now (some b) ≡ (false, b) = ground (arith, live, full) in
          let rest = calls-IsLimited per_minute times b later le in
          let at_least = leb→le per_minute b.count full in
          rw step (omega (arith, rest, at_least, le))
      | inr free ↦
          let more = record b { count = b.count + 1 } in
          let step : consume per_minute now (some b) ≡ (true, more) = ground (arith, live, free) in
          let below = leb_false→lt per_minute b.count free in
          let rest = calls-IsLimited per_minute times more later (omega (arith, below)) in
          rw step (omega (arith, rest, below))
    ]
