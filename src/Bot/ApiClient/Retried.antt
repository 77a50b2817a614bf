-- ===== src/Bot/ApiClient/Retried.antt =====
-- apps/bot/src/services/apiClient.ts: how often a request is tried, and what of it is counted.
use protect_platform.Bot.ApiClient.{is_final, Response, Fetched, attempts_from, fetch_with_retry}
use protect_platform.Prelude.{
  refl, inr, arith, inl, zero, Option-cases, or_row, ◌*◌, suc, ◌≤◌, ◌≡◌, Option, ℕ,
}

module _ {T : Type 0} where
  -- The first of the attempts from `attempt` on that is final, none if none of them is.
  abbrev pub first_final : (ℕ → Fetched T) → (left attempt : ℕ) → Option (Response T)
  first_final fetch zero attempt = is_final (fetch attempt)
  first_final fetch (suc left) attempt =
      or_row (is_final (fetch attempt)) (first_final fetch left (suc attempt))

  attempts_from-bounded :
      (fetch : ℕ → Fetched T) (left attempt : ℕ)
      → ((attempts_from fetch left attempt).answer ≡ first_final fetch left attempt)
        × ((attempts_from fetch left attempt).fetches ≤ suc left)
        × ((attempts_from fetch left attempt).slept ≤ 2000 * left)
        × (1 ≤ (attempts_from fetch left attempt).fetches)
  unfolding attempts_from
  attempts_from-bounded fetch zero attempt = elim (Option-cases (is_final (fetch attempt))) [
    | inl missing ↦ rw missing (refl, omega arith, omega arith, omega arith)
    | inr (r, there) ↦ rw there (refl, omega arith, omega arith, omega arith)
  ]
  attempts_from-bounded fetch (suc left) attempt =
      let (same, few, short, once) = attempts_from-bounded fetch left (suc attempt) in
      elim (Option-cases (is_final (fetch attempt))) [
        | inl missing ↦
            rw missing (same, omega (arith, few), omega (arith, short), omega (arith, once))
        | inr (r, there) ↦ rw there (refl, omega arith, omega arith, omega arith)
      ]

  -- A request is tried at least once and at most API_RETRY_MAX + 1 times, sleeps at most two seconds
  -- for each retry, and answers with the first of these attempts that is neither an exception nor a
  -- status 429, 502 or 503, or with an error if all of them are.
  pub fetch_with_retry-bounded :
      (fetch : ℕ → Fetched T) (retry_max : ℕ)
      → ((fetch_with_retry fetch retry_max).answer ≡ first_final fetch retry_max 0)
        × ((fetch_with_retry fetch retry_max).fetches ≤ suc retry_max)
        × ((fetch_with_retry fetch retry_max).slept ≤ 2000 * retry_max)
        × (1 ≤ (fetch_with_retry fetch retry_max).fetches)
  unfolding fetch_with_retry
  fetch_with_retry-bounded fetch retry_max = attempts_from-bounded fetch retry_max 0
