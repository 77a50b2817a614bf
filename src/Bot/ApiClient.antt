-- ===== src/Bot/ApiClient.antt =====
-- apps/bot/src/services/apiClient.ts: the requests of the bot to the API, with their retries, the
-- circuit breaker and the cache of configurations. The other methods are one request each.
use protect_platform.Bot.ConfigCache.{set, is_fresh, get, invalidate, ServerConfigCacheEntry, Store}
use protect_platform.Bot.Breaker.{is_open, record_success, record_failure, CircuitBreaker}
use protect_platform.Prelude.{
  zero, String, ◌||◌, ◌^◌, ◌&&◌, if◌then◌else◌, ◌*◌, eqb, leb, suc, Bool, some, min, ◌+◌, none,
  Option, ℕ,
}
pub mod Retried
pub mod Degraded
mod Tests

-- What one `fetch` comes to: an exception, or a status with a body that can be read as JSON or not.
pub record Response (T : Type 0) : Type 0 where
  pub status : ℕ
  pub body : Option T

pub data Fetched (T : Type 0) : Type 0 where
  threw : Fetched T
  answered : Response T → Fetched T

abbrev pub is_retryable : ℕ → Bool
is_retryable status = eqb status 502 || eqb status 503 || eqb status 429

abbrev pub backoff : ℕ → ℕ
backoff attempt = min 2000 (200 * 2 ^ attempt)

-- The answer, none if the last attempt was to be retried too; the number of calls of `fetch`; and the
-- milliseconds slept between them.
pub record Outcome (T : Type 0) : Type 0 where
  pub answer : Option (Response T)
  pub fetches : ℕ
  pub slept : ℕ

module _ {T : Type 0} where
  abbrev pub is_final : Fetched T → Option (Response T)
  is_final threw = none
  is_final (answered r) = if is_retryable r.status then none else some r

  abbrev after_failure : ℕ → Outcome T → Outcome T
  after_failure pause rest = record rest { fetches = rest.fetches + 1; slept = rest.slept + pause }

  abbrev retry_or : Option (Response T) → ℕ → Outcome T → Outcome T
  retry_or none pause rest = after_failure pause rest
  retry_or (some r) pause rest = record { answer = some r; fetches = 1; slept = 0 }

  -- The loop from `attempt` on, when `left` more attempts follow it: `fetch n` is what attempt `n`
  -- comes to.
  unfoldable pub attempts_from : (ℕ → Fetched T) → (left attempt : ℕ) → Outcome T
  attempts_from fetch zero attempt =
      retry_or (is_final (fetch attempt)) 0 record { answer = none; fetches = 0; slept = 0 }
  attempts_from fetch (suc left) attempt =
      retry_or (is_final (fetch attempt)) (backoff attempt) (attempts_from fetch left (suc attempt))

  unfoldable pub fetch_with_retry : (ℕ → Fetched T) → (retry_max : ℕ) → Outcome T
  fetch_with_retry fetch retry_max = attempts_from fetch retry_max 0

-- `r.ok`
abbrev pub is_ok : ℕ → Bool
is_ok status = leb 200 status && leb status 299

abbrev pub counts_as_failure : ℕ → Bool
counts_as_failure status = leb 500 status || eqb status 429

pub data Failure : Type 0 where
  circuit_open unreachable unreadable : Failure
  refused : ℕ → Failure

pub data Answer (T : Type 0) : Type 0 where
  got : T → Answer T
  failed : Failure → Answer T

module _ {T : Type 0} where
  abbrev read_body : ℕ → CircuitBreaker → Option T → Answer T × CircuitBreaker
  read_body now b none = (failed unreadable, record_failure now (record_success b))
  read_body now b (some t) = (got t, record_success b)

  abbrev read_answer : ℕ → CircuitBreaker → Option (Response T) → Answer T × CircuitBreaker
  read_answer now b none = (failed unreachable, record_failure now b)
  read_answer now b (some r) = if is_ok r.status then read_body now b r.body else (
    failed (refused r.status),
    if counts_as_failure r.status then record_failure now b else b,
  )

  -- `now` is the time before the request and `later` the time of its end.
  unfoldable pub request_json :
      (now later retry_max : ℕ) → (ℕ → Fetched T) → CircuitBreaker → Answer T × CircuitBreaker
  request_json now later retry_max fetch b =
      if is_open now b
      then (failed circuit_open, b)
      else read_answer later b (fetch_with_retry fetch retry_max).answer

-- What the client keeps: the breaker and the configurations it has seen.
pub record ClientState (T : Type 0) : Type 0 where
  pub circuit : CircuitBreaker
  pub servers : Store T

-- The settings API_RETRY_MAX and SERVER_CONFIG_CACHE_TTL_MS.
pub record ClientEnv : Type 0 where
  pub retry_max : ℕ
  pub ttl_ms : ℕ

module _ {T : Type 0} where
  abbrev pub or_stale :
      ClientEnv
      → ℕ
      → String
      → Option (ServerConfigCacheEntry T)
      → ClientState T
      → Answer T × CircuitBreaker
      → Answer T × ClientState T
  or_stale env later guild cached state (got t, b) =
      (got t, record { circuit = b; servers = set later env.ttl_ms guild t state.servers })
  or_stale env later guild none state (failed e, b) = (failed e, record state { circuit = b })
  or_stale env later guild (some entry) state (failed e, b) =
      (got entry.data_, record state { circuit = b })

  abbrev pub request_server :
      ClientEnv
      → (now later : ℕ) → (ℕ → Fetched T)
      → String
      → Option (ServerConfigCacheEntry T)
      → ClientState T
      → Answer T × ClientState T
  request_server env now later fetch guild cached state =
      or_stale env later guild cached state
        (request_json now later env.retry_max fetch state.circuit)

  abbrev pub get_cached :
      ClientEnv
      → (now later : ℕ) → (ℕ → Fetched T)
      → String
      → Option (ServerConfigCacheEntry T)
      → ClientState T
      → Answer T × ClientState T
  get_cached env now later fetch guild none state =
      request_server env now later fetch guild none state
  get_cached env now later fetch guild (some entry) state =
      if is_fresh now entry
      then (got entry.data_, state)
      else request_server env now later fetch guild (some entry) state

  unfoldable pub get_server :
      ClientEnv
      → (now later : ℕ) → (ℕ → Fetched T)
      → String
      → ClientState T
      → Answer T × ClientState T
  get_server env now later fetch guild state =
      get_cached env now later fetch guild (get guild state.servers) state

  unfoldable pub invalidate_server_cache : String → ClientState T → ClientState T
  invalidate_server_cache guild state = record state { servers = invalidate guild state.servers }
