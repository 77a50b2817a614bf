-- ===== src/Bot/ApiClient/Degraded.antt =====
-- apps/bot/src/services/apiClient.ts: with an API that fails, a configuration that was seen is still
-- given out, and a circuit that is open sends nothing.
use protect_platform.Bot.Breaker.{CircuitBreaker}
use protect_platform.Bot.ConfigCache.{is_fresh, get, ServerConfigCacheEntry}
use protect_platform.Prelude.{
  ◌⊎◌, lookup-delete, eq_refl, none, lookup-put, Bool-cases, delete, inr, arith, ◌+◌, inl, ◌<◌,
  refl, some, ◌≡◌, String, ℕ,
}
use protect_platform.Bot.ApiClient.{
  or_stale, request_json, failed, ClientState, got, Fetched, invalidate_server_cache, ClientEnv,
  Answer, get_server,
}

module _ {T : Type 0} where
  -- The answer of a request for a guild's configuration `entry` that is in the cache: it or what the
  -- API answers is given out, and is what the cache holds for the guild afterwards.
  abbrev pub IsServed :
      String
      → ServerConfigCacheEntry T
      → Answer T × CircuitBreaker
      → Answer T × ClientState T
      → Type 0
  IsServed guild entry asked (answer, after) =
      (kept : ServerConfigCacheEntry T) × (get guild after.servers ≡ some kept)
      × (answer ≡ got kept.data_)
      × ((kept ≡ entry) ⊎ (asked.0 ≡ got kept.data_))

  or_stale-IsServed :
      (env : ClientEnv) (later : ℕ) (guild : String) (entry : ServerConfigCacheEntry T)
      (state : ClientState T) (r : Answer T × CircuitBreaker)
      → get guild state.servers ≡ some entry
      → IsServed guild entry r (or_stale env later guild (some entry) state r)
  or_stale-IsServed env later guild entry state (got t, b) h =
      let new : ServerConfigCacheEntry T = record {
        data_ = t;
        fetched_at = later;
        expires_at = later + env.ttl_ms;
      } in
      (new, rw (lookup-put guild guild new state.servers, eq_refl guild) refl, refl, inr refl)
  or_stale-IsServed env later guild entry state (failed e, b) h = (entry, h, refl, inl refl)

  -- Once a guild's configuration is in the cache, a request for it is answered whatever the API does,
  -- with that configuration, old or new, or with the one that the API answers for the guild. What is
  -- given out is in the cache afterwards, so that the same holds of the next request.
  pub get_server-got :
      (env : ClientEnv) (now later : ℕ) (fetch : ℕ → Fetched T) (guild : String)
      (state : ClientState T) (entry : ServerConfigCacheEntry T)
      → get guild state.servers ≡ some entry
      → IsServed guild entry
          (request_json now later env.retry_max fetch state.circuit)
          (get_server env now later fetch guild state)
  unfolding get_server
  get_server-got env now later fetch guild state entry h =
      rw h (elim (Bool-cases (is_fresh now entry)) [
        | inl fresh ↦ rw fresh (entry, h, refl, inl refl)
        | inr old ↦ rw old (
            or_stale-IsServed env later guild entry state
              (request_json now later env.retry_max fetch state.circuit) h)
      ])

  -- A change of a guild's configuration that invalidates the cache is seen by the next request that
  -- the API answers, however fresh the old configuration was.
  pub get_server-invalidate_server_cache :
      (env : ClientEnv) (now later : ℕ) (fetch : ℕ → Fetched T) (guild : String)
      (state : ClientState T) (t : T) (b : CircuitBreaker)
      → request_json now later env.retry_max fetch state.circuit ≡ (got t, b)
      → ((get_server env now later fetch guild (invalidate_server_cache guild state)).0 ≡ got t)
        × ((later' now' : ℕ) (fetch' : ℕ → Fetched T)
            → now' < later + env.ttl_ms
            → (get_server env now' later' fetch' guild
                (get_server env now later fetch guild (invalidate_server_cache guild state)).1).0
              ≡ got t)
  unfolding get_server invalidate_server_cache
  get_server-invalidate_server_cache env now later fetch guild state t b h =
      let new : ServerConfigCacheEntry T = record {
        data_ = t;
        fetched_at = later;
        expires_at = later + env.ttl_ms;
      } in
      let gone : get guild (delete guild state.servers) ≡ none =
        rw (lookup-delete guild guild state.servers, eq_refl guild) refl in
      let there = lookup-put guild guild new (delete guild state.servers) in
      (
        rw (gone, h) refl,
        λ later' now' fetch' soon. rw (gone, h, there, eq_refl guild) (ground (arith, soon)),
      )
