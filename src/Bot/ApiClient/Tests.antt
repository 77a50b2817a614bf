-- ===== src/Bot/ApiClient/Tests.antt =====
-- An API that answers at the second attempt, and one that does not answer.
use protect_platform.Bot.ApiClient.Retried.{fetch_with_retry-bounded, first_final}
use protect_platform.Bot.ConfigCache.{ServerConfigCacheEntry, get}
use protect_platform.Bot.ApiClient.Degraded.{IsServed, get_server-got}
use protect_platform.Prelude.{zero, some, suc, ◌≤◌, refl, [], none, ◌∷◌, String, ◌≡◌, lookup, ℕ}
use protect_platform.Bot.ApiClient.{
  request_json, answered, threw, Fetched, get_server, fetch_with_retry, ClientState, ClientEnv,
}

abbrev second : ℕ → Fetched String
second zero = answered record { status = 503; body = none }
second (suc n) = answered record { status = 200; body = some "config" }

abbrev silent : ℕ → Fetched String
silent n = threw

fetch_with_retry-bounded_example :
    ((fetch_with_retry second 3).answer ≡ first_final second 3 0)
    × ((fetch_with_retry second 3).fetches ≤ 4)
    × ((fetch_with_retry second 3).slept ≤ 6000)
    × (1 ≤ (fetch_with_retry second 3).fetches)
fetch_with_retry-bounded_example = fetch_with_retry-bounded second 3

abbrev client_env : ClientEnv
client_env = record { retry_max = 3; ttl_ms = 60000 }

abbrev client : ClientState String
client = record {
  circuit = record { failures = 0; opened_until = 0; threshold = 5; open_ms = 30000 };
  servers = ("5", record { data_ = "old"; fetched_at = 0; expires_at = 60000 }) ∷ [];
}

abbrev old_entry : ServerConfigCacheEntry String
old_entry = record { data_ = "old"; fetched_at = 0; expires_at = 60000 }

is_cached : get "5" client.servers ≡ some old_entry
unfolding lookup
is_cached = refl

get_server-got_example :
    IsServed "5" old_entry
      (request_json 70000 70001 3 silent client.circuit)
      (get_server client_env 70000 70001 silent "5" client)
get_server-got_example = get_server-got client_env 70000 70001 silent "5" client old_entry is_cached
