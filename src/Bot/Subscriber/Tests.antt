-- ===== src/Bot/Subscriber/Tests.antt =====
-- Events as the bot hears them.
use protect_platform.Bot.Breaker.{record_success, is_open}
use protect_platform.Bot.Subscriber.Handled.{on_message-get_server, on_message_once, handled_after}
use protect_platform.Bot.Subscriber.{react_all, on_message, EventEnvelope}
use protect_platform.Prelude.{refl, [], none, ◌∷◌, ◌≡◌, true, String, some, ℕ}
use protect_platform.Bot.ApiClient.{
  got, answered, attempts_from, fetch_with_retry, Fetched, ClientEnv, ClientState, get_server,
  request_json,
}

abbrev changed : EventEnvelope
changed = record { event_id = some "e"; type_ = some "server.config.updated"; guild_id = some "5" }

on_message_once_example :
    (on_message
      (λ s. true)
      true
      (some changed)
      (handled_after (λ s. true) true (some changed ∷ none ∷ []) [])).0
    ≡ []
on_message_once_example = on_message_once (λ s. true) changed changed "e" (none ∷ []) [] refl refl

abbrev api_works : ℕ → Fetched String
api_works n = answered record { status = 200; body = some "new" }

abbrev client : ClientState String
client = record {
  circuit = record { failures = 0; opened_until = 0; threshold = 5; open_ms = 30000 };
  servers = ("5", record { data_ = "old"; fetched_at = 0; expires_at = 60000 }) ∷ [];
}

abbrev client_env : ClientEnv
client_env = record { retry_max = 3; ttl_ms = 60000 }

is_answered : request_json 10 11 3 api_works client.circuit ≡ (got "new", client.circuit)
unfolding request_json fetch_with_retry attempts_from is_open record_success
is_answered = refl

on_message-get_server_example :
    (get_server client_env 10 11 api_works "5" (
      react_all
        (on_message
          (λ s. true)
          true
          (some record {
            event_id = some "e2";
            type_ = some "server.config.updated";
            guild_id = some "5";
          })
          []).0
        client)).0
    ≡ got "new"
on_message-get_server_example =
    on_message-get_server client_env (λ s. true) true (some "e2") "5" [] 10 11 api_works client
      "new" client.circuit (λ h id same. refl) is_answered
