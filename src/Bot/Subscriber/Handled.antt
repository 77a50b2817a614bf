-- ===== src/Bot/Subscriber/Handled.antt =====
-- apps/bot/src/services/eventSubscriber.ts with packages/shared/src/domain-events.ts and
-- apps/bot/src/services/apiClient.ts: which events the bot hears, and what it does with them once.
use protect_platform.Bot.ApiClient.Degraded.{get_server-invalidate_server_cache}
use protect_platform.Bot.Breaker.{CircuitBreaker}
use protect_platform.Bot.ApiClient.{
  invalidate_server_cache, get_server, got, request_json, ClientState, Fetched, ClientEnv,
}
use protect_platform.Prelude.{
  ◌∙◌, ap, eq_iff, sym, ◌==◌, Bool-cases, inr, refl, map, eq_refl, ◌↔◌, inl, Option-cases, arith,
  false, none, ℕ, true, [], ◌≡◌, ◌∷◌, some, includes, List, Option, Bool, String,
}
use protect_platform.Bot.Subscriber.{channels, react_all, EventEnvelope, reactions, on_message}
use protect_platform.Shared.Events.{event_types, DomainEventType, type_name, channel_for_event_type}

any-channel :
    (c : String) (ts : List DomainEventType)
    → includes c (map channel_for_event_type ts) ≡ true
    → (t : DomainEventType) × (c ≡ channel_for_event_type t)
any-channel c [] h = cc h
any-channel c (t ∷ ts) h = elim (Bool-cases (channel_for_event_type t == c)) [
  | inl same ↦ (t, sym ((eq_iff (channel_for_event_type t) c).0 same))
  | inr other ↦ any-channel c ts (ground (arith, other, h))
]

channels-event_types : channels ≡ map channel_for_event_type event_types
unfolding channel_for_event_type
channels-event_types = refl

includes-channel : (t : DomainEventType) → includes (channel_for_event_type t) channels ≡ true
unfolding channel_for_event_type
includes-channel DomainEventType.user_flagged = refl
includes-channel _ = refl

-- The bot subscribes to the channels of the event types, to all of them and to no others.
pub channels-channel_for_event_type :
    (c : String)
    → (includes c channels ≡ true) ↔ ((t : DomainEventType) × (c ≡ channel_for_event_type t))
channels-channel_for_event_type c = (
  λ h. any-channel c event_types (ap (includes c) (sym channels-event_types) ∙ h),
  λ (t, e). rw e (includes-channel t),
)

-- The handled events after a number of messages.
unfoldable pub handled_after :
    (String → Bool) → Bool → List (Option EventEnvelope) → List String → List String
handled_after knows dedupe [] handled = handled
handled_after knows dedupe (m ∷ ms) handled =
    handled_after knows dedupe ms (on_message knows dedupe m handled).1

module _ (knows : String → Bool) where
  on_message-keeps :
      (m : Option EventEnvelope) (id : String) (handled : List String)
      → includes id handled ≡ true
      → includes id (on_message knows true m handled).1 ≡ true
  unfolding on_message
  on_message-keeps none id handled h = h
  on_message-keeps (some env) id handled h = elim (Option-cases env.event_id) [
    | inl missing ↦ ground (arith, missing, h)
    | inr (own, there) ↦ ground (arith, there, h)
  ]

  handled_after-keeps :
      (ms : List (Option EventEnvelope)) (id : String) (handled : List String)
      → includes id handled ≡ true
      → includes id (handled_after knows true ms handled) ≡ true
  unfolding handled_after
  handled_after-keeps [] id handled h = h
  handled_after-keeps (m ∷ ms) id handled h =
      handled_after-keeps ms id _ (on_message-keeps m id handled h)

  -- With BOT_EVENT_DEDUPE on, a message whose event has been handled has no reactions, whatever came in
  -- between: each event is handled once.
  pub on_message_once :
      (first again : EventEnvelope) (id : String) (ms : List (Option EventEnvelope))
      (handled : List String)
      → first.event_id ≡ some id
      → again.event_id ≡ some id
      → (on_message knows true (some again) (handled_after knows true (some first ∷ ms) handled)).0
        ≡ []
  unfolding on_message handled_after
  on_message_once first again id ms handled is_first is_again =
      let mid = (on_message knows true (some first) handled).1 in
      let there : includes id mid ≡ true = ground (arith, is_first, eq_refl id) in
      let kept = handled_after-keeps ms id mid there in ground (arith, is_again, kept)

module _ {T : Type 0} where
  forgets :
      (knows : String → Bool) (dedupe : Bool) (event_id : Option String) (guild : String)
      (handled : List String) (state : ClientState T)
      → (dedupe ≡ true → (id : String) → event_id ≡ some id → includes id handled ≡ false)
      → react_all
          (on_message knows dedupe
            (some record {
              event_id = event_id;
              type_ = some (type_name DomainEventType.server_config_updated);
              guild_id = some guild;
            })
            handled).0
          state
        ≡ invalidate_server_cache guild state
  unfolding on_message reactions react_all
  forgets knows false none guild handled state new = refl
  forgets knows false (some id) guild handled state new = refl
  forgets knows true none guild handled state new = refl
  forgets knows true (some id) guild handled state new = rw (new refl id refl) refl

  -- The event of a changed configuration, with or without an identifier, makes the bot forget the
  -- configuration of that guild, so that the next request that the API answers gives the new one,
  -- however fresh the old one was. Under BOT_EVENT_DEDUPE the event is one that was not handled yet.
  pub on_message-get_server :
      (env : ClientEnv) (knows : String → Bool) (dedupe : Bool) (event_id : Option String)
      (guild : String) (handled : List String) (now later : ℕ) (fetch : ℕ → Fetched T)
      (state : ClientState T) (t : T) (b : CircuitBreaker)
      → (dedupe ≡ true → (id : String) → event_id ≡ some id → includes id handled ≡ false)
      → request_json now later env.retry_max fetch state.circuit ≡ (got t, b)
      → (get_server env now later fetch guild (
          react_all
            (on_message knows dedupe
              (some record {
                event_id = event_id;
                type_ = some (type_name DomainEventType.server_config_updated);
                guild_id = some guild;
              })
              handled).0
            state)).0
        ≡ got t
  on_message-get_server env knows dedupe event_id guild handled now later fetch state t b new h =
      rw (forgets knows dedupe event_id guild handled state new)
        (get_server-invalidate_server_cache env now later fetch guild state t b h).0
