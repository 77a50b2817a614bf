-- ===== src/Shared/Events/Channels.antt =====
-- packages/shared/src/domain-events.ts: the recogniser of event types, and the channels.
use Prim.Native.String.{◌++◌}
use text.Mathlib.TextLemmas.{append_cancel_left}
use protect_platform.Prelude.{
  is_some, String, ◌≡◌, refl, sym, ap, ◌∙◌, ◌↔◌, inl, inr, Bool, true, false, ◌||◌, some, List, [],
  ◌∷◌, ◌==◌, arith, eq_iff, Bool-cases, any,
}
use protect_platform.Shared.Events.{
  parse_in, event_types, parse, DomainEventType, user_flagged, type_name, channel_for_event_type,
  is_domain_event_type,
}

parse-type_name : (t : DomainEventType) → parse (type_name t) ≡ some t
unfolding parse
parse-type_name user_flagged = refl
parse-type_name _ = refl

type_name-injective : (a b : DomainEventType) → type_name a ≡ type_name b → a ≡ b
type_name-injective a b h = ground (arith, parse-type_name a, parse-type_name b, ap parse h)

channel-eq : (t : DomainEventType) → channel_for_event_type t ≡ "protect:" ++ type_name t
unfolding channel_for_event_type
channel-eq user_flagged = refl
channel-eq _ = refl

known-sound_in :
    (ts : List DomainEventType) (s : String)
    → any (λ t. s == type_name t) ts ≡ true
    → (t : DomainEventType) × (s ≡ type_name t)
known-sound_in (t ∷ ts) s h = elim (Bool-cases (s == type_name t)) [
  | inl here ↦ (t, (eq_iff s (type_name t)).0 here)
  | inr there ↦ known-sound_in ts s (rw there at h)
]
known-sound_in [] s h = cc

or_false : (b : Bool) → (b || false) ≡ b
or_false true = refl
or_false false = refl

or_assoc : (a b c : Bool) → ((a || b) || c) ≡ (a || (b || c))
or_assoc true b c = refl
or_assoc false b c = refl

known-any : (s : String) → is_domain_event_type s ≡ any (λ t. s == type_name t) event_types
unfolding is_domain_event_type
known-any s = simp (or_false, or_assoc, is_domain_event_type)

known_complete : (t : DomainEventType) → is_domain_event_type (type_name t) ≡ true
unfolding is_domain_event_type
known_complete user_flagged = refl
known_complete _ = refl

-- The recogniser accepts exactly the names of the event types.
pub is_domain_event_type_iff :
    (s : String) → (is_domain_event_type s ≡ true) ↔ ((t : DomainEventType) × (s ≡ type_name t))
is_domain_event_type_iff s = (
  λ h. known-sound_in event_types s (sym (known-any s) ∙ h),
  λ w. let (t, e) = w in rw e (known_complete t),
)

-- Every event type has a channel of its own: `protect:` and its name.
pub channel_for_event_type_distinct :
    (a b : DomainEventType)
    → (channel_for_event_type a ≡ "protect:" ++ type_name a)
      × ((channel_for_event_type a ≡ channel_for_event_type b) ↔ (a ≡ b))
channel_for_event_type_distinct a b = (
  channel-eq a,
  (
    λ h.
        type_name-injective a b
          (append_cancel_left "protect:" _ _ (sym (channel-eq a) ∙ h ∙ channel-eq b)),
    λ e. ap channel_for_event_type e,
  ),
)

-- A text that passes the test of event types is one's name.
pub parse_known : (s : String) → is_domain_event_type s ≡ true → is_some (parse s) ≡ true
unfolding is_domain_event_type parse parse_in
parse_known s h = ground (arith, h)
