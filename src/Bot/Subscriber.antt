-- ===== src/Bot/Subscriber.antt =====
-- apps/bot/src/services/eventSubscriber.ts: what the bot does with the events that the dispatcher
-- publishes. The content of the messages to the administrators is left out.
use protect_platform.Bot.ApiClient.{invalidate_server_cache, ClientState}
use protect_platform.Prelude.{
  includes, none, ◌||◌, if◌then◌else◌, ◌&&◌, some, false, [], ◌==◌, ◌∷◌, Option, String, Bool, List,
}
pub mod Handled
mod Tests

abbrev pub channels : List String
channels =
    "protect:user.flagged" ∷ "protect:user.reported" ∷ "protect:user.updated"
    ∷ "protect:server.config.updated" ∷ "protect:report.pending" ∷ "protect:guild.members.sync"
    ∷ "protect:guild.metadata.refresh" ∷ "protect:guild.discovered"
    ∷ "protect:support.ticket.created" ∷ "protect:support.ticket.evidence_submitted"
    ∷ "protect:support.ticket.resolved" ∷ "protect:flag.removed" ∷ []

-- What is read of a message: none if it is malformed. A text that is empty and one that is missing
-- are the same.
pub record EventEnvelope : Type 0 where
  pub event_id : Option String
  pub type_ : Option String
  pub guild_id : Option String

pub data Reaction : Type 0 where
  sync_members unknown_guild push_snapshot : String → Reaction
  admin_feed : String → Reaction
  invalidate_cache : String → Reaction

abbrev is_ticket : String → Bool
is_ticket t =
    t == "support.ticket.created"
    || t == "support.ticket.evidence_submitted"
    || t == "support.ticket.resolved"

-- `knows` tells whether the bot can find a guild.
abbrev on_sync : (String → Bool) → Option String → List Reaction
on_sync knows none = []
on_sync knows (some guild) =
    if knows guild then sync_members guild ∷ [] else unknown_guild guild ∷ []

abbrev on_refresh : (String → Bool) → Option String → List Reaction
on_refresh knows none = []
on_refresh knows (some guild) = if knows guild then push_snapshot guild ∷ [] else []

abbrev on_other : Option String → List Reaction
on_other none = []
on_other (some guild) = invalidate_cache guild ∷ []

unfoldable pub reactions : (String → Bool) → Option String → Option String → List Reaction
reactions knows none guild = on_other guild
reactions knows (some t) guild =
    if t == "guild.members.sync"
    then on_sync knows guild
    else if t == "guild.metadata.refresh"
    then on_refresh knows guild
    else if t == "report.pending"
    then admin_feed t ∷ []
    else if is_ticket t
    then admin_feed t ∷ []
    else if t == "guild.discovered"
    then admin_feed t ∷ []
    else on_other guild

abbrev seen_before : Bool → List String → Option String → Bool
seen_before dedupe handled none = false
seen_before dedupe handled (some id) = dedupe && includes id handled

-- `SET … NX` of the event's marker, which lives for a day; its expiry is not modelled.
abbrev marked : Bool → List String → Option String → List String
marked dedupe handled none = handled
marked dedupe handled (some id) = if dedupe then id ∷ handled else handled

unfoldable pub on_message :
    (knows : String → Bool) (dedupe : Bool)
    → Option EventEnvelope
    → List String
    → List Reaction × List String
on_message knows dedupe none handled = ([], handled)
on_message knows dedupe (some env) handled =
    if seen_before dedupe handled env.event_id
    then ([], handled)
    else (reactions knows env.type_ env.guild_id, marked dedupe handled env.event_id)

-- What the reactions do to the cache of configurations.
unfoldable pub react_all : {T : Type 0} → List Reaction → ClientState T → ClientState T
react_all [] state = state
react_all (invalidate_cache guild ∷ rs) state = react_all rs (invalidate_server_cache guild state)
react_all (_ ∷ rs) state = react_all rs state
