-- ===== src/Servers/Configure.antt =====
-- apps/api/src/servers/servers.service.ts: `upsertConfig`, a change of a guild's configuration.
pub mod Merged
use protect_platform.Shared.Events.{DomainEventType}
use protect_platform.Servers.{new_server, save_server, server_key}
use protect_platform.Store.{
  Json, found, pure, text, modify, enqueue, AuditAction, gets, log_with_tx, ◌>>=◌, ◌>>◌,
}
use Prim.Native.String.{◌++◌}
use protect_platform.Prelude.{
  not_found, find, ◌==◌, if◌then◌else◌, [], ◌∷◌, some, none, Option, String,
}
use protect_platform.Store.{Tx, ConfigValue, Server, ActorKind, Env, Config}
use protect_platform.Js.{Js}

-- `{ ...prev, [k]: v }`: a key that is there keeps its place.
unfoldable pub assign : String → ConfigValue → Config → Config
assign k v [] = (k, v) ∷ []
assign k v ((j, w) ∷ c) = let rest = assign k v c in if j == k then (k, v) ∷ c else (j, w) ∷ rest

-- `{ ...prev, ...next }`
unfoldable pub spread : Config → Config → Config
spread prev [] = prev
spread prev ((k, v) ∷ next) = spread (assign k v prev) next

abbrev pub config_of : Option Server → Config
config_of none = []
config_of (some s) = s.config

abbrev by_actor : ActorKind → String → Option String
by_actor ActorKind.bot actor = none
by_actor _ actor = some actor

abbrev pub with_config : Env → Config → Server → Server
with_config env next s = record s { config = next; updated_at = env.now }

-- The time of the change stands for itself in place of its ISO text.
abbrev config_key : Js → Server → String
config_key js s = "server.config.updated:" ++ s.id ++ ":" ++ js.decimal s.updated_at

-- What the transaction writes after the row: the audit row and the event.
abbrev pub announce_config : Js → Env → Config → String → ActorKind → Server → Tx Server
announce_config js env next actor kind row = do
  log_with_tx env record {
    action = AuditAction.server_config_updated;
    entity_type = "server";
    entity_id = row.guild_id;
    target_id = some row.guild_id;
    actor_discord_id = by_actor kind actor;
    actor_kind = kind;
    metadata = ("config", Json.config next) ∷ [];
  }
  enqueue env (env.uuid 1) record {
    event_type = DomainEventType.server_config_updated;
    payload = ("guildId", text row.guild_id) ∷ [];
    idempotency_key = some (config_key js row);
  }
  pure row

-- The source reads the old configuration before its transaction; here the two are one step.
unfoldable pub upsert_config : Js → Env → String → Config → String → ActorKind → Tx Server
upsert_config js env guild dto actor kind = do
  prev ← gets (λ db. config_of (find server_key guild db.servers))
  let next = spread prev dto
  modify (
      save_server (record (new_server env (env.uuid 0) guild) { config = next })
        (with_config env next))
  saved ← gets (λ db. find server_key guild db.servers)
  row ← found saved (not_found "server")
  announce_config js env next actor kind row
