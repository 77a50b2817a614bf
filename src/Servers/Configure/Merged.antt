-- ===== src/Servers/Configure/Merged.antt =====
-- apps/api/src/servers/servers.service.ts: a change of the configuration replaces the values it
-- names and keeps the others.
use protect_platform.Servers.{server_key, new_server, get_by_guild_id, save_server}
use protect_platform.Store.{
  required-ok, log_with_tx, Server, enqueue, Db, ConfigValue, ActorKind, Env, Config,
}
use protect_platform.Js.{Js}
use protect_platform.Prelude.{
  [], ◌∷◌, eq_iff, inr, inl, Option-cases, eq_refl, refl, not_found, ◌≢◌, find-upsert, row_or,
  arith, ok, some, find, ◌==◌, if◌then◌else◌, ◌≡◌, Option, lookup, String,
}
use protect_platform.Servers.Configure.{
  announce_config, with_config, upsert_config, config_of, spread, assign,
}

lookup-assign :
    (k j : String) (v : ConfigValue) (c : Config)
    → lookup j (assign k v c) ≡ (if k == j then some v else lookup j c)
unfolding assign lookup
lookup-assign k j v [] = ground arith
lookup-assign k j v ((i, w) ∷ c) =
    ground (arith, lookup-assign k j v c, eq_iff i k, eq_iff i j, eq_iff k j)

-- The last value that a list of changes gives a key, and the old one if it gives none.
unfoldable pub last_value : String → Config → Option ConfigValue → Option ConfigValue
last_value j [] old = old
last_value j ((k, v) ∷ next) old = last_value j next (if k == j then some v else old)

lookup-spread :
    (j : String) (prev next : Config)
    → lookup j (spread prev next) ≡ last_value j next (lookup j prev)
unfolding spread last_value
lookup-spread j prev [] = refl
lookup-spread j prev ((k, v) ∷ next) =
    rw (lookup-spread j (assign k v prev) next, lookup-assign k j v prev) refl

module _ (js : Js) (env : Env) (guild : String) (dto : Config) (actor : String) (kind : ActorKind)
    (db : Db) where
  abbrev next_config : Config
  next_config = spread (config_of (find server_key guild db.servers)) dto

  -- The rows of the servers when the transaction has written the configuration.
  abbrev saved_db : Db
  saved_db =
      save_server (record (new_server env (env.uuid 0) guild) { config = next_config })
        (with_config env next_config) db

  saved_db-find :
      (g : String)
      → find server_key g saved_db.servers ≡ (
          if guild == g
          then some (
              row_or
                (record (new_server env (env.uuid 0) guild) { config = next_config })
                (with_config env next_config)
                (find server_key guild db.servers))
          else find server_key g db.servers)
  saved_db-find g =
      find-upsert server_key guild g
        (record (new_server env (env.uuid 0) guild) { config = next_config })
        (with_config env next_config) db.servers refl (λ s. refl)

  upsert_config-servers :
      (row : Server) (db' : Db)
      → upsert_config js env guild dto actor kind db ≡ ok (row, db')
      → db'.servers ≡ saved_db.servers
  unfolding upsert_config enqueue log_with_tx
  upsert_config-servers row db' h =
      let (saved, there, h1) =
        required-ok (find server_key guild saved_db.servers) (not_found "server")
          (announce_config js env next_config actor kind) saved_db h in
      ground (arith, h1)

  -- After a change of a guild's configuration each name has the value that the change gives it last,
  -- or the value it had before if the change does not give it, and no other guild's view changes.
  pub upsert_config-get_by_guild_id :
      (row : Server) (db' : Db) (j g : String)
      → upsert_config js env guild dto actor kind db ≡ ok (row, db')
      → (lookup j (get_by_guild_id guild db').config
          ≡ last_value j dto (lookup j (get_by_guild_id guild db).config))
        × (guild ≢ g → get_by_guild_id g db' ≡ get_by_guild_id g db)
  unfolding get_by_guild_id
  upsert_config-get_by_guild_id row db' j g h =
      let written = upsert_config-servers row db' h in
      let mine = lookup-spread j (config_of (find server_key guild db.servers)) dto in
      (
        rw (written, saved_db-find guild, eq_refl guild)
            (elim (Option-cases (find server_key guild db.servers)) [
              | inl missing ↦ ground (arith, missing, mine)
              | inr (s, there) ↦ ground (arith, there, mine)
            ]),
        λ other. rw (written, saved_db-find g) (ground (arith, eq_iff guild g, other)),
      )
