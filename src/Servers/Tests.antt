-- ===== src/Servers/Tests.antt =====
-- Tests of the servers, with the theorems applied to one guild.
use protect_platform.Servers.Lifecycle.Rejoin.{rejoin_refused}
use protect_platform.Servers.Members.Refined.{
  batch_upsert_guild_members-directory, assign_all, directory,
}
use protect_platform.Servers.Configure.Merged.{upsert_config-get_by_guild_id, last_value}
use protect_platform.Samples.{empty_db, plain_js, value_or, env, state_or}
use protect_platform.Servers.Members.{has_server, batch_upsert_guild_members, GuildMemberBatchRow}
use protect_platform.Servers.{server_key, new_server, get_by_guild_id}
use protect_platform.Servers.Lifecycle.{leave, join, Snapshot, record_bot_guild_lifecycle}
use protect_platform.Servers.Configure.{assign, spread, upsert_config}
use protect_platform.Prelude.{
  String, refl, update, unique_violation, ◌≢◌, find, [], err, upsert, ok, ◌≡◌, ◌∷◌, none, true,
  some, List, Result, lookup,
}
use protect_platform.Store.{
  text_value, has_key, ActorKind, log_with_tx, flag_value, enqueue, Server, Config, Db,
}

abbrev hello : Snapshot
hello = record {
  guild_id = "5";
  discord_name = some "Five";
  icon_hash = none;
  approximate_member_count = some 12;
  owner_discord_id = none;
  vanity_url_code = none;
  premium_tier = none;
}

abbrev joined : Db
joined = state_or empty_db (record_bot_guild_lifecycle (env "join") none join hello empty_db)

abbrev left : Db
left = state_or joined (record_bot_guild_lifecycle (env "leave") none leave hello joined)

is_joined : record_bot_guild_lifecycle (env "join") none join hello empty_db ≡ ok (tt, joined)
unfolding record_bot_guild_lifecycle enqueue log_with_tx has_key upsert find
is_joined = refl

is_left : record_bot_guild_lifecycle (env "leave") none leave hello joined ≡ ok (tt, left)
unfolding record_bot_guild_lifecycle enqueue log_with_tx has_key upsert find update
is_left = refl

rejoin_refused_example :
    (record_bot_guild_lifecycle (env "again") none join hello left
      ≡ err (unique_violation "idempotency_key"))
    × ((s : Server) × (find server_key "5" left.servers ≡ some s) × (s.removed_at ≡ some 1000))
rejoin_refused_example =
    rejoin_refused (env "join") (env "leave") (env "again") none hello hello hello empty_db joined
      left tt tt refl refl is_joined is_left

abbrev change : Config
change = ("joinHoldEnabled", flag_value true) ∷ ("alertMinLevel", text_value "WATCH") ∷ []

abbrev configured : Result (Server × Db)
configured = upsert_config plain_js (env "config") "5" change "7" ActorKind.user joined

abbrev saved_row : Result (Server × Db) → Server
saved_row r = value_or (new_server (env "none") "none" "5") r

is_configured : configured ≡ ok (saved_row configured, state_or empty_db configured)
unfolding upsert_config spread assign record_bot_guild_lifecycle enqueue log_with_tx has_key upsert
    find update
is_configured = refl

upsert_config-get_by_guild_id_example :
    (lookup "alertMinLevel" (get_by_guild_id "5" (state_or empty_db configured)).config
      ≡ last_value "alertMinLevel" change
          (lookup "alertMinLevel" (get_by_guild_id "5" joined).config))
    × (◌≢◌ {A = String} "5" "6"
        → get_by_guild_id "6" (state_or empty_db configured) ≡ get_by_guild_id "6" joined)
upsert_config-get_by_guild_id_example =
    upsert_config-get_by_guild_id plain_js (env "config") "5" change "7" ActorKind.user joined
      (saved_row configured) (state_or empty_db configured) "alertMinLevel" "6" is_configured

abbrev batch : List GuildMemberBatchRow
batch =
    record { discord_user_id = "1"; username = some "one"; global_name = none; avatar_hash = none }
    ∷ record {
      discord_user_id = "1";
      username = some "uno";
      global_name = none;
      avatar_hash = none;
    }
    ∷ []

has_row : has_server "5" joined ≡ true
unfolding record_bot_guild_lifecycle enqueue has_key upsert find log_with_tx
has_row = refl

batch_upsert_guild_members-directory_example :
    (db' : Db) × (batch_upsert_guild_members (env "batch") "SYNC" "5" batch joined ≡ ok (2, db'))
    × (directory db'.members ≡ assign_all "SYNC" "5" batch (directory joined.members))
    × (db'.servers ≡ joined.servers)
batch_upsert_guild_members-directory_example =
    batch_upsert_guild_members-directory (env "batch") "SYNC" "5" batch joined has_row
