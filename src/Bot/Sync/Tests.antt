-- ===== src/Bot/Sync/Tests.antt =====
-- A synchronisation of two members.
use protect_platform.Servers.{new_server}
use protect_platform.Store.{Db}
use protect_platform.Samples.{empty_db, env}
use protect_platform.Bot.Sync.Uploaded.{sync_guild_members_to_api-directory, uploads, applied}
use protect_platform.Servers.Members.{has_server, GuildMemberBatchRow}
use protect_platform.Bot.Sync.{sync_guild_members_to_api, SyncWorld}
use protect_platform.Servers.Members.Refined.{assign_all, directory}
use protect_platform.Prelude.{
  find, refl, length, All, ◌≡◌, ◌≤◌, false, [], true, ◌∷◌, none, some, String, List,
}

abbrev profile : String → GuildMemberBatchRow
profile user = record {
  discord_user_id = user;
  username = none;
  global_name = none;
  avatar_hash = none;
}

abbrev pair : List GuildMemberBatchRow
pair = profile "1" ∷ profile "2" ∷ []

abbrev world : SyncWorld
world = record {
  members = some pair;
  accepts = λ rows. true;
  accepts_done = true;
  can_alert = false;
  scan = λ ids. none;
}

abbrev with_server : Db
with_server = record empty_db { servers = new_server (env "join") "s1" "5" ∷ [] }

has_row : has_server "5" with_server ≡ true
unfolding find
has_row = refl

sync_guild_members_to_api-directory_example :
    (directory
        (applied
          (λ i. env "sync")
          0
          "5"
          (uploads (sync_guild_members_to_api world))
          with_server).members
      ≡ assign_all "SYNC" "5" pair (directory []))
    × All (λ batch. length batch ≤ 400) (uploads (sync_guild_members_to_api world))
sync_guild_members_to_api-directory_example =
    sync_guild_members_to_api-directory world (λ i. env "sync") "5" pair with_server refl has_row
      (λ batch. refl)
