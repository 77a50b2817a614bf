-- ===== src/AdminGuilds/Tests.antt =====
-- A member synchronisation from its request to its end.
use protect_platform.Servers.{new_server}
use protect_platform.Entitlements.{set_member_sync_state}
use protect_platform.Samples.{state_or, empty_db, plain_js, env}
use protect_platform.AdminGuilds.{request_member_sync}
use protect_platform.Prelude.{update, refl, find, [], upsert, ok, ◌∷◌, ℕ, none, ◌≡◌, Result}
use protect_platform.Servers.Members.{
  batch_upsert_guild_members, GuildMemberBatchRow, mark_member_sync_idle,
}
use protect_platform.Store.{has_key, enqueue, Db}

abbrev with_server : Db
with_server = record empty_db { servers = new_server (env "join") "s1" "5" ∷ [] }

abbrev requested : Db
requested = (request_member_sync plain_js (env "request") "5" with_server).1

abbrev profile : GuildMemberBatchRow
profile = record { discord_user_id = "1"; username = none; global_name = none; avatar_hash = none }

abbrev filled : Result (ℕ × Db)
filled = batch_upsert_guild_members (env "batch") "SYNC" "5" (profile ∷ []) requested

abbrev ended : Result (Unit {0} × Db)
ended = mark_member_sync_idle (env "done") "5" (state_or empty_db filled)

is_filled :
    batch_upsert_guild_members (env "batch") "SYNC" "5" (profile ∷ []) requested
    ≡ ok (1, state_or empty_db filled)
unfolding batch_upsert_guild_members request_member_sync enqueue has_key upsert find
    set_member_sync_state update
is_filled = refl

is_ended :
    mark_member_sync_idle (env "done") "5" (state_or empty_db filled)
    ≡ ok (tt, state_or empty_db ended)
unfolding mark_member_sync_idle
is_ended = refl
