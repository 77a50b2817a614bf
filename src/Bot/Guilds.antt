-- ===== src/Bot/Guilds.antt =====
-- apps/bot/src/events/guildJoinLeave.ts: what the bot does when it is added to a guild or removed.
use protect_platform.Bot.Sync.{sync_guild_members_to_api, SyncStep, SyncWorld}
use protect_platform.Servers.Lifecycle.{join, leave, Snapshot, GuildEvent}
use protect_platform.Prelude.{
  arith, ◌&&◌, [], ◌∷◌, or_else, not, if◌then◌else◌, ◌≡◌, false, List, any, true, Bool, Option,
}

pub data GuildEffect : Type 0 where
  left_guild : GuildEffect
  told_lifecycle : GuildEvent → Snapshot → GuildEffect
  pushed_snapshot : Snapshot → GuildEffect
  synced : List SyncStep → GuildEffect

-- What the bot meets: the answer to the request for the guild's summary, whether it is blocked, none
-- if the request fails; whether the API takes the report of the join; and the synchronisation.
pub record GuildWorld : Type 0 where
  pub blacklisted : Option Bool
  pub takes_join : Bool
  pub sync : SyncWorld

-- A report of the join that fails ends the handler.
unfoldable pub on_guild_joined : GuildWorld → Snapshot → List GuildEffect
on_guild_joined world guild =
    if or_else world.blacklisted false
    then left_guild ∷ []
    else told_lifecycle join guild
      ∷ (if world.takes_join
          then pushed_snapshot guild ∷ synced (sync_guild_members_to_api world.sync) ∷ []
          else [])

pub on_guild_removed : Snapshot → List GuildEffect
on_guild_removed guild = told_lifecycle leave guild ∷ []

abbrev is_synced : GuildEffect → Bool
is_synced (synced steps) = true
is_synced _ = false

-- A guild that the API does not block, or whose summary cannot be read, is synchronised exactly if the
-- API takes the report of the join.
pub on_guild_joined-syncs :
    (world : GuildWorld) (guild : Snapshot)
    → any is_synced (on_guild_joined world guild)
      ≡ (not (or_else world.blacklisted false) && world.takes_join)
unfolding on_guild_joined
on_guild_joined-syncs world guild = ground arith
