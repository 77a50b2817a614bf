-- ===== src/Servers/Members.antt =====
-- apps/api/src/servers/servers.service.ts: the members of a guild, the scan for elevated users, and
-- the guilds that are blocked.
pub mod Refined
use protect_platform.Store.{check, Server, gets, ◌>>=◌, ◌>>◌}
use protect_platform.Entitlements.{set_member_sync_state, guild_key}
use protect_platform.Users.{count_flags}
use protect_platform.Shared.Levels.{level_name, should_alert_user_level, FlagLevel}
use protect_platform.Store.{
  pure, MemberSyncState, modify, User, Tx, GuildEntitlement, GuildMemberCache, Env, GuildBlacklist,
  Db,
}
use protect_platform.Prelude.{
  foreign_key_violation, upsert, length, includes, none, [], find, ◌&&◌, suc, update, ◌==◌, is_some,
  keep, some, ◌∷◌, false, true, if◌then◌else◌, ℕ, Bool, map, create, Option, String, List,
}

pub record GuildMemberBatchRow : Type 0 where
  pub discord_user_id : String
  pub username : Option String
  pub global_name : Option String
  pub avatar_hash : Option String

-- `guildId_discordUserId`, the unique index.
abbrev pub is_member : String → String → GuildMemberCache → Bool
is_member guild user m = m.guild_id == guild && m.discord_user_id == user

abbrev pub new_member : Env → ℕ → String → String → GuildMemberBatchRow → GuildMemberCache
new_member env i source guild row = record {
  id = env.uuid i;
  guild_id = guild;
  discord_user_id = row.discord_user_id;
  username = row.username;
  global_name = row.global_name;
  avatar_hash = row.avatar_hash;
  first_seen_at = env.now;
  source = source;
}

abbrev pub renewed_member : String → GuildMemberBatchRow → GuildMemberCache → GuildMemberCache
renewed_member source row m = record m {
  username = row.username;
  global_name = row.global_name;
  avatar_hash = row.avatar_hash;
  source = source;
}

-- The row of the index is changed where it is, or a new one is put behind the others.
unfoldable pub upsert_member :
    Env → ℕ → String → String → GuildMemberBatchRow → List GuildMemberCache → List GuildMemberCache
upsert_member env i source guild row [] = new_member env i source guild row ∷ []
upsert_member env i source guild row (m ∷ ms) =
    let rest = upsert_member env i source guild row ms in
    if is_member guild row.discord_user_id m then renewed_member source row m ∷ ms else m ∷ rest

unfoldable pub upsert_members :
    Env
    → ℕ
    → String
    → String
    → List GuildMemberBatchRow
    → List GuildMemberCache
    → List GuildMemberCache
upsert_members env i source guild [] ms = ms
upsert_members env i source guild (row ∷ rows) ms =
    upsert_members env (suc i) source guild rows (upsert_member env i source guild row ms)

abbrev pub is_queued : Option GuildEntitlement → Bool
is_queued none = false
is_queued (some e) = elim e.member_sync_state [ MemberSyncState.queued ↦ true | _ ↦ false ]

-- A queued synchronisation runs from its first batch on.
abbrev pub start_sync : String → Tx (Unit {0})
start_sync guild db =
    if is_queued (find guild_key guild db.entitlements)
    then set_member_sync_state guild MemberSyncState.running db
    else pure tt db

abbrev is_empty_batch : List GuildMemberBatchRow → Bool
is_empty_batch [] = true
is_empty_batch (row ∷ rows) = false

-- The foreign key `guild_member_cache.guild_id` of schema.prisma.
abbrev pub has_server : String → Db → Bool
has_server guild db = is_some (find (λ (s : Server). s.guild_id) guild db.servers)

-- RUNNING is written before the transaction, and stays where the foreign key refuses the members; the
-- error value does not show it.
abbrev pub save_members : Env → String → String → List GuildMemberBatchRow → Tx ℕ
save_members env source guild rows = do
  start_sync guild
  known ← gets (has_server guild)
  check known (foreign_key_violation "guild_id")
  modify (λ db. record db { members = upsert_members env 0 source guild rows db.members })
  pure (length rows)

unfoldable pub batch_upsert_guild_members : Env → String → String → List GuildMemberBatchRow → Tx ℕ
batch_upsert_guild_members env source guild rows db =
    if is_empty_batch rows then pure 0 db else save_members env source guild rows db

unfoldable pub mark_member_sync_idle : Env → String → Tx (Unit {0})
mark_member_sync_idle env guild = modify (λ db. record db {
  entitlements =
      update guild_key guild
        (λ e. record e {
          member_sync_state = MemberSyncState.idle;
          last_member_sync_at = some env.now;
        })
        db.entitlements;
})

pub record Hit : Type 0 where
  pub discord_id : String
  pub flag_level : FlagLevel
  pub flag_score : ℕ
  pub flag_count : ℕ

abbrev hit_of : Db → User → Hit
hit_of db u = record {
  discord_id = u.discord_id;
  flag_level = u.flag_level;
  flag_score = u.flag_score;
  flag_count = count_flags u.id db.flags;
}

-- The `Set` of the identifiers only makes the query shorter.
unfoldable pub scan_discord_ids : List String → Option String → Db → List Hit
scan_discord_ids ids min_level db = map (hit_of db) (
    keep (λ u. should_alert_user_level (level_name u.flag_level) min_level)
      (keep (λ u. includes u.discord_id ids) db.users))

abbrev pub black_key : GuildBlacklist → String
black_key b = b.guild_id

unfoldable pub is_guild_blacklisted : String → Db → Bool
is_guild_blacklisted guild db = is_some (find black_key guild db.blacklist)

unfoldable pub add_guild_blacklist : String → String → Option String → Tx (Unit {0})
add_guild_blacklist guild by reason =
    let row : GuildBlacklist = record {
      guild_id = guild;
      reason = reason;
      created_by_discord_id = some by;
    } in
    modify (λ db. record db { blacklist = upsert black_key guild row (λ b. row) db.blacklist })
