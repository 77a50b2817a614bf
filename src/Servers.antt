-- ===== src/Servers.antt =====
-- apps/api/src/servers/servers.service.ts: the servers that the bot is in, their configuration and
-- what Discord says of them.
use protect_platform.Store.{
  num_value, text_value, flag_value, modify, ConfigValue, Tx, Config, Server, Env, Db,
}
use protect_platform.Prelude.{
  upsert, update, ltb, some, if◌then◌else◌, none, Bool, [], ◌∷◌, map, ℕ, create, find, lookup, List,
  Option, String,
}
pub mod Configure
pub mod Lifecycle
pub mod Members
mod Tests

abbrev pub server_key : Server → String
server_key s = s.guild_id

-- A row that only names the guild: `create: { guildId }`.
abbrev pub new_server : Env → String → String → Server
new_server env id guild = record {
  id = id;
  guild_id = guild;
  config = [];
  discord_name = none;
  icon_hash = none;
  approximate_member_count = none;
  bot_joined_at = none;
  removed_at = none;
  owner_discord_id = none;
  vanity_url_code = none;
  premium_tier = none;
  updated_at = env.now;
}

abbrev pub save_server : Server → (Server → Server) → Db → Db
save_server row change db = record db {
  servers = upsert server_key row.guild_id row change db.servers;
}

-- An upsert with an empty update.
abbrev pub upsert_server : Env → String → String → Tx (Unit {0})
upsert_server env id guild = modify (save_server (new_server env id guild) (λ s. s))

pub record ServerView : Type 0 where
  pub guild_id : String
  pub config : Config
  pub updated_at : Option ℕ

abbrev view_of : String → Option Server → ServerView
view_of guild none = record { guild_id = guild; config = []; updated_at = none }
view_of guild (some s) = record {
  guild_id = guild;
  config = s.config;
  updated_at = some s.updated_at;
}

unfoldable pub get_by_guild_id : String → Db → ServerView
get_by_guild_id guild db = view_of guild (find server_key guild db.servers)

-- `typeof v === 'string' ? v : null`, and so on.
abbrev as_text : Option ConfigValue → Option String
as_text (some (text_value s)) = some s
as_text _ = none

abbrev as_flag : Option ConfigValue → Option Bool
as_flag (some (flag_value b)) = some b
as_flag _ = none

abbrev as_num : Option ConfigValue → Option ℕ
as_num (some (num_value n)) = some n
as_num _ = none

pub record Summary : Type 0 where
  pub guild_id : String
  pub updated_at : ℕ
  pub alert_channel_id : Option String
  pub alert_min_level : Option String
  pub join_hold_enabled : Option Bool
  pub join_hold_duration_minutes : Option ℕ
  pub join_hold_min_level : Option String
  pub join_action_policy : Option String

abbrev pub summary_of : Server → Summary
summary_of s = record {
  guild_id = s.guild_id;
  updated_at = s.updated_at;
  alert_channel_id = as_text (lookup "alertChannelId" s.config);
  alert_min_level = as_text (lookup "alertMinLevel" s.config);
  join_hold_enabled = as_flag (lookup "joinHoldEnabled" s.config);
  join_hold_duration_minutes = as_num (lookup "joinHoldDurationMinutes" s.config);
  join_hold_min_level = as_text (lookup "joinHoldMinLevel" s.config);
  join_action_policy = as_text (lookup "joinActionPolicy" s.config);
}

-- `orderBy: { updatedAt: 'desc' }`: a row goes behind those that are not older.
abbrev insert_by_update : Server → List Server → List Server
insert_by_update s [] = s ∷ []
insert_by_update s (t ∷ ts) =
    let rest = insert_by_update s ts in
    if ltb t.updated_at s.updated_at then s ∷ t ∷ ts else t ∷ rest

abbrev pub newest_first : List Server → List Server
newest_first [] = []
newest_first (s ∷ ss) = insert_by_update s (newest_first ss)

pub list_summaries : Db → List Summary
list_summaries db = map summary_of (newest_first db.servers)
