-- ===== src/Flags/Admin/Listed.antt =====
-- apps/api/src/admin/admin-flags.service.ts: `listForUser`.
use protect_platform.Scores.{discord_key}
use protect_platform.Shared.Levels.{FlagLevel}
use protect_platform.Prelude.{
  keep, sort_desc, map, not_found, find, List, Option, ◌==◌, Bool, ℕ, String,
}
use protect_platform.Store.{found, gets, FlagSource, ◌>>=◌, Tx, Flag}

pub record FlagItem : Type 0 where
  pub id : String
  pub weight : ℕ
  pub reason : String
  pub source : FlagSource
  pub actor_discord_id : String
  pub guild_id : Option String
  pub created_at : ℕ

abbrev flag_item : Flag → FlagItem
flag_item f = record {
  id = f.id;
  weight = f.weight;
  reason = f.reason;
  source = f.source;
  actor_discord_id = f.actor_discord_id;
  guild_id = f.guild_id;
  created_at = f.created_at;
}

pub record UserFlags : Type 0 where
  pub discord_id : String
  pub flag_score : ℕ
  pub flag_level : FlagLevel
  pub items : List FlagItem

abbrev has_user : String → Flag → Bool
has_user id f = f.user_id == id

abbrev flag_time : Flag → ℕ
flag_time f = f.created_at

pub list_for_user : String → Tx UserFlags
list_for_user target = do
  row ← gets (λ db. find discord_key target db.users)
  user ← found row (not_found "User not found")
  gets (λ db. record {
    discord_id = user.discord_id;
    flag_score = user.flag_score;
    flag_level = user.flag_level;
    items = map flag_item (sort_desc flag_time (keep (has_user user.id) db.flags));
  })
