-- ===== src/Users.antt =====
-- apps/api/src/users: the public view of a user row, and the cache reads and refreshes around it.
pub mod Flagged
use protect_platform.Prelude.{
  ℕ, suc, String, Bool, true, false, Option, none, some, List, [], ◌∷◌, ◌==◌, find, if◌then◌else◌,
}
use protect_platform.Shared.Levels.{clean}
use protect_platform.Store.{User, Flag, Db}
use protect_platform.Redis.{UserPublic, World}
use protect_platform.Cache

-- `_count: { select: { flags: true } }`
unfoldable pub count_flags : String → List Flag → ℕ
count_flags user_id [] = 0
count_flags user_id (f ∷ fs) =
    if f.user_id == user_id then suc (count_flags user_id fs) else count_flags user_id fs

-- user.mapper.ts; `stateVersion` is a column of every row
abbrev pub user_to_public : User → ℕ → UserPublic
user_to_public u flag_count = record {
  discord_id = u.discord_id;
  flag_score = u.flag_score;
  flag_level = u.flag_level;
  flag_count = some flag_count;
  updated_at = u.updated_at;
  state_version = some u.state_version;
}

-- The answer for a user that the database does not know.
abbrev pub unknown_public : ℕ → String → UserPublic
unknown_public now discord_id = record {
  discord_id = discord_id;
  flag_score = 0;
  flag_level = clean;
  flag_count = some 0;
  updated_at = now;
  state_version = none;
}

abbrev pub find_user : Db → String → Option User
find_user db discord_id = find (λ (u : User). u.discord_id) discord_id db.users

-- `getPublicByDiscordId`: the read of the database behind a cache miss.
from_database : ℕ → ℕ → Bool → String → Option User → World → UserPublic × World
from_database neg_ttl now skip_cache discord_id none w = (
  unknown_public now discord_id,
  if skip_cache
      then w
      else record w { redis = Cache.set_negative_marker neg_ttl w.redis discord_id },
)
from_database neg_ttl now skip_cache discord_id (some u) w =
    let public = user_to_public u (count_flags u.id w.db.flags) in
    (
      public,
      if skip_cache
          then w
          else record w { redis = Cache.set_authoritative w.redis discord_id public },
    )

from_cache : ℕ → ℕ → String → Option UserPublic → World → UserPublic × World
unfolding from_database
from_cache neg_ttl now discord_id (some cached) w = (cached, w)
from_cache neg_ttl now discord_id none w =
    if Cache.get_negative_marker neg_ttl w.redis discord_id
    then (unknown_public now discord_id, w)
    else from_database neg_ttl now false discord_id (find_user w.db discord_id) w

pub get_public_by_discord_id : ℕ → ℕ → Bool → String → World → UserPublic × World
unfolding from_cache
get_public_by_discord_id neg_ttl now true discord_id w =
    from_database neg_ttl now true discord_id (find_user w.db discord_id) w
get_public_by_discord_id neg_ttl now false discord_id w =
    from_cache neg_ttl now discord_id (Cache.get w.redis discord_id) w

abbrev refresh_row : String → Option User → World → World
refresh_row discord_id none w = record w { redis = Cache.invalidate w.redis discord_id }
refresh_row discord_id (some u) w = record w {
  redis =
      Cache.set_authoritative w.redis discord_id (user_to_public u (count_flags u.id w.db.flags));
}

-- `refreshPublicCache`, which `invalidateAndRefreshCache` and `UserConsistencyService.repair` call.
unfoldable pub refresh_public_cache : String → World → World
refresh_public_cache discord_id w = refresh_row discord_id (find_user w.db discord_id) w
