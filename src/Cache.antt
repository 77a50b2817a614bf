-- ===== src/Cache.antt =====
-- apps/api/src/cache/user-cache.service.ts: the Redis copies of public user rows. A null client
-- makes every write a no-op and every read a miss. Metrics are not modelled, nor a value that is
-- no JSON: only this service writes the keys.
pub mod Versions
mod Tests
use protect_platform.Prelude.{
  ℕ, String, Bool, false, Option, none, some, ◌==◌, ltb, or_else, lookup, put, delete,
  if◌then◌else◌,
}
use protect_platform.Redis.{UserPublic, Redis}

unfoldable pub get : Option Redis → String → Option UserPublic
get none id = none
get (some r) id = lookup id r.users

-- `neg_ttl` is `USER_NEGATIVE_CACHE_TTL_SEC`, 30 by default.
abbrev is_one : Option String → Bool
is_one none = false
is_one (some v) = v == "1"

pub get_negative_marker : ℕ → Option Redis → String → Bool
get_negative_marker neg_ttl none id = false
get_negative_marker neg_ttl (some r) id =
    if ltb 0 neg_ttl then is_one (lookup id r.negatives) else false

pub set_negative_marker : ℕ → Option Redis → String → Option Redis
set_negative_marker neg_ttl none id = none
set_negative_marker neg_ttl (some r) id =
    if ltb 0 neg_ttl then some (record r { negatives = put id "1" r.negatives }) else some r

abbrev write : Redis → String → ℕ → UserPublic → Redis
write r id version value = record r {
  versions = put id version r.versions;
  users = put id value r.users;
  negatives = delete id r.negatives;
}

unfoldable pub set_authoritative : Option Redis → String → UserPublic → Option Redis
set_authoritative none id value = none
set_authoritative (some r) id value = some (write r id (or_else value.state_version 0) value)

-- The Lua script `SET_IF_NEWER_LUA`, which Redis runs atomically.
abbrev is_stale : ℕ → Option ℕ → Bool
is_stale version none = false
is_stale version (some cur) = ltb version cur

unfoldable pub set_if_newer : Option Redis → String → UserPublic → Option Redis
set_if_newer none id value = none
set_if_newer (some r) id value =
    let version = or_else value.state_version 0 in
    if is_stale version (lookup id r.versions) then some r else some (write r id version value)

unfoldable pub invalidate : Option Redis → String → Option Redis
invalidate none id = none
invalidate (some r) id = some (record r {
  users = delete id r.users;
  versions = delete id r.versions;
  negatives = delete id r.negatives;
})
