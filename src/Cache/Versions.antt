-- ===== src/Cache/Versions.antt =====
-- apps/api/src/cache/user-cache.service.ts: a cached row never goes back to an older version.
use protect_platform.Prelude.{
  ℕ, String, Bool, true, false, ◌≡◌, Option, none, some, List, [], ◌∷◌, ◌==◌, arith, or_else,
  lookup, lookup-put, lookup-delete, max, if◌then◌else◌,
}
use protect_platform.Redis.{UserPublic, Redis}
use protect_platform.Cache.{write, set_if_newer, set_authoritative, invalidate}

-- The version that Redis holds for a user, 0 if it holds none.
abbrev pub version_in : Redis → String → ℕ
version_in r id = or_else (lookup id r.versions) 0

abbrev version_of : UserPublic → ℕ
version_of value = or_else value.state_version 0

abbrev pub client : Redis → Option Redis → Redis
client r none = r
client r (some r') = r'

-- A write of a request: reports and approvals write a row that is newer, flags, their changes by an
-- admin and reads that miss the cache write the row whatever is there.
pub data CacheWrite : Type 0 where
  if_newer authoritative : String → UserPublic → CacheWrite

abbrev written : Redis → CacheWrite → Redis
written r (if_newer id value) = client r (set_if_newer (some r) id value)
written r (authoritative id value) = client r (set_authoritative (some r) id value)

-- The writes of concurrent requests, of both kinds, in the order in which Redis runs them.
unfoldable pub write_all : Redis → List CacheWrite → Redis
write_all r [] = r
write_all r (x ∷ writes) = write_all (written r x) writes

-- The version that stands last: an authoritative write of the user's row starts anew with its own
-- version, and from there on the greatest version that is offered counts.
pub newest : String → ℕ → List CacheWrite → ℕ
newest id acc [] = acc
newest id acc (if_newer j value ∷ writes) =
    newest id (if j == id then max acc (version_of value) else acc) writes
newest id acc (authoritative j value ∷ writes) =
    newest id (if j == id then version_of value else acc) writes

abbrev pub is_authoritative_for : String → CacheWrite → Bool
is_authoritative_for id (if_newer j value) = false
is_authoritative_for id (authoritative j value) = j == id

-- A cached row carries the version that is stored beside it.
pub record IsCoherent (r : Redis) : Type 0 where
  pub at :
      (id : String) (value : UserPublic)
      → lookup id r.users ≡ some value
      → lookup id r.versions ≡ some (version_of value)

write-IsCoherent :
    (r : Redis) (id : String) (value : UserPublic)
    → IsCoherent r
    → IsCoherent (write r id (version_of value) value)
write-IsCoherent r id value c = record {
  at = λ j v h. ground (
    arith,
    lookup-put id j value r.users,
    lookup-put id j (version_of value) r.versions,
    c.at j v,
  );
}

delete-IsCoherent :
    (r : Redis) (id : String) → IsCoherent r → IsCoherent (client r (invalidate (some r) id))
unfolding invalidate
delete-IsCoherent r id c = record {
  at = λ j v h. ground (arith, lookup-delete id j r.users, lookup-delete id j r.versions, c.at j v);
}

either-IsCoherent :
    (r s : Redis) (b : Bool)
    → IsCoherent r
    → IsCoherent s
    → IsCoherent (client r (if b then some r else some s))
either-IsCoherent r s true c d = c
either-IsCoherent r s false c d = d

-- Every write of the cache keeps each cached row beside its own version.
pub cache-IsCoherent :
    (r : Redis) (id : String) (value : UserPublic)
    → IsCoherent r
    → IsCoherent (client r (set_if_newer (some r) id value))
      × IsCoherent (client r (set_authoritative (some r) id value))
      × IsCoherent (client r (invalidate (some r) id))
unfolding set_if_newer set_authoritative
cache-IsCoherent r id value c = (
  either-IsCoherent r _ _ c (write-IsCoherent r id value c),
  write-IsCoherent r id value c,
  delete-IsCoherent r id c,
)
