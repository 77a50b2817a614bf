-- ===== src/Cache/Tests.antt =====
-- Runs of the cache, and the theorems at concrete inputs.
use protect_platform.Shared.Levels.{suspicious}
use protect_platform.Cache.{set_authoritative, get, set_if_newer}
use protect_platform.Redis.{UserPublic}
use protect_platform.Prelude.{refl, [], put, ◌∷◌, some, arith, ◌≡◌, List, lookup}
use protect_platform.Cache.Versions.{CacheWrite, IsCoherent, write_all}
use protect_platform.Samples.{empty_redis}

abbrev version_3 : UserPublic
version_3 = record {
  discord_id = "9";
  flag_score = 4;
  flag_level = suspicious;
  flag_count = some 2;
  updated_at = 7;
  state_version = some 3;
}

abbrev version_2 : UserPublic
version_2 = record version_3 { flag_score = 1; state_version = some 2 }

abbrev writes : List CacheWrite
writes = CacheWrite.if_newer "9" version_3 ∷ CacheWrite.if_newer "9" version_2 ∷ []

abbrev overwritten : List CacheWrite
overwritten = CacheWrite.if_newer "9" version_3 ∷ CacheWrite.authoritative "9" version_2 ∷ []

-- An authoritative write that comes late puts back an older version.
late_write_taken : get (some (write_all empty_redis overwritten)) "9" ≡ some version_2
unfolding write_all set_if_newer set_authoritative get lookup put
late_write_taken = refl

late_write_ignored : get (some (write_all empty_redis writes)) "9" ≡ some version_3
unfolding write_all set_if_newer get lookup put
late_write_ignored = refl

empty-IsCoherent : IsCoherent empty_redis
unfolding lookup
empty-IsCoherent = record { at = λ id value h. ground arith }
