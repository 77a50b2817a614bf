-- ===== src/UserConsistency/Tests.antt =====
-- Runs of the check, and its theorems at a concrete input.
use protect_platform.UserConsistency.Aligned.{validate_lem}
use protect_platform.Policy.{level_from_score}
use protect_platform.Scores.{score_of}
use protect_platform.Users.{user_to_public, count_flags, find_user}
use protect_platform.Shared.Levels.{FlagLevel}
use protect_platform.Redis.{UserPublic, World}
use protect_platform.Prelude.{[], lookup, ◌∷◌, ◌↔◌, refl, true, some, ◌≡◌, find}
use protect_platform.Cache
use protect_platform.Samples.{empty_redis, policy, suspect, flagged}
use protect_platform.UserConsistency.{Issue, match_of, is_true, validate}

abbrev cached : UserPublic
cached = record {
  discord_id = "9";
  flag_score = 7;
  flag_level = FlagLevel.suspicious;
  flag_count = some 1;
  updated_at = 0;
  state_version = some 0;
}

-- The cache is behind the database.
abbrev behind : World
behind = record { db = flagged; redis = some (record empty_redis { users = ("9", cached) ∷ [] }) }

finds : (validate policy "9" behind).issues ≡ Issue.cache_differs ∷ []
unfolding validate find score_of count_flags level_from_score lookup Cache.get
finds = refl

there : find_user behind.db "9" ≡ some suspect
unfolding find
there = refl

validate_lem_example : ((validate policy "9" behind).aligned ≡ true) ↔ (
    (suspect.flag_score ≡ score_of "u" flagged.flags)
    × (suspect.flag_level ≡ level_from_score policy (score_of "u" flagged.flags))
    × (is_true (
          match_of
            (user_to_public suspect (count_flags "u" flagged.flags))
            (Cache.get behind.redis "9"))
        ≡ true))
validate_lem_example = validate_lem policy "9" suspect behind there
