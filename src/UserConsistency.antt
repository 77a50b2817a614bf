-- ===== src/UserConsistency.antt =====
-- apps/api/src/internal/user-consistency.service.ts: the check of a user's row against the flags and
-- the cache. A cached value that is no JSON is not modelled: only the cache service writes it.
mod Aligned
mod Tests
use protect_platform.Cache
use protect_platform.Scores.{score_of}
use protect_platform.Store.{User}
use protect_platform.Redis.{UserPublic, World}
use protect_platform.Shared.Levels.{level_name, FlagLevel}
use protect_platform.Policy.{level_from_score, FlagPolicy}
use protect_platform.Prelude.{
  or_else, ◌&&◌, is_some, none, some, ◌==◌, false, eqb, [], true, ℕ, ◌∷◌, Option, List, Bool,
  String,
}
use protect_platform.Users.{refresh_public_cache, find_user, user_to_public, count_flags}

pub data Issue : Type 0 where
  score_differs level_differs cache_differs : Issue

pub record UserConsistencyResult : Type 0 where
  pub aligned : Bool
  pub issues : List Issue
  pub flag_score : ℕ
  pub flag_level : FlagLevel
  pub flag_count : ℕ
  pub state_version : ℕ
  pub expected_score : ℕ
  pub expected_level : FlagLevel
  pub cache_present : Bool
  pub matches_db_public : Option Bool

abbrev pub level_eq : FlagLevel → FlagLevel → Bool
level_eq a b = level_name a == level_name b

-- The columns that are compared; a missing count or version counts as 0.
abbrev pub matches : UserPublic → UserPublic → Bool
matches parsed public =
    eqb parsed.flag_score public.flag_score
    && level_eq parsed.flag_level public.flag_level
    && eqb (or_else parsed.flag_count 0) (or_else public.flag_count 0)
    && eqb (or_else parsed.state_version 0) (or_else public.state_version 0)

abbrev pub match_of : UserPublic → Option UserPublic → Option Bool
match_of public none = none
match_of public (some parsed) = some (matches parsed public)

abbrev pub is_true : Option Bool → Bool
is_true none = true
is_true (some b) = b

abbrev issue_unless : Bool → Issue → List Issue → List Issue
issue_unless true i rest = rest
issue_unless false i rest = i ∷ rest

abbrev has_no_issues : List Issue → Bool
has_no_issues [] = true
has_no_issues (i ∷ is) = false

abbrev issues_of : FlagPolicy → User → ℕ → Option Bool → List Issue
issues_of policy u expected cache = issue_unless (eqb u.flag_score expected) Issue.score_differs (
    issue_unless (level_eq u.flag_level (level_from_score policy expected)) Issue.level_differs
      (issue_unless (is_true cache) Issue.cache_differs []))

abbrev checked : FlagPolicy → User → ℕ → ℕ → Option Bool → UserConsistencyResult
checked policy u expected count cache = record {
  aligned = has_no_issues (issues_of policy u expected cache);
  issues = issues_of policy u expected cache;
  flag_score = u.flag_score;
  flag_level = u.flag_level;
  flag_count = count;
  state_version = u.state_version;
  expected_score = expected;
  expected_level = level_from_score policy expected;
  cache_present = is_some cache;
  matches_db_public = cache;
}

abbrev pub validate_user : FlagPolicy → Option User → String → World → UserConsistencyResult
validate_user policy none discord_id w = record {
  aligned = true;
  issues = [];
  flag_score = 0;
  flag_level = FlagLevel.clean;
  flag_count = 0;
  state_version = 0;
  expected_score = 0;
  expected_level = FlagLevel.clean;
  cache_present = false;
  matches_db_public = none;
}
validate_user policy (some u) discord_id w =
    let count = count_flags u.id w.db.flags in
    checked policy u (score_of u.id w.db.flags) count
      (match_of (user_to_public u count) (Cache.get w.redis discord_id))

pub validate : FlagPolicy → String → World → UserConsistencyResult
validate policy discord_id w = validate_user policy (find_user w.db discord_id) discord_id w

pub repair : String → World → World
repair discord_id w = refresh_public_cache discord_id w
