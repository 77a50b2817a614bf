-- ===== src/UserConsistency/Aligned.antt =====
-- apps/api/src/internal/user-consistency.service.ts: what the check accepts, and what the repair mends.
use protect_platform.Cache
use protect_platform.Scores.{score_of}
use protect_platform.Scores.Consistency.{IsConsistent}
use protect_platform.Redis.{Redis, UserPublic, World}
use protect_platform.Store.{User}
use protect_platform.Users.{count_flags, user_to_public, find_user, refresh_public_cache}
use protect_platform.Prelude.{
  eq_refl, lookup-put, none, Option, inr, refl, ◌==◌, inl, if◌then◌else◌, Option-cases, eq_iff,
  arith, ◌↔◌, some, true, ◌≡◌, String,
}
use protect_platform.Policy.{level_from_score, FlagPolicy}
use protect_platform.Shared.Levels.{level_name, FlagLevel}
use protect_platform.UserConsistency.{matches, match_of, is_true, level_eq, repair, validate}

level_of_name : String → FlagLevel
level_of_name s =
    if s == "CLEAN"
    then FlagLevel.clean
    else if s == "WATCH"
    then FlagLevel.watch
    else if s == "SUSPICIOUS"
    then FlagLevel.suspicious
    else if s == "HIGH_RISK"
    then FlagLevel.high_risk
    else FlagLevel.confirmed_cheater

named : (a : FlagLevel) → level_of_name (level_name a) ≡ a
unfolding level_of_name
named FlagLevel.clean = refl
named _ = refl

level_eq_iff : (a b : FlagLevel) → (level_eq a b ≡ true) ↔ (a ≡ b)
level_eq_iff a b = ground (arith, eq_iff (level_name a) (level_name b), named a, named b)

-- The check accepts a user's row exactly when the score is the sum of the effective weights of the
-- user's flags, the level is the policy's for that sum, and a cached copy, if there is one, agrees.
pub validate_lem :
    (policy : FlagPolicy) (discord_id : String) (u : User) (w : World)
    → find_user w.db discord_id ≡ some u
    → ((validate policy discord_id w).aligned ≡ true) ↔ (
        (u.flag_score ≡ score_of u.id w.db.flags)
        × (u.flag_level ≡ level_from_score policy (score_of u.id w.db.flags))
        × (is_true (
              match_of
                (user_to_public u (count_flags u.id w.db.flags))
                (Cache.get w.redis discord_id))
            ≡ true))
unfolding validate
validate_lem policy discord_id u w there =
    ground
      (arith, there, level_eq_iff u.flag_level (level_from_score policy (score_of u.id w.db.flags)))

matches_self : (p : UserPublic) → matches p p ≡ true
matches_self p = ground (arith, eq_refl (level_name p.flag_level))

cached :
    (redis : Option Redis) (discord_id : String) (p : UserPublic)
    → is_true (match_of p (Cache.get (Cache.set_authoritative redis discord_id p) discord_id))
      ≡ true
unfolding Cache.get Cache.set_authoritative
cached none discord_id p = refl
cached (some r) discord_id p =
    ground (arith, lookup-put discord_id discord_id p r.users, eq_refl discord_id, matches_self p)

unknown :
    (policy : FlagPolicy) (discord_id : String) (w : World)
    → find_user w.db discord_id ≡ none
    → (validate policy discord_id w).aligned ≡ true
unfolding validate
unknown policy discord_id w missing = ground (arith, missing)

-- After a repair the check accepts every user, where the invariant between users and flags holds.
pub repair-validate :
    (policy : FlagPolicy) (discord_id : String) (w : World)
    → IsConsistent policy w.db.users w.db.flags
    → (validate policy discord_id (repair discord_id w)).aligned ≡ true
unfolding repair refresh_public_cache
repair-validate policy discord_id w c = elim (Option-cases (find_user w.db discord_id)) [
  | inl missing ↦ unknown policy discord_id (repair discord_id w) (ground (arith, missing))
  | inr (u, there) ↦
      let public = user_to_public u (count_flags u.id w.db.flags) in
      let mended : World = record w { redis = Cache.set_authoritative w.redis discord_id public } in
      let same : repair discord_id w ≡ mended = ground (arith, there) in
      let row = c.indexed discord_id u there in
      let score = c.score u.id u row in
      rw same (
        (validate_lem policy discord_id u mended there).1
          (score, ground (arith, score, c.level u.id u row), cached w.redis discord_id public))
]
