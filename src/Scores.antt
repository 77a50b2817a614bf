-- ===== src/Scores.antt =====
-- A user's row is an aggregate of the user's flags: the score is the sum of the effective weights,
-- the level follows from the score, and the version grows with every write. The two ways in which
-- the API keeps it so: `raise_score`, the tail of FlagsService.createFlag,
-- ReportsService.createInstantReport and ReportsService.approve, and `recompute_user` of
-- AdminFlagsService.
pub mod Consistency
pub mod Raising
use protect_platform.Prelude.{
  ℕ, ◌+◌, String, Option, none, some, List, [], ◌∷◌, ◌==◌, find, update, create, or_else, not_found,
  if◌then◌else◌,
}
use protect_platform.Shared.Levels.{FlagLevel}
use protect_platform.Policy.{FlagPolicy, level_from_score}
use protect_platform.Store.{
  User, Flag, FlagSource, Db, Env, Tx, ◌>>=◌, ◌>>◌, found, gets, modify, pure,
}

abbrev pub effective_weight : Flag → ℕ
effective_weight f = or_else f.effective_weight f.weight

-- The sum of the effective weights of a user's flags.
unfoldable pub score_of : String → List Flag → ℕ
score_of user_id [] = 0
score_of user_id (f ∷ fs) =
    (if f.user_id == user_id then effective_weight f else 0) + score_of user_id fs

abbrev pub user_id : User → String
user_id u = u.id

abbrev pub discord_key : User → String
discord_key u = u.discord_id

abbrev pub increment_score : ℕ → ℕ → User → User
increment_score now weight u = record u { flag_score = u.flag_score + weight; updated_at = now }

abbrev pub set_level : ℕ → FlagLevel → User → User
set_level now level u = record u {
  flag_level = level;
  state_version = u.state_version + 1;
  updated_at = now;
}

abbrev pub set_score : ℕ → ℕ → FlagLevel → User → User
set_score now score level u = record u {
  flag_score = score;
  flag_level = level;
  state_version = u.state_version + 1;
  updated_at = now;
}

-- `tx.user.update({ where: { id }, data })` returns the row as it is afterwards.
abbrev pub update_user : String → (User → User) → Tx User
update_user id f = do
  modify (λ db. record db { users = update user_id id f db.users })
  after ← gets (λ db. find user_id id db.users)
  found after (not_found "User")

-- The score is raised in one update, read back, and the level follows in a second update.
unfoldable pub raise_score : FlagPolicy → Env → String → ℕ → Tx User
raise_score policy env id weight = do
  after_score ← update_user id (increment_score env.now weight)
  update_user id (set_level env.now (level_from_score policy after_score.flag_score))

unfoldable pub recompute_user : FlagPolicy → Env → String → Tx User
recompute_user policy env id = do
  score ← gets (λ db. score_of id db.flags)
  update_user id (set_score env.now score (level_from_score policy score))
