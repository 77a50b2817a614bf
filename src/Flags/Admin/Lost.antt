-- ===== src/Flags/Admin/Lost.antt =====
-- apps/api/src/admin/admin-flags.service.ts: a deletion that computes the score from flags that it
-- read before a new flag was committed. `deleteFlag` takes no row lock, as `createFlag` does.
use protect_platform.Flags.Created.{score_of-create, create_flag_tx-IsFlagged}
use protect_platform.Shared.Levels.{clean}
use protect_platform.Flags.Admin.{flag_key}
use protect_platform.Scores.Consistency.{IsConsistent, IsFresh}
use protect_platform.Auth.{RequestPrincipal}
use protect_platform.Flags.{acting_id, new_flag, create_flag_tx, CreatedFlag, CreateFlagDto}
use protect_platform.Store.{User, Db, Env, Flag}
use protect_platform.Scores.{set_score, discord_key, score_of, user_id, recompute_user}
use protect_platform.Policy.{level_from_score, FlagPolicy}
use protect_platform.Prelude.{
  ap, refl, eq_refl, inr, [], ◌<◌, find-update, inl, ◌∷◌, Option-cases, arith, create, some, remove,
  false, find, ◌≡◌, ◌==◌, List, String, ok,
}

remove-create :
    (k : String) (f : Flag) (flags : List Flag)
    → (f.id == k) ≡ false
    → remove flag_key k (create f flags) ≡ create f (remove flag_key k flags)
unfolding remove
remove-create k f [] other = ground (arith, other)
remove-create k f (g ∷ gs) other = ground (arith, remove-create k f gs other)

recompute_user-row :
    (policy : FlagPolicy) (env : Env) (id : String) (db : Db) {after : User} {db' : Db}
    → recompute_user policy env id db ≡ ok (after, db')
    → (find user_id id db'.users ≡ some after) × (after.flag_score ≡ score_of id db.flags)
unfolding recompute_user
recompute_user-row policy env id db h = elim (Option-cases (find user_id id db.users)) [
  | inl missing ↦ absurd (
      ground (
        arith,
        missing,
        h,
        find-update user_id id id
            (set_score env.now (score_of id db.flags)
              (level_from_score policy (score_of id db.flags)))
            db.users (λ v. refl),
      ))
  | inr (u, there) ↦
      let change =
        set_score env.now (score_of id db.flags) (level_from_score policy (score_of id db.flags)) in
      let row = find-update user_id id id change db.users (λ v. refl) in
      (ground (arith, there, h, row, eq_refl id), ground (arith, there, h, row, eq_refl id))
]

-- Where a flag with a weight is created for a user after a deletion of another flag of that user has
-- read the flags, and before it writes the score that it computes from them, the new flag is lost from
-- the score: users and flags are inconsistent after both, although they were consistent before.
pub recompute_user_loses :
    (policy : FlagPolicy) (env env' : Env) (dto : CreateFlagDto) (principal : RequestPrincipal)
    (db : Db) (u : User) (flag_id : String) (result : CreatedFlag) (db' : Db) (after : User)
    (last : Db)
    → IsFresh (env.uuid 0) db.users db.flags
    → level_from_score policy 0 ≡ clean
    → IsConsistent policy db.users db.flags
    → find discord_key dto.target_discord_id db.users ≡ some u
    → (env.uuid 1 == flag_id) ≡ false
    → create_flag_tx policy env dto principal db ≡ ok (result, db')
    → 0 < result.weight
    → recompute_user policy env' u.id (record db' { flags = remove flag_key flag_id db.flags })
      ≡ ok (after, last)
    → ¬ IsConsistent policy last.users (remove flag_key flag_id db'.flags)
recompute_user_loses policy env env' dto principal db u flag_id result db' after last fresh starts c
      known other created heavy written consistent =
    let done =
      create_flag_tx-IsFlagged policy env dto principal db fresh starts c result db' created in
    let same : done.before ≡ u = rw (done.is_before, known) refl in
    let added =
      new_flag env (env.uuid 1) done.before.id result.weight dto.reason result.source
        (acting_id principal.identity dto.actor_discord_id) dto.guild_id in
    let (there, score) =
      recompute_user-row policy env' u.id (record db' { flags = remove flag_key flag_id db.flags })
        written in
    let sum = score_of-create u.id added (remove flag_key flag_id db.flags) in
    let flags : remove flag_key flag_id db'.flags
        ≡ create added (remove flag_key flag_id db.flags) =
      rw done.flags (remove-create flag_id added db.flags other) in
    let claimed = consistent.score u.id after there in
    ground (
      arith,
      claimed,
      score,
      ap (score_of u.id) flags,
      sum,
      ap (λ (v : User). v.id) same,
      eq_refl u.id,
      heavy,
    )
