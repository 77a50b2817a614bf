-- ===== src/Flags/Admin/Rescored.antt =====
-- apps/api/src/admin/admin-flags.service.ts: after a deletion or a change the score is right.
use protect_platform.Prelude.{
  ◌+◌, String, ◌≡◌, refl, true, false, not, ◌||◌, some, List, [], ◌∷◌, ◌==◌, arith, eq_iff, find,
  find_first, update, remove, any, all, ok, none,
}
use protect_platform.Policy.{FlagPolicy, level_from_score}
use protect_platform.Store.{
  User, Flag, Db, Env, bind-ok, check-ok, IsFramed, IsFramed-trans, log_with_tx,
  log_with_tx-IsFramed, enqueue, enqueue-IsFramed, enqueue_many, enqueue_many-IsFramed, pure,
}
use protect_platform.Scores.{score_of, user_id, discord_key}
use protect_platform.Scores.Consistency.{IsConsistent}
use protect_platform.Scores.Raising.{recomputed_user, recompute_user_lem, recomputed-IsConsistent}
use protect_platform.Flags.Admin.Reads.{with_flag-ok}
use protect_platform.Flags.Admin.{
  flag_key, is_flag_of, with_flag, delete_found, delete_flag_tx, patch_found, AdminPatchFlagDto,
  patched, patch_flag_tx,
}

-- No two flags share an identifier.
abbrev pub HasUniqueIds : List Flag → Type 0
HasUniqueIds [] = Unit {0}
HasUniqueIds (f ∷ fs) = (any (λ (g : Flag). g.id == f.id) fs ≡ false) × HasUniqueIds fs

-- Every flag with the identifier belongs to the user.
abbrev IsOwned : String → String → List Flag → Type 0
IsOwned id uid fs = all (λ (g : Flag). not (g.id == id) || (g.user_id == uid)) fs ≡ true

unused-IsOwned :
    (id uid : String) (fs : List Flag)
    → any (λ (g : Flag). g.id == id) fs ≡ false
    → IsOwned id uid fs
unused-IsOwned id uid [] h = refl
unused-IsOwned id uid (f ∷ fs) h = ground (arith, unused-IsOwned id uid fs)

found-used :
    (id uid : String) (fs : List Flag) (g : Flag)
    → find_first (is_flag_of id uid) fs ≡ some g
    → any (λ (g : Flag). g.id == id) fs ≡ true
unfolding find_first
found-used id uid [] g h = ground arith
found-used id uid (f ∷ fs) g h = ground (arith, found-used id uid fs g)

found-IsOwned :
    (id uid : String) (fs : List Flag) (g : Flag)
    → HasUniqueIds fs
    → find_first (is_flag_of id uid) fs ≡ some g
    → IsOwned id uid fs
unfolding find_first
found-IsOwned id uid [] g u h = refl
found-IsOwned id uid (f ∷ fs) g (once, u) h = ground (
  arith,
  eq_iff f.id id,
  found-used id uid fs g,
  found-IsOwned id uid fs g u,
  unused-IsOwned id uid fs,
)

module _ (id uid j : String) (other : (uid == j) ≡ false) where
  score_of-remove :
      (fs : List Flag) → IsOwned id uid fs → score_of j (remove flag_key id fs) ≡ score_of j fs
  unfolding score_of remove
  score_of-remove [] h = refl
  score_of-remove (f ∷ fs) h =
      ground (arith, eq_iff f.user_id uid, eq_iff f.user_id j, eq_iff uid j, score_of-remove fs)

  score_of-update :
      (change : Flag → Flag) (fs : List Flag)
      → ((g : Flag) → (change g).user_id ≡ g.user_id)
      → IsOwned id uid fs
      → score_of j (update flag_key id change fs) ≡ score_of j fs
  unfolding score_of update
  score_of-update change [] same h = refl
  score_of-update change (f ∷ fs) same h = ground (
    arith,
    same f,
    eq_iff f.user_id uid,
    eq_iff f.user_id j,
    eq_iff uid j,
    score_of-update change fs same,
  )

patched-user_id : (body : AdminPatchFlagDto) (g : Flag) → (patched body g).user_id ≡ g.user_id
patched-user_id body g = ground arith

-- The user's row after a change of the flags, and the state that goes with it.
pub record IsRescored (policy : FlagPolicy) (target : String) (db : Db) (after : User) (db' : Db)
    : Type 0 where
  pub before : User
  pub is_before : find discord_key target db.users ≡ some before
  pub score : after.flag_score ≡ score_of before.id db'.flags
  pub level : after.flag_level ≡ level_from_score policy after.flag_score
  pub version : after.state_version ≡ before.state_version + 1
  pub consistent : IsConsistent policy db'.users db'.flags

module _ (policy : FlagPolicy) (env : Env) (target : String) (db : Db)
    (c : IsConsistent policy db.users db.flags) where
  -- The state when the flags have become `flags` and the score of `u` has been computed anew.
  abbrev rescored_db : User → List Flag → Db
  rescored_db u flags = record db {
    users = update user_id u.id (recomputed_user policy env u.id (score_of u.id flags)) db.users;
    flags = flags;
  }

  rescored-IsConsistent :
      (u : User) (flags : List Flag)
      → ((j : String) → (u.id == j) ≡ false → score_of j flags ≡ score_of j db.flags)
      → IsConsistent policy (rescored_db u flags).users flags
  rescored-IsConsistent u flags same =
      recomputed-IsConsistent policy env u.id db.users db.flags flags c same

  assemble :
      (u : User) (flags : List Flag) (after : User) (last db' : Db)
      → find discord_key target db.users ≡ some u
      → ((j : String) → (u.id == j) ≡ false → score_of j flags ≡ score_of j db.flags)
      → IsFramed (rescored_db u flags) last
      → pure (recomputed_user policy env u.id (score_of u.id flags) u) last ≡ ok (after, db')
      → IsRescored policy target db after db' × (db'.flags ≡ flags)
  assemble u flags after last db' there same framed end =
      let e : last ≡ db' = ground arith in
      (
        record {
          before = u;
          is_before = there;
          score = rw (← e, framed.flags) (ground arith);
          level = ground arith;
          version = ground arith;
          consistent = rw (← e, framed.users, framed.flags) (rescored-IsConsistent u flags same);
        },
        rw (← e, framed.flags),
      )

  module _ (unique : HasUniqueIds db.flags) where
    -- Deleting a flag leaves the user's score the sum of the other flags, sets the level of that
    -- score, counts the version up by one, and leaves every other user as consistent as before.
    -- Flags have distinct identifiers, as their primary key has.
    pub delete_flag_tx-IsRescored :
        (actor flag_id : String) (after : User) (db' : Db)
        → delete_flag_tx policy env actor target flag_id db ≡ ok (after, db')
        → IsRescored policy target db after db' × (db'.flags ≡ remove flag_key flag_id db.flags)
    unfolding delete_flag_tx delete_found
    delete_flag_tx-IsRescored actor flag_id after db' h =
        let (u, g, there, of_user, h1) =
          with_flag-ok target db flag_id (delete_found policy env actor target flag_id) h in
        let flags : List Flag = remove flag_key flag_id db.flags in
        let run =
          recompute_user_lem policy env u.id u (record db { flags = flags })
            (c.indexed target u there) in
        let (_, mid, logged, h2) =
          bind-ok (log_with_tx env _) _ (rescored_db u flags) (rw run at h1) in
        let (_, last, queued, end) = bind-ok (enqueue_many env 0 _) _ mid h2 in
        assemble u flags after last db' there
          (λ j other.
            score_of-remove flag_id u.id j other db.flags
              (found-IsOwned flag_id u.id db.flags g unique of_user))
          (IsFramed-trans (log_with_tx-IsFramed env _ (rescored_db u flags) logged)
            (enqueue_many-IsFramed env 0 _ mid queued))
          end

    -- Changing the reason or the weight of a flag sets its effective weight to the new weight, and
    -- leaves the score and the level as after a deletion. An empty change is refused.
    pub patch_flag_tx-IsRescored :
        (actor flag_id : String) (body : AdminPatchFlagDto) (after : User) (db' : Db)
        → patch_flag_tx policy env actor target flag_id body db ≡ ok (after, db')
        → IsRescored policy target db after db'
          × (db'.flags ≡ update flag_key flag_id (patched body) db.flags)
          × ¬ ((body.reason ≡ none) × (body.weight ≡ none))
    unfolding patch_flag_tx patch_found
    patch_flag_tx-IsRescored actor flag_id body after db' h =
        let (changes, h0) =
          check-ok _ _
            (λ _. with_flag target flag_id (patch_found policy env actor target flag_id body)) db
            h in
        let (u, g, there, of_user, h1) =
          with_flag-ok target db flag_id (patch_found policy env actor target flag_id body) h0 in
        let flags : List Flag = update flag_key flag_id (patched body) db.flags in
        let run =
          recompute_user_lem policy env u.id u (record db { flags = flags })
            (c.indexed target u there) in
        let (_, mid, logged, h2) =
          bind-ok (log_with_tx env _) _ (rescored_db u flags) (rw run at h1) in
        let (_, last, queued, end) = bind-ok (enqueue env (env.uuid 0) _) _ mid h2 in
        let (rescored, same) =
          assemble u flags after last db' there
            (λ j other.
              score_of-update flag_id u.id j other (patched body) db.flags (patched-user_id body)
                (found-IsOwned flag_id u.id db.flags g unique of_user))
            (IsFramed-trans (log_with_tx-IsFramed env _ (rescored_db u flags) logged)
              (enqueue-IsFramed env (env.uuid 0) _ mid queued))
            end in
        (rescored, same, λ empty. ground (arith, changes, empty.0, empty.1))
