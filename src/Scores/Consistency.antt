-- ===== src/Scores/Consistency.antt =====
-- The invariant between the tables of users and of flags.
use protect_platform.Prelude.{
  ◌+◌, String, ◌≡◌, refl, false, Option, some, none, ok, create, find-create, find-key, eq_refl,
  List, [], ◌∷◌, ◌++◌, ◌==◌, arith, eq_iff, find, find-update, find-update_other, update, any,
  Option-cases, inl, inr,
}
use protect_platform.Policy.{FlagPolicy, level_from_score}
use protect_platform.Shared.Levels.{clean}
use protect_platform.Store.{User, Flag, Db, Env, new_user, upsert_user}
use protect_platform.Scores.{score_of, user_id, discord_key}

-- Each user's score is the sum of the effective weights of the user's flags, the level is the one
-- that the policy gives for that score, and a row found by its Discord id is the row of its id.
pub record IsConsistent (policy : FlagPolicy) (users : List User) (flags : List Flag) : Type 0 where
  pub score :
      (id : String) (u : User) → find user_id id users ≡ some u → u.flag_score ≡ score_of id flags
  pub level :
      (id : String) (u : User)
      → find user_id id users ≡ some u
      → u.flag_level ≡ level_from_score policy u.flag_score
  pub indexed :
      (discord_id : String) (u : User)
      → find discord_key discord_id users ≡ some u
      → find user_id u.id users ≡ some u

-- An update by id that keeps both keys keeps the index.
pub update-indexed :
    (users : List User) (k : String) (f : User → User)
    → ((v : User) → (f v).id ≡ v.id)
    → ((v : User) → (f v).discord_id ≡ v.discord_id)
    → ((j : String) (u : User)
        → find discord_key j users ≡ some u
        → find user_id u.id users ≡ some u)
    → (j : String) (u : User) → find discord_key j (update user_id k f users) ≡ some u
    → find user_id u.id (update user_id k f users) ≡ some u
update-indexed users k f same_id same_discord indexed j u h =
    elim (Option-cases (find discord_key j users)) [
      | inl missed ↦
          absurd (ground (arith, find-update_other user_id discord_key k j f users same_discord))
      | inr (v, e) ↦ ground (
        arith,
        find-update_other user_id discord_key k j f users same_discord,
        indexed j v e,
        same_id v,
        eq_iff v.id k,
        eq_iff k v.id,
        find-update user_id k u.id f users same_id,
      )
    ]

pub score_of-append :
    (id : String) (fs gs : List Flag) → score_of id (fs ++ gs) ≡ score_of id fs + score_of id gs
unfolding score_of
score_of-append id [] gs = omega arith
score_of-append id (f ∷ fs) gs = omega (arith, score_of-append id fs gs)

-- No flag belongs to the identifier.
abbrev pub HasNoFlags : String → List Flag → Type 0
HasNoFlags id flags = any (λ (f : Flag). f.user_id == id) flags ≡ false

pub score_of_none : (id : String) (flags : List Flag) → HasNoFlags id flags → score_of id flags ≡ 0
unfolding score_of
score_of_none id [] h = refl
score_of_none id (f ∷ fs) h = ground (arith, score_of_none id fs)

-- An identifier that no row uses yet.
pub record IsFresh (id : String) (users : List User) (flags : List Flag) : Type 0 where
  pub no_user : find user_id id users ≡ none
  pub no_flags : HasNoFlags id flags

-- The row that an upsert returns: the user's, or a new one.
abbrev pub row_or_new : Env → String → String → Option User → User
row_or_new env id discord_id none = new_user env id discord_id
row_or_new env id discord_id (some u) = u

module _ (policy : FlagPolicy) (env : Env) (id discord_id : String) where
  -- A row that an upsert adds under a fresh identifier keeps the invariant, if score 0 is CLEAN.
  created-IsConsistent :
      (users : List User) (flags : List Flag)
      → IsFresh id users flags
      → level_from_score policy 0 ≡ clean
      → find discord_key discord_id users ≡ none
      → IsConsistent policy users flags
      → IsConsistent policy (create (new_user env id discord_id) users) flags
  created-IsConsistent users flags fresh starts missing c = record {
    score = λ j v e. ground (
      arith,
      find-create user_id j (new_user env id discord_id) users,
      c.score j v,
      fresh.no_user,
      score_of_none id flags fresh.no_flags,
      eq_iff id j,
    );
    level = λ j v e.
        ground (arith, find-create user_id j (new_user env id discord_id) users, c.level j v);
    indexed = λ j v e. ground (
      arith,
      find-create discord_key j (new_user env id discord_id) users,
      c.indexed j v,
      find-create user_id v.id (new_user env id discord_id) users,
      fresh.no_user,
      eq_refl id,
    );
  }

  -- After an upsert the row that it returns is the row of its id and has the Discord id that was
  -- asked for, the invariant holds, and the upsert changes nothing but the users.
  pub upsert_user-IsConsistent :
      (db : Db)
      → IsFresh id db.users db.flags
      → level_from_score policy 0 ≡ clean
      → IsConsistent policy db.users db.flags
      → (u : User) × (users : List User) × (upsert_user env id discord_id db
          ≡ ok (u, record db { users = users }))
        × (find user_id u.id users ≡ some u)
        × (u.discord_id ≡ discord_id)
        × (u ≡ row_or_new env id discord_id (find discord_key discord_id db.users))
        × IsConsistent policy users db.flags
  unfolding upsert_user
  upsert_user-IsConsistent db fresh starts c =
      elim (Option-cases (find discord_key discord_id db.users)) [
        | inl missing ↦ (
          new_user env id discord_id,
          create (new_user env id discord_id) db.users,
          ground (arith, missing),
          ground (
            arith,
            find-create user_id id (new_user env id discord_id) db.users,
            fresh.no_user,
            eq_refl id,
          ),
          refl,
          rw missing,
          created-IsConsistent db.users db.flags fresh starts missing c,
        )
        | inr (u, there) ↦ (
          u,
          db.users,
          ground (arith, there),
          c.indexed discord_id u there,
          find-key discord_key discord_id u db.users there,
          rw there,
          c,
        )
      ]
