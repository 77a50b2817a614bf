-- ===== src/Scores/Raising.antt =====
-- What `raise_score` and `recompute_user` do to the users, and that they restore the invariant.
use protect_platform.Prelude.{
  inr, inl, Option-cases, ℕ, ◌+◌, String, ◌≡◌, refl, false, some, List, ◌==◌, arith, eq_iff,
  eq_refl, find, update, find-update, ok, if◌then◌else◌,
}
use protect_platform.Policy.{FlagPolicy, level_from_score}
use protect_platform.Store.{User, Flag, Db, Env}
use protect_platform.Scores.{
  score_of, user_id, increment_score, set_level, set_score, update_user, raise_score,
  recompute_user,
}
use protect_platform.Scores.Consistency.{IsConsistent, update-indexed}

-- `update … returning` on a row that is there.
pub update_user_lem :
    (id : String) (f : User → User) (u : User) (db : Db)
    → ((v : User) → (f v).id ≡ v.id)
    → find user_id id db.users ≡ some u
    → update_user id f db ≡ ok (f u, record db { users = update user_id id f db.users })
update_user_lem id f u db keeps h = rw (find-update user_id id id f db.users keeps, eq_refl id, h)

module _ (policy : FlagPolicy) (env : Env) (id : String) (weight : ℕ) where
  -- The row that `raise_score` leaves.
  abbrev pub raised_user : User → User
  raised_user u =
      set_level env.now (level_from_score policy (u.flag_score + weight))
        (increment_score env.now weight u)

  abbrev pub raised_users : User → List User → List User
  raised_users u users =
      update user_id id (set_level env.now (level_from_score policy (u.flag_score + weight)))
        (update user_id id (increment_score env.now weight) users)

  find-raised :
      (u : User) (users : List User) (j : String)
      → find user_id id users ≡ some u
      → find user_id j (raised_users u users)
        ≡ (if id == j then some (raised_user u) else find user_id j users)
  find-raised u users j h = ground (
    arith,
    h,
    eq_refl id,
    find-update user_id id j (increment_score env.now weight) users (λ v. refl),
    find-update user_id id id (increment_score env.now weight) users (λ v. refl),
    find-update user_id id j (set_level env.now (level_from_score policy (u.flag_score + weight)))
        (update user_id id (increment_score env.now weight) users) (λ v. refl),
  )

  pub raise_score_lem :
      (u : User) (db : Db)
      → find user_id id db.users ≡ some u
      → raise_score policy env id weight db
        ≡ ok (raised_user u, record db { users = raised_users u db.users })
  unfolding raise_score
  raise_score_lem u db h =
      rw (update_user_lem id (increment_score env.now weight) u db (λ v. refl) h) (
        update_user_lem id (set_level env.now (level_from_score policy (u.flag_score + weight)))
          (increment_score env.now weight u)
          (record db { users = update user_id id (increment_score env.now weight) db.users })
          (λ v. refl)
          (rw (
            find-update user_id id id (increment_score env.now weight) db.users (λ v. refl),
            eq_refl id,
            h,
          )))

  -- When the flags of the user grow by `weight` and no other user's do, raising the score by
  -- `weight` restores the invariant.
  pub raised-IsConsistent :
      (u : User) (users : List User) (before after : List Flag)
      → find user_id id users ≡ some u
      → IsConsistent policy users before
      → score_of id after ≡ score_of id before + weight
      → ((j : String) → (id == j) ≡ false → score_of j after ≡ score_of j before)
      → IsConsistent policy (raised_users u users) after
  raised-IsConsistent u users before after h c grown same = record {
    score = λ j v e.
        ground (arith, find-raised u users j h, c.score j v, c.score id u, eq_iff id j, same j);
    level = λ j v e. ground (arith, find-raised u users j h, c.level j v);
    indexed =
        update-indexed (update user_id id (increment_score env.now weight) users) id
          (set_level env.now (level_from_score policy (u.flag_score + weight))) (λ v. refl)
          (λ v. refl)
          (update-indexed users id (increment_score env.now weight) (λ v. refl) (λ v. refl)
            c.indexed);
  }

module _ (policy : FlagPolicy) (env : Env) (id : String) where
  abbrev pub recomputed_user : ℕ → User → User
  recomputed_user score = set_score env.now score (level_from_score policy score)

  pub recompute_user_lem :
      (u : User) (db : Db)
      → find user_id id db.users ≡ some u
      → recompute_user policy env id db
        ≡ ok (
          recomputed_user (score_of id db.flags) u,
          record db { users = update user_id id (recomputed_user (score_of id db.flags)) db.users },
        )
  unfolding recompute_user
  recompute_user_lem u db h =
      update_user_lem id (recomputed_user (score_of id db.flags)) u db (λ v. refl) h

  -- When no other user's flags change, recomputing the score restores the invariant.
  pub recomputed-IsConsistent :
      (users : List User) (before after : List Flag)
      → IsConsistent policy users before
      → ((j : String) → (id == j) ≡ false → score_of j after ≡ score_of j before)
      → IsConsistent policy (update user_id id (recomputed_user (score_of id after)) users) after
  recomputed-IsConsistent users before after c same = record {
    score = λ j v e. ground (
      arith,
      find-update user_id id j (recomputed_user (score_of id after)) users (λ v. refl),
      c.score j v,
      eq_iff id j,
      same j,
    );
    level = λ j v e. ground (
      arith,
      find-update user_id id j (recomputed_user (score_of id after)) users (λ v. refl),
      c.level j v,
      eq_iff id j,
    );
    indexed =
        update-indexed users id (recomputed_user (score_of id after)) (λ v. refl) (λ v. refl)
          c.indexed;
  }

-- Recomputing a score writes that user's row and nothing else.
pub recompute_user-writes :
    (policy : FlagPolicy) (env : Env) (id : String) (db : Db) {u : User} {db' : Db}
    → recompute_user policy env id db ≡ ok (u, db')
    → (db'.outbox ≡ db.outbox)
      × (db'.users
          ≡ update user_id id (recomputed_user policy env id (score_of id db.flags)) db.users)
unfolding recompute_user
recompute_user-writes policy env id db h = ground arith

-- Raising a score leaves the reports alone.
pub raise_score-reports :
    (policy : FlagPolicy) (env : Env) (id : String) (weight : ℕ) (db : Db) {u : User} {db' : Db}
    → raise_score policy env id weight db ≡ ok (u, db')
    → db'.reports ≡ db.reports
unfolding raise_score
raise_score-reports policy env id weight db h = ground arith

-- A score is raised only for a user who has a row.
pub raise_score-known :
    (policy : FlagPolicy) (env : Env) (id : String) (weight : ℕ) (db : Db) {u : User} {db' : Db}
    → raise_score policy env id weight db ≡ ok (u, db')
    → (v : User) × (find user_id id db.users ≡ some v)
unfolding raise_score
raise_score-known policy env id weight db h = elim (Option-cases (find user_id id db.users)) [
  | inl missing ↦ absurd (
      ground (
        arith,
        missing,
        find-update user_id id id (increment_score env.now weight) db.users (λ v. refl),
      ))
  | inr (v, there) ↦ (v, there)
]
