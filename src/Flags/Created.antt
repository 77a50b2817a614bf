-- ===== src/Flags/Created.antt =====
-- apps/api/src/flags/flags.service.ts: who may flag, and what a new flag does to the aggregate.
use protect_platform.Prelude.{
  ℕ, ◌+◌, String, ◌≡◌, Option, some, List, [], ◌∷◌, ◌==◌, arith, eq_refl, find, ok, create,
  if◌then◌else◌,
}
use protect_platform.Shared.Levels.{clean}
use protect_platform.Policy.{FlagPolicy, level_from_score}
use protect_platform.Store.{
  User, Flag, FlagSource, Db, Env, ◌>>=◌, pure, bind-ok, IsFramed, IsFramed-trans,
  log_with_tx-IsFramed, log_with_tx, enqueue_many-IsFramed,
}
use protect_platform.Scores.{effective_weight, score_of, user_id, discord_key}
use protect_platform.Scores.Consistency.{
  IsConsistent, IsFresh, row_or_new, upsert_user-IsConsistent, score_of-append,
}
use protect_platform.Scores.Raising.{
  raised_user, raised_users, raise_score_lem, raised-IsConsistent,
}
use protect_platform.Auth.{RequestPrincipal}
use protect_platform.Flags.{
  CreateFlagDto, CreatedFlag, acting_id, authorize_flag, new_flag, add_flag, report_flag,
  create_flag_tx,
}

-- One more flag of that weight raises the score of its user by the weight, and no other score.
pub score_of-create :
    (j : String) (f : Flag) (flags : List Flag)
    → score_of j (create f flags)
      ≡ score_of j flags + (if f.user_id == j then effective_weight f else 0)
unfolding score_of
score_of-create j f flags = omega (arith, score_of-append j flags (f ∷ []))

abbrev pub target_row : CreateFlagDto → Db → Option User
target_row dto db = find discord_key dto.target_discord_id db.users

module _ (policy : FlagPolicy) (env : Env) (dto : CreateFlagDto) (actor : String) (weight : ℕ)
    (source : FlagSource) (db : Db) (fresh : IsFresh (env.uuid 0) db.users db.flags)
    (starts : level_from_score policy 0 ≡ clean) (c : IsConsistent policy db.users db.flags) where
  -- The row of the target before its score is raised, and the state afterwards.
  pub add_flag_lem :
      (u : User) × (users : List User) × (add_flag policy env dto actor weight source db
        ≡ ok (
          (u.id, raised_user policy env u.id weight u),
          record db {
            users = raised_users policy env u.id weight u users;
            flags =
                create
                  (new_flag env (env.uuid 1) u.id weight dto.reason source actor dto.guild_id)
                  db.flags;
          },
        ))
      × (find user_id u.id users ≡ some u)
      × (u.discord_id ≡ dto.target_discord_id)
      × (u ≡ row_or_new env (env.uuid 0) dto.target_discord_id (target_row dto db))
      × IsConsistent policy users db.flags
  unfolding add_flag
  add_flag_lem =
      let (u, users, done, there, named, same, kept) =
        upsert_user-IsConsistent policy env (env.uuid 0) dto.target_discord_id db fresh starts c in
      (
        u,
        users,
        rw (
          done,
          raise_score_lem policy env u.id weight u
              (record db {
                users = users;
                flags =
                    create
                      (new_flag env (env.uuid 1) u.id weight dto.reason source actor dto.guild_id)
                      db.flags;
              })
              there,
        ),
        there,
        named,
        same,
        kept,
      )

-- `authorize_flag` reads the database and leaves it alone.
authorize_flag-reads :
    (policy : FlagPolicy) (dto : CreateFlagDto) (principal : RequestPrincipal) (db : Db)
    {r : ℕ × FlagSource} {db' : Db}
    → authorize_flag policy dto principal db ≡ ok (r, db')
    → db' ≡ db
unfolding authorize_flag
authorize_flag-reads policy dto principal db h = ground arith

report_flag-IsFramed :
    (env : Env) (dto : CreateFlagDto) (principal : RequestPrincipal) (uid : String) (weight : ℕ)
    (source : FlagSource) (saved : User) (db : Db) {u : Unit {0}} {db' : Db}
    → report_flag env dto principal uid weight source saved db ≡ ok (u, db')
    → IsFramed db db'
unfolding report_flag
report_flag-IsFramed env dto principal uid weight source saved db h =
    let (a, mid, first, rest) = bind-ok (log_with_tx env _) _ db h in
    IsFramed-trans (log_with_tx-IsFramed env _ db first) (enqueue_many-IsFramed env 2 _ mid rest)

-- What a successful `createFlag` has done.
pub record IsFlagged (policy : FlagPolicy) (env : Env) (dto : CreateFlagDto) (actor : String)
    (db : Db) (result : CreatedFlag) (db' : Db) : Type 0 where
  pub before : User
  pub is_before : before ≡ row_or_new env (env.uuid 0) dto.target_discord_id (target_row dto db)
  pub named : result.saved.discord_id ≡ dto.target_discord_id
  pub score : result.saved.flag_score ≡ before.flag_score + result.weight
  pub level : result.saved.flag_level ≡ level_from_score policy result.saved.flag_score
  pub version : result.saved.state_version ≡ before.state_version + 1
  pub flags :
      db'.flags
      ≡ create
          (new_flag env
            (env.uuid 1)
            before.id
            result.weight
            dto.reason
            result.source
            actor
            dto.guild_id)
          db.flags
  pub consistent : IsConsistent policy db'.users db'.flags

module _ (policy : FlagPolicy) (env : Env) (dto : CreateFlagDto) (principal : RequestPrincipal)
    (db : Db) (fresh : IsFresh (env.uuid 0) db.users db.flags)
    (starts : level_from_score policy 0 ≡ clean) (c : IsConsistent policy db.users db.flags) where
  abbrev actor : String
  actor = acting_id principal.identity dto.actor_discord_id

  -- The state when the score has been raised.
  abbrev raised_db : ℕ → FlagSource → User → List User → Db
  raised_db weight source u users = record db {
    users = raised_users policy env u.id weight u users;
    flags =
        create (new_flag env (env.uuid 1) u.id weight dto.reason source actor dto.guild_id)
          db.flags;
  }

  raised_db-IsConsistent :
      (weight : ℕ) (source : FlagSource) (u : User) (users : List User)
      → find user_id u.id users ≡ some u
      → IsConsistent policy users db.flags
      → IsConsistent policy
          (raised_db weight source u users).users
          (raised_db weight source u users).flags
  raised_db-IsConsistent weight source u users there kept =
      let f = new_flag env (env.uuid 1) u.id weight dto.reason source actor dto.guild_id in
      raised-IsConsistent policy env u.id weight u users db.flags (create f db.flags) there kept
        (ground (arith, score_of-create u.id f db.flags, eq_refl u.id))
        (λ j other. ground (arith, score_of-create j f db.flags))

  assemble :
      (weight : ℕ) (source : FlagSource) (u : User) (users : List User) (result : CreatedFlag)
      (last db' : Db)
      → find user_id u.id users ≡ some u
      → u.discord_id ≡ dto.target_discord_id
      → u ≡ row_or_new env (env.uuid 0) dto.target_discord_id (target_row dto db)
      → IsConsistent policy users db.flags
      → IsFramed (raised_db weight source u users) last
      → pure {A = CreatedFlag}
          (record {
            saved = raised_user policy env u.id weight u;
            weight = weight;
            source = source;
          })
          last
        ≡ ok (result, db')
      → IsFlagged policy env dto actor db result db'
  assemble weight source u users result last db' there named same kept framed end = record {
    before = u;
    is_before = same;
    named = ground arith;
    score = ground arith;
    level = ground arith;
    version = ground arith;
    flags = ground (arith, framed.flags);
    consistent =
        let e : last ≡ db' = ground arith in
        rw (← e, framed.users, framed.flags)
          (raised_db-IsConsistent weight source u users there kept);
  }

  after_authorization :
      (weight : ℕ) (source : FlagSource) (result : CreatedFlag) (db' : Db)
      → (add_flag policy env dto actor weight source >>= λ (r : String × User).
            report_flag env dto principal r.0 weight source r.1 >>= λ _.
            pure (record { saved = r.1; weight = weight; source = source }))
          db
        ≡ ok (result, db')
      → IsFlagged policy env dto actor db result db'
  after_authorization weight source result db' h =
      let (u, users, run, there, named, same, kept) =
        add_flag_lem policy env dto actor weight source db fresh starts c in
      let (_, last, reported, end) =
        bind-ok
          (report_flag env dto principal u.id weight source (raised_user policy env u.id weight u))
          _ (raised_db weight source u users) (rw run at h) in
      assemble weight source u users result last db' there named same kept
        (report_flag-IsFramed env dto principal u.id weight source _ _ reported) end

  -- A flag that is accepted raises the target's score by its weight, sets the level that the
  -- policy gives for the new score, counts the version up by one, adds one row to the flags, and
  -- keeps every user's score the sum of the user's flags. The target is a known user or a new one
  -- with score 0, new rows have fresh identifiers, and score 0 is CLEAN under the policy.
  pub create_flag_tx-IsFlagged :
      (result : CreatedFlag) (db' : Db)
      → create_flag_tx policy env dto principal db ≡ ok (result, db')
      → IsFlagged policy env dto actor db result db'
  unfolding create_flag_tx
  create_flag_tx-IsFlagged result db' h =
      let ((weight, source), mid, passed, rest) =
        bind-ok (authorize_flag policy dto principal) _ db h in
      after_authorization weight source result db'
        (rw (authorize_flag-reads policy dto principal db passed) at rest)
