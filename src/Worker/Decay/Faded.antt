-- ===== src/Worker/Decay/Faded.antt =====
-- apps/worker/src/decay-job.ts: the decay of weights keeps the users' scores in step with the flags.
use protect_platform.Dispatch.{WorkerState}
use protect_platform.Scores.Raising.{recomputed-IsConsistent}
use protect_platform.Scores.Consistency.{IsConsistent}
use protect_platform.Js.{Js}
use protect_platform.Store.{Db, Flag, User, Env, enqueue}
use protect_platform.Prelude.{
  ◌+◌, err, true, Result, Bool, find-key, ◌||◌, Bool-cases, inr, find, inl, ◌⊎◌, none, Option-cases,
  update, refl, some, eq_iff, [], ok, ◌∷◌, false, Option, if◌then◌else◌, keep, map, ◌==◌, List,
  arith, String, ◌≡◌, ℕ,
}
use protect_platform.Policy.{level_from_score, FlagPolicy}
use protect_platform.Scores.{set_score, user_id, score_of}
use protect_platform.Worker.Decay.{
  distinct_users, and_then, after_user, decay_users, run_decay_job, is_settled, has_no_flags, faded,
  is_flag_of_user, faded_sum, Thresholds, write_faded, faded_level, DecayJob, decay_user,
}

-- The thresholds that the worker reads are those of the API.
abbrev pub thresholds_of : FlagPolicy → Thresholds
thresholds_of p = record {
  watch = p.watch;
  suspicious = p.suspicious;
  high_risk = p.high_risk;
  confirmed = p.confirmed;
}

-- With the API's thresholds the worker's level of a score is the API's.
pub faded_level-level_from_score :
    (policy : FlagPolicy) (score : ℕ)
    → faded_level (thresholds_of policy) score ≡ level_from_score policy score
unfolding faded_level level_from_score
faded_level-level_from_score policy score = ground arith

abbrev pub faded_flags : DecayJob → ℕ → String → List Flag → List Flag
faded_flags job now id flags = map (λ f. if is_flag_of_user id f then faded job now f else f) flags

pub score_of-faded :
    (job : DecayJob) (now : ℕ) (id : String) (flags : List Flag)
    → score_of id (faded_flags job now id flags)
      ≡ faded_sum job now (keep (is_flag_of_user id) flags)
unfolding score_of faded_sum
score_of-faded job now id [] = refl
score_of-faded job now id (f ∷ fs) = ground (arith, score_of-faded job now id fs)

score_of-others :
    (job : DecayJob) (now : ℕ) (id j : String) (flags : List Flag)
    → (id == j) ≡ false
    → score_of j (faded_flags job now id flags) ≡ score_of j flags
unfolding score_of
score_of-others job now id j [] h = refl
score_of-others job now id j (f ∷ fs) h =
    ground (
      arith,
      score_of-others job now id j fs h,
      eq_iff f.user_id id,
      eq_iff f.user_id j,
      eq_iff id j,
    )

pub write_faded-writes :
    (js : Js) (job : DecayJob) (env : Env) (user : User) (flags : List Flag) (db : Db)
    (r : Option String) (db' : Db)
    → write_faded js job env user flags db ≡ ok (r, db')
    → (r ≡ some user.discord_id)
      × (db'.flags ≡ faded_flags job env.now user.id db.flags)
      × (db'.users
          ≡ update user_id user.id
              (set_score env.now
                (faded_sum job env.now flags)
                (faded_level job.thresholds (faded_sum job env.now flags)))
              db.users)
unfolding write_faded enqueue
write_faded-writes js job env user flags db r db' h = ground arith

-- What a transaction of the job that succeeds has done for the user with the identifier.
abbrev pub HasDecayed : DecayJob → ℕ → String → Db → Option String → Db → Type 0
HasDecayed job now id db r db' =
    ((r ≡ none) × (db' ≡ db))
    ⊎ ((u : User) × (find user_id id db.users ≡ some u)
        × (r ≡ some u.discord_id)
        × (db'.flags ≡ faded_flags job now id db.flags)
        × (db'.users
            ≡ update user_id id
                (set_score now (score_of id db'.flags)
                  (faded_level job.thresholds (score_of id db'.flags)))
                db.users))

pub decay_user-HasDecayed :
    (js : Js) (job : DecayJob) (env : Env) (id : String) (db : Db) (r : Option String) (db' : Db)
    → decay_user js job env id db ≡ ok (r, db')
    → HasDecayed job env.now id db r db'
unfolding decay_user
decay_user-HasDecayed js job env id db r db' h = elim (Option-cases (find user_id id db.users)) [
  | inl missing ↦ inl (ground (arith, missing), ground (arith, missing))
  | inr (u, there) ↦
      let flags = keep (is_flag_of_user id) db.flags in
      elim (Bool-cases (has_no_flags flags || is_settled job env.now u flags)) [
        | inl still ↦ inl (ground (arith, there, still), ground (arith, there, still))
        | inr moved ↦
            let wrote : write_faded js job env u flags db ≡ ok (r, db') =
              ground (arith, there, moved) in
            let (told, flags', users') = write_faded-writes js job env u flags db r db' wrote in
            let same : u.id ≡ id = find-key user_id id u db.users there in
            let flags_id : db'.flags ≡ faded_flags job env.now id db.flags = cc (flags', same) in
            let score : score_of id db'.flags ≡ faded_sum job env.now flags =
              rw flags_id (score_of-faded job env.now id db.flags) in
            inr (u, there, told, flags_id, cc (users', same, score))
      ]
]

-- The job's transaction for a user keeps the invariant between users and flags, where the worker
-- has the API's thresholds: each user's score stays the sum of the effective weights, and each
-- level the one of the score.
pub decay_user-IsConsistent :
    (js : Js) (policy : FlagPolicy) (job : DecayJob) (env : Env) (id : String) (db : Db)
    (r : Option String) (db' : Db)
    → job.thresholds ≡ thresholds_of policy
    → IsConsistent policy db.users db.flags
    → decay_user js job env id db ≡ ok (r, db')
    → IsConsistent policy db'.users db'.flags
decay_user-IsConsistent js policy job env id db r db' shared c h =
    elim (decay_user-HasDecayed js job env id db r db' h) [
      | inl (_, same) ↦ rw same c
      | inr (u, there, _, flags', users') ↦
          rw (users', shared, faded_level-level_from_score policy (score_of id db'.flags))
            (recomputed-IsConsistent policy env id db.users db.flags db'.flags c
              (λ j other. rw flags' (score_of-others job env.now id j db.flags other)))
    ]

after_user-IsConsistent :
    (policy : FlagPolicy) (w : WorkerState) (run : Result (Option String × Db))
    → IsConsistent policy w.db.users w.db.flags
    → ((r : Option String) (db : Db) → run ≡ ok (r, db) → IsConsistent policy db.users db.flags)
    → IsConsistent policy (after_user w run).1.db.users (after_user w run).1.db.flags
after_user-IsConsistent policy w (err e) c h = c
after_user-IsConsistent policy w (ok (none, db)) c h = h none db refl
after_user-IsConsistent policy w (ok (some d, db)) c h = h (some d) db refl

and_then-IsConsistent :
    (policy : FlagPolicy) (f : WorkerState → Result (Unit {0}) × WorkerState)
    (x : Result (Unit {0}) × WorkerState)
    → IsConsistent policy x.1.db.users x.1.db.flags
    → ((w : WorkerState)
        → IsConsistent policy w.db.users w.db.flags
        → IsConsistent policy (f w).1.db.users (f w).1.db.flags)
    → IsConsistent policy (and_then f x).1.db.users (and_then f x).1.db.flags
and_then-IsConsistent policy f (err e, w) c h = c
and_then-IsConsistent policy f (ok u, w) c h = h w c

decay_users-IsConsistent :
    (js : Js) (policy : FlagPolicy) (job : DecayJob) (envs : ℕ → Env) (i : ℕ) (ids : List String)
    (w : WorkerState)
    → job.thresholds ≡ thresholds_of policy
    → IsConsistent policy w.db.users w.db.flags
    → IsConsistent policy
        (decay_users js job envs i ids w).1.db.users
        (decay_users js job envs i ids w).1.db.flags
unfolding decay_users
decay_users-IsConsistent js policy job envs i [] w shared c = c
decay_users-IsConsistent js policy job envs i (id ∷ ids) w shared c =
    and_then-IsConsistent policy (decay_users js job envs (i + 1) ids)
      (after_user w (decay_user js job (envs i) id w.db))
      (after_user-IsConsistent policy w (decay_user js job (envs i) id w.db) c
        (λ r db h. decay_user-IsConsistent js policy job (envs i) id w.db r db shared c h))
      (λ w' c'. decay_users-IsConsistent js policy job envs (i + 1) ids w' shared c')

-- The job keeps the invariant between users and flags, also where an error stops it on the way,
-- where the worker has the API's thresholds: each user's score stays the sum of the effective
-- weights, and each level the one that the API gives for the score.
pub run_decay_job-IsConsistent :
    (js : Js) (policy : FlagPolicy) (job : DecayJob) (now : ℕ) (envs : ℕ → Env) (w : WorkerState)
    → job.thresholds ≡ thresholds_of policy
    → IsConsistent policy w.db.users w.db.flags
    → IsConsistent policy
        (run_decay_job js job now envs w).1.db.users
        (run_decay_job js job now envs w).1.db.flags
unfolding run_decay_job
run_decay_job-IsConsistent js policy job now envs w shared c = go job.enabled
  where
    go :
        (b : Bool)
        → IsConsistent policy
            (if b
              then decay_users js job
                  (λ i. record (envs i) { now = now })
                  0
                  (distinct_users w.db.flags)
                  w
              else (ok tt, w)).1.db.users
            (if b
              then decay_users js job
                  (λ i. record (envs i) { now = now })
                  0
                  (distinct_users w.db.flags)
                  w
              else (ok tt, w)).1.db.flags
    go true =
        decay_users-IsConsistent js policy job (λ i. record (envs i) { now = now }) 0
          (distinct_users w.db.flags) w shared c
    go false = c
