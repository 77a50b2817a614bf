-- ===== src/Worker/Decay/Settled.antt =====
-- apps/worker/src/decay-job.ts: a second run at the same clock writes nothing.
use protect_platform.Shared.Levels.{level_name}
use protect_platform.Prelude.{true, eq_refl, find-update, some, find-key, refl}
use protect_platform.Scores.{set_score, user_id, score_of}
use protect_platform.Store.{Flag, Db, Env}
use protect_platform.Prelude.{
  ◌||◌, Bool-cases, inr, inl, [], arith, find, ◌∷◌, false, Option-cases, none, keep, ok, any, ◌≡◌,
  Option, List, String, ℕ,
}
use protect_platform.Js.{Js}
use protect_platform.Worker.Decay.{
  faded_level, write_faded, is_settled, has_no_flags, has_changed, is_flag_of_user,
  effective_weight_for_flag, faded_sum, DecayJob, decay_user,
}
use protect_platform.Worker.Decay.Faded.{score_of-faded, write_faded-writes, faded_flags}

module _ (job : DecayJob) (now : ℕ) (id : String) where
  faded_sum-faded :
      (flags : List Flag)
      → faded_sum job now (keep (is_flag_of_user id) (faded_flags job now id flags))
        ≡ score_of id (faded_flags job now id flags)
  unfolding faded_sum score_of effective_weight_for_flag
  faded_sum-faded [] = refl
  faded_sum-faded (f ∷ fs) = ground (arith, faded_sum-faded fs)

  none_changed :
      (flags : List Flag)
      → any (has_changed job now) (keep (is_flag_of_user id) (faded_flags job now id flags)) ≡ false
  unfolding effective_weight_for_flag
  none_changed [] = refl
  none_changed (f ∷ fs) = ground (arith, none_changed fs)

-- When the transaction for a user has run, running it again at the same clock, with whatever
-- identifiers, writes nothing.
pub decay_user_again :
    (js : Js) (job : DecayJob) (env env' : Env) (id : String) (db : Db) (r : Option String)
    (db' : Db)
    → env'.now ≡ env.now
    → decay_user js job env id db ≡ ok (r, db')
    → decay_user js job env' id db' ≡ ok (none, db')
unfolding decay_user
decay_user_again js job env env' id db r db' clock h =
    elim (Option-cases (find user_id id db.users)) [
      | inl missing ↦ ground (arith, missing)
      | inr (u, there) ↦
          let flags = keep (is_flag_of_user id) db.flags in
          elim (Bool-cases (has_no_flags flags || is_settled job env.now u flags)) [
            | inl still ↦ ground (arith, there, still, clock)
            | inr moved ↦
                let wrote : write_faded js job env u flags db ≡ ok (r, db') =
                  ground (arith, there, moved) in
                let (told, flags', users') = write_faded-writes js job env u flags db r db' wrote in
                let same : u.id ≡ id = find-key user_id id u db.users there in
                let sum = faded_sum job env.now flags in
                let f = set_score env.now sum (faded_level job.thresholds sum) in
                let found_after : find user_id id db'.users ≡ some (f u) = ground (
                  arith,
                  users',
                  same,
                  there,
                  find-update user_id id id f db.users (λ v. refl),
                  eq_refl id,
                ) in
                let settled : is_settled job env.now (f u) (keep (is_flag_of_user id) db'.flags)
                    ≡ true =
                  rw
                    (
                      flags',
                      same,
                      faded_sum-faded job env.now id db.flags,
                      score_of-faded job env.now id db.flags,
                      none_changed job env.now id db.flags,
                    )
                    (ground (arith, eq_refl (level_name (faded_level job.thresholds sum)))) in
                ground (arith, found_after, settled, clock)
          ]
    ]
