-- ===== src/Worker/Decay/Tests.antt =====
-- A run of the decay job, and its theorems at a concrete input.
use protect_platform.Samples.{suspect, flagged, flagged-IsConsistent}
use protect_platform.Scores.{user_id}
use protect_platform.Worker.Decay.Faded.{run_decay_job-IsConsistent, thresholds_of}
use protect_platform.Shared.Levels.{FlagLevel}
use protect_platform.Samples.{env, empty_db, plain_js, state_or, empty_redis, policy}
use protect_platform.Scores.Consistency.{IsConsistent}
use protect_platform.Store.{has_key, enqueue, Db}
use protect_platform.Dispatch.{WorkerState}
use protect_platform.Prelude.{some, update, refl, ok, ◌/◌, ◌≡◌, true, find}
use protect_platform.Worker.Decay.{
  effective_weight_for_flag, run_decay_job, faded_sum, write_faded, faded_level, decay_user,
  DecayJob,
}

-- Every run halves the weight.
abbrev job : DecayJob
job = record {
  enabled = true;
  half_life_days = 30;
  thresholds = thresholds_of policy;
  fade = λ source weight created_at now half_life. weight / 2;
}

abbrev start : WorkerState
start = record { db = flagged; redis = empty_redis }

abbrev decayed : Db
decayed = state_or empty_db (decay_user plain_js job (env "a") "u" flagged)

decays : decay_user plain_js job (env "a") "u" flagged ≡ ok (some "9", decayed)
unfolding decay_user write_faded faded_sum faded_level effective_weight_for_flag enqueue has_key
    find update
decays = refl

lowered :
    find user_id "u" decayed.users
    ≡ some (record suspect {
      flag_score = 5;
      flag_level = FlagLevel.suspicious;
      state_version = 2;
      updated_at = 1000;
    })
unfolding decay_user write_faded faded_sum faded_level effective_weight_for_flag enqueue has_key
    find update
lowered = refl

run_decay_job-IsConsistent_example :
    IsConsistent policy
      (run_decay_job plain_js job 1000 (λ i. env "a") start).1.db.users
      (run_decay_job plain_js job 1000 (λ i. env "a") start).1.db.flags
run_decay_job-IsConsistent_example =
    run_decay_job-IsConsistent plain_js policy job 1000 (λ i. env "a") start refl
      flagged-IsConsistent
