-- ===== src/Flags/Admin/Samples.antt =====
-- A change and a deletion of the flag of Flags/Samples.
use protect_platform.Policy.{trusted_command_weight_for_severity, level_from_score}
use protect_platform.Flags.{report_flag, add_flag, authorize_flag, create_flag_tx}
use protect_platform.Scores.{raise_score, score_of, recompute_user}
use protect_platform.Flags.Samples.{with_one, no_user}
use protect_platform.Samples.{empty_db, env, value_or, policy, state_or}
use protect_platform.Prelude.{
  refl, ok, remove, ◌≡◌, update, find_first, find, some, none, Result, String,
}
use protect_platform.Store.{has_key, enqueue, enqueue_many, log_with_tx, upsert_user, Db, User}
use protect_platform.Flags.Admin.{
  with_flag, delete_found, patch_found, delete_flag_tx, AdminPatchFlagDto, patch_flag_tx,
}

abbrev pub body : AdminPatchFlagDto
body = record { reason = none; weight = some 4 }

abbrev pub flag_id : String
flag_id = "a/0+1"

abbrev pub patching : Result (User × Db)
patching = patch_flag_tx policy (env "b") "1" "9" flag_id body with_one

abbrev pub rescored : User
rescored = value_or no_user patching

abbrev pub with_patch : Db
with_patch = state_or empty_db patching

pub changed : patching ≡ ok (rescored, with_patch)
unfolding patch_flag_tx patch_found with_flag recompute_user score_of create_flag_tx authorize_flag
    add_flag report_flag upsert_user raise_score log_with_tx enqueue_many enqueue has_key
    level_from_score trusted_command_weight_for_severity find find_first update
changed = refl

abbrev pub deleting : Result (User × Db)
deleting = delete_flag_tx policy (env "c") "1" "9" flag_id with_one

pub deleted : deleting ≡ ok (value_or no_user deleting, state_or empty_db deleting)
unfolding delete_flag_tx delete_found with_flag recompute_user score_of create_flag_tx
    authorize_flag add_flag report_flag upsert_user raise_score log_with_tx enqueue_many enqueue
    has_key level_from_score trusted_command_weight_for_severity find find_first update remove
deleted = refl
