-- ===== src/Flags/Admin/Tests.antt =====
-- Runs of the operations on flags, and the theorems at concrete inputs.
use protect_platform.Flags.Admin.Lost.{recompute_user_loses}
use protect_platform.Flags.Admin.Samples.{
  changed, with_patch, body, deleted, deleting, rescored, flag_id,
}
use protect_platform.Scores.{discord_key, raise_score, recompute_user, score_of}
use protect_platform.Flags.Admin.Repeated.{patch_flag_tx_once}
use protect_platform.Shared.Levels.{clean}
use protect_platform.Flags.Created.{create_flag_tx-IsFlagged}
use protect_platform.Flags.{CreatedFlag, report_flag, add_flag, authorize_flag, ok, create_flag_tx}
use protect_platform.Flags.Admin.Rescored.{
  HasUniqueIds, patch_flag_tx-IsRescored, delete_flag_tx-IsRescored, IsRescored,
}
use protect_platform.Scores.Consistency.{IsConsistent, IsFresh}
use protect_platform.Policy.{trusted_command_weight_for_severity, level_from_score}
use protect_platform.Store.{User, Db, has_key, enqueue, enqueue_many, log_with_tx, upsert_user}
use protect_platform.Flags.Admin.{with_flag, patched, flag_key, patch_found, patch_flag_tx}
use protect_platform.Prelude.{
  ◌<◌, some, Result, arith, ◌≡◌, ◌≢◌, refl, find, find_first, update, remove, none, [],
}
use protect_platform.Samples.{policy, env, value_or, state_or, empty_db}
use protect_platform.Flags.Samples.{trusting, dto, bot, flagged, with_one, created, no_user}

score_lowered : rescored.flag_score ≡ 4
unfolding patch_flag_tx patch_found with_flag recompute_user score_of create_flag_tx authorize_flag
    add_flag report_flag upsert_user raise_score log_with_tx enqueue_many enqueue has_key
    level_from_score trusted_command_weight_for_severity find find_first update
score_lowered = refl

starts : level_from_score policy 0 ≡ clean
unfolding level_from_score
starts = refl

no_users : IsConsistent policy [] []
unfolding find
no_users = record {
  score = λ id u h. ground arith;
  level = λ id u h. ground arith;
  indexed = λ id u h. ground arith;
}

fresh : IsFresh ((env "a").uuid 0) trusting.users trusting.flags
unfolding find
fresh = record { no_user = refl; no_flags = refl }

consistent : IsConsistent policy with_one.users with_one.flags
consistent =
    (create_flag_tx-IsFlagged policy (env "a") dto bot trusting fresh starts no_users flagged
      with_one created).consistent

unique : HasUniqueIds with_one.flags
unfolding create_flag_tx authorize_flag add_flag report_flag upsert_user raise_score log_with_tx
    enqueue_many enqueue has_key level_from_score trusted_command_weight_for_severity find update
unique = (refl, tt)

delete_flag_tx-IsRescored_example :
    IsRescored policy "9" with_one (value_or no_user deleting) (state_or empty_db deleting)
    × ((state_or empty_db deleting).flags ≡ remove flag_key flag_id with_one.flags)
delete_flag_tx-IsRescored_example =
    delete_flag_tx-IsRescored policy (env "c") "9" with_one consistent unique "1" flag_id
      (value_or no_user deleting) (state_or empty_db deleting) deleted

patch_flag_tx-IsRescored_example :
    IsRescored policy "9" with_one rescored with_patch
    × (with_patch.flags ≡ update flag_key flag_id (patched body) with_one.flags)
    × ¬ ((body.reason ≡ none) × (body.weight ≡ none))
patch_flag_tx-IsRescored_example =
    patch_flag_tx-IsRescored policy (env "b") "9" with_one consistent unique "1" flag_id body
      rescored with_patch changed

patch_flag_tx_once_example :
    patch_flag_tx policy (env "d") "1" "9" flag_id body with_patch ≢ ok (no_user, empty_db)
patch_flag_tx_once_example =
    patch_flag_tx_once policy "9" flag_id (env "b") (env "d") "1" "1" body body with_one with_patch
      empty_db rescored no_user changed

-- A second flag of the user is committed while the first one is being deleted.
abbrev flagging_again : Result (CreatedFlag × Db)
flagging_again = create_flag_tx policy (env "d") dto bot with_one

abbrev again : CreatedFlag
again = value_or flagged flagging_again

abbrev with_two : Db
with_two = state_or empty_db flagging_again

created_again : flagging_again ≡ ok (again, with_two)
unfolding create_flag_tx authorize_flag add_flag report_flag upsert_user raise_score log_with_tx
    enqueue_many enqueue has_key level_from_score trusted_command_weight_for_severity find update
created_again = refl

abbrev target_user : User
target_user = flagged.saved

abbrev stale_view : Db
stale_view = record with_two { flags = remove flag_key flag_id with_one.flags }

abbrev writing : Result (User × Db)
writing = recompute_user policy (env "e") target_user.id stale_view

abbrev lost : Db
lost = state_or empty_db writing

wrote : writing ≡ ok (value_or rescored writing, lost)
unfolding recompute_user score_of create_flag_tx authorize_flag add_flag report_flag upsert_user
    raise_score log_with_tx enqueue_many enqueue has_key level_from_score
    trusted_command_weight_for_severity find update remove
wrote = refl

is_target : find discord_key "9" with_one.users ≡ some target_user
unfolding create_flag_tx authorize_flag add_flag report_flag upsert_user raise_score log_with_tx
    enqueue_many enqueue has_key level_from_score trusted_command_weight_for_severity find update
is_target = refl

fresh_again : IsFresh ((env "d").uuid 0) with_one.users with_one.flags
unfolding create_flag_tx authorize_flag add_flag report_flag upsert_user raise_score log_with_tx
    enqueue_many enqueue has_key level_from_score trusted_command_weight_for_severity find update
fresh_again = record { no_user = refl; no_flags = refl }

heavy : 0 < again.weight
unfolding create_flag_tx authorize_flag add_flag report_flag upsert_user raise_score log_with_tx
    enqueue_many enqueue has_key level_from_score trusted_command_weight_for_severity find update
heavy = omega arith

recompute_user_loses_example :
    ¬ IsConsistent policy lost.users (remove flag_key flag_id with_two.flags)
recompute_user_loses_example =
    recompute_user_loses policy (env "d") (env "e") dto bot with_one target_user flag_id again
      with_two (value_or rescored writing) lost fresh_again starts consistent is_target refl
      created_again heavy wrote
