-- ===== src/Flags/Tests.antt =====
-- Runs of `createFlag`, and the theorems at concrete inputs.
use protect_platform.Scores.{raise_score}
use protect_platform.Store.{has_key, enqueue, enqueue_many, log_with_tx, upsert_user}
use protect_platform.Shared.Levels.{clean}
use protect_platform.Flags.{report_flag, add_flag, authorize_flag, acting_id, create_flag_tx}
use protect_platform.Scores.Consistency.{IsConsistent, IsFresh}
use protect_platform.Policy.{trusted_command_weight_for_severity, level_from_score}
use protect_platform.Flags.Created.{create_flag_tx-IsFlagged, IsFlagged}
use protect_platform.Samples.{policy, env}
use protect_platform.Flags.Samples.{trusting, dto, bot, flagged, with_one, created}
use protect_platform.Prelude.{String, ◌≡◌, refl, find, update, [], arith, ◌≢◌, ◌⊎◌}
use protect_platform.Flags.Authorized.{SpeaksFor, ByTrust, ByOverride, create_flag_tx_authorized}

score_raised : flagged.saved.flag_score ≡ 10
unfolding create_flag_tx authorize_flag add_flag report_flag upsert_user raise_score log_with_tx
    enqueue_many enqueue has_key level_from_score trusted_command_weight_for_severity find update
score_raised = refl

starts : level_from_score policy 0 ≡ clean
unfolding level_from_score
starts = refl

no_users : IsConsistent policy [] []
unfolding find
no_users = record {
  score = λ id u h. ground arith;
  level = λ id u h. ground arith;
  indexed = λ id u h. ground arith;
}

fresh : IsFresh ((env "a").uuid 0) trusting.users trusting.flags
unfolding find
fresh = record { no_user = refl; no_flags = refl }

-- The state after the flag is one in which scores and levels agree.
create_flag_tx-IsFlagged_example :
    IsFlagged policy
      (env "a")
      dto
      (acting_id bot.identity dto.actor_discord_id)
      trusting
      flagged
      with_one
create_flag_tx-IsFlagged_example =
    create_flag_tx-IsFlagged policy (env "a") dto bot trusting fresh starts no_users flagged
      with_one created

create_flag_tx_authorized_example :
    SpeaksFor dto bot
    × (◌≢◌ {A = String} "7" "9")
    × (ByOverride policy dto bot flagged.weight flagged.source
        ⊎ ByTrust policy dto trusting flagged.weight flagged.source)
create_flag_tx_authorized_example =
    create_flag_tx_authorized policy dto bot trusting (env "a") flagged with_one created
