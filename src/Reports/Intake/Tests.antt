-- ===== src/Reports/Intake/Tests.antt =====
-- Runs of the intake, and its theorem at a concrete input.
use protect_platform.Reports.Review.{truncate_event_reason}
use protect_platform.Policy.{community_report_weight, level_from_score}
use protect_platform.Scores.{raise_score}
use protect_platform.Tickets.{create_for_pending_report}
use protect_platform.Store.{
  has_key, enqueue_many, enqueue, log_with_tx, upsert_user, User, Db, Report,
}
use protect_platform.Reports.AntiAbuse.{
  dedupe_key, find_duplicate, claim_slots, assert_can_report, Limits,
}
use protect_platform.Reports.Intake.Refused.{submit_refused, IsUntouched}
use protect_platform.Redis.{World}
use protect_platform.Reports.Intake.{
  tell_instant, upsert_both, params, create_pending_tx, create_instant_tx, submit, CreateReportDto,
}
use protect_platform.Samples.{plain_js, empty_db, empty_redis, policy, env, value_or, state_or}
use protect_platform.Reports.Samples.{suspect, waiting}
use protect_platform.Prelude.{
  ok, err, find_first, too_many, some, Result, none, ◌≡◌, refl, find, update, lookup, put, delete,
}

abbrev dto : CreateReportDto
dto = record {
  reporter_discord_id = "7";
  target_discord_id = "9";
  reason = "aimbot";
  guild_id = some "5";
  alleged_flag_level = none;
}

abbrev pending_run : Result (Report × Db)
pending_run = create_pending_tx plain_js (env "a") dto empty_db

creates_pending : pending_run ≡ ok (value_or waiting pending_run, state_or empty_db pending_run)
unfolding create_pending_tx upsert_both upsert_user log_with_tx enqueue has_key find
    create_for_pending_report dedupe_key truncate_event_reason
creates_pending = refl

abbrev instant_run : Result ((Report × User) × Db)
instant_run = create_instant_tx plain_js policy (env "a") dto empty_db

creates_instant :
    instant_run ≡ ok (value_or (waiting, suspect) instant_run, state_or empty_db instant_run)
unfolding create_instant_tx upsert_both upsert_user log_with_tx enqueue enqueue_many has_key find
    update raise_score level_from_score community_report_weight tell_instant dedupe_key
    truncate_event_reason
creates_instant = refl

abbrev none_allowed : Limits
none_allowed = record { dedupe_window_sec = 86400; cooldown_sec = 120; max_per_day = 0 }

abbrev world : World
world = record { db = empty_db; redis = some empty_redis }

abbrev after_submit : World
after_submit =
    (submit plain_js none_allowed 1000 (params dto) (create_pending_tx plain_js (env "a") dto)
      (λ _ w. w) world).1

refuses_submit :
    submit plain_js none_allowed 1000
      (params dto)
      (create_pending_tx plain_js (env "a") dto)
      (λ _ w. w)
      world
    ≡ (err (too_many "REPORT_SPAM_CAP"), after_submit)
unfolding submit assert_can_report claim_slots find_duplicate find_first lookup put delete
refuses_submit = refl

submit_refused_example : IsUntouched world after_submit
submit_refused_example =
    submit_refused plain_js none_allowed 1000 (params dto)
      (create_pending_tx plain_js (env "a") dto) (λ _ w. w) world after_submit
      (too_many "REPORT_SPAM_CAP") refuses_submit
