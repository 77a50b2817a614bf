-- ===== src/Flags/Samples.antt =====
-- A database with one trusted user, and the flag that this user gives through the bot.
use protect_platform.Prelude.{◌≡◌, refl, none, some, [], ◌∷◌, ok, false, Result, find, update}
use protect_platform.Shared.Levels.{high_risk}
use protect_platform.Policy.{level_from_score, trusted_command_weight_for_severity}
use protect_platform.Store.{
  Db, User, FlagSource, upsert_user, log_with_tx, enqueue_many, enqueue, has_key,
}
use protect_platform.Scores.{raise_score}
use protect_platform.Auth.{AppRole, AuthIdentity, RequestPrincipal}
use protect_platform.Samples.{empty_db, policy, env, value_or, state_or}
use protect_platform.Flags.{
  CreateFlagDto, CreatedFlag, create_flag_tx, authorize_flag, add_flag, report_flag,
}

abbrev pub trusting : Db
trusting = record empty_db { trusted = record { discord_user_id = "7"; trust_level = 2 } ∷ [] }

abbrev pub dto : CreateFlagDto
dto = record {
  target_discord_id = "9";
  actor_discord_id = "7";
  reason = "aimbot";
  guild_id = none;
  admin_override = false;
  severity = some high_risk;
}

abbrev pub bot : RequestPrincipal
bot = record { identity = AuthIdentity.bot; roles = AppRole.bot ∷ [] }

abbrev pub no_user : User
no_user = record {
  id = "";
  discord_id = "";
  flag_score = 0;
  flag_level = high_risk;
  state_version = 0;
  updated_at = 0;
}

abbrev pub no_flag : CreatedFlag
no_flag = record { saved = no_user; weight = 0; source = FlagSource.system }

abbrev pub flagging : Result (CreatedFlag × Db)
flagging = create_flag_tx policy (env "a") dto bot trusting

abbrev pub flagged : CreatedFlag
flagged = value_or no_flag flagging

abbrev pub with_one : Db
with_one = state_or empty_db flagging

pub created : flagging ≡ ok (flagged, with_one)
unfolding create_flag_tx authorize_flag add_flag report_flag upsert_user raise_score log_with_tx
    enqueue_many enqueue has_key level_from_score trusted_command_weight_for_severity find update
created = refl
