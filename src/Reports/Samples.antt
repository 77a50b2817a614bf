-- ===== src/Reports/Samples.antt =====
-- A database with one report that waits.
use protect_platform.Shared.Levels.{watch}
use protect_platform.Shared.Levels.{clean}
use protect_platform.Store.{ReportStatus, User, Report, Db}
use protect_platform.Prelude.{some, none, ◌∷◌, []}
use protect_platform.Samples.{empty_db}

abbrev pub suspect : User
suspect = record {
  id = "u9";
  discord_id = "9";
  flag_score = 0;
  flag_level = clean;
  state_version = 0;
  updated_at = 1;
}

abbrev pub waiting : Report
waiting = record {
  id = "r1";
  reporter_discord_id = "7";
  reported_user_id = "u9";
  guild_id = some "5";
  alleged_flag_level = some watch;
  reason = "aimbot";
  dedupe_key = some "key";
  status = ReportStatus.pending;
  created_at = 1;
  resolved_at = none;
  resolver_note = none;
  reviewed_by_discord_id = none;
  reviewed_at = none;
  flag_id = none;
}

abbrev pub with_report : Db
with_report = record empty_db { users = suspect ∷ []; reports = waiting ∷ [] }
