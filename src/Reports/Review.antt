-- ===== src/Reports/Review.antt =====
-- apps/api/src/reports/reports.service.ts: `approve` and `reject`. The reads before the transaction
-- are part of one step here.
pub mod Approved
pub mod Once
pub mod Stale
pub mod Kept
mod Tests
use protect_platform.Shared.Events.{user_updated, user_reported}
use protect_platform.Tickets.{Verdict, finalize_ticket_for_report}
use protect_platform.Users.{count_flags, user_to_public}
use protect_platform.Scores.{raise_score}
use protect_platform.Flags.{updated_payload, create_flag_row, or_null, new_flag}
use protect_platform.Redis.{UserPublic, commit, World}
use protect_platform.Policy.{trusted_command_weight_for_severity, FlagPolicy}
use protect_platform.Js.{Js}
use protect_platform.Shared.Levels.{level_name, FlagLevel}
use protect_platform.Cache
use protect_platform.Shared.Levels.{clean}
use protect_platform.Store.{
  enqueue_many, found, pure, ActorKind, AuditAction, check, gets, log_with_tx, FlagSource, Flag,
  text, null, modify, User, Json, Tx, JsonObject, Report, ReportStatus, Env,
}
use Prim.Native.String.{◌++◌}
use protect_platform.Store.{◌>>=◌, ◌>>◌}
use protect_platform.Prelude.{
  is_some, not_found, not, find, bad_request, [], ◌∷◌, Result, update, leb, true, false, Bool, some,
  if◌then◌else◌, ℕ, String, Option, none,
}

abbrev pub report_id : Report → String
report_id r = r.id

abbrev pub awaits_review : ReportStatus → Bool
awaits_review ReportStatus.pending = true
awaits_review _ = false

abbrev pub is_actionable : FlagLevel → Bool
is_actionable clean = false
is_actionable _ = true

abbrev level_or_null : Option FlagLevel → Json
level_or_null none = null
level_or_null (some l) = text (level_name l)

-- `truncateEventReason`: an ellipsis takes the place of what is cut off.
unfoldable pub truncate_event_reason : Js → String → String
truncate_event_reason js reason =
    let t = js.trim (js.collapse reason) in if leb (js.size t) 200 then t else js.slice 199 t ++ "…"

abbrev pub reported_payload : Js → Report → String → JsonObject
reported_payload js r target =
    ("reportId", text r.id)
    ∷ ("targetDiscordId", text target)
    ∷ ("reporterDiscordId", text r.reporter_discord_id)
    ∷ ("guildId", or_null r.guild_id)
    ∷ ("reason", text (truncate_event_reason js r.reason))
    ∷ ("allegedFlagLevel", level_or_null r.alleged_flag_level)
    ∷ []

abbrev pub approved : Env → String → String → Report → Report
approved env flag_id admin r = record r {
  status = ReportStatus.accepted;
  flag_id = some flag_id;
  reviewed_by_discord_id = some admin;
  reviewed_at = some env.now;
}

abbrev pub rejected_report : Env → String → Option String → Report → Report
rejected_report env admin note r = record r {
  status = ReportStatus.rejected;
  reviewed_by_discord_id = some admin;
  reviewed_at = some env.now;
  resolved_at = some env.now;
  resolver_note = note;
}

abbrev pub update_report : String → (Report → Report) → Tx (Unit {0})
update_report id f = modify (λ db. record db { reports = update report_id id f db.reports })

-- What an approval writes beside the flag, the user and the report.
pub tell_approved : Js → Env → String → Report → User → Tx (Unit {0})
tell_approved js env admin r saved = do
  log_with_tx env (record {
    action = AuditAction.report_approved;
    entity_type = "report";
    entity_id = r.id;
    target_id = some saved.discord_id;
    actor_discord_id = some admin;
    actor_kind = ActorKind.user;
    metadata = ("flagId", text (env.uuid 0)) ∷ ("guildId", or_null r.guild_id) ∷ [];
  })
  enqueue_many env 1 (
      record {
        event_type = user_reported;
        payload = reported_payload js r saved.discord_id;
        idempotency_key = some ("user.reported:" ++ r.id ++ ":approved");
      }
      ∷ record {
        event_type = user_updated;
        payload = updated_payload saved.discord_id saved;
        idempotency_key = some (
            "user.updated:" ++ r.reported_user_id ++ ":approve:" ++ r.id ++ ":flag:" ++ env.uuid 0);
      }
      ∷ [])
  finalize_ticket_for_report env (env.uuid 3) r.id Verdict.resolved admin

abbrev pub approval_flag : Env → ℕ → Report → Flag
approval_flag env weight r =
    new_flag env (env.uuid 0) r.reported_user_id weight r.reason FlagSource.community_report
      r.reporter_discord_id r.guild_id

-- The identifier 0 is the flag's.
pub approve_found : Js → FlagPolicy → Env → String → FlagLevel → Report → Tx User
approve_found js policy env admin severity r = do
  let weight = trusted_command_weight_for_severity policy severity
  create_flag_row (approval_flag env weight r)
  saved ← raise_score policy env r.reported_user_id weight
  update_report r.id (approved env (env.uuid 0) admin)
  tell_approved js env admin r saved
  pure saved

-- The reads and guards that come first. They stand outside the transaction that `approve_found` is:
-- `approve_tx` is the run in which nothing else commits between the two.
approve_checked : Js → FlagPolicy → Env → String → FlagLevel → Report → Tx User
approve_checked js policy env admin severity r = do
  check (awaits_review r.status) (bad_request "Report is not pending")
  check (not (is_some r.flag_id)) (bad_request "Report already has a flag")
  approve_found js policy env admin severity r

pub approve_tx : Js → FlagPolicy → Env → String → String → FlagLevel → Tx User
approve_tx js policy env id admin severity = do
  check (is_actionable severity)
      (bad_request "severity must be WATCH, SUSPICIOUS, HIGH_RISK, or CONFIRMED_CHEATER")
  row ← gets (λ db. find report_id id db.reports)
  r ← found row (not_found "Report not found")
  approve_checked js policy env admin severity r

pub approve : Js → FlagPolicy → Env → String → String → FlagLevel → World → Result User × World
approve js policy env id admin severity =
    commit (approve_tx js policy env id admin severity) (λ (saved : User) w. record w {
      redis =
          Cache.set_if_newer w.redis saved.discord_id
            (user_to_public saved (count_flags saved.id w.db.flags));
    })

-- The guard stands outside the transaction here too.
reject_checked : Env → String → Option String → Report → Tx (Unit {0})
reject_checked env admin note r = do
  check (awaits_review r.status) (bad_request "Report is not pending")
  update_report r.id (rejected_report env admin note)
  log_with_tx env (record {
    action = AuditAction.report_rejected;
    entity_type = "report";
    entity_id = r.id;
    target_id = some r.reporter_discord_id;
    actor_discord_id = some admin;
    actor_kind = ActorKind.user;
    metadata = ("guildId", or_null r.guild_id) ∷ [];
  })
  finalize_ticket_for_report env (env.uuid 0) r.id Verdict.rejected admin

pub reject_tx : Env → String → String → Option String → Tx (Unit {0})
reject_tx env id admin note = do
  row ← gets (λ db. find report_id id db.reports)
  r ← found row (not_found "Report not found")
  reject_checked env admin note r
