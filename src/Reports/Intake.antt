-- ===== src/Reports/Intake.antt =====
-- apps/api/src/reports/reports.service.ts: `createPendingReport`, the path of the community, and
-- `createInstantReport`, the path of trusted users and admins; Reports/Create chooses between them.
-- A Redis that fails once the transaction has committed is not modelled.
pub mod Recorded
pub mod Refused
mod Tests
use protect_platform.Js.{Js}
use protect_platform.Tickets.{create_for_pending_report}
use protect_platform.Scores.{raise_score}
use protect_platform.Shared.Events.{user_updated, user_reported, report_pending}
use protect_platform.Reports.Review.{reported_payload, update_report}
use protect_platform.Flags.{updated_payload, new_flag, create_flag_row, optional}
use protect_platform.Users.{count_flags, user_to_public}
use protect_platform.Shared.Levels.{level_name, FlagLevel}
use protect_platform.Redis.{UserPublic, World}
use protect_platform.Policy.{community_report_weight, FlagPolicy}
use protect_platform.Reports.AntiAbuse.{
  rollback_slots, assert_can_report, dedupe_key, Limits, ReportParams,
}
use Prim.Native.String.{◌++◌}
use protect_platform.Cache
use protect_platform.Store.{
  enqueue_many, enqueue, FlagSource, text, flag, ActorKind, num, AuditAction, Db, pure, log_with_tx,
  modify, AuditInput, upsert_user, ReportStatus, JsonObject, User, Tx, Env, Report, ◌>>=◌, ◌>>◌,
}
use protect_platform.Prelude.{[], ◌∷◌, true, ok, err, create, Result, Option, ℕ, some, String, none}

-- dto/create-report.dto.ts, after validation
pub record CreateReportDto : Type 0 where
  pub reporter_discord_id : String
  pub target_discord_id : String
  pub reason : String
  pub guild_id : Option String
  pub alleged_flag_level : Option FlagLevel

abbrev pub params : CreateReportDto → ReportParams
params dto = record {
  reporter = dto.reporter_discord_id;
  target = dto.target_discord_id;
  guild_id = dto.guild_id;
  reason = dto.reason;
}

abbrev pub new_report : Env → String → CreateReportDto → String → String → ReportStatus → Report
new_report env id dto reported key status = record {
  id = id;
  reporter_discord_id = dto.reporter_discord_id;
  reported_user_id = reported;
  guild_id = dto.guild_id;
  alleged_flag_level = dto.alleged_flag_level;
  reason = dto.reason;
  dedupe_key = some key;
  status = status;
  created_at = env.now;
  resolved_at = none;
  resolver_note = none;
  reviewed_by_discord_id = none;
  reviewed_at = none;
  flag_id = none;
}

abbrev pub create_report : Report → Tx (Unit {0})
create_report r = modify (λ db. record db { reports = create r db.reports })

-- The rows that both paths make sure of; the identifiers 0 and 1 are new users'.
unfoldable pub upsert_both : Env → CreateReportDto → Tx User
upsert_both env dto = do
  reported ← upsert_user env (env.uuid 0) dto.target_discord_id
  _ ← upsert_user env (env.uuid 1) dto.reporter_discord_id
  pure reported

-- `{ guildId: dto.guildId, ... }`, without the field if there is no guild.
abbrev pub with_guild : Option String → JsonObject → JsonObject
with_guild none fields = fields
with_guild (some g) fields = ("guildId", text g) ∷ fields

-- The audit row of a new report.
abbrev created_audit : CreateReportDto → String → JsonObject → AuditInput
created_audit dto id metadata = record {
  action = AuditAction.report_created;
  entity_type = "report";
  entity_id = id;
  target_id = some dto.target_discord_id;
  actor_discord_id = some dto.reporter_discord_id;
  actor_kind = ActorKind.user;
  metadata = metadata;
}

-- The identifier 2 is the report's, 4 the ticket's.
unfoldable pub create_pending_tx : Js → Env → CreateReportDto → Tx Report
create_pending_tx js env dto = do
  reported ← upsert_both env dto
  let r =
      new_report env (env.uuid 2) dto reported.id (dedupe_key js (params dto)) ReportStatus.pending
  create_report r
  log_with_tx env
      (created_audit dto r.id (with_guild dto.guild_id (("pendingReview", flag true) ∷ [])))
  enqueue env (env.uuid 3) (record {
    event_type = report_pending;
    payload = reported_payload js r dto.target_discord_id;
    idempotency_key = some ("report.pending:" ++ r.id);
  })
  create_for_pending_report env (env.uuid 4) (env.uuid 5) r.id dto.guild_id dto.reporter_discord_id
  pure r

abbrev pub link_flag : String → Report → Report
link_flag flag_id r = record r { flag_id = some flag_id }

-- What an instant report writes beside the report, the flag and the user.
pub tell_instant : Js → Env → CreateReportDto → Report → ℕ → User → Tx (Unit {0})
tell_instant js env dto r weight saved = do
  log_with_tx env (
      created_audit dto r.id (
        with_guild dto.guild_id (
          ("flagWeight", num weight)
          ∷ ("flagLevel", text (level_name saved.flag_level))
          ∷ ("instant", flag true)
          ∷ [])))
  enqueue_many env 4 (
      record {
        event_type = user_reported;
        payload = reported_payload js r dto.target_discord_id;
        idempotency_key = some ("user.reported:" ++ r.id);
      }
      ∷ record {
        event_type = user_updated;
        payload = updated_payload dto.target_discord_id saved;
        idempotency_key =
            some ("user.updated:" ++ saved.id ++ ":report:" ++ r.id ++ ":flag:" ++ env.uuid 3);
      }
      ∷ [])

-- The identifier 2 is the report's, 3 the flag's.
pub create_instant_tx : Js → FlagPolicy → Env → CreateReportDto → Tx (Report × User)
create_instant_tx js policy env dto = do
  reported ← upsert_both env dto
  let r =
      new_report env (env.uuid 2) dto reported.id (dedupe_key js (params dto)) ReportStatus.accepted
  create_report r
  let weight = community_report_weight policy
  create_flag_row (
      new_flag env (env.uuid 3) reported.id weight dto.reason FlagSource.community_report
        dto.reporter_discord_id dto.guild_id)
  update_report r.id (link_flag (env.uuid 3))
  saved ← raise_score policy env reported.id weight
  tell_instant js env dto r weight saved
  pure (r, saved)

module _ {A : Type 0} where
  -- The `try` around the transaction: what it throws gives the slots back and is thrown again.
  abbrev pub finish :
      ReportParams → (A → World → World) → Result (A × Db) → World → Result A × World
  finish p after (err e) w = (err e, rollback_slots p.reporter p.guild_id w)
  finish p after (ok (a, db)) w = (ok a, after a (record w { db = db }))

  abbrev pub settle :
      ReportParams → Tx A → (A → World → World) → Result (Unit {0}) × World → Result A × World
  settle p tx after (err e, w) = (err e, w)
  settle p tx after (ok u, w) = finish p after (tx w.db) w

  -- The rate limits, and then the transaction.
  unfoldable pub submit :
      Js → Limits → ℕ → ReportParams → Tx A → (A → World → World) → World → Result A × World
  submit js limits now p tx after w = settle p tx after (assert_can_report js limits now p w)

unfoldable pub create_pending_report :
    Js → Limits → Env → CreateReportDto → World → Result Report × World
unfolding submit
create_pending_report js limits env dto =
    submit js limits env.now (params dto) (create_pending_tx js env dto) (λ _ w. w)

abbrev pub refresh_reported : String → Report × User → World → World
refresh_reported target (r, saved) w = record w {
  redis =
      Cache.set_if_newer w.redis target (user_to_public saved (count_flags saved.id w.db.flags));
}

pub create_instant_report :
    Js → Limits → FlagPolicy → Env → CreateReportDto → World → Result (Report × User) × World
unfolding submit
create_instant_report js limits policy env dto =
    submit js limits env.now (params dto) (create_instant_tx js policy env dto)
      (refresh_reported dto.target_discord_id)
