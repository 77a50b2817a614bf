-- ===== src/Flags.antt =====
-- apps/api/src/flags/flags.service.ts: `createFlag`, the trusted command and the admin override.
pub mod Created
pub mod Authorized
pub mod Admin
pub mod Samples
mod Tests
use Prim.Native.String.{◌++◌}
use protect_platform.Prelude.{
  ℕ, String, Bool, true, false, not, ◌&&◌, ◌||◌, Option, none, some, List, [], ◌∷◌, ◌==◌, find,
  create, is_some, bad_request, forbidden, Result, ok, err, if◌then◌else◌,
}
use protect_platform.Shared.Levels.{FlagLevel, level_name}
use protect_platform.Shared.Events.{user_flagged, user_updated}
use protect_platform.Policy.{
  FlagPolicy, admin_override_weight, trusted_command_weight_for_severity,
  flag_weight_from_trust_level,
}
use protect_platform.Store.{
  User, Flag, FlagSource, trusted_command, admin_override, ActorKind, TrustedUser, Json, text, num,
  flag, null, JsonObject, Db, Env, Tx, ◌>>=◌, ◌>>◌, check, throw, gets, modify, pure, upsert_user,
  log_with_tx, enqueue_many, AuditAction,
}
use protect_platform.Scores.{raise_score}
use protect_platform.Auth.{AppRole, AuthIdentity, RequestPrincipal, has_role}
use protect_platform.Redis.{World, commit}
use protect_platform.Users.{refresh_public_cache}

-- dto/create-flag.dto.ts, after validation
pub record CreateFlagDto : Type 0 where
  pub target_discord_id : String
  pub actor_discord_id : String
  pub reason : String
  pub guild_id : Option String
  pub admin_override : Bool
  pub severity : Option FlagLevel

abbrev pub acting_id : AuthIdentity → String → String
acting_id (AuthIdentity.user discord_id) claimed = discord_id
acting_id AuthIdentity.bot claimed = claimed

abbrev pub is_user : AuthIdentity → Bool
is_user (AuthIdentity.user discord_id) = true
is_user AuthIdentity.bot = false

abbrev pub actor_kind : AuthIdentity → ActorKind
actor_kind (AuthIdentity.user discord_id) = ActorKind.user
actor_kind AuthIdentity.bot = ActorKind.bot

abbrev pub use_admin_override : CreateFlagDto → RequestPrincipal → Bool
use_admin_override dto principal =
    dto.admin_override && is_user principal.identity && has_role AppRole.admin principal.roles

abbrev pub weight_of : FlagPolicy → CreateFlagDto → TrustedUser → ℕ
weight_of policy dto trusted = elim dto.severity [
  | some severity ↦ trusted_command_weight_for_severity policy severity
  | none ↦ flag_weight_from_trust_level policy trusted.trust_level
]

abbrev trusted_weight : FlagPolicy → CreateFlagDto → Option TrustedUser → Tx (ℕ × FlagSource)
trusted_weight policy dto none = throw (forbidden "Actor is not a trusted user")
trusted_weight policy dto (some trusted) = pure (weight_of policy dto trusted, trusted_command)

-- The guards, and the weight and source that the flag gets.
pub authorize_flag : FlagPolicy → CreateFlagDto → RequestPrincipal → Tx (ℕ × FlagSource)
authorize_flag policy dto principal = do
  let actor = acting_id principal.identity dto.actor_discord_id
  check (not (not (dto.actor_discord_id == actor) && is_user principal.identity))
      (bad_request "actorDiscordId must match authenticated user")
  check (not (actor == dto.target_discord_id)) (bad_request "Cannot flag yourself")
  let override = use_admin_override dto principal
  check (not (dto.admin_override && not override))
      (forbidden "adminOverride requires ADMIN session")
  check (not (not (is_user principal.identity) && not override && not (is_some dto.severity)))
      (bad_request "severity is required")
  trusted ← gets (λ db. find (λ (t : TrustedUser). t.discord_user_id) actor db.trusted)
  (if override
      then pure (admin_override_weight policy, admin_override)
      else trusted_weight policy dto trusted)

abbrev pub or_null : Option String → Json
or_null none = null
or_null (some s) = text s

-- A field that JSON leaves out when it is undefined.
abbrev pub optional : String → Option String → JsonObject
optional name none = []
optional name (some s) = (name, text s) ∷ []

abbrev pub source_name : FlagSource → String
source_name FlagSource.trusted_command = "TRUSTED_COMMAND"
source_name FlagSource.community_report = "COMMUNITY_REPORT"
source_name FlagSource.admin_override = "ADMIN_OVERRIDE"
source_name FlagSource.api = "API"
source_name FlagSource.report_escalation = "REPORT_ESCALATION"
source_name FlagSource.system = "SYSTEM"

-- The payload of every `user.updated` event.
abbrev pub updated_payload : String → User → JsonObject
updated_payload discord_id saved =
    ("discordId", text discord_id)
    ∷ ("flagLevel", text (level_name saved.flag_level))
    ∷ ("flagScore", num saved.flag_score)
    ∷ ("stateVersion", num saved.state_version)
    ∷ []

abbrev flagged_payload : CreateFlagDto → String → User → JsonObject
flagged_payload dto actor saved =
    ("targetDiscordId", text dto.target_discord_id)
    ∷ ("flagLevel", text (level_name saved.flag_level))
    ∷ ("flagScore", num saved.flag_score)
    ∷ ("guildId", or_null dto.guild_id)
    ∷ ("actorDiscordId", text actor)
    ∷ ("stateVersion", num saved.state_version)
    ∷ []

abbrev pub new_flag :
    Env → String → String → ℕ → String → FlagSource → String → Option String → Flag
new_flag env id user_id weight reason source actor guild_id = record {
  id = id;
  user_id = user_id;
  weight = weight;
  effective_weight = some weight;
  reason = reason;
  source = source;
  actor_discord_id = actor;
  guild_id = guild_id;
  created_at = env.now;
}

abbrev pub create_flag_row : Flag → Tx (Unit {0})
create_flag_row f = modify (λ db. record db { flags = create f db.flags })

-- What the transaction writes beside the user and the flag. The identifiers 2 and 3 are the events'.
report_flag :
    Env → CreateFlagDto → RequestPrincipal → String → ℕ → FlagSource → User → Tx (Unit {0})
report_flag env dto principal user_id weight source saved = do
  let actor = acting_id principal.identity dto.actor_discord_id
  log_with_tx env (record {
    action = AuditAction.flag_created;
    entity_type = "user";
    entity_id = saved.discord_id;
    target_id = some dto.target_discord_id;
    actor_discord_id = some actor;
    actor_kind = actor_kind principal.identity;
    metadata =
        ("weight", num weight)
        ∷ ("source", text (source_name source))
        ∷ ("adminOverride", flag (use_admin_override dto principal))
        ∷ optional "guildId" dto.guild_id;
  })
  enqueue_many env 2 (
      record {
        event_type = user_flagged;
        payload = flagged_payload dto actor saved;
        idempotency_key = some ("user.flagged:" ++ env.uuid 1);
      }
      ∷ record {
        event_type = user_updated;
        payload = updated_payload dto.target_discord_id saved;
        idempotency_key = some ("user.updated:" ++ user_id ++ ":flag:" ++ env.uuid 1);
      }
      ∷ [])

-- The target's row, created if it is missing, a flag of that weight, and the score raised by it.
-- The identifier 0 is a new user's, 1 the flag's.
pub add_flag : FlagPolicy → Env → CreateFlagDto → String → ℕ → FlagSource → Tx (String × User)
add_flag policy env dto actor weight source = do
  target ← upsert_user env (env.uuid 0) dto.target_discord_id
  create_flag_row (new_flag env (env.uuid 1) target.id weight dto.reason source actor dto.guild_id)
  saved ← raise_score policy env target.id weight
  pure (target.id, saved)

pub record CreatedFlag : Type 0 where
  pub saved : User
  pub weight : ℕ
  pub source : FlagSource

pub create_flag_tx : FlagPolicy → Env → CreateFlagDto → RequestPrincipal → Tx CreatedFlag
create_flag_tx policy env dto principal = do
  (weight, source) ← authorize_flag policy dto principal
  let actor = acting_id principal.identity dto.actor_discord_id
  (user_id, saved) ← add_flag policy env dto actor weight source
  report_flag env dto principal user_id weight source saved
  pure (record { saved = saved; weight = weight; source = source })

pub create_flag :
    FlagPolicy → Env → CreateFlagDto → RequestPrincipal → World → Result CreatedFlag × World
create_flag policy env dto principal =
    commit (create_flag_tx policy env dto principal)
      (λ _ w. refresh_public_cache dto.target_discord_id w)
