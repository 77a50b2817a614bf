-- ===== src/Flags/Admin.antt =====
-- apps/api/src/admin/admin-flags.service.ts: an admin deletes a flag, or changes its reason or
-- weight, and the user's score is computed anew from the flags that are left.
mod Reads
pub mod Rescored
pub mod Repeated
pub mod Lost
pub mod Samples
pub mod Listed
mod Tests
use Prim.Native.String.{◌++◌}
use protect_platform.Prelude.{
  ℕ, String, Bool, false, not, ◌&&◌, Option, none, some, List, [], ◌∷◌, ◌==◌, find, find_first,
  update, remove, is_some, or_else, bad_request, not_found, Result, if◌then◌else◌,
}
use protect_platform.Shared.Events.{flag_removed, user_updated}
use protect_platform.Policy.{FlagPolicy}
use protect_platform.Store.{
  User, Flag, ActorKind, Json, text, num, flag, JsonObject, Db, Env, Tx, ◌>>=◌, ◌>>◌, check, found,
  gets, modify, pure, log_with_tx, enqueue, enqueue_many, AuditAction,
}
use protect_platform.Scores.{recompute_user, discord_key}
use protect_platform.Redis.{World, commit}
use protect_platform.Users.{refresh_public_cache}
use protect_platform.Flags.{updated_payload}

abbrev pub flag_key : Flag → String
flag_key f = f.id

-- `tx.flag.findFirst({ where: { id: flagId, userId } })`
abbrev pub is_flag_of : String → String → Flag → Bool
is_flag_of flag_id user_id f = (f.id == flag_id) && (f.user_id == user_id)

-- The reads that both operations begin with: the user's row and the flag's row.
pub with_flag : String → String → (User → Flag → Tx User) → Tx User
with_flag target flag_id body = do
  row ← gets (λ db. find discord_key target db.users)
  user ← found row (not_found "User not found")
  flag_row ← gets (λ db. find_first (is_flag_of flag_id user.id) db.flags)
  flag_found ← found flag_row (not_found "Flag not found")
  body user flag_found

delete_found : FlagPolicy → Env → String → String → String → User → Flag → Tx User
delete_found policy env actor target flag_id user deleted = do
  modify (λ db. record db { flags = remove flag_key flag_id db.flags })
  after ← recompute_user policy env user.id
  log_with_tx env (record {
    action = AuditAction.flag_deleted;
    entity_type = "flag";
    entity_id = flag_id;
    target_id = some target;
    actor_discord_id = some actor;
    actor_kind = ActorKind.user;
    metadata = ("previousWeight", num deleted.weight) ∷ [];
  })
  enqueue_many env 0 (
      record {
        event_type = flag_removed;
        payload =
            ("discordId", text target)
            ∷ ("flagId", text flag_id)
            ∷ ("actorDiscordId", text actor)
            ∷ [];
        idempotency_key = some ("flag.removed:" ++ flag_id);
      }
      ∷ record {
        event_type = user_updated;
        payload = updated_payload target after;
        idempotency_key = some ("user.updated:" ++ user.id ++ ":flag_deleted:" ++ flag_id);
      }
      ∷ [])
  pure after

-- `deleteFlag` and `patchFlag` take no row lock: each is the run in which nothing else commits
-- between its reads and its writes.
pub delete_flag_tx : FlagPolicy → Env → String → String → String → Tx User
delete_flag_tx policy env actor target flag_id =
    with_flag target flag_id (delete_found policy env actor target flag_id)

pub delete_flag : FlagPolicy → Env → String → String → String → World → Result User × World
delete_flag policy env actor target flag_id =
    commit (delete_flag_tx policy env actor target flag_id) (λ _ w. refresh_public_cache target w)

-- dto/admin-patch-flag.dto.ts, after validation
pub record AdminPatchFlagDto : Type 0 where
  pub reason : Option String
  pub weight : Option ℕ

abbrev pub patched_weight : Option ℕ → Flag → Flag
patched_weight none f = f
patched_weight (some weight) f = record f { weight = weight; effective_weight = some weight }

abbrev pub patched : AdminPatchFlagDto → Flag → Flag
patched body f = patched_weight body.weight (record f { reason = or_else body.reason f.reason })

abbrev pub patch_key : String → String → String
patch_key user_id flag_id = "user.updated:" ++ user_id ++ ":flag_patch:" ++ flag_id

patch_found :
    FlagPolicy → Env → String → String → String → AdminPatchFlagDto → User → Flag → Tx User
patch_found policy env actor target flag_id body user _ = do
  modify (λ db. record db { flags = update flag_key flag_id (patched body) db.flags })
  after ← recompute_user policy env user.id
  log_with_tx env (record {
    action = AuditAction.flag_updated;
    entity_type = "flag";
    entity_id = flag_id;
    target_id = some target;
    actor_discord_id = some actor;
    actor_kind = ActorKind.user;
    metadata = ("reason", flag (is_some body.reason)) ∷ ("weight", flag (is_some body.weight)) ∷ [];
  })
  enqueue env (env.uuid 0) (record {
    event_type = user_updated;
    payload = updated_payload target after;
    idempotency_key = some (patch_key user.id flag_id);
  })
  pure after

-- No row lock here either: the run in which nothing else commits in between.
pub patch_flag_tx : FlagPolicy → Env → String → String → String → AdminPatchFlagDto → Tx User
patch_flag_tx policy env actor target flag_id body = do
  check (not (not (is_some body.reason) && not (is_some body.weight))) (bad_request "No changes")
  with_flag target flag_id (patch_found policy env actor target flag_id body)

pub patch_flag :
    FlagPolicy → Env → String → String → String → AdminPatchFlagDto → World → Result User × World
patch_flag policy env actor target flag_id body =
    commit (patch_flag_tx policy env actor target flag_id body)
      (λ _ w. refresh_public_cache target w)
