-- ===== src/LicenseKeys.antt =====
-- apps/api/src/license-keys/license-keys.service.ts: licence keys are generated, revoked and
-- redeemed. `listKeys` only reads. The audit row, which the source writes after the transaction, is
-- part of one step with it.
mod Effect
mod Final
mod Once
mod Licensed
mod Tests
use protect_platform.Servers.{upsert_server}
use protect_platform.Flags.{or_null}
use protect_platform.Entitlements.{ms_per_day, upsert_entitlement}
use protect_platform.Auth.{AppRole, principal_has_any_role, RequestPrincipal, AuthIdentity}
use protect_platform.Js.{split_commas, size_of, is_empty, is_snowflake, strip_prefix, Js}
use Prim.Native.Char.{code}
use Prim.Native.String.{String, ◌++◌}
use protect_platform.Store.{
  MemberSyncState, null, text, log_with_tx, num, found, audit_row, pure, ActorKind, AuditInput,
  throw, LicenseStatus, Db, JsonObject, GuildEntitlement, gets, modify, check, LicenseKey, Env, Tx,
  AuditAction, LicenseKeyStatus, ◌>>=◌, ◌>>◌,
}
use protect_platform.Prelude.{
  zero, not, length, ◌*◌, conflict, not_found, max, ltb, ◌||◌, [], ◌∷◌, map, is_some, bad_request,
  err, ok, min, includes, ◌&&◌, if◌then◌else◌, update, ◌+◌, find, create, forbidden, suc, false,
  ApiError, true, leb, some, keep, Bool, Option, Result, ℕ, List, none,
}

abbrev pub code_key : LicenseKey → String
code_key k = k.code

abbrev pub key_id : LicenseKey → String
key_id k = k.id

-- `parseManageableGuildIds`
pub parse_manageable_guild_ids : Js → String → List String
parse_manageable_guild_ids js raw = keep is_snowflake (map js.trim (split_commas raw))

pub normalize_license_code : Js → String → String
normalize_license_code js raw = js.lower_case (js.trim raw)

-- `/^sentra-[a-f0-9]{8,32}$/`
abbrev is_hex : ℕ → Bool
is_hex c = (leb b'a' c && leb c b'f') || (leb b'0' c && leb c b'9')

unfoldable pub all_hex : String → Bool
all_hex String.[] = true
all_hex (String.◌∷◌ c s) = is_hex (code c) && all_hex s

abbrev is_code_tail : Option String → Bool
is_code_tail none = false
is_code_tail (some s) = all_hex s && leb 8 (size_of s) && leb (size_of s) 32

unfoldable pub is_license_code : String → Bool
unfolding all_hex
is_license_code s = is_code_tail (strip_prefix "sentra-" s)

abbrev user_of : AuthIdentity → ApiError → Tx String
user_of AuthIdentity.bot e = throw e
user_of (AuthIdentity.user discord_id) e = pure discord_id

pub assert_admin : RequestPrincipal → Tx String
assert_admin principal = do
  check (principal_has_any_role principal (AppRole.admin ∷ [])) (forbidden "Forbidden")
  user_of principal.identity (forbidden "Forbidden")

pub assert_user_or_admin : RequestPrincipal → Tx String
assert_user_or_admin principal = do
  discord_id ← user_of principal.identity (forbidden "Forbidden")
  check (principal_has_any_role principal (AppRole.user ∷ AppRole.admin ∷ []))
      (forbidden "Redeem requires User role")
  pure discord_id

pub record GenerateInput : Type 0 where
  pub count : ℕ
  pub plan_code : Option String
  pub preset_valid_days : Option ℕ
  pub notes : Option String

-- `x?.trim() || null`
abbrev trimmed_or_null : Js → Option String → Option String
trimmed_or_null js none = none
trimmed_or_null js (some s) = if is_empty (js.trim s) then none else some (js.trim s)

abbrev clamp_days : Option ℕ → Option ℕ
clamp_days none = none
clamp_days (some n) = some (min 3650 (max 1 n))

abbrev pub new_key : Js → String → String → GenerateInput → String → LicenseKey
new_key js id code input actor = record {
  id = id;
  code = code;
  status = LicenseKeyStatus.unused;
  plan_code = trimmed_or_null js input.plan_code;
  preset_valid_days = clamp_days input.preset_valid_days;
  notes = trimmed_or_null js input.notes;
  created_by_discord_id = some actor;
  redeemed_at = none;
  redeemed_guild_id = none;
  redeemed_by_discord_id = none;
  revoked_at = none;
}

-- The first of the codes to try that no key has; `attempts` are left of the eight.
unfoldable pub free_code : List LicenseKey → (ℕ → String) → (attempts i : ℕ) → Option String
free_code keys codes zero i = none
free_code keys codes (suc attempts) i =
    let rest = free_code keys codes attempts (i + 1) in
    if is_some (find code_key (codes i) keys) then rest else some (codes i)

-- The loop over the keys, each created on its own: the keys made before an error stay. `codes i j`
-- is the j-th random code for the i-th key, and the identifiers run from `i`.
abbrev add_key : LicenseKey → Db → Db
add_key k db = record db { license_keys = create k db.license_keys }

abbrev pub prepend_code : String → Result (List String) × Db → Result (List String) × Db
prepend_code c (ok cs, db) = (ok (c ∷ cs), db)
prepend_code c (err e, db) = (err e, db)

unfoldable pub generate_loop :
    Js
    → Env
    → (ℕ → ℕ → String)
    → GenerateInput
    → String
    → (count i : ℕ) → Db
    → Result (List String) × Db
generate_loop js env codes input actor zero i db = (ok [], db)
generate_loop js env codes input actor (suc count) i db =
    elim (free_code db.license_keys (codes i) 8 0) [
      | none ↦ (err (conflict "Could not generate unique code"), db)
      | some c ↦ prepend_code c (
          generate_loop js env codes input actor count (i + 1)
            (add_key (new_key js (env.uuid i) c input actor) db))
    ]

abbrev key_audit : AuditAction → String → Option String → String → JsonObject → AuditInput
key_audit action entity target actor metadata = record {
  action = action;
  entity_type = "license_key";
  entity_id = entity;
  target_id = target;
  actor_discord_id = some actor;
  actor_kind = ActorKind.user;
  metadata = metadata;
}

-- The audit row is written only when all keys are made.
abbrev after_loop :
    Env → GenerateInput → String → Result (List String) × Db → Result (List String) × Db
after_loop env input actor (err e, db) = (err e, db)
after_loop env input actor (ok codes, db) = (
  ok codes,
  record db {
    audit =
        create
          (audit_row env (
            key_audit AuditAction.license_key_generated "batch" none actor
              (("count", num (length codes)) ∷ ("planCode", or_null input.plan_code) ∷ [])))
          db.audit;
  },
)

pub generate_for :
    Js → Env → (ℕ → ℕ → String) → GenerateInput → String → Db → Result (List String) × Db
generate_for js env codes input actor db =
    after_loop env input actor
      (generate_loop js env codes input actor (min 100 (max 1 input.count)) 0 db)

pub generate_keys :
    Js → Env → (ℕ → ℕ → String) → RequestPrincipal → GenerateInput → Db → Result (List String) × Db
unfolding generate_for
generate_keys js env codes principal input db = elim (assert_admin principal db) [
  | err e ↦ (err e, db)
  | ok (actor, s) ↦ generate_for js env codes input actor s
]

abbrev pub is_redeemed : LicenseKeyStatus → Bool
is_redeemed LicenseKeyStatus.redeemed = true
is_redeemed _ = false

abbrev pub is_unused : LicenseKeyStatus → Bool
is_unused LicenseKeyStatus.unused = true
is_unused _ = false

abbrev pub revoked : Env → LicenseKey → LicenseKey
revoked env k = record k { status = LicenseKeyStatus.revoked; revoked_at = some env.now }

abbrev pub update_key : String → (LicenseKey → LicenseKey) → Tx (Unit {0})
update_key id f = modify (λ db. record db { license_keys = update key_id id f db.license_keys })

pub revoke_key : Env → RequestPrincipal → String → Tx (Unit {0})
revoke_key env principal id = do
  actor ← assert_admin principal
  row ← gets (λ db. find key_id id db.license_keys)
  k ← found row (not_found "Not Found")
  check (not (is_redeemed k.status)) (bad_request "Cannot revoke redeemed key")
  update_key id (revoked env)
  log_with_tx env
      (key_audit AuditAction.license_key_revoked id none actor (("code", text k.code) ∷ []))

pub record RedeemInput : Type 0 where
  pub code : String
  pub guild_id : String
  pub manageable_guild_ids_csv : String

-- `setUTCDate(getUTCDate() + days)`: UTC days have the same length.
abbrev pub valid_until : ℕ → Option ℕ → Option ℕ
valid_until now none = none
valid_until now (some days) = if ltb 0 days then some (now + days * ms_per_day) else none

abbrev pub entitlement_of : Env → LicenseKey → String → String → GuildEntitlement
entitlement_of env k guild discord_id = record {
  guild_id = guild;
  status = LicenseStatus.active;
  valid_from = env.now;
  valid_until = valid_until env.now k.preset_valid_days;
  plan_code = k.plan_code;
  stripe_customer_id = none;
  stripe_subscription_id = none;
  created_by_discord_id = some discord_id;
  last_member_sync_at = none;
  member_sync_state = MemberSyncState.idle;
}

abbrev pub redeemed : Env → String → String → LicenseKey → LicenseKey
redeemed env guild discord_id k = record k {
  status = LicenseKeyStatus.redeemed;
  redeemed_at = some env.now;
  redeemed_guild_id = some guild;
  redeemed_by_discord_id = some discord_id;
}

abbrev usable : Option LicenseKey → Option LicenseKey
usable none = none
usable (some k) = if is_unused k.status then some k else none

-- The transaction of `redeem`: what it reads, and what it writes for the key it found.
pub write_redeemed : Env → String → String → LicenseKey → Tx (Unit {0})
write_redeemed env guild discord_id k = do
  upsert_server env (env.uuid 0) guild
  upsert_entitlement (entitlement_of env k guild discord_id)
  update_key k.id (redeemed env guild discord_id)

pub redeem_code : Env → String → String → String → Tx (Unit {0})
redeem_code env code guild discord_id = do
  row ← gets (λ db. usable (find code_key code db.license_keys))
  k ← found row (bad_request "Invalid or already used license key")
  write_redeemed env guild discord_id k

pub redeem : Js → Env → RequestPrincipal → RedeemInput → Tx (Unit {0})
redeem js env principal input = do
  discord_id ← assert_user_or_admin principal
  check (includes input.guild_id (parse_manageable_guild_ids js input.manageable_guild_ids_csv))
      (forbidden "Guild not in your manageable list")
  let code = normalize_license_code js input.code
  check (is_license_code code) (bad_request "Invalid license key format")
  redeem_code env code input.guild_id discord_id
  log_with_tx env (
      key_audit AuditAction.license_key_redeemed input.guild_id (some input.guild_id) discord_id
        (("code", text code) ∷ []))
