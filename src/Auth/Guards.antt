-- ===== src/Auth/Guards.antt =====
-- apps/api/src/auth: bot-or-jwt.guard.ts, jwt-admin.guard.ts and rbac.guard.ts. A header that is
-- missing and one that is a list are both `none`. `verify` is the `verify` of @nestjs/jwt with a
-- token and a secret: `none` if it throws, else the `sub` of the payload.
pub mod Admitted
mod Tests
use protect_platform.Store.{Db}
use protect_platform.Auth.{
  principal_has_any_role, resolve_principal, RequestPrincipal, AppRole, AuthIdentity,
}
use protect_platform.Js.{is_empty, strip_prefix, Js}
use protect_platform.Prelude.{
  ◌&&◌, forbidden, ◌==◌, if◌then◌else◌, List, unauthorized, not, ok, false, err, some, Option, Bool,
  String, Result, none,
}

pub record Headers : Type 0 where
  pub api_key : Option String
  pub authorization : Option String

pub record AuthConfig : Type 0 where
  pub bot_api_key : Option String
  pub dashboard_jwt_secret : Option String
  pub admin_discord_ids : Option String

abbrev pub Verify : Type 0
Verify = String → String → Option (Option String)

abbrev same_text : Option String → String → Bool
same_text none expected = false
same_text (some s) expected = s == expected

-- `expected && typeof apiKey === 'string' && apiKey === expected`
abbrev pub is_bot_key : AuthConfig → Headers → Bool
is_bot_key config headers = elim config.bot_api_key [
  | none ↦ false
  | some expected ↦ not (is_empty expected) && same_text headers.api_key expected
]

abbrev of_sub : Option String → Result AuthIdentity
of_sub none = err (unauthorized "Invalid token")
of_sub (some s) =
    if is_empty s then err (unauthorized "Invalid token") else ok (AuthIdentity.user s)

abbrev of_payload : Option (Option String) → Result AuthIdentity
of_payload none = err (unauthorized "Invalid token")
of_payload (some sub) = of_sub sub

abbrev with_secret : Verify → Option String → String → Result AuthIdentity
with_secret verify none token = err (unauthorized "Server JWT not configured")
with_secret verify (some secret) token =
    if is_empty secret
    then err (unauthorized "Server JWT not configured")
    else of_payload (verify token secret)

abbrev with_token : Verify → Option String → Option String → Result AuthIdentity
with_token verify secret none = err (unauthorized "Missing credentials")
with_token verify secret (some token) = with_secret verify secret token

abbrev bearer : Option String → Option String
bearer none = none
bearer (some s) = strip_prefix "Bearer " s

-- The second half of both guards.
pub jwt_identity : Verify → AuthConfig → Headers → Result AuthIdentity
jwt_identity verify config headers =
    with_token verify config.dashboard_jwt_secret (bearer headers.authorization)

pub bot_or_jwt : Verify → AuthConfig → Headers → Result AuthIdentity
bot_or_jwt verify config headers =
    if is_bot_key config headers then ok AuthIdentity.bot else jwt_identity verify config headers

pub jwt_auth_only : Verify → AuthConfig → Headers → Result AuthIdentity
jwt_auth_only verify config headers =
    if is_bot_key config headers
    then err (forbidden "Bot credentials cannot access this resource")
    else jwt_identity verify config headers

-- RbacGuard; no roles are required where the route names none.
pub rbac : Js → AuthConfig → Db → List AppRole → AuthIdentity → Result RequestPrincipal
rbac js config db required identity =
    let principal = resolve_principal js config.admin_discord_ids db identity in
    if principal_has_any_role principal required
    then ok principal
    else err (forbidden "Insufficient permissions")

abbrev pub guarded : {A B : Type 0} → Result A → (A → Result B) → Result B
guarded (err e) f = err e
guarded (ok a) f = f a

-- A route under a guard and `RbacGuard`: the guard has set the identity when the roles are looked up.
pub admit : Js → AuthConfig → Db → List AppRole → Result AuthIdentity → Result RequestPrincipal
admit js config db required identity = guarded identity (rbac js config db required)
