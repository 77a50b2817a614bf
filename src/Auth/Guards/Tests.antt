-- ===== src/Auth/Guards/Tests.antt =====
-- Runs of the guards, and the theorems at concrete inputs.
use protect_platform.Auth.Guards.Admitted.{admit-IsAdmin, IsAdmin, IsVerified}
use protect_platform.Js.{strip_prefix, split_commas}
use protect_platform.Store.{PlatformRole, Db}
use protect_platform.Auth.Guards.{
  is_bot_key, rbac, jwt_identity, jwt_auth_only, Verify, admit, Headers, AuthConfig,
}
use protect_platform.Auth.{
  AppRole, principal_has_any_role, AuthIdentity, parse_admin_discord_ids, resolve_principal,
  is_discord_platform_admin, RequestPrincipal,
}
use protect_platform.Prelude.{refl, ok, false, find, true, [], ◌∷◌, some, ◌≡◌, String, none}
use protect_platform.Samples.{empty_db, plain_js}

abbrev admins : Db
admins = record empty_db {
  accounts = record { discord_user_id = "1"; role = PlatformRole.admin } ∷ [];
}

abbrev config : AuthConfig
config = record {
  bot_api_key = some "key";
  dashboard_jwt_secret = some "secret";
  admin_discord_ids = some "5, 6";
}

-- A token is its subject.
abbrev verify : Verify
verify token secret = some (some token)

abbrev headers : Headers
headers = record { api_key = none; authorization = some "Bearer 1" }

abbrev admin : RequestPrincipal
admin = resolve_principal plain_js config.admin_discord_ids admins (AuthIdentity.user "1")

admits :
    admit plain_js config admins (AppRole.admin ∷ []) (jwt_auth_only verify config headers)
    ≡ ok admin
unfolding admit jwt_auth_only jwt_identity rbac principal_has_any_role resolve_principal
    is_discord_platform_admin parse_admin_discord_ids split_commas strip_prefix find
admits = refl

listed : is_discord_platform_admin plain_js "5" config.admin_discord_ids ≡ true
unfolding is_discord_platform_admin parse_admin_discord_ids split_commas
listed = refl

admit-IsAdmin_example :
    (id : String) × (admin.identity ≡ AuthIdentity.user id)
    × IsVerified verify config headers id
    × IsAdmin plain_js config admins id
    × (is_bot_key config headers ≡ false)
admit-IsAdmin_example = admit-IsAdmin verify config headers plain_js admins admin admits
