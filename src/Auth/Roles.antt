-- ===== src/Auth/Roles.antt =====
-- apps/api/src/auth/authz.service.ts: the roles of a user, said without the set that collects them.
use protect_platform.Js.{Js}
use protect_platform.Store.{PlatformRole, Db, PlatformAccount}
use protect_platform.Auth.{
  AuthIdentity, find_trusted, find_account, is_discord_platform_admin, has_role, with_legacy,
  AppRole, with_account, with_trust, resolve_principal,
}
use protect_platform.Prelude.{
  none, true, arith, not, ◌||◌, is_some, ◌≡◌, some, String, false, List, Option, Bool,
}

abbrev pub account_is_admin : Option PlatformAccount → Bool
account_is_admin none = false
account_is_admin (some a) = elim a.role [ PlatformRole.admin ↦ true | _ ↦ false ]

abbrev pub account_is_user : Option PlatformAccount → Bool
account_is_user none = false
account_is_user (some a) = elim a.role [ PlatformRole.user ↦ true | _ ↦ false ]

-- What each role stands for: a pure description of the user's rows and of the setting.
abbrev pub HasRoles : Bool → Option PlatformAccount → Bool → List AppRole → Type 0
HasRoles legacy account trusted roles =
    (has_role AppRole.admin roles ≡ (legacy || account_is_admin account))
    × (has_role AppRole.user roles
        ≡ (legacy || account_is_admin account || account_is_user account))
    × (has_role AppRole.checker roles
        ≡ not (legacy || account_is_admin account || account_is_user account))
    × (has_role AppRole.trusted roles ≡ trusted)
    × (has_role AppRole.bot roles ≡ false)

collected :
    (legacy : Bool) (account : Option PlatformAccount) (trusted : Bool)
    → HasRoles legacy account trusted
        (with_trust trusted (with_account account (with_legacy legacy)))
collected legacy none trusted = ground arith
collected legacy (some a) trusted = ground arith

-- A user has ADMIN exactly when the setting lists them or their account is an admin's, USER when
-- that holds or their account is a user's, CHECKER exactly when they have no USER, TRUSTED exactly
-- when the table of trusted users holds them, and never BOT.
pub resolve_principal_roles :
    (js : Js) (admin_ids : Option String) (db : Db) (discord_id : String)
    → HasRoles
        (is_discord_platform_admin js discord_id admin_ids)
        (find_account discord_id db)
        (is_some (find_trusted discord_id db))
        (resolve_principal js admin_ids db (AuthIdentity.user discord_id)).roles
unfolding resolve_principal
resolve_principal_roles js admin_ids db discord_id =
    collected (is_discord_platform_admin js discord_id admin_ids) (find_account discord_id db)
      (is_some (find_trusted discord_id db))
