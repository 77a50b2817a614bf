-- ===== src/Auth.antt =====
-- apps/api/src/auth: who makes a request, and the roles that follow from that.
pub mod Roles
pub mod Guards
use protect_platform.Js.{split_commas, is_empty, Js}
use protect_platform.Store.{Db, PlatformRole, PlatformAccount, TrustedUser}
use protect_platform.Prelude.{
  none, map, not, false, is_some, keep, ◌∷◌, eqb, ◌++◌, find, some, includes, [], if◌then◌else◌,
  any, true, List, Bool, String, Option, ℕ,
}

-- auth.types.ts
pub data AppRole : Type 0 where
  admin trusted user checker bot : AppRole

pub data AuthIdentity : Type 0 where
  bot : AuthIdentity
  user : String → AuthIdentity

pub record RequestPrincipal : Type 0 where
  pub identity : AuthIdentity
  pub roles : List AppRole

abbrev pub role_code : AppRole → ℕ
role_code AppRole.admin = 0
role_code AppRole.trusted = 1
role_code AppRole.user = 2
role_code AppRole.checker = 3
role_code AppRole.bot = 4

-- `roles.has(r)`
abbrev pub has_role : AppRole → List AppRole → Bool
has_role r rs = any (λ x. eqb (role_code x) (role_code r)) rs

-- `roles.add(r)` of a JavaScript set, which keeps the order of insertion
abbrev pub add_role : AppRole → List AppRole → List AppRole
add_role r rs = if has_role r rs then rs else rs ++ (r ∷ [])

abbrev has_none : List AppRole → Bool
has_none [] = true
has_none (r ∷ rs) = false

unfoldable pub principal_has_any_role : RequestPrincipal → List AppRole → Bool
principal_has_any_role principal required =
    if has_none required then true else any (λ r. has_role r principal.roles) required

-- packages/shared/src/admin-discord-ids.ts; a missing list and an empty one are the same.
unfoldable pub parse_admin_discord_ids : Js → Option String → List String
parse_admin_discord_ids js none = []
parse_admin_discord_ids js (some raw) =
    if is_empty raw then [] else keep (λ s. not (is_empty s)) (map js.trim (split_commas raw))

unfoldable pub is_discord_platform_admin : Js → String → Option String → Bool
unfolding parse_admin_discord_ids
is_discord_platform_admin js discord_id raw = includes discord_id (parse_admin_discord_ids js raw)

abbrev pub account_key : PlatformAccount → String
account_key a = a.discord_user_id

abbrev pub trusted_key : TrustedUser → String
trusted_key t = t.discord_user_id

abbrev pub find_account : String → Db → Option PlatformAccount
find_account discord_id db = find account_key discord_id db.accounts

abbrev pub find_trusted : String → Db → Option TrustedUser
find_trusted discord_id db = find trusted_key discord_id db.trusted

abbrev with_legacy : Bool → List AppRole
with_legacy true = add_role AppRole.user (add_role AppRole.admin [])
with_legacy false = []

abbrev as_checker : List AppRole → List AppRole
as_checker roles = if has_role AppRole.user roles then roles else add_role AppRole.checker roles

abbrev with_platform_role : PlatformRole → List AppRole → List AppRole
with_platform_role PlatformRole.admin roles = add_role AppRole.user (add_role AppRole.admin roles)
with_platform_role PlatformRole.user roles = add_role AppRole.user roles
with_platform_role PlatformRole.checker roles = as_checker roles

abbrev with_account : Option PlatformAccount → List AppRole → List AppRole
with_account none roles = as_checker roles
with_account (some a) roles = with_platform_role a.role roles

abbrev with_trust : Bool → List AppRole → List AppRole
with_trust true roles = add_role AppRole.trusted roles
with_trust false roles = roles

-- `resolvePrincipal`; `admin_ids` is the setting ADMIN_DISCORD_IDS.
unfoldable pub resolve_principal : Js → Option String → Db → AuthIdentity → RequestPrincipal
unfolding is_discord_platform_admin
resolve_principal js admin_ids db AuthIdentity.bot = record {
  identity = AuthIdentity.bot;
  roles = AppRole.bot ∷ [];
}
resolve_principal js admin_ids db (AuthIdentity.user discord_id) = record {
  identity = AuthIdentity.user discord_id;
  roles = with_trust (is_some (find_trusted discord_id db)) (
      with_account (find_account discord_id db)
        (with_legacy (is_discord_platform_admin js discord_id admin_ids)));
}
