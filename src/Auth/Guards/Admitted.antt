-- ===== src/Auth/Guards/Admitted.antt =====
-- apps/api/src/auth: whom the guards of a route let through.
use protect_platform.Auth.Roles.{resolve_principal_roles, account_is_admin}
use protect_platform.Auth.{
  resolve_principal, principal_has_any_role, find_account, AppRole, RequestPrincipal, AuthIdentity,
  is_discord_platform_admin,
}
use protect_platform.Store.{Db}
use protect_platform.Js.{strip_prefix, Js}
use protect_platform.Auth.Guards.{
  guarded, of_sub, is_bot_key, bot_or_jwt, rbac, jwt_auth_only, admit, jwt_identity, Headers,
  AuthConfig, Verify,
}
use protect_platform.Prelude.{
  ap, ◌∙◌, inr, refl, inl, Result, Bool-cases, Option-cases, Option, false, arith, forbidden, [],
  err, ◌∷◌, ◌⊎◌, true, if◌then◌else◌, some, ok, ◌≡◌, String, none,
}

-- The request carries a token that the secret verifies, with the subject `id`.
pub record IsVerified (verify : Verify) (config : AuthConfig) (headers : Headers) (id : String)
    : Type 0 where
  pub header : String
  pub is_header : headers.authorization ≡ some header
  pub token : String
  pub is_token : strip_prefix "Bearer " header ≡ some token
  pub secret : String
  pub is_secret : config.dashboard_jwt_secret ≡ some secret
  pub verified : verify token secret ≡ some (some id)

-- An administrator by the setting or by the account.
abbrev pub IsAdmin : Js → AuthConfig → Db → String → Type 0
IsAdmin js config db id =
    (is_discord_platform_admin js id config.admin_discord_ids ≡ true)
    ⊎ (account_is_admin (find_account id db) ≡ true)

guarded-ok :
    {A B : Type 0} (r : Result A) (f : A → Result B) {b : B}
    → guarded r f ≡ ok b
    → (a : A) × (r ≡ ok a) × (f a ≡ ok b)
guarded-ok (ok a) f h = (a, refl, h)
guarded-ok (err e) f h = cc

of_sub-ok :
    (sub : Option String) (identity : AuthIdentity)
    → of_sub sub ≡ ok identity
    → (id : String) × (sub ≡ some id) × (identity ≡ AuthIdentity.user id)
of_sub-ok none identity h = cc
of_sub-ok (some s) identity h = (s, refl, ground arith)

module _ (verify : Verify) (config : AuthConfig) (headers : Headers) where
  jwt_identity-IsVerified :
      (identity : AuthIdentity)
      → jwt_identity verify config headers ≡ ok identity
      → (id : String) × (identity ≡ AuthIdentity.user id) × IsVerified verify config headers id
  unfolding jwt_identity
  jwt_identity-IsVerified identity h = elim (Option-cases headers.authorization) [
    | inl missing ↦ absurd (ground arith)
    | inr (header, e) ↦ elim (Option-cases (strip_prefix "Bearer " header)) [
      | inl missing ↦ absurd (ground arith)
      | inr (token, e') ↦ elim (Option-cases config.dashboard_jwt_secret) [
        | inl missing ↦ absurd (ground arith)
        | inr (secret, e'') ↦ elim (Option-cases (verify token secret)) [
          | inl thrown ↦ absurd (ground arith)
          | inr (sub, verified) ↦
              let (id, is, same) = of_sub-ok sub identity (ground arith) in
              (
                id,
                same,
                record {
                  header = header;
                  is_header = e;
                  token = token;
                  is_token = e';
                  secret = secret;
                  is_secret = e'';
                  verified = verified ∙ ap some is;
                },
              )
        ]
      ]
    ]
  ]

  -- The two guards differ on the bot's key alone: one lets the bot in where the other refuses it.
  pub jwt_auth_only-bot_or_jwt : jwt_auth_only verify config headers ≡ (
      if is_bot_key config headers
      then err (forbidden "Bot credentials cannot access this resource")
      else bot_or_jwt verify config headers)
  unfolding jwt_auth_only bot_or_jwt
  jwt_auth_only-bot_or_jwt = ground arith

module _ (verify : Verify) (config : AuthConfig) (headers : Headers) (js : Js) (db : Db) where
  rbac-IsAdmin :
      (id : String) (principal : RequestPrincipal)
      → rbac js config db (AppRole.admin ∷ []) (AuthIdentity.user id) ≡ ok principal
      → (principal.identity ≡ AuthIdentity.user id) × IsAdmin js config db id
  unfolding rbac principal_has_any_role
  rbac-IsAdmin id principal h =
      let roles = resolve_principal_roles js config.admin_discord_ids db id in
      elim (Bool-cases (is_discord_platform_admin js id config.admin_discord_ids)) [
        | inl listed ↦ (named, inl listed)
        | inr unlisted ↦ elim (Bool-cases (account_is_admin (find_account id db))) [
          | inl account ↦ (named, inr account)
          | inr other ↦ absurd (ground (arith, roles.0, unlisted, other))
        ]
      ]
    where
      named : principal.identity ≡ AuthIdentity.user id
      named = unfold resolve_principal in ground arith

  -- A route for administrators lets a request through only if it carries a token that the secret
  -- verifies, whose subject the setting lists or whose account is an administrator's. The bot's
  -- key does not get through.
  pub admit-IsAdmin :
      (principal : RequestPrincipal)
      → admit js config db (AppRole.admin ∷ []) (jwt_auth_only verify config headers) ≡ ok principal
      → (id : String) × (principal.identity ≡ AuthIdentity.user id)
        × IsVerified verify config headers id
        × IsAdmin js config db id
        × (is_bot_key config headers ≡ false)
  unfolding admit jwt_auth_only
  admit-IsAdmin principal h = elim (Bool-cases (is_bot_key config headers)) [
    | inl bot ↦ absurd (ground arith)
    | inr other ↦
        let (identity, known, h1) =
          guarded-ok (jwt_identity verify config headers) (rbac js config db (AppRole.admin ∷ []))
            (rw other at h) in
        let (id, is, verified) = jwt_identity-IsVerified verify config headers identity known in
        let (named, admin) = rbac-IsAdmin id principal (rw is at h1) in
        (id, named, verified, admin, other)
  ]
