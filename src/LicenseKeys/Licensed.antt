-- ===== src/LicenseKeys/Licensed.antt =====
-- apps/api/src/license-keys/license-keys.service.ts and apps/api/src/entitlements/entitlements.service.ts:
-- a redeemed key gives the guild its licence.
use protect_platform.Entitlements.Active.{upsert_entitlement-licenses}
use protect_platform.LicenseKeys.{
  valid_until, entitlement_of, normalize_license_code, code_key, redeem, RedeemInput,
}
use protect_platform.Auth.{RequestPrincipal}
use protect_platform.Store.{LicenseKey, Db, Env}
use protect_platform.Js.{Js}
use protect_platform.Entitlements.{not_before, active_license_where, is_guild_licensed}
use protect_platform.Prelude.{
  leb, eqb, ◌||◌, Bool, includes, refl, none, arith, true, find, ok, String, List, ◌*◌, ◌+◌, some,
  ◌≡◌, ◌≤◌, ℕ, Option,
}
use protect_platform.LicenseKeys.Effect.{redeem-IsSpent}

-- The time that a key of so many days lasts, its end included; none and 0 have no end.
abbrev pub lasts : Option ℕ → ℕ → ℕ → Bool
lasts none start at = true
lasts (some days) start at = eqb days 0 || leb at (start + days * 86400000)

not_before-lasts :
    (days : Option ℕ) (start at : ℕ) → not_before at (valid_until start days) ≡ lasts days start at
not_before-lasts none start at = refl
not_before-lasts (some days) start at = ground arith

-- At every time from a redemption on, the guild is licensed exactly when it is on the allowlist or
-- the key's days are not over: as many as the key gives, their end included, and without end where
-- the key gives none or zero. This is so whatever licence the guild had, as long as nothing else
-- changes its licence.
pub redeem-is_guild_licensed :
    (js : Js) (env : Env) (principal : RequestPrincipal) (input : RedeemInput) (db db' : Db)
    (u : Unit {0}) (k : LicenseKey) (allowlist : List String) (at : ℕ)
    → redeem js env principal input db ≡ ok (u, db')
    → find code_key (normalize_license_code js input.code) db.license_keys ≡ some k
    → env.now ≤ at
    → is_guild_licensed allowlist at input.guild_id db'
      ≡ (includes input.guild_id allowlist || lasts k.preset_valid_days env.now at)
unfolding is_guild_licensed active_license_where
redeem-is_guild_licensed js env principal input db db' u k allowlist at h there from =
    let (actor, spent) = redeem-IsSpent js env principal input db u db' h in
    let same : spent.key ≡ k = ground (arith, there, spent.there) in
    let given = entitlement_of env spent.key input.guild_id actor in
    let active : active_license_where at given ≡ lasts k.preset_valid_days env.now at =
      ground (arith, same, from, not_before-lasts k.preset_valid_days env.now at) in
    rw (spent.licensed, ← active) (upsert_entitlement-licenses allowlist given db at)
