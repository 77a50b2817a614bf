-- ===== src/LicenseKeys/Tests.antt =====
-- Runs of the licence keys, and the theorems at concrete inputs.
use protect_platform.Prelude.{◌||◌, includes, refl, eqb}
use protect_platform.Js.{strip_prefix, all_digits, is_snowflake, split_commas}
use protect_platform.LicenseKeys.Once.{redeemed_once}
use protect_platform.LicenseKeys.Licensed.{lasts, redeem-is_guild_licensed}
use protect_platform.LicenseKeys.Final.{create-IsKeyed, KeyStep, KeySteps, IsKeyed}
use protect_platform.Auth.{AppRole, principal_has_any_role, AuthIdentity, RequestPrincipal}
use protect_platform.Entitlements.{upsert_entitlement, is_guild_licensed}
use protect_platform.Prelude.{
  update, if◌then◌else◌, ok, some, none, arith, ◌≡◌, [], ◌∷◌, String, find,
}
use protect_platform.LicenseKeys.{
  normalize_license_code, write_redeemed, redeem_code, all_hex, is_license_code, assert_admin,
  free_code, parse_manageable_guild_ids, generate_loop, revoke_key, assert_user_or_admin, code_key,
  generate_for, RedeemInput, redeem, generate_keys,
}
use protect_platform.Store.{log_with_tx, LicenseKeyStatus, LicenseKey, Db}
use protect_platform.Samples.{env, state_or, plain_js, empty_db}

abbrev key : String → String → LicenseKey
key id code = record {
  id = id;
  code = code;
  status = LicenseKeyStatus.unused;
  plan_code = none;
  preset_valid_days = some 30;
  notes = none;
  created_by_discord_id = some "1";
  redeemed_at = none;
  redeemed_guild_id = none;
  redeemed_by_discord_id = none;
  revoked_at = none;
}

abbrev stock : Db
stock = record empty_db {
  license_keys = key "k1" "sentra-0123abcd" ∷ key "k2" "sentra-ffffffff" ∷ [];
}

abbrev customer : RequestPrincipal
customer = record { identity = AuthIdentity.user "7"; roles = AppRole.user ∷ [] }

abbrev admin : RequestPrincipal
admin = record { identity = AuthIdentity.user "1"; roles = AppRole.admin ∷ [] }

abbrev request : RedeemInput
request = record {
  code = "sentra-0123abcd";
  guild_id = "12345678901234567";
  manageable_guild_ids_csv = "1,12345678901234567";
}

abbrev sold : Db
sold = state_or empty_db (redeem plain_js (env "redeem") customer request stock)

sells : redeem plain_js (env "redeem") customer request stock ≡ ok (tt, sold)
unfolding is_snowflake all_digits normalize_license_code strip_prefix redeem assert_user_or_admin
    principal_has_any_role parse_manageable_guild_ids split_commas is_license_code all_hex
    redeem_code write_redeemed upsert_entitlement log_with_tx find update
sells = refl

abbrev withdrawn : Db
withdrawn = state_or empty_db (revoke_key (env "revoke") admin "k2" sold)

withdraws : revoke_key (env "revoke") admin "k2" sold ≡ ok (tt, withdrawn)
unfolding is_snowflake all_digits normalize_license_code strip_prefix redeem assert_user_or_admin
    principal_has_any_role parse_manageable_guild_ids split_commas is_license_code all_hex
    redeem_code write_redeemed upsert_entitlement log_with_tx find update revoke_key assert_admin
withdraws = refl

-- Codes that are taken are tried again; the two keys take the codes "b" and "d".
tried :
    (generate_keys plain_js
      (env "generate")
      (λ i j. if eqb i 0 then if eqb j 0 then "a" else "b" else "d")
      admin
      (record { count = 2; plan_code = none; preset_valid_days = some 0; notes = none })
      (record empty_db { license_keys = key "k1" "a" ∷ [] })).0
    ≡ ok ("b" ∷ "d" ∷ [])
unfolding generate_keys generate_for generate_loop free_code assert_admin principal_has_any_role
    find
tried = refl

stock-IsKeyed : IsKeyed stock.license_keys
unfolding find
stock-IsKeyed =
    create-IsKeyed (key "k2" "sentra-ffffffff") (key "k1" "sentra-0123abcd" ∷ []) refl
      (create-IsKeyed (key "k1" "sentra-0123abcd") [] refl (λ code k h. ground arith))

redeemed_once_example :
    ¬ (redeem plain_js (env "again") customer request withdrawn ≡ ok (tt, withdrawn))
redeemed_once_example =
    redeemed_once plain_js plain_js (env "redeem") (env "again") customer customer request request
      stock sold withdrawn withdrawn tt tt stock-IsKeyed sells
      (KeySteps.next (KeyStep.by_revocation (env "revoke") admin "k2" tt withdraws) KeySteps.done)
      refl

first :
    find code_key (normalize_license_code plain_js request.code) stock.license_keys
    ≡ some (key "k1" "sentra-0123abcd")
unfolding find normalize_license_code
first = refl

-- The day after the thirty days of the key are over.
redeem-is_guild_licensed_example :
    is_guild_licensed [] 2700000000 "12345678901234567" sold
    ≡ (includes "12345678901234567" [] || lasts (some 30) 1000 2700000000)
redeem-is_guild_licensed_example =
    redeem-is_guild_licensed plain_js (env "redeem") customer request stock sold tt
      (key "k1" "sentra-0123abcd") [] 2700000000 sells first (omega arith)
