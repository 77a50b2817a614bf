-- ===== src/LicenseKeys/Effect.antt =====
-- apps/api/src/license-keys/license-keys.service.ts: what a redemption that succeeds changes.
use protect_platform.Auth.{RequestPrincipal}
use protect_platform.Js.{Js}
use protect_platform.Store.{
  check-ok, bind-ok, LicenseKeyStatus, required-ok, Db, AuditInput, Env, LicenseKey, log_with_tx,
}
use protect_platform.Prelude.{
  includes, bad_request, update, arith, ok, some, ◌≡◌, find, String, Option,
}
use protect_platform.LicenseKeys.{
  is_license_code, entitlement_of, parse_manageable_guild_ids, redeemed, key_id,
  normalize_license_code, code_key, usable, RedeemInput, write_redeemed, assert_user_or_admin,
  redeem_code, redeem,
}
use protect_platform.Entitlements.{upserted, upsert_entitlement, guild_key}

-- The key that a code finds to redeem, and what happens to it.
pub record IsSpent (code guild actor : String) (env : Env) (db db' : Db) : Type 0 where
  pub key : LicenseKey
  pub there : find code_key code db.license_keys ≡ some key
  pub unspent : key.status ≡ LicenseKeyStatus.unused
  pub changed : db'.license_keys ≡ update key_id key.id (redeemed env guild actor) db.license_keys
  pub licensed :
      db'.entitlements
      ≡ upserted
          (entitlement_of env key guild actor)
          (find guild_key guild db.entitlements)
          db.entitlements

usable-some :
    (o : Option LicenseKey) (k : LicenseKey)
    → usable o ≡ some k
    → (o ≡ some k) × (k.status ≡ LicenseKeyStatus.unused)
usable-some o k h = ground arith

redeem_code-IsSpent :
    (env : Env) (code guild actor : String) (db : Db) (u : Unit {0}) (db' : Db)
    → redeem_code env code guild actor db ≡ ok (u, db')
    → IsSpent code guild actor env db db'
unfolding redeem_code write_redeemed upsert_entitlement
redeem_code-IsSpent env code guild actor db u db' h =
    let (k, found_k, h1) =
      required-ok (usable (find code_key code db.license_keys))
        (bad_request "Invalid or already used license key") (write_redeemed env guild actor) db h in
    let (there, unspent) = usable-some (find code_key code db.license_keys) k found_k in
    record {
      key = k;
      there = there;
      unspent = unspent;
      changed = ground (arith, h1);
      licensed = ground (arith, h1);
    }

assert_user_or_admin-same :
    (principal : RequestPrincipal) (db : Db) (actor : String) (mid : Db)
    → assert_user_or_admin principal db ≡ ok (actor, mid)
    → mid ≡ db
unfolding assert_user_or_admin
assert_user_or_admin-same principal db actor mid h = ground arith

log_with_tx-keys :
    (env : Env) (input : AuditInput) (db : Db) {u : Unit {0}} {db' : Db}
    → log_with_tx env input db ≡ ok (u, db')
    → (db'.license_keys ≡ db.license_keys) × (db'.entitlements ≡ db.entitlements)
unfolding log_with_tx
log_with_tx-keys env input db h = (ground arith, ground arith)

-- A redemption that succeeds uses up an unused key and licenses the guild.
pub redeem-IsSpent :
    (js : Js) (env : Env) (principal : RequestPrincipal) (input : RedeemInput) (db : Db)
    (u : Unit {0}) (db' : Db)
    → redeem js env principal input db ≡ ok (u, db')
    → (actor : String) × IsSpent
        (normalize_license_code js input.code)
        input.guild_id
        actor
        env
        db
        db'
unfolding redeem
redeem-IsSpent js env principal input db u db' h =
    let code = normalize_license_code js input.code in
    let (actor, mid, who, h1) = bind-ok (assert_user_or_admin principal) _ db h in
    let (_, h2) =
      check-ok
        (includes input.guild_id (parse_manageable_guild_ids js input.manageable_guild_ids_csv)) _ _
        mid h1 in
    let (_, h3) = check-ok (is_license_code code) _ _ mid h2 in
    let (v, last, done, logged) = bind-ok (redeem_code env code input.guild_id actor) _ mid h3 in
    let (keys', entitlements') = log_with_tx-keys env _ last logged in
    let same = assert_user_or_admin-same principal db actor mid who in
    let spent = redeem_code-IsSpent env code input.guild_id actor mid v last done in
    (
      actor,
      record {
        key = spent.key;
        there = cc (same, spent.there);
        unspent = spent.unspent;
        changed = cc (same, keys', spent.changed);
        licensed = cc (same, entitlements', spent.licensed);
      },
    )
