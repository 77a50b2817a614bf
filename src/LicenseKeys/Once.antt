-- ===== src/LicenseKeys/Once.antt =====
-- apps/api/src/license-keys/license-keys.service.ts: a licence key is redeemed once.
use mathlib.Core.Path.{subst}
use protect_platform.LicenseKeys.Effect.{redeem-IsSpent, IsSpent}
use protect_platform.Auth.{AppRole, principal_has_any_role, AuthIdentity, RequestPrincipal}
use protect_platform.Js.{Js}
use protect_platform.Prelude.{
  eq_refl, find-key, find-update_other, zero, false, [], ◌∷◌, forbidden, Bool, ◌⊎◌, max, ApiError,
  min, update, true, refl, err, find, ok, inr, inl, Option-cases, Result, eq_iff, find-create,
  arith, suc, create, ◌+◌, ◌≡◌, List, String, ℕ,
}
use protect_platform.LicenseKeys.{
  redeemed, revoked, is_redeemed, user_of, assert_admin, normalize_license_code, add_key, code_key,
  new_key, RedeemInput, prepend_code, after_loop, generate_for, generate_keys, redeem, revoke_key,
  key_id, free_code, GenerateInput, generate_loop,
}
use protect_platform.Store.{◌>>◌, check, log_with_tx, Db, LicenseKey, Env}
use protect_platform.LicenseKeys.Final.{
  update-IsKeyed, IsKeyed, KeySteps, update-IsUsedUp, create-IsUsedUp, IsUsedUp, IsFresh, KeyStep,
}

later :
    {env : Env} {i : ℕ} {keys : List LicenseKey} (new : LicenseKey)
    → new.id ≡ env.uuid i
    → IsFresh env i keys
    → IsFresh env (i + 1) (create new keys)
later {env} {i} {keys} new h fresh = record {
  new = λ n le. ground (
    arith,
    h,
    fresh.new n,
    fresh.distinct i n,
    find-create key_id (env.uuid n) new keys,
    eq_iff new.id (env.uuid n),
  );
  distinct = fresh.distinct;
}

prepended : (c : String) (r : Result (List String) × Db) → (prepend_code c r).1 ≡ r.1
prepended c (ok cs, db) = refl
prepended c (err e, db) = refl

after :
    (env : Env) (input : GenerateInput) (actor : String) (r : Result (List String) × Db)
    → (after_loop env input actor r).1.license_keys ≡ r.1.license_keys
after env input actor (ok cs, db) = refl
after env input actor (err e, db) = refl

generate_loop-IsUsedUp :
    (js : Js) (env : Env) (codes : ℕ → ℕ → String) (input : GenerateInput) (actor : String)
    (k : LicenseKey) (count i : ℕ) (db : Db)
    → IsFresh env i db.license_keys
    → IsUsedUp k db.license_keys
    → IsUsedUp k (generate_loop js env codes input actor count i db).1.license_keys
unfolding generate_loop
generate_loop-IsUsedUp js env codes input actor k zero i db fresh used = used
generate_loop-IsUsedUp js env codes input actor k (suc count) i db fresh used =
    elim (Option-cases (free_code db.license_keys (codes i) 8 0)) [
      | inl taken ↦ rw (generate_loop, taken) used
      | inr (c, free) ↦
          let new = new_key js (env.uuid i) c input actor in
          let db' = add_key new db in
          rw
            (
              generate_loop,
              free,
              prepended c (generate_loop js env codes input actor count (i + 1) db'),
            )
            (generate_loop-IsUsedUp js env codes input actor k count (i + 1) db'
              (later new refl fresh)
              (create-IsUsedUp k new db.license_keys (fresh.new i (omega arith)) used))
    ]

-- A successful test of the caller changes nothing.
assert_admin-cases :
    (principal : RequestPrincipal) (db : Db)
    → ((e : ApiError) × (assert_admin principal db ≡ err e))
      ⊎ ((a : String) × (assert_admin principal db ≡ ok (a, db)))
unfolding assert_admin
assert_admin-cases principal db =
    go (principal_has_any_role principal (AppRole.admin ∷ [])) principal.identity
  where
    go :
        (b : Bool) (who : AuthIdentity)
        → ((e : ApiError) × ((check b (forbidden "Forbidden")
                  >> user_of who (forbidden "Forbidden"))
                db
              ≡ err e))
          ⊎ ((a : String) × ((check b (forbidden "Forbidden")
                    >> user_of who (forbidden "Forbidden"))
                  db
                ≡ ok (a, db)))
    go false who = inl (forbidden "Forbidden", refl)
    go true AuthIdentity.bot = inl (forbidden "Forbidden", refl)
    go true (AuthIdentity.user a) = inr (a, refl)

generate_keys-IsUsedUp :
    (js : Js) (env : Env) (codes : ℕ → ℕ → String) (principal : RequestPrincipal)
    (input : GenerateInput) (k : LicenseKey) (db : Db)
    → IsFresh env 0 db.license_keys
    → IsUsedUp k db.license_keys
    → IsUsedUp k (generate_keys js env codes principal input db).1.license_keys
unfolding generate_keys generate_for
generate_keys-IsUsedUp js env codes principal input k db fresh used =
    elim (assert_admin-cases principal db) [
      | inl (e, refused) ↦ rw (generate_keys, refused) used
      | inr (a, allowed) ↦
          rw
            (
              generate_keys,
              allowed,
              after env input a
                  (generate_loop js env codes input a (min 100 (max 1 input.count)) 0 db),
            )
            (generate_loop-IsUsedUp js env codes input a k (min 100 (max 1 input.count)) 0 db fresh
              used)
    ]

revoke_key-IsUsedUp :
    (env : Env) (principal : RequestPrincipal) (id : String) (k : LicenseKey) (db : Db)
    (u : Unit {0}) (db' : Db)
    → revoke_key env principal id db ≡ ok (u, db')
    → IsUsedUp k db.license_keys
    → IsUsedUp k db'.license_keys
unfolding revoke_key log_with_tx
revoke_key-IsUsedUp env principal id k db u db' h used = elim (assert_admin-cases principal db) [
  | inl (e, refused) ↦ ground arith
  | inr (a, allowed) ↦ elim (Option-cases (find key_id id db.license_keys)) [
    | inl missing ↦ ground arith
    | inr (old, there) ↦
        let (unspent, changed) : (is_redeemed old.status ≡ false)
            × (db'.license_keys ≡ update key_id id (revoked env) db.license_keys) =
          ground arith in
        rw changed (
          update-IsUsedUp k old id (revoked env) db.license_keys (λ x. refl) (λ x. refl) there
            unspent used)
  ]
]

spent-IsUsedUp :
    {code guild actor : String} {env : Env} {db db' : Db}
    → IsKeyed db.license_keys
    → (spent : IsSpent code guild actor env db db')
    → IsUsedUp (redeemed env guild actor spent.key) db'.license_keys
spent-IsUsedUp {code} {guild} {actor} {env} {db} {db'} keyed spent = rw spent.changed (record {
  keyed =
      update-IsKeyed spent.key.id (redeemed env guild actor) db.license_keys (λ x. refl) (λ x. refl)
        keyed;
  there = ground (
    arith,
    spent.there,
    find-update_other key_id code_key spent.key.id spent.key.code (redeemed env guild actor)
        db.license_keys (λ x. refl),
    find-key code_key code spent.key db.license_keys spent.there,
    eq_refl spent.key.id,
  );
  spent = refl;
})

redeem-IsUsedUp :
    (js : Js) (env : Env) (principal : RequestPrincipal) (input : RedeemInput) (k : LicenseKey)
    (db : Db) (u : Unit {0}) (db' : Db)
    → redeem js env principal input db ≡ ok (u, db')
    → IsUsedUp k db.license_keys
    → IsUsedUp k db'.license_keys
redeem-IsUsedUp js env principal input k db u db' h used =
    let (actor, spent) = redeem-IsSpent js env principal input db u db' h in
    rw spent.changed (
      update-IsUsedUp k spent.key spent.key.id (redeemed env input.guild_id actor) db.license_keys
        (λ x. refl) (λ x. refl) (used.keyed _ spent.key spent.there) (ground (arith, spent.unspent))
        used)

step-IsUsedUp :
    {k : LicenseKey} {db db' : Db}
    → KeyStep db db'
    → IsUsedUp k db.license_keys
    → IsUsedUp k db'.license_keys
step-IsUsedUp {k} {db} {db'} (KeyStep.by_generation js env codes principal input result fresh h)
      used =
    let after_it : IsUsedUp k (generate_keys js env codes principal input db).1.license_keys =
      generate_keys-IsUsedUp js env codes principal input k db fresh used in
    subst (λ r. IsUsedUp k r.1.license_keys) h after_it
step-IsUsedUp {k} {db} {db'} (KeyStep.by_revocation env principal id u h) used =
    revoke_key-IsUsedUp env principal id k db u db' h used
step-IsUsedUp {k} {db} {db'} (KeyStep.by_redemption js env principal input u h) used =
    redeem-IsUsedUp js env principal input k db u db' h used

steps-IsUsedUp :
    {k : LicenseKey} {db db' : Db}
    → KeySteps db db'
    → IsUsedUp k db.license_keys
    → IsUsedUp k db'.license_keys
steps-IsUsedUp KeySteps.done used = used
steps-IsUsedUp (KeySteps.next step rest) used = steps-IsUsedUp rest (step-IsUsedUp step used)

-- After a redemption of a code no request redeems the code again, whatever keys are generated,
-- revoked and redeemed in between, where identifiers are unique and new ones are fresh.
pub redeemed_once :
    (js js' : Js) (env env' : Env) (principal principal' : RequestPrincipal)
    (input input' : RedeemInput) (db mid db' db'' : Db) (u u' : Unit {0})
    → IsKeyed db.license_keys
    → redeem js env principal input db ≡ ok (u, mid)
    → KeySteps mid db'
    → normalize_license_code js' input'.code ≡ normalize_license_code js input.code
    → ¬ (redeem js' env' principal' input' db' ≡ ok (u', db''))
redeemed_once js js' env env' principal principal' input input' db mid db' db'' u u' keyed first
      steps same second =
    let (actor, spent) = redeem-IsSpent js env principal input db u mid first in
    let (actor', again) = redeem-IsSpent js' env' principal' input' db' u' db'' second in
    let used = steps-IsUsedUp steps (spent-IsUsedUp keyed spent) in
    ground (
      arith,
      used.there,
      again.there,
      again.unspent,
      same,
      find-key code_key (normalize_license_code js input.code) spent.key db.license_keys
          spent.there,
    )
