-- ===== src/LicenseKeys/Final.antt =====
-- apps/api/src/license-keys/license-keys.service.ts: what administrators and customers can do, in any
-- order, with a key that is redeemed.
use protect_platform.Auth.{RequestPrincipal}
use protect_platform.Js.{Js}
use protect_platform.Prelude.{
  find-update, ok, eq_refl, inr, find-create, find-update_other, eq_iff, false, arith, inl, Result,
  create, none, some, Option-cases, update, ◌≤◌, find, ◌≡◌, ℕ, List, String,
}
use protect_platform.Store.{LicenseKeyStatus, Env, LicenseKey, Db}
use protect_platform.LicenseKeys.{
  redeem, RedeemInput, revoke_key, generate_keys, is_redeemed, GenerateInput, code_key, key_id,
}

-- Identifiers that the database makes are new and distinct.
pub record IsFresh (env : Env) (from : ℕ) (keys : List LicenseKey) : Type 0 where
  pub new : (n : ℕ) → from ≤ n → find key_id (env.uuid n) keys ≡ none
  pub distinct : (m n : ℕ) → env.uuid m ≡ env.uuid n → m ≡ n

-- One call of the service that succeeds, or a generation, which may stop with an error after some keys.
pub data KeyStep (db db' : Db) : Type 0 where
  by_generation :
      (js : Js) (env : Env) (codes : ℕ → ℕ → String) (principal : RequestPrincipal)
      (input : GenerateInput) (result : Result (List String))
      → IsFresh env 0 db.license_keys
      → generate_keys js env codes principal input db ≡ (result, db')
      → KeyStep db db'
  by_revocation :
      (env : Env) (principal : RequestPrincipal) (id : String) (u : Unit {0})
      → revoke_key env principal id db ≡ ok (u, db')
      → KeyStep db db'
  by_redemption :
      (js : Js) (env : Env) (principal : RequestPrincipal) (input : RedeemInput) (u : Unit {0})
      → redeem js env principal input db ≡ ok (u, db')
      → KeyStep db db'

pub data KeySteps : Db → Db → Type 0 where
  done : {db : Db} → KeySteps db db
  next : {a b c : Db} → KeyStep a b → KeySteps b c → KeySteps a c

-- A row found by its code is the row found by its identifier: both columns are unique.
abbrev pub IsKeyed : List LicenseKey → Type 0
IsKeyed keys =
    (code : String) (k : LicenseKey)
    → find code_key code keys ≡ some k
    → find key_id k.id keys ≡ some k

-- The key is in the table as it stands, redeemed.
pub record IsUsedUp (k : LicenseKey) (keys : List LicenseKey) : Type 0 where
  pub keyed : IsKeyed keys
  pub there : find code_key k.code keys ≡ some k
  pub spent : k.status ≡ LicenseKeyStatus.redeemed

pub create-IsKeyed :
    (new : LicenseKey) (keys : List LicenseKey)
    → find key_id new.id keys ≡ none
    → IsKeyed keys
    → IsKeyed (create new keys)
create-IsKeyed new keys fresh keyed code k h = ground (
  arith,
  fresh,
  h,
  find-create code_key code new keys,
  find-create key_id k.id new keys,
  eq_refl new.id,
  keyed code k,
)

pub update-IsKeyed :
    (id : String) (f : LicenseKey → LicenseKey) (keys : List LicenseKey)
    → ((k : LicenseKey) → (f k).id ≡ k.id)
    → ((k : LicenseKey) → (f k).code ≡ k.code)
    → IsKeyed keys
    → IsKeyed (update key_id id f keys)
update-IsKeyed id f keys same_id same_code keyed code k h =
    elim (Option-cases (find code_key code keys)) [
      | inl missing ↦
          ground (arith, missing, h, find-update_other key_id code_key id code f keys same_code)
      | inr (old, there) ↦ ground (
        arith,
        there,
        h,
        find-update_other key_id code_key id code f keys same_code,
        same_id old,
        find-update key_id id k.id f keys same_id,
        keyed code old there,
        eq_iff old.id id,
        eq_iff id k.id,
      )
    ]

-- A new key, with a code that no key has.
pub create-IsUsedUp :
    (k new : LicenseKey) (keys : List LicenseKey)
    → find key_id new.id keys ≡ none
    → IsUsedUp k keys
    → IsUsedUp k (create new keys)
create-IsUsedUp k new keys fresh used = record {
  keyed = create-IsKeyed new keys fresh used.keyed;
  there = ground (arith, used.there, find-create code_key k.code new keys);
  spent = used.spent;
}

-- A change of a row that is not redeemed.
pub update-IsUsedUp :
    (k old : LicenseKey) (id : String) (f : LicenseKey → LicenseKey) (keys : List LicenseKey)
    → ((x : LicenseKey) → (f x).id ≡ x.id)
    → ((x : LicenseKey) → (f x).code ≡ x.code)
    → find key_id id keys ≡ some old
    → is_redeemed old.status ≡ false
    → IsUsedUp k keys
    → IsUsedUp k (update key_id id f keys)
update-IsUsedUp k old id f keys same_id same_code found_old unspent used = record {
  keyed = update-IsKeyed id f keys same_id same_code used.keyed;
  there = ground (
    arith,
    used.there,
    used.spent,
    found_old,
    unspent,
    used.keyed k.code k used.there,
    eq_iff k.id id,
    find-update_other key_id code_key id k.code f keys same_code,
  );
  spent = used.spent;
}
