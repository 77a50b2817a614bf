-- ===== src/Entitlements/Active.antt =====
-- apps/api/src/entitlements/entitlements.service.ts and apps/worker/src/member-sync-schedule-job.ts:
-- the API and the worker say the same of a licence.
use protect_platform.Store.{Db, GuildEntitlement}
use protect_platform.Entitlements.{
  merged, upserted, guild_key, active_license_where, is_guild_licensed, row_is_active,
}
use protect_platform.Prelude.{
  ◌||◌, includes, refl, find-update, inr, eq_refl, find-create, inl, Option-cases, some, arith, ◌≡◌,
  ℕ, find, String, List, none,
}

-- The API's test of a licence and the worker's query accept the same rows at every time: a trial or
-- an active licence whose window holds the time, both ends included.
pub row_is_active-active_license_where :
    (now : ℕ) (row : GuildEntitlement) → row_is_active now row ≡ active_license_where now row
unfolding row_is_active active_license_where
row_is_active-active_license_where now row = ground arith

-- The row of a guild after an upsert: the input in full, or laid over the old row.
pub find-upsert :
    (input : GuildEntitlement) (db : Db)
    → find guild_key input.guild_id
        (upserted input (find guild_key input.guild_id db.entitlements) db.entitlements)
      ≡ some (elim (find guild_key input.guild_id db.entitlements) [
        | none ↦ input
        | some old ↦ merged input old
      ])
find-upsert input db = elim (Option-cases (find guild_key input.guild_id db.entitlements)) [
  | inl missing ↦ rw missing (
      ground (
        arith,
        find-create guild_key input.guild_id input db.entitlements,
        missing,
        eq_refl input.guild_id,
      ))
  | inr (old, there) ↦ rw there (
      ground (
        arith,
        there,
        find-update guild_key input.guild_id input.guild_id (merged input) db.entitlements
            (λ v. refl),
        eq_refl input.guild_id,
      ))
]

-- After an upsert the guild is licensed exactly when it is on the allowlist or the input is an active
-- licence at the time.
pub upsert_entitlement-licenses :
    (allowlist : List String) (input : GuildEntitlement) (db : Db) (now : ℕ)
    → is_guild_licensed allowlist now input.guild_id (record db {
      entitlements = upserted input (find guild_key input.guild_id db.entitlements) db.entitlements;
    })
      ≡ (includes input.guild_id allowlist || active_license_where now input)
unfolding is_guild_licensed active_license_where
upsert_entitlement-licenses allowlist input db now = ground (arith, find-upsert input db)
