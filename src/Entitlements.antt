-- ===== src/Entitlements.antt =====
-- apps/api/src/entitlements/entitlements.service.ts and the active licences of the worker,
-- apps/worker/src/member-sync-schedule-job.ts.
pub mod Active
mod Tests
use protect_platform.Js.{split_commas, is_snowflake, Js}
use protect_platform.Store.{MemberSyncState, Db, modify, Tx, GuildEntitlement, LicenseStatus}
use protect_platform.Prelude.{
  or_else, map, ltb, find, leb, update, includes, not, ◌&&◌, true, keep, some, if◌then◌else◌, false,
  Bool, String, create, ℕ, Option, List, none,
}

abbrev pub guild_key : GuildEntitlement → String
guild_key e = e.guild_id

abbrev trimmed : Js → Option String → Option String
trimmed js none = none
trimmed js (some raw) = some (js.trim raw)

-- The setting SENTRA_LICENSED_GUILD_IDS.
unfoldable pub licensed_allowlist : Js → Option String → List String
licensed_allowlist js raw =
    keep is_snowflake (map js.trim (split_commas (or_else (trimmed js raw) "")))

abbrev pub is_trial_or_active : LicenseStatus → Bool
is_trial_or_active LicenseStatus.trial = true
is_trial_or_active LicenseStatus.active = true
is_trial_or_active _ = false

abbrev has_ended : ℕ → Option ℕ → Bool
has_ended now none = false
has_ended now (some end) = ltb end now

unfoldable pub row_is_active : ℕ → GuildEntitlement → Bool
row_is_active now row =
    if not (is_trial_or_active row.status)
    then false
    else if ltb now row.valid_from
    then false
    else if has_ended now row.valid_until
    then false
    else true

abbrev active_row : ℕ → Option GuildEntitlement → Bool
active_row now none = false
active_row now (some row) = row_is_active now row

unfoldable pub is_guild_licensed : List String → ℕ → String → Db → Bool
unfolding row_is_active
is_guild_licensed allowlist now guild db =
    if includes guild allowlist then true else active_row now (find guild_key guild db.entitlements)

-- The worker's `activeLicenseWhere`: the columns that the query compares.
abbrev pub not_before : ℕ → Option ℕ → Bool
not_before now none = true
not_before now (some end) = leb now end

unfoldable pub active_license_where : ℕ → GuildEntitlement → Bool
active_license_where now row =
    is_trial_or_active row.status && leb row.valid_from now && not_before now row.valid_until

-- `upsertEntitlement`: a value that the input leaves out keeps the column as it is.
abbrev pub or_kept : Option String → Option String → Option String
or_kept none old = old
or_kept (some s) old = some s

abbrev pub merged : GuildEntitlement → GuildEntitlement → GuildEntitlement
merged input old = record old {
  status = input.status;
  valid_from = input.valid_from;
  valid_until = input.valid_until;
  plan_code = or_kept input.plan_code old.plan_code;
  stripe_customer_id = or_kept input.stripe_customer_id old.stripe_customer_id;
  stripe_subscription_id = or_kept input.stripe_subscription_id old.stripe_subscription_id;
  created_by_discord_id = or_kept input.created_by_discord_id old.created_by_discord_id;
}

abbrev pub upserted :
    GuildEntitlement → Option GuildEntitlement → List GuildEntitlement → List GuildEntitlement
upserted input none rows = create input rows
upserted input (some old) rows = update guild_key input.guild_id (merged input) rows

unfoldable pub upsert_entitlement : GuildEntitlement → Tx (Unit {0})
upsert_entitlement input = modify (λ db. record db {
  entitlements = upserted input (find guild_key input.guild_id db.entitlements) db.entitlements;
})

abbrev pub ms_per_day : ℕ
ms_per_day = 86400000

abbrev pub in_state : MemberSyncState → GuildEntitlement → GuildEntitlement
in_state state e = record e { member_sync_state = state }

unfoldable pub set_member_sync_state : String → MemberSyncState → Tx (Unit {0})
set_member_sync_state guild state =
    modify
      (λ db. record db { entitlements = update guild_key guild (in_state state) db.entitlements })
