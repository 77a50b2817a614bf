-- ===== src/Worker/Schedule/Tests.antt =====
-- Runs of the schedule, and its theorem at a concrete input.
use protect_platform.Samples.{env, empty_db, plain_js}
use protect_platform.Entitlements.{active_license_where}
use protect_platform.Store.{MemberSyncState, has_key, GuildEntitlement, enqueue, LicenseStatus, Db}
use protect_platform.Prelude.{refl, [], none, ◌∷◌, ◌≡◌, String}
use protect_platform.Worker.Schedule.{enqueue_guilds, run_member_sync_schedule, licensed_guilds}

abbrev licence : String → LicenseStatus → GuildEntitlement
licence guild status = record {
  guild_id = guild;
  status = status;
  valid_from = 0;
  valid_until = none;
  plan_code = none;
  stripe_customer_id = none;
  stripe_subscription_id = none;
  created_by_discord_id = none;
  last_member_sync_at = none;
  member_sync_state = MemberSyncState.idle;
}

abbrev db : Db
db = record empty_db {
  entitlements =
      licence "a" LicenseStatus.active
      ∷ licence "b" LicenseStatus.canceled
      ∷ licence "c" LicenseStatus.trial
      ∷ [];
}

schedules :
    (run_member_sync_schedule plain_js (env "a") 600 db).0 ≡ record { enqueued = 2; skipped = 0 }
unfolding run_member_sync_schedule enqueue_guilds enqueue has_key active_license_where
schedules = refl

is_licensed : licensed_guilds 1000 db ≡ "a" ∷ "c" ∷ []
unfolding active_license_where
is_licensed = refl
