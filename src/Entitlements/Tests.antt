-- ===== src/Entitlements/Tests.antt =====
-- Runs of the licence tests, and the theorems at concrete inputs.
use protect_platform.Prelude.{none, refl, some, false, true, ◌≡◌}
use protect_platform.Entitlements.{row_is_active}
use protect_platform.Store.{MemberSyncState, LicenseStatus, GuildEntitlement}

abbrev trial : GuildEntitlement
trial = record {
  guild_id = "1";
  status = LicenseStatus.trial;
  valid_from = 10;
  valid_until = some 20;
  plan_code = none;
  stripe_customer_id = none;
  stripe_subscription_id = none;
  created_by_discord_id = none;
  last_member_sync_at = none;
  member_sync_state = MemberSyncState.idle;
}

at_the_end : row_is_active 20 trial ≡ true
unfolding row_is_active
at_the_end = refl

ended : row_is_active 21 trial ≡ false
unfolding row_is_active
ended = refl
