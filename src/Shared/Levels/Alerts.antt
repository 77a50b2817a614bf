-- ===== src/Shared/Levels/Alerts.antt =====
-- packages/shared/src/index.ts: what the alert test decides.
use protect_platform.Prelude.{or_else, String, Option, ◌≡◌, refl, none, some, leb}
use protect_platform.Shared.Levels.{
  FlagLevel, clean, watch, suspicious, high_risk, confirmed_cheater, level_name, rank,
  should_alert_user_level,
}

above_min :
    (u m : FlagLevel)
    → should_alert_user_level (level_name u) (some (level_name m)) ≡ leb (rank m) (rank u)
unfolding should_alert_user_level
above_min clean clean = refl
above_min clean watch = refl
above_min clean suspicious = refl
above_min clean high_risk = refl
above_min clean confirmed_cheater = refl
above_min watch clean = refl
above_min watch _ = refl
above_min suspicious clean = refl
above_min suspicious _ = refl
above_min high_risk clean = refl
above_min high_risk _ = refl
above_min confirmed_cheater clean = refl
above_min confirmed_cheater _ = refl

above_default :
    (u : FlagLevel) → should_alert_user_level (level_name u) none ≡ leb (rank suspicious) (rank u)
unfolding should_alert_user_level
above_default clean = refl
above_default _ = refl

abbrev pub minimum_name : Option FlagLevel → Option String
minimum_name none = none
minimum_name (some m) = some (level_name m)

-- A user of a known level raises an alert exactly when the level is at or above the configured
-- minimum; with no minimum configured, exactly when it is SUSPICIOUS or above.
pub should_alert_by_rank :
    (u : FlagLevel) (min_level : Option FlagLevel)
    → should_alert_user_level (level_name u) (minimum_name min_level)
      ≡ leb (rank (or_else min_level suspicious)) (rank u)
should_alert_by_rank u none = above_default u
should_alert_by_rank u (some m) = above_min u m
