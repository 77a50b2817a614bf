-- ===== src/Policy.antt =====
-- apps/api/src/domain/flag-policy.service.ts: score thresholds and flag weights. The settings are
-- natural numbers; a setting that is no number, negative or fractional is not modelled.
pub mod Thresholds
mod Tests
use protect_platform.Prelude.{
  ℕ, ◌*◌, min, max, String, Bool, Option, ◌==◌, leb, or_else, none, some, false, if◌then◌else◌,
}
use protect_platform.Shared.Levels.{
  FlagLevel, clean, watch, suspicious, high_risk, confirmed_cheater,
}

-- The environment variables that the service reads; `none` for one that is not set.
pub record Settings : Type 0 where
  pub threshold_watch : Option ℕ
  pub threshold_suspicious : Option ℕ
  pub threshold_high_risk : Option ℕ
  pub threshold_confirmed : Option ℕ
  pub weight_multiplier : Option ℕ
  pub weight_cap : Option ℕ
  pub weight_community_report : Option ℕ
  pub tier_watch : Option ℕ
  pub tier_suspicious : Option ℕ
  pub tier_high_risk : Option ℕ
  pub tier_confirmed : Option ℕ
  pub weight_admin_override : Option ℕ
  pub decay_enabled : Option String
  pub decay_half_life_days : Option ℕ

-- The service object: the fields that its constructor sets.
pub record FlagPolicy : Type 0 where
  pub watch : ℕ
  pub suspicious : ℕ
  pub high_risk : ℕ
  pub confirmed : ℕ
  pub config : Settings

pub new_policy : Settings → FlagPolicy
new_policy config = record {
  watch = or_else config.threshold_watch 1;
  suspicious = or_else config.threshold_suspicious 3;
  high_risk = or_else config.threshold_high_risk 10;
  confirmed = or_else config.threshold_confirmed 25;
  config = config;
}

unfoldable pub level_from_score : FlagPolicy → ℕ → FlagLevel
level_from_score p score =
    if leb p.confirmed score
    then confirmed_cheater
    else if leb p.high_risk score
    then high_risk
    else if leb p.suspicious score
    then suspicious
    else if leb p.watch score
    then watch
    else clean

unfoldable pub flag_weight_from_trust_level : FlagPolicy → ℕ → ℕ
flag_weight_from_trust_level p trust_level =
    let mult = or_else p.config.weight_multiplier 5 in
    let cap = or_else p.config.weight_cap 50 in min (max 1 (trust_level * mult)) cap

unfoldable pub community_report_weight : FlagPolicy → ℕ
community_report_weight p = or_else p.config.weight_community_report 1

unfoldable pub trusted_command_weight_for_severity : FlagPolicy → FlagLevel → ℕ
trusted_command_weight_for_severity p watch = or_else p.config.tier_watch p.watch
trusted_command_weight_for_severity p suspicious = or_else p.config.tier_suspicious p.suspicious
trusted_command_weight_for_severity p high_risk = or_else p.config.tier_high_risk p.high_risk
trusted_command_weight_for_severity p confirmed_cheater =
    or_else p.config.tier_confirmed p.confirmed
trusted_command_weight_for_severity p clean = or_else p.config.tier_watch p.watch

unfoldable pub admin_override_weight : FlagPolicy → ℕ
admin_override_weight p = or_else p.config.weight_admin_override 100

pub is_decay_enabled : FlagPolicy → Bool
is_decay_enabled p = elim p.config.decay_enabled [ none ↦ false | some s ↦ s == "true" ]

pub decay_half_life_days : FlagPolicy → ℕ
decay_half_life_days p = or_else p.config.decay_half_life_days 30
