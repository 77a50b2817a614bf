-- ===== src/Policy/Tests.antt =====
-- The policy at concrete thresholds.
use protect_platform.Prelude.{refl, ◌↔◌, ◌≤◌, arith, ◌≡◌}
use protect_platform.Shared.Levels.{rank}
use protect_platform.Policy.{high_risk, level_from_score, new_policy}
use protect_platform.Policy.Thresholds.{level_from_score_iff, HasDefaultTiers, IsOrdered}
use protect_platform.Samples.{policy}

new_default : new_policy policy.config ≡ policy
unfolding new_policy
new_default = refl

ordered : IsOrdered policy
ordered = record {
  positive = omega arith;
  watch_below = omega arith;
  suspicious_below = omega arith;
  high_risk_below = omega arith;
}

untouched : HasDefaultTiers policy
untouched = record {
  watch_unset = refl;
  suspicious_unset = refl;
  high_risk_unset = refl;
  confirmed_unset = refl;
}

level_from_score_iff_example : (3 ≤ rank (level_from_score policy 12)) ↔ (10 ≤ 12)
level_from_score_iff_example = level_from_score_iff policy high_risk 12 ordered
