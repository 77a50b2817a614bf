-- ===== src/Policy/Thresholds.antt =====
-- apps/api/src/domain/flag-policy.service.ts: what the levels and the weights guarantee.
use protect_platform.Prelude.{ℕ, ◌+◌, ◌≤◌, ◌<◌, ◌≡◌, ◌↔◌, none, arith}
use protect_platform.Shared.Levels.{
  FlagLevel, clean, watch, suspicious, high_risk, confirmed_cheater, rank,
}
use protect_platform.Policy.{FlagPolicy, level_from_score, trusted_command_weight_for_severity}

-- The thresholds rise with the level, and the lowest is positive.
pub record IsOrdered (p : FlagPolicy) : Type 0 where
  pub positive : 0 < p.watch
  pub watch_below : p.watch ≤ p.suspicious
  pub suspicious_below : p.suspicious ≤ p.high_risk
  pub high_risk_below : p.high_risk ≤ p.confirmed

-- The score at which a level begins.
abbrev pub threshold : FlagPolicy → FlagLevel → ℕ
threshold p clean = 0
threshold p watch = p.watch
threshold p suspicious = p.suspicious
threshold p high_risk = p.high_risk
threshold p confirmed_cheater = p.confirmed

-- No tier weight is configured, so that each weight is the threshold of its level.
pub record HasDefaultTiers (p : FlagPolicy) : Type 0 where
  pub watch_unset : p.config.tier_watch ≡ none
  pub suspicious_unset : p.config.tier_suspicious ≡ none
  pub high_risk_unset : p.config.tier_high_risk ≡ none
  pub confirmed_unset : p.config.tier_confirmed ≡ none

-- More score never means a lower level, whatever the thresholds.
pub level_from_score_mono :
    (p : FlagPolicy) (a b : ℕ) → a ≤ b → rank (level_from_score p a) ≤ rank (level_from_score p b)
unfolding level_from_score
level_from_score_mono p a b h = ground arith

-- With ordered thresholds, a user is at level `l` or above exactly when the score has reached the
-- threshold of `l`.
pub level_from_score_iff :
    (p : FlagPolicy) (l : FlagLevel) (score : ℕ)
    → IsOrdered p
    → (rank l ≤ rank (level_from_score p score)) ↔ (threshold p l ≤ score)
unfolding level_from_score
level_from_score_iff p clean score o = ground arith
level_from_score_iff p watch score o = ground arith
level_from_score_iff p suspicious score o = ground arith
level_from_score_iff p high_risk score o = ground arith
level_from_score_iff p confirmed_cheater score o = ground arith

-- With ordered thresholds and default tier weights, a trusted flag of severity `l` brings any user
-- to level `l` or above.
pub trusted_flag_reaches_level :
    (p : FlagPolicy) (l : FlagLevel) (score : ℕ)
    → IsOrdered p
    → HasDefaultTiers p
    → rank l ≤ rank (level_from_score p (score + trusted_command_weight_for_severity p l))
unfolding trusted_command_weight_for_severity
trusted_flag_reaches_level p clean score o d = (level_from_score_iff p clean _ o).1 (ground arith)
trusted_flag_reaches_level p watch score o d = (level_from_score_iff p watch _ o).1 (ground arith)
trusted_flag_reaches_level p suspicious score o d =
    (level_from_score_iff p suspicious _ o).1 (ground arith)
trusted_flag_reaches_level p high_risk score o d =
    (level_from_score_iff p high_risk _ o).1 (ground arith)
trusted_flag_reaches_level p confirmed_cheater score o d =
    (level_from_score_iff p confirmed_cheater _ o).1 (ground arith)
