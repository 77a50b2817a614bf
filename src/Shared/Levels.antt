-- ===== src/Shared/Levels.antt =====
-- packages/shared/src/index.ts and flag-levels.ts: flag levels, their names and the alert test.
pub mod Alerts
use protect_platform.Prelude.{
  ℕ, zero, suc, String, Bool, true, false, not, Option, none, some, List, [], ◌∷◌, ◌==◌, leb,
  or_else, if◌then◌else◌,
}

pub data FlagLevel : Type 0 where
  clean watch suspicious high_risk confirmed_cheater : FlagLevel

-- The enum's string, as the database and the JSON bodies carry it.
abbrev pub level_name : FlagLevel → String
level_name clean = "CLEAN"
level_name watch = "WATCH"
level_name suspicious = "SUSPICIOUS"
level_name high_risk = "HIGH_RISK"
level_name confirmed_cheater = "CONFIRMED_CHEATER"

abbrev pub flag_levels : List String
flag_levels = "CLEAN" ∷ "WATCH" ∷ "SUSPICIOUS" ∷ "HIGH_RISK" ∷ "CONFIRMED_CHEATER" ∷ []

-- `order.indexOf(s)`, with `none` for -1.
abbrev pub index_of : String → List String → Option ℕ
index_of s [] = none
index_of s (x ∷ xs) =
    if x == s then some 0 else elim (index_of s xs) [ none ↦ none | some i ↦ some (suc i) ]

abbrev alert_by_index : String → Option ℕ → Option ℕ → Bool
alert_by_index user_level (some ui) (some mi) = leb mi ui
alert_by_index user_level _ _ = not (user_level == "CLEAN")

pub should_alert_user_level : String → Option String → Bool
should_alert_user_level user_level min_level =
    alert_by_index user_level (index_of user_level flag_levels)
      (index_of (or_else min_level "SUSPICIOUS") flag_levels)

-- Severity, for statements about the order of the levels.
abbrev pub rank : FlagLevel → ℕ
rank clean = 0
rank watch = 1
rank suspicious = 2
rank high_risk = 3
rank confirmed_cheater = 4

abbrev display : List (String × String)
display =
    ("CLEAN", "Safe")
    ∷ ("WATCH", "Watch")
    ∷ ("SUSPICIOUS", "Suspicious")
    ∷ ("HIGH_RISK", "Flagged")
    ∷ ("CONFIRMED_CHEATER", "Cheater")
    ∷ []

abbrev lookup_name : String → List (String × String) → Option String
lookup_name k [] = none
lookup_name k ((j, v) ∷ m) = if j == k then some v else lookup_name k m

pub flag_level_display_name : String → String
flag_level_display_name level = or_else (lookup_name level display) level
