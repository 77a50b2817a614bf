-- ===== src/Reports/AntiAbuse/Tests.antt =====
-- Runs of the rate limits, and the theorems at concrete inputs.
use protect_platform.Prelude.Int.{pos}
use protect_platform.Reports.AntiAbuse.Slots.{
  has_room, is_ok, claim_all, accepted, claim_slots-IsCapped,
}
use protect_platform.Redis.{Redis}
use protect_platform.Reports.AntiAbuse.{cooldown_key, count_of, claim_slots, Limits}
use protect_platform.Prelude.{
  none, arith, [], ◌≤◌, ◌∷◌, ◌+◌, Option, String, List, err, too_many, ok, refl, delete, put, ◌≡◌,
  some, lookup,
}
use protect_platform.Samples.{empty_redis}

abbrev limits : Limits
limits = record { dedupe_window_sec = 86400; cooldown_sec = 120; max_per_day = 1 }

abbrev counted_once : Redis
counted_once = (claim_slots limits "7" (some "5") empty_redis).1

abbrev refused : Redis
refused = (claim_slots limits "7" (some "5") counted_once).1

lets_in : claim_slots limits "7" (some "5") empty_redis ≡ (ok tt, counted_once)
unfolding claim_slots lookup put delete
lets_in = refl

refuses :
    claim_slots limits "7" (some "5") counted_once ≡ (err (too_many "REPORT_SPAM_CAP"), refused)
unfolding claim_slots lookup put delete
refuses = refl

not_counted : count_of "7" empty_redis ≡ pos 0
unfolding lookup
not_counted = refl

abbrev day : List (String × Option String)
day = ("7", some "5") ∷ ("8", some "5") ∷ ("7", some "6") ∷ []

one_accepted : accepted limits "7" day empty_redis ≡ 1
unfolding accepted claim_slots lookup put delete
one_accepted = refl

claim_slots-IsCapped_example :
    (count_of "7" (claim_all limits day empty_redis)
      ≡ pos (0 + accepted limits "7" day empty_redis))
    × (0 + accepted limits "7" day empty_redis ≤ 1)
    × (is_ok (claim_slots limits "7" none (claim_all limits day empty_redis)).0
        ≡ has_room limits
            (0 + accepted limits "7" day empty_redis)
            (lookup (cooldown_key "7" none) (claim_all limits day empty_redis).cooldowns))
claim_slots-IsCapped_example =
    claim_slots-IsCapped limits "7" day empty_redis 0 none not_counted (omega arith)
