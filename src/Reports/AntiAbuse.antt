-- ===== src/Reports/AntiAbuse.antt =====
-- apps/api/src/reports/reports-anti-abuse.service.ts: duplicate reports, the daily cap of a reporter
-- and the cooldown of a reporter in a guild. The counters live in Redis; that their keys expire is
-- not modelled.
pub mod Slots
mod Tests
use protect_platform.Js.{Js}
use protect_platform.Prelude.Int.{pos, above, ℤ, decr, incr}
use Prim.Native.String.{◌++◌}
use protect_platform.Store.{same_key, Report}
use protect_platform.Redis.{Redis, World}
use protect_platform.Prelude.{
  leb, if◌then◌else◌, ok, conflict, ◌&&◌, ◌*◌, too_many, unavailable, lookup, some, ◌-◌, put,
  find_first, inr, delete, Bool, err, or_else, List, Result, Option, String, ℕ, zero, none,
}

pub record Limits : Type 0 where
  pub dedupe_window_sec : ℕ
  pub cooldown_sec : ℕ
  pub max_per_day : ℕ

pub record ReportParams : Type 0 where
  pub reporter : String
  pub target : String
  pub guild_id : Option String
  pub reason : String

unfoldable pub dedupe_key : Js → ReportParams → String
dedupe_key js p = js.slice 32 (
    js.sha256_hex (
      p.reporter
      ++ "|"
      ++ p.target
      ++ "|"
      ++ or_else p.guild_id ""
      ++ "|"
      ++ js.slice 500 (js.lower_case (js.trim p.reason))))

abbrev pub is_duplicate : String → ℕ → Report → Bool
is_duplicate key since r = same_key key r.dedupe_key && leb since r.created_at

unfoldable pub find_duplicate : String → ℕ → List Report → Option Report
find_duplicate key since reports = find_first (is_duplicate key since) reports

abbrev pub count_of : String → Redis → ℤ
count_of reporter r = or_else (lookup reporter r.day_counts) (pos 0)

abbrev pub set_count : String → ℤ → Redis → Redis
set_count reporter n r = record r { day_counts = put reporter n r.day_counts }

abbrev pub cooldown_key : String → Option String → String
cooldown_key reporter guild_id = reporter ++ ":" ++ or_else guild_id "global"

-- `DECR` of the day's counter
abbrev pub give_back : String → Redis → Redis
give_back reporter r = set_count reporter (decr (count_of reporter r)) r

-- `SET NX` succeeds where there is no value; a value there is the error of the cooldown.
abbrev pub start_cooldown : String → String → Option String → Redis → Result (Unit {0}) × Redis
start_cooldown reporter key (some v) r = (err (too_many "REPORT_COOLDOWN"), give_back reporter r)
start_cooldown reporter key none r = (ok tt, record r { cooldowns = put key "1" r.cooldowns })

unfoldable pub claim_slots : Limits → String → Option String → Redis → Result (Unit {0}) × Redis
claim_slots limits reporter guild_id r =
    let n = incr (count_of reporter r) in
    let counted = set_count reporter n r in
    let key = cooldown_key reporter guild_id in
    if above n limits.max_per_day
    then (err (too_many "REPORT_SPAM_CAP"), give_back reporter counted)
    else start_cooldown reporter key (lookup key r.cooldowns) counted

abbrev pub with_redis : World → Result (Unit {0}) × Redis → Result (Unit {0}) × World
with_redis w (result, r) = (result, record w { redis = some r })

abbrev pub limited : Limits → ReportParams → Option Redis → World → Result (Unit {0}) × World
limited limits p none w =
    (err (unavailable "Report intake requires Redis (rate limits); try again later"), w)
limited limits p (some r) w = with_redis w (claim_slots limits p.reporter p.guild_id r)

-- The dedupe key of a report that may go on is `dedupe_key js p`.
unfoldable pub assert_can_report :
    Js → Limits → ℕ → ReportParams → World → Result (Unit {0}) × World
assert_can_report js limits now p w =
    elim (find_duplicate (dedupe_key js p) (now - limits.dedupe_window_sec * 1000) w.db.reports) [
      | some r ↦ (err (conflict ("DUPLICATE_REPORT " ++ r.id)), w)
      | none ↦ limited limits p w.redis w
    ]

abbrev pub free_slots : String → Option String → Redis → Redis
free_slots reporter guild_id r =
    give_back reporter
      (record r { cooldowns = delete (cooldown_key reporter guild_id) r.cooldowns })

unfoldable pub rollback_slots : String → Option String → World → World
rollback_slots reporter guild_id w = record w {
  redis = elim w.redis [ none ↦ none | some r ↦ some (free_slots reporter guild_id r) ];
}
