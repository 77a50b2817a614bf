-- ===== src/Reports/Intake/Refused.antt =====
-- apps/api/src/reports/reports.service.ts: a report that is refused, or whose transaction fails.
use protect_platform.Js.{Js}
use protect_platform.Reports.AntiAbuse.Slots.{claim_slots_refused, claim_slots_undone, IsSame}
use protect_platform.Store.{Db, Tx}
use protect_platform.Reports.AntiAbuse.{
  with_redis, dedupe_key, find_duplicate, free_slots, claim_slots, rollback_slots, ReportParams,
  assert_can_report, Limits,
}
use protect_platform.Reports.Intake.{finish, settle, submit}
use protect_platform.Redis.{Redis, World}
use protect_platform.Prelude.{
  inl, inr, ◌*◌, ◌-◌, Option-cases, ℕ, arith, ok, err, refl, Result, ApiError, some, ◌≡◌, none,
}

-- The same database, and in Redis counters and cooldowns that read the same.
pub record IsUntouched (w w' : World) : Type 0 where
  pub db : w'.db ≡ w.db
  pub slots : (r : Redis) → w.redis ≡ some r → (r' : Redis) × (w'.redis ≡ some r') × IsSame r r'

IsUntouched-refl : (w : World) → IsUntouched w w
IsUntouched-refl w = record {
  db = refl;
  slots = λ r here. (r, here, record { counts = λ id. refl; cooldowns = λ key. refl });
}

module _ {A : Type 0} (limits : Limits) (p : ReportParams) (tx : Tx A) (after : A → World → World)
    (w w' : World) (e : ApiError) where
  finish-IsUntouched :
      (r r1 : Redis) (result : Result (A × Db))
      → w.redis ≡ some r
      → IsSame r (free_slots p.reporter p.guild_id r1)
      → finish p after result (record w { redis = some r1 }) ≡ (err e, w')
      → IsUntouched w w'
  unfolding rollback_slots
  finish-IsUntouched r r1 (err e') here same h =
      let e2 : record w { redis = some (free_slots p.reporter p.guild_id r1) } ≡ w' =
        ground arith in
      rw (← e2) (record {
        db = refl;
        slots = λ s there.
            let one : r ≡ s = ground arith in
            (free_slots p.reporter p.guild_id r1, refl, rw (← one) same);
      })
  finish-IsUntouched r r1 (ok (a, db)) here same h = absurd (ground arith)

  settle-IsUntouched :
      (r r1 : Redis) (result : Result (Unit {0}))
      → w.redis ≡ some r
      → claim_slots limits p.reporter p.guild_id r ≡ (result, r1)
      → settle p tx after (result, record w { redis = some r1 }) ≡ (err e, w')
      → IsUntouched w w'
  settle-IsUntouched r r1 (err e') here claimed h =
      let e2 : record w { redis = some r1 } ≡ w' = ground arith in
      rw (← e2) (record {
        db = refl;
        slots = λ s there.
            let one : r ≡ s = ground arith in
            (
              r1,
              refl,
              rw (← one) (claim_slots_refused limits p.reporter p.guild_id r r1 e' claimed),
            );
      })
  settle-IsUntouched r r1 (ok u) here claimed h =
      let (counted, idle, started, same) =
        claim_slots_undone limits p.reporter p.guild_id r r1 claimed in
      finish-IsUntouched r r1 (tx w.db) here same h

assert-claim :
    (js : Js) (limits : Limits) (now : ℕ) (p : ReportParams) (w : World) (r : Redis)
    → find_duplicate (dedupe_key js p) (now - limits.dedupe_window_sec * 1000) w.db.reports ≡ none
    → w.redis ≡ some r
    → assert_can_report js limits now p w
      ≡ with_redis w (claim_slots limits p.reporter p.guild_id r)
unfolding assert_can_report
assert-claim js limits now p w r new here = rw (assert_can_report, new, here) refl

-- A report that comes back with an error, from the rate limits or from the transaction, leaves the
-- database as it was and uses no slot of the reporter, whatever the transaction is.
pub submit_refused :
    {A : Type 0} (js : Js) (limits : Limits) (now : ℕ) (p : ReportParams) (tx : Tx A)
    (after : A → World → World) (w w' : World) (e : ApiError)
    → submit js limits now p tx after w ≡ (err e, w')
    → IsUntouched w w'
unfolding submit assert_can_report
submit_refused js limits now p tx after w w' e h =
    elim (Option-cases
      (find_duplicate (dedupe_key js p) (now - limits.dedupe_window_sec * 1000) w.db.reports)) [
        | inr (d, found_one) ↦ let same : w ≡ w' = ground arith in rw (← same) (IsUntouched-refl w)
        | inl new ↦ elim (Option-cases w.redis) [
          | inl missing ↦ let same : w ≡ w' = ground arith in rw (← same) (IsUntouched-refl w)
          | inr (r, here) ↦
              let h1 : settle p tx after (assert_can_report js limits now p w) ≡ (err e, w') = h in
              settle-IsUntouched limits p tx after w w' e r
                (claim_slots limits p.reporter p.guild_id r).1
                (claim_slots limits p.reporter p.guild_id r).0 here refl
                (rw (assert-claim js limits now p w r new here) at h1)
        ]
      ]
