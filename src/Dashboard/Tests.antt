-- ===== src/Dashboard/Tests.antt =====
-- Dashboards of small databases, and one of 101 rows of the same time.
use protect_platform.Dashboard.Polled.{poll_audit_since_loses, IsAt}
use protect_platform.Samples.{empty_db}
use protect_platform.Dashboard.{poll_audit_since}
use protect_platform.Prelude.{arith, refl, ap, zero, suc, ◌∷◌, none, [], List, All, ◌≡◌, length, ℕ}
use protect_platform.Store.{ActorKind, AuditAction, AuditLog, Db}

abbrev row : AuditLog
row = record {
  timestamp = 5;
  action = AuditAction.flag_created;
  entity_type = "flag";
  entity_id = "f";
  target_id = none;
  actor_discord_id = none;
  actor_kind = ActorKind.system;
  correlation_id = none;
  metadata = [];
}

abbrev rows : ℕ → List AuditLog
rows zero = []
rows (suc n) = row ∷ rows n

rows-IsAt : (n : ℕ) → All (IsAt 5) (rows n)
rows-IsAt zero = tt
rows-IsAt (suc n) = (refl, rows-IsAt n)

length-rows : (n : ℕ) → length (rows n) ≡ n
length-rows zero = refl
length-rows (suc n) = ap suc (length-rows n)

abbrev busy : Db
busy = record empty_db { audit = rows 101 }

poll_audit_since_loses_example :
    (length (poll_audit_since 0 busy).0 ≡ 100)
    × ((poll_audit_since (poll_audit_since 0 busy).1 busy).0 ≡ [])
poll_audit_since_loses_example =
    poll_audit_since_loses 5 0 1 busy (rows-IsAt 101) (omega arith) (length-rows 101)

abbrev quiet : Db
quiet = record empty_db { audit = row ∷ record row { timestamp = 7 } ∷ [] }
