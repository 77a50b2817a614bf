-- ===== src/Aggregates.antt =====
-- The transactions that write users or flags, one after the other in any order: those of
-- apps/api/src/flags/flags.service.ts, apps/api/src/admin/admin-flags.service.ts,
-- apps/api/src/reports/reports.service.ts and apps/worker/src/decay-job.ts.
use protect_platform.Worker.Decay.Faded.{thresholds_of}
use protect_platform.Worker.Decay.{decay_user, Thresholds, DecayJob}
use protect_platform.Reports.Intake.{create_instant_tx, create_pending_tx, CreateReportDto}
use protect_platform.Reports.Review.{reject_tx, approve_tx}
use protect_platform.Shared.Levels.{FlagLevel}
use protect_platform.Flags.Admin.{patch_flag_tx, AdminPatchFlagDto, delete_flag_tx}
use protect_platform.Scores.Consistency.{IsFresh}
use protect_platform.Auth.{RequestPrincipal}
use protect_platform.Flags.{create_flag_tx, CreatedFlag, CreateFlagDto}
use protect_platform.Policy.{FlagPolicy}
use protect_platform.Js.{Js}
use protect_platform.Prelude.{Option, false, ok, ◌≡◌, any, ◌==◌, ℕ, Bool, String}
use protect_platform.Store.{Report, User, Db, Flag, Env}
pub mod Unique
pub mod Sound
mod Tests

abbrev pub has_id : String → Flag → Bool
has_id id g = g.id == id

-- What the database and `randomUUID` promise of the identifiers that a transaction takes: no row of
-- a user or a flag has one of them yet, and those of two new users differ.
pub record IsFreshIn (env : Env) (db : Db) : Type 0 where
  pub unused : (i : ℕ) → IsFresh (env.uuid i) db.users db.flags
  pub unused_flag : (i : ℕ) → any (has_id (env.uuid i)) db.flags ≡ false
  pub distinct : (env.uuid 0 == env.uuid 1) ≡ false

-- A transaction that reads the state and commits before anything else does, whoever runs it, and the
-- state that it leaves. Deletions and changes of flags lock no row
-- that would make them wait for one another. The worker reads the
-- thresholds that the API reads.
pub data Change (js : Js) (policy : FlagPolicy) (db : Db) : Db → Type 0 where
  flag :
      {db' : Db} (env : Env) (dto : CreateFlagDto) (principal : RequestPrincipal)
      (result : CreatedFlag)
      → IsFreshIn env db
      → create_flag_tx policy env dto principal db ≡ ok (result, db')
      → Change js policy db db'
  delete_flag :
      {db' : Db} (env : Env) (actor target flag_id : String) (after : User)
      → delete_flag_tx policy env actor target flag_id db ≡ ok (after, db')
      → Change js policy db db'
  patch_flag :
      {db' : Db} (env : Env) (actor target flag_id : String) (body : AdminPatchFlagDto)
      (after : User)
      → patch_flag_tx policy env actor target flag_id body db ≡ ok (after, db')
      → Change js policy db db'
  approve :
      {db' : Db} (env : Env) (id admin : String) (severity : FlagLevel) (saved : User)
      → IsFreshIn env db
      → approve_tx js policy env id admin severity db ≡ ok (saved, db')
      → Change js policy db db'
  reject :
      {db' : Db} (env : Env) (id admin : String) (note : Option String) (u : Unit {0})
      → reject_tx env id admin note db ≡ ok (u, db')
      → Change js policy db db'
  report_pending :
      {db' : Db} (env : Env) (dto : CreateReportDto) (r : Report)
      → IsFreshIn env db
      → create_pending_tx js env dto db ≡ ok (r, db')
      → Change js policy db db'
  report_instant :
      {db' : Db} (env : Env) (dto : CreateReportDto) (r : Report) (saved : User)
      → IsFreshIn env db
      → create_instant_tx js policy env dto db ≡ ok ((r, saved), db')
      → Change js policy db db'
  decay :
      {db' : Db} (job : DecayJob) (env : Env) (id : String) (r : Option String)
      → job.thresholds ≡ thresholds_of policy
      → decay_user js job env id db ≡ ok (r, db')
      → Change js policy db db'

-- Any number of such transactions, one after the other.
pub data Changes (js : Js) (policy : FlagPolicy) (db : Db) : Db → Type 0 where
  none_yet : Changes js policy db db
  then_ :
      {mid db' : Db}
      → Changes js policy db mid
      → Change js policy mid db'
      → Changes js policy db db'
