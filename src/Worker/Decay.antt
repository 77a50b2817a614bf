-- ===== src/Worker/Decay.antt =====
-- apps/worker/src/decay-job.ts: the weights of flags fade with their age, and the users' scores
-- follow. Settings are natural numbers. A flag's identifier is unique, so the updates of a user's
-- flags, one by one, are one pass over the table.
pub mod Faded
mod Settled
mod Tests
use Prim.Native.String.{◌++◌}
use protect_platform.Flags.{updated_payload}
use protect_platform.Shared.Events.{user_updated}
use protect_platform.Scores.{set_score, update_user, user_id, effective_weight}
use protect_platform.Js.{Js}
use protect_platform.Prelude.{
  keep, map, any, ◌||◌, find, ◌+◌, includes, none, [], ◌&&◌, not, ok, delete, err, eqb, leb, ◌∷◌,
  false, ◌==◌, if◌then◌else◌, some, true, Result, ℕ, Bool, Option, List, String,
}
use protect_platform.Shared.Levels.{level_name, FlagLevel}
use protect_platform.Dispatch.{WorkerState}
use protect_platform.Store.{enqueue, modify, pure, Tx, Db, User, Flag, Env, FlagSource, ◌>>=◌, ◌>>◌}

pub record Thresholds : Type 0 where
  pub watch : ℕ
  pub suspicious : ℕ
  pub high_risk : ℕ
  pub confirmed : ℕ

-- The job's `levelFromScore`.
unfoldable pub faded_level : Thresholds → ℕ → FlagLevel
faded_level t score =
    if leb t.confirmed score
    then FlagLevel.confirmed_cheater
    else if leb t.high_risk score
    then FlagLevel.high_risk
    else if leb t.suspicious score
    then FlagLevel.suspicious
    else if leb t.watch score
    then FlagLevel.watch
    else FlagLevel.clean

-- What the job reads. `fade source weight created_at now half_life` is the floating point part of
-- `effectiveWeightForFlag`: the weight times a power of two, with the source's multiplier, rounded down.
pub record DecayJob : Type 0 where
  pub enabled : Bool
  pub half_life_days : ℕ
  pub thresholds : Thresholds
  pub fade : FlagSource → (weight created_at now half_life : ℕ) → ℕ

abbrev is_override : FlagSource → Bool
is_override FlagSource.admin_override = true
is_override _ = false

pub effective_weight_for_flag : DecayJob → ℕ → Flag → ℕ
effective_weight_for_flag job now f =
    if is_override f.source
    then f.weight
    else if leb job.half_life_days 0
    then f.weight
    else job.fade f.source f.weight f.created_at now job.half_life_days

abbrev pub faded : DecayJob → ℕ → Flag → Flag
faded job now f = record f { effective_weight = some (effective_weight_for_flag job now f) }

abbrev pub is_flag_of_user : String → Flag → Bool
is_flag_of_user id f = f.user_id == id

-- The sum over the user's flags.
unfoldable pub faded_sum : DecayJob → ℕ → List Flag → ℕ
faded_sum job now [] = 0
faded_sum job now (f ∷ fs) = effective_weight_for_flag job now f + faded_sum job now fs

abbrev pub has_changed : DecayJob → ℕ → Flag → Bool
has_changed job now f = not (eqb (effective_weight f) (effective_weight_for_flag job now f))

abbrev pub same_level : FlagLevel → FlagLevel → Bool
same_level a b = level_name a == level_name b

abbrev has_no_flags : List Flag → Bool
has_no_flags [] = true
has_no_flags (f ∷ fs) = false

-- The row to announce; `none` where the user is gone or nothing has changed.
abbrev pub is_settled : DecayJob → ℕ → User → List Flag → Bool
is_settled job now user flags =
    eqb (faded_sum job now flags) user.flag_score
    && not (any (has_changed job now) flags)
    && same_level (faded_level job.thresholds (faded_sum job now flags)) user.flag_level

pub write_faded : Js → DecayJob → Env → User → List Flag → Tx (Option String)
write_faded js job env user flags = do
  modify (λ db. record db {
    flags = map (λ f. if is_flag_of_user user.id f then faded job env.now f else f) db.flags;
  })
  saved ← update_user user.id (
      set_score env.now (faded_sum job env.now flags)
        (faded_level job.thresholds (faded_sum job env.now flags)))
  enqueue (record env { correlation = none }) (env.uuid 0)
      (record {
        event_type = user_updated;
        payload = updated_payload user.discord_id saved;
        idempotency_key = some ("user.updated:decay:" ++ user.id ++ ":" ++ js.decimal env.now);
      })
  pure (some user.discord_id)

abbrev decay_found : Js → DecayJob → Env → Option User → List Flag → Tx (Option String)
decay_found js job env none flags = pure none
decay_found js job env (some user) flags =
    if has_no_flags flags || is_settled job env.now user flags
    then pure none
    else write_faded js job env user flags

-- The transaction for one user; it returns the Discord id if it wrote.
pub decay_user : Js → DecayJob → Env → String → Tx (Option String)
decay_user js job env id db =
    decay_found js job env (find user_id id db.users) (keep (is_flag_of_user id) db.flags) db

-- `redis.del` of the cached user and of the negative marker.
abbrev drop_cached : Option String → WorkerState → WorkerState
drop_cached none w = w
drop_cached (some discord_id) w = record w {
  redis = record w.redis {
    users = delete discord_id w.redis.users;
    negatives = delete discord_id w.redis.negatives;
  };
}

-- The users that have flags, each once.
unfoldable pub distinct_users : List Flag → List String
distinct_users [] = []
distinct_users (f ∷ fs) =
    let rest = distinct_users fs in if includes f.user_id rest then rest else f.user_id ∷ rest

abbrev pub after_user : WorkerState → Result (Option String × Db) → Result (Unit {0}) × WorkerState
after_user w (err e) = (err e, w)
after_user w (ok (written, db)) = (ok tt, drop_cached written (record w { db = db }))

abbrev and_then :
    (WorkerState → Result (Unit {0}) × WorkerState)
    → Result (Unit {0}) × WorkerState
    → Result (Unit {0}) × WorkerState
and_then f (err e, w) = (err e, w)
and_then f (ok u, w) = f w

-- The users one after another; `envs` are the surroundings of each transaction. An error stops the job.
unfoldable pub decay_users :
    Js → DecayJob → (ℕ → Env) → ℕ → List String → WorkerState → Result (Unit {0}) × WorkerState
decay_users js job envs i [] w = (ok tt, w)
decay_users js job envs i (id ∷ ids) w =
    and_then (decay_users js job envs (i + 1) ids)
      (after_user w (decay_user js job (envs i) id w.db))

-- `now` is the job's clock, read once.
pub run_decay_job : Js → DecayJob → ℕ → (ℕ → Env) → WorkerState → Result (Unit {0}) × WorkerState
run_decay_job js job now envs w =
    if job.enabled
    then decay_users js job (λ i. record (envs i) { now = now }) 0 (distinct_users w.db.flags) w
    else (ok tt, w)
