-- ===== src/Store/Transaction.antt =====
-- `prisma.$transaction`: a body that fails leaves the database as it was, so a body is a function
-- from the database to an error, or to its result and the new database.
use protect_platform.Prelude.{
  ℕ, suc, String, Bool, true, false, Option, none, some, List, [], ◌∷◌, ◌==◌, Result, ok, err,
  ApiError, unique_violation, find, create, any, if◌then◌else◌,
}
use protect_platform.Shared.Levels.{clean}
use protect_platform.Shared.Events.{DomainEventType, type_name}
use protect_platform.Store.Model.{
  User, OutboxEvent, OutboxStatus, AuditAction, ActorKind, AuditLog, JsonObject, Db,
}

-- What a request finds in its surroundings: the clock, the identifiers that the database and
-- `randomUUID` make during the call, by number, and the request's correlation id.
pub record Env : Type 0 where
  pub now : ℕ
  pub uuid : ℕ → String
  pub correlation : Option String

abbrev pub Tx : Type 0 → Type 0
Tx A = Db → Result (A × Db)

module _ {A B : Type 0} where
  abbrev pub continue : (A → Tx B) → Result (A × Db) → Result (B × Db)
  continue f (err e) = err e
  continue f (ok (a, db)) = f a db

  infixl 5 ◌>>=◌ ◌>>◌
  abbrev pub ◌>>=◌ : Tx A → (A → Tx B) → Tx B
  ◌>>=◌ m f db = continue f (m db)

  abbrev pub ◌>>◌ : Tx A → Tx B → Tx B
  m >> k = m >>= λ _. k

module _ {A : Type 0} where
  abbrev pub pure : A → Tx A
  pure a db = ok (a, db)

  abbrev pub throw : ApiError → Tx A
  throw e db = err e

  -- `if (!row) throw e;`
  abbrev pub found : Option A → ApiError → Tx A
  found none e db = err e
  found (some a) e db = ok (a, db)

  abbrev pub gets : (Db → A) → Tx A
  gets f db = ok (f db, db)

-- `if (!test) throw e;`
abbrev pub check : Bool → ApiError → Tx (Unit {0})
check true e db = ok (tt, db)
check false e db = err e

abbrev pub modify : (Db → Db) → Tx (Unit {0})
modify f db = ok (tt, f db)

-- events/outbox.service.ts
pub record OutboxEnqueueItem : Type 0 where
  pub event_type : DomainEventType
  pub payload : JsonObject
  pub idempotency_key : Option String

abbrev pub same_key : String → Option String → Bool
same_key k none = false
same_key k (some j) = j == k

-- The unique index on `idempotency_key` holds a row with this key. NULLs never collide.
unfoldable pub has_key : Option String → List OutboxEvent → Bool
has_key none rows = false
has_key (some k) rows = any (λ r. same_key k r.idempotency_key) rows

abbrev pub outbox_row : Env → String → OutboxEnqueueItem → OutboxEvent
outbox_row env id item = record {
  id = id;
  event_type = type_name item.event_type;
  payload = item.payload;
  correlation_id = env.correlation;
  idempotency_key = item.idempotency_key;
  status = OutboxStatus.pending;
  attempts = 0;
  next_retry_at = none;
  last_error = none;
  created_at = env.now;
  dispatched_at = none;
  processing_started_at = none;
}

-- `id` is the identifier that the database gives the row.
unfoldable pub enqueue : Env → String → OutboxEnqueueItem → Tx (Unit {0})
enqueue env id item db =
    if has_key item.idempotency_key db.outbox
    then err (unique_violation "idempotency_key")
    else ok (tt, record db { outbox = create (outbox_row env id item) db.outbox })

-- The rows of one `createMany` take the identifiers from `i` on.
unfoldable pub enqueue_many : Env → ℕ → List OutboxEnqueueItem → Tx (Unit {0})
enqueue_many env i [] = pure tt
enqueue_many env i (item ∷ items) =
    enqueue env (env.uuid i) item >>= λ _. enqueue_many env (suc i) items

-- audit/audit.service.ts
pub record AuditInput : Type 0 where
  pub action : AuditAction
  pub entity_type : String
  pub entity_id : String
  pub target_id : Option String
  pub actor_discord_id : Option String
  pub actor_kind : ActorKind
  pub metadata : JsonObject

abbrev pub audit_row : Env → AuditInput → AuditLog
audit_row env input = record {
  timestamp = env.now;
  action = input.action;
  entity_type = input.entity_type;
  entity_id = input.entity_id;
  target_id = input.target_id;
  actor_discord_id = input.actor_discord_id;
  actor_kind = input.actor_kind;
  correlation_id = env.correlation;
  metadata = input.metadata;
}

unfoldable pub log_with_tx : Env → AuditInput → Tx (Unit {0})
log_with_tx env input db = ok (tt, record db { audit = create (audit_row env input) db.audit })

-- `tx.user.upsert({ where: { discordId }, create: { … score 0, CLEAN … }, update: {} })`. An
-- upsert with an empty update is read as one that leaves an existing row as it is.
abbrev pub new_user : Env → String → String → User
new_user env id discord_id = record {
  id = id;
  discord_id = discord_id;
  flag_score = 0;
  flag_level = clean;
  state_version = 0;
  updated_at = env.now;
}

abbrev insert_if_missing : Env → String → String → Option User → Tx User
insert_if_missing env id discord_id (some u) db = ok (u, db)
insert_if_missing env id discord_id none db =
    ok (
      new_user env id discord_id,
      record db { users = create (new_user env id discord_id) db.users },
    )

unfoldable pub upsert_user : Env → String → String → Tx User
upsert_user env id discord_id db =
    insert_if_missing env id discord_id (find (λ (u : User). u.discord_id) discord_id db.users) db
