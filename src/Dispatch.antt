-- ===== src/Dispatch.antt =====
-- apps/worker/src/dispatch.ts: the outbox dispatcher. Rows are claimed, published to Redis in one
-- MULTI, and finalized; a failure puts a row back with a delay, or fails it for good. A database
-- that fails outside the `try` of `dispatchOne`, and a crash, stop the worker between two of the
-- steps below. Log lines and the counter of dispatched events are not modelled.
pub mod Claim
pub mod Once
pub mod Runs
pub mod Retries
pub mod HalfDone
pub mod Batch
mod Tests
use Prim.Native.String.{◌++◌}
use protect_platform.Prelude.{
  ℕ, zero, suc, ◌+◌, ◌-◌, ◌*◌, ◌^◌, min, String, Bool, true, false, not, ◌&&◌, ◌||◌, Option, none,
  some, List, [], ◌∷◌, ◌==◌, ltb, leb, eqb, find, update, create, includes, is_some, lookup, put,
  map, take, keep, if◌then◌else◌,
}
use protect_platform.Shared.Events.{
  DomainEventType, parse, is_domain_event_type, channel_for_event_type, build_domain_envelope,
}
use protect_platform.Store.{OutboxEvent, OutboxStatus, Db}
use protect_platform.Redis.{Redis, Envelope, Backlog}

-- What the worker works on.
pub record WorkerState : Type 0 where
  pub db : Db
  pub redis : Redis

abbrev pub row_id : OutboxEvent → String
row_id r = r.id

abbrev pub set_outbox : List OutboxEvent → WorkerState → WorkerState
set_outbox rows w = record w { db = record w.db { outbox = rows } }

abbrev pub update_row : String → (OutboxEvent → OutboxEvent) → WorkerState → WorkerState
update_row id f w = set_outbox (update row_id id f w.db.outbox) w

abbrev pub is_pending : OutboxStatus → Bool
is_pending OutboxStatus.pending = true
is_pending _ = false

abbrev pub is_processing : OutboxStatus → Bool
is_processing OutboxStatus.processing = true
is_processing _ = false

abbrev pub is_dispatched : OutboxStatus → Bool
is_dispatched OutboxStatus.dispatched = true
is_dispatched _ = false

-- `reclaimStaleProcessing`: a row whose lease has run out is pending again.
abbrev started_before : ℕ → Option ℕ → Bool
started_before cutoff none = false
started_before cutoff (some t) = ltb t cutoff

abbrev pub is_stale : ℕ → OutboxEvent → Bool
is_stale cutoff r = is_processing r.status && started_before cutoff r.processing_started_at

abbrev pub reclaimed : OutboxEvent → OutboxEvent
reclaimed r = record r {
  status = OutboxStatus.pending;
  processing_started_at = none;
  last_error = some "reclaimed_stale_processing";
}

pub reclaim_stale_processing : ℕ → ℕ → WorkerState → WorkerState
reclaim_stale_processing now lease_sec w =
    let cutoff = now - lease_sec * 1000 in
    set_outbox (map (λ r. if is_stale cutoff r then reclaimed r else r) w.db.outbox) w

-- `claimOutboxBatch`; `locked` are the rows that another worker's claim holds (SKIP LOCKED).
abbrev due : ℕ → Option ℕ → Bool
due now none = true
due now (some t) = leb t now

abbrev pub is_eligible : ℕ → List String → OutboxEvent → Bool
is_eligible now locked r =
    is_pending r.status && due now r.next_retry_at && not (includes r.id locked)

pub insert_by_age : OutboxEvent → List OutboxEvent → List OutboxEvent
insert_by_age r [] = r ∷ []
insert_by_age r (x ∷ xs) =
    if leb r.created_at x.created_at then r ∷ x ∷ xs else x ∷ insert_by_age r xs

pub order_by_age : List OutboxEvent → List OutboxEvent
order_by_age [] = []
order_by_age (r ∷ rs) = insert_by_age r (order_by_age rs)

pub claimed_ids : ℕ → ℕ → List String → List OutboxEvent → List String
unfolding order_by_age insert_by_age
claimed_ids now limit locked rows =
    map row_id (take limit (order_by_age (keep (is_eligible now locked) rows)))

abbrev pub claim_row : ℕ → OutboxEvent → OutboxEvent
claim_row now r = record r { status = OutboxStatus.processing; processing_started_at = some now }

pub claim_outbox_batch : ℕ → ℕ → List String → WorkerState → List OutboxEvent × WorkerState
claim_outbox_batch now limit locked w =
    let ids = claimed_ids now limit locked w.db.outbox in
    let rows = map (λ r. if includes r.id ids then claim_row now r else r) w.db.outbox in
    (keep (λ r. includes r.id ids) rows, set_outbox rows w)

-- `finalizeDispatched`: the row is dispatched, and its id is recorded unless it is already.
abbrev pub finalized : ℕ → OutboxEvent → OutboxEvent
finalized now r = record r {
  status = OutboxStatus.dispatched;
  dispatched_at = some now;
  last_error = none;
  next_retry_at = none;
  processing_started_at = none;
}

pub finalize_dispatched : ℕ → String → WorkerState → WorkerState
finalize_dispatched now id w = record w {
  db = record w.db {
    outbox = update row_id id (finalized now) w.db.outbox;
    processed = if includes id w.db.processed then w.db.processed else create id w.db.processed;
  };
}

-- What happens around one publication: which commands of the MULTI took effect, the error that the
-- client reports for it, and whether the finalization or the count after it fails.
pub record Outcome : Type 0 where
  pub published : Bool
  pub appended : Bool
  pub marked : Bool
  pub exec_error : Option String
  pub finalize_error : Option String
  pub incr_error : Option String

pub record Clock : Type 0 where
  pub now : ℕ
  -- `Math.random() * 500`, rounded down
  pub jitter : ℕ

abbrev pub marker : String → WorkerState → Option String
marker id w = lookup id w.redis.markers

abbrev pub has_marker : String → WorkerState → Bool
has_marker id w = elim (marker id w) [ none ↦ false | some v ↦ v == "1" ]

abbrev pub apply_multi : Outcome → String → Envelope → Redis → Redis
apply_multi o channel e r = record r {
  published = if o.published then create (channel, e) r.published else r.published;
  stream = if o.appended then create e r.stream else r.stream;
  markers = if o.marked then put e.event_id "1" r.markers else r.markers;
}

pub backoff : ℕ → ℕ → ℕ
backoff attempts_after jitter = min 120000 (500 * 2 ^ attempts_after + jitter)

-- The `catch` of `dispatchOne`; `row` is the row as it was claimed.
abbrev pub retried : Clock → ℕ → OutboxEvent → String → OutboxEvent → OutboxEvent
retried clock max_attempts row e r = record r {
  status =
      if leb max_attempts (row.attempts + 1) then OutboxStatus.failed else OutboxStatus.pending;
  attempts = r.attempts + 1;
  last_error = some e;
  next_retry_at = some (clock.now + backoff (row.attempts + 1) clock.jitter);
  processing_started_at = none;
}

-- The rest of the `try` once the MULTI is done, with the errors that it can meet in order.
pub after_exec :
    Clock
    → ℕ
    → OutboxEvent
    → (exec_error finalize_error incr_error : Option String) → WorkerState
    → WorkerState
after_exec clock max_attempts row (some e) _ _ w =
    update_row row.id (retried clock max_attempts row e) w
after_exec clock max_attempts row none (some e) _ w =
    update_row row.id (retried clock max_attempts row e) w
after_exec clock max_attempts row none none (some e) w =
    update_row row.id (retried clock max_attempts row e) (finalize_dispatched clock.now row.id w)
after_exec clock max_attempts row none none none w = finalize_dispatched clock.now row.id w

abbrev pub row_envelope : OutboxEvent → DomainEventType → Envelope
row_envelope row t = build_domain_envelope row.id t row.created_at row.correlation_id row.payload

pub publish : Clock → ℕ → OutboxEvent → DomainEventType → Outcome → WorkerState → WorkerState
publish clock max_attempts row t o w =
    after_exec clock max_attempts row o.exec_error o.finalize_error o.incr_error
      (record w { redis = apply_multi o (channel_for_event_type t) (row_envelope row t) w.redis })

abbrev give_up : String → OutboxEvent → OutboxEvent
give_up e r = record r {
  status = OutboxStatus.failed;
  processing_started_at = none;
  last_error = some e;
}

abbrev pub already_dispatched : Option OutboxEvent → Bool
already_dispatched none = false
already_dispatched (some r) = is_dispatched r.status

-- The type test has passed, so `parse` finds the type.
abbrev publish_parsed :
    Clock → ℕ → OutboxEvent → Option DomainEventType → Outcome → WorkerState → WorkerState
publish_parsed clock max_attempts row none o w = w
publish_parsed clock max_attempts row (some t) o w = publish clock max_attempts row t o w

-- The run of one worker while no other step touches the row between its reads and its writes; with
-- other steps in between, `publish` follows the last read on a later state.
pub dispatch_one : Clock → ℕ → OutboxEvent → Outcome → WorkerState → WorkerState
dispatch_one clock max_attempts row o w =
    if leb max_attempts row.attempts
    then update_row row.id (give_up "max_dispatch_attempts") w
    else if not (is_domain_event_type row.event_type)
    then update_row row.id (give_up ("unknown_event_type:" ++ row.event_type)) w
    else if already_dispatched (find row_id row.id w.db.outbox)
    then w
    else if includes row.id w.db.processed
    then finalize_dispatched clock.now row.id w
    else if has_marker row.id w
    then finalize_dispatched clock.now row.id w
    else publish_parsed clock max_attempts row (parse row.event_type) o w

-- apps/api/scripts/outbox-safe-requeue.ts, with `--apply`: a failed row goes back to pending, unless
-- its event is known to be out.
abbrev pub requeued : OutboxEvent → OutboxEvent
requeued r = record r {
  status = OutboxStatus.pending;
  attempts = 0;
  next_retry_at = none;
  last_error = some "safe_requeue_cli";
  processing_started_at = none;
}

pub requeue_one : OutboxEvent → WorkerState → WorkerState
requeue_one row w =
    if includes row.id w.db.processed || has_marker row.id w
    then w
    else update_row row.id requeued w
