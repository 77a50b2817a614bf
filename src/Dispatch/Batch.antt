-- ===== src/Dispatch/Batch.antt =====
-- apps/worker/src/dispatch.ts: `processOutboxBatch`, one turn of the dispatcher that nothing
-- interrupts, with the snapshot of the backlog that it leaves for the API. The lag of a row from the
-- future is 0 here; no modelled code reads it.
mod Rest
mod Pressure
mod Tests
use protect_platform.Redis.{Backlog}
use protect_platform.Prelude.{
  [], ◌-◌, none, ◌+◌, keep, false, Option, ◌∷◌, length, true, some, Bool, String, List, ℕ,
}
use protect_platform.Store.{OutboxEvent, OutboxStatus}
use protect_platform.Dispatch.{
  order_by_age, dispatch_one, is_processing, Outcome, reclaim_stale_processing, is_pending, Clock,
  claim_outbox_batch, WorkerState,
}

pub record BatchOptions : Type 0 where
  pub batch : ℕ
  pub max_attempts : ℕ
  pub processing_lease_sec : ℕ

-- What a turn meets: its clocks, the rows that other workers hold, and each row's publication.
pub record Turn : Type 0 where
  pub reclaim_at : ℕ
  pub claim_at : ℕ
  pub locked : List String
  pub clocks : ℕ → Clock
  pub outcomes : ℕ → Outcome
  pub snapshot_at : ℕ

-- The rows one after another.
unfoldable pub dispatch_rows :
    BatchOptions → Turn → ℕ → List OutboxEvent → WorkerState → WorkerState
dispatch_rows opts turn i [] w = w
dispatch_rows opts turn i (row ∷ rows) w =
    dispatch_rows opts turn (i + 1) rows
      (dispatch_one (turn.clocks i) opts.max_attempts row (turn.outcomes i) w)

abbrev is_failed : OutboxStatus → Bool
is_failed OutboxStatus.failed = true
is_failed _ = false

abbrev pub count_rows : (OutboxStatus → Bool) → List OutboxEvent → ℕ
count_rows test rows = length (keep (λ r. test r.status) rows)

abbrev lag_of : ℕ → List OutboxEvent → Option ℕ
lag_of now [] = none
lag_of now (r ∷ rs) = some (now - r.created_at)

-- `publishBacklogSnapshot`
abbrev pub snapshot : ℕ → List OutboxEvent → Backlog
snapshot now rows = record {
  pending = count_rows is_pending rows;
  processing = count_rows is_processing rows;
  failed = count_rows is_failed rows;
  oldest_pending_lag_ms = lag_of now (order_by_age (keep (λ r. is_pending r.status) rows));
  captured_at = now;
}

pub publish_backlog_snapshot : ℕ → WorkerState → WorkerState
publish_backlog_snapshot now w = record w {
  redis = record w.redis { backlog = some (snapshot now w.db.outbox) };
}

abbrev pub claim_of : BatchOptions → Turn → WorkerState → List OutboxEvent × WorkerState
claim_of opts turn w =
    claim_outbox_batch turn.claim_at opts.batch turn.locked
      (reclaim_stale_processing turn.reclaim_at opts.processing_lease_sec w)

pub process_outbox_batch : BatchOptions → Turn → WorkerState → WorkerState
process_outbox_batch opts turn w =
    publish_backlog_snapshot turn.snapshot_at
      (dispatch_rows opts turn 0 (claim_of opts turn w).0 (claim_of opts turn w).1)
