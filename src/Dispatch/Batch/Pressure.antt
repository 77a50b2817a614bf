-- ===== src/Dispatch/Batch/Pressure.antt =====
-- apps/worker/src/dispatch.ts and apps/api/src/common/outbox-backpressure.middleware.ts: the API
-- reads what the dispatcher leaves.
use protect_platform.Prelude.{arith, ◌&&◌, ltb, ◌≡◌, some, ℕ}
use protect_platform.Dispatch.{is_pending, WorkerState}
use protect_platform.Dispatch.Batch.{
  count_rows, Turn, BatchOptions, publish_backlog_snapshot, process_outbox_batch,
}
use protect_platform.Backpressure.{is_v1, is_mutating, Request, is_refused}

-- After a turn of the dispatcher the API refuses a request exactly when a threshold is set, the
-- request writes under /v1/, and more rows than the threshold are pending in the outbox.
pub is_refused-process_outbox_batch :
    (opts : BatchOptions) (turn : Turn) (w : WorkerState) (threshold : ℕ) (req : Request)
    → is_refused threshold req (some (process_outbox_batch opts turn w).redis) ≡ (
        ltb 0 threshold
        && is_mutating req.method
        && is_v1 req.path
        && ltb threshold (count_rows is_pending (process_outbox_batch opts turn w).db.outbox))
unfolding is_refused process_outbox_batch publish_backlog_snapshot
is_refused-process_outbox_batch opts turn w threshold req = ground arith
