-- ===== src/Dispatch/Batch/Tests.antt =====
-- A turn of the dispatcher, and its theorems at a concrete input.
use protect_platform.Js.{strip_prefix}
use protect_platform.Shared.Events.{build_domain_envelope, parse, is_domain_event_type}
use protect_platform.Store.{OutboxStatus, OutboxEvent}
use protect_platform.Samples.{empty_redis, empty_db}
use protect_platform.Backpressure.{is_refused}
use protect_platform.Dispatch.Batch.Rest.{process_outbox_batch_rests, is_at_rest}
use protect_platform.Dispatch.{
  is_pending, finalize_dispatched, reclaim_stale_processing, after_exec, publish, insert_by_age,
  order_by_age, dispatch_one, Outcome, claimed_ids, WorkerState, claim_outbox_batch,
}
use protect_platform.Prelude.{
  refl, delete, put, lookup, update, find, ◌==◌, any, eqb, if◌then◌else◌, none, ◌∷◌, true, ◌≡◌,
  some, [], String, ℕ,
}
use protect_platform.Dispatch.Batch.{
  claim_of, count_rows, dispatch_rows, BatchOptions, publish_backlog_snapshot, Turn,
  process_outbox_batch,
}

abbrev row : String → OutboxEvent
row id = record {
  id = id;
  event_type = "user.updated";
  payload = [];
  correlation_id = none;
  idempotency_key = none;
  status = OutboxStatus.pending;
  attempts = 0;
  next_retry_at = none;
  last_error = none;
  created_at = 5;
  dispatched_at = none;
  processing_started_at = none;
}

abbrev start : WorkerState
start = record {
  db = record empty_db { outbox = row "a" ∷ row "b" ∷ row "c" ∷ [] };
  redis = empty_redis;
}

abbrev options : BatchOptions
options = record { batch = 2; max_attempts = 3; processing_lease_sec = 300 }

-- The first publication fails.
abbrev outcome : ℕ → Outcome
outcome i = record {
  published = true;
  appended = true;
  marked = true;
  exec_error = if eqb i 0 then some "ECONNRESET" else none;
  finalize_error = none;
  incr_error = none;
}

abbrev turn : Turn
turn = record {
  reclaim_at = 1000;
  claim_at = 1000;
  locked = [];
  clocks = λ i. record { now = 1000; jitter = 0 };
  outcomes = outcome;
  snapshot_at = 1001;
}

abbrev after : WorkerState
after = process_outbox_batch options turn start

-- One row waits for its retry and one was not claimed; one is out.
left_pending : count_rows is_pending after.db.outbox ≡ 2
unfolding process_outbox_batch publish_backlog_snapshot dispatch_rows dispatch_one publish
    after_exec finalize_dispatched claim_outbox_batch claimed_ids order_by_age insert_by_age
    reclaim_stale_processing is_domain_event_type parse find update lookup put delete
    build_domain_envelope
left_pending = refl

claimed_b : any (λ r. r.id == "b") (claim_of options turn start).0 ≡ true
unfolding claim_outbox_batch claimed_ids order_by_age insert_by_age reclaim_stale_processing
claimed_b = refl

process_outbox_batch_rests_example : is_at_rest "b" after ≡ true
process_outbox_batch_rests_example = process_outbox_batch_rests options turn start "b" claimed_b

refuses : is_refused 1 (record { method = "POST"; path = "/v1/reports" }) (some after.redis) ≡ true
unfolding is_refused strip_prefix process_outbox_batch publish_backlog_snapshot dispatch_rows
    dispatch_one publish after_exec finalize_dispatched claim_outbox_batch claimed_ids order_by_age
    insert_by_age reclaim_stale_processing is_domain_event_type parse find update lookup put delete
    build_domain_envelope
refuses = refl
