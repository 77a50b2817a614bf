-- ===== src/Dispatch/Retries.antt =====
-- apps/worker/src/dispatch.ts: what one attempt does to its row, and a MULTI that half fails.
use protect_platform.Prelude.{
  ℕ, ◌+◌, ◌≤◌, String, ◌≡◌, refl, true, false, none, some, arith, eq_refl, find, find-update, leb,
  includes, if◌then◌else◌,
}
use protect_platform.Shared.Events.{
  DomainEventType, parse, is_domain_event_type, channel_for_event_type,
}
use protect_platform.Store.{OutboxEvent, OutboxStatus}
use protect_platform.Dispatch.{
  update, WorkerState, row_id, update_row, retried, finalize_dispatched, Outcome, Clock, has_marker,
  apply_multi, row_envelope, backoff, publish, dispatch_one, after_exec, is_dispatched,
}
use protect_platform.Dispatch.Once.{includes-create}

-- A claimed row that an attempt publishes: it has attempts left, a known type, and nothing says
-- that its event is out.
pub record IsReady (max_attempts : ℕ) (row : OutboxEvent) (t : DomainEventType) (w : WorkerState)
    : Type 0 where
  pub attempts_left : leb max_attempts row.attempts ≡ false
  pub known : is_domain_event_type row.event_type ≡ true
  pub of_type : parse row.event_type ≡ some t
  pub there : find row_id row.id w.db.outbox ≡ some row
  pub undispatched : is_dispatched row.status ≡ false
  pub unrecorded : includes row.id w.db.processed ≡ false
  pub unmarked : has_marker row.id w ≡ false

pub dispatch-eq-publish :
    (clock : Clock) (max_attempts : ℕ) (row : OutboxEvent) (t : DomainEventType) (o : Outcome)
    (w : WorkerState)
    → IsReady max_attempts row t w
    → dispatch_one clock max_attempts row o w ≡ publish clock max_attempts row t o w
unfolding dispatch_one
dispatch-eq-publish clock max_attempts row t o w r =
    rw (r.attempts_left, r.known, r.there, r.undispatched, r.unrecorded, r.unmarked, r.of_type) refl

module _ (clock : Clock) (max_attempts : ℕ) (row : OutboxEvent) (t : DomainEventType) (o : Outcome)
    (w : WorkerState) where
  abbrev pub sent : WorkerState
  sent = record w { redis = apply_multi o (channel_for_event_type t) (row_envelope row t) w.redis }

  publish-finalizes :
      (o.exec_error ≡ none) × (o.finalize_error ≡ none) × (o.incr_error ≡ none)
      → publish clock max_attempts row t o w ≡ finalize_dispatched clock.now row.id sent
  unfolding publish after_exec
  publish-finalizes (exec, finalize, incr) = rw (exec, finalize, incr) refl

  pub publish-retries :
      (e : String)
      → o.exec_error ≡ some e
      → publish clock max_attempts row t o w
        ≡ update_row row.id (retried clock max_attempts row e) sent
  unfolding publish after_exec
  publish-retries e failed = rw failed refl

  sent_row :
      (f : OutboxEvent → OutboxEvent)
      → ((r : OutboxEvent) → (f r).id ≡ r.id)
      → find row_id row.id w.db.outbox ≡ some row
      → find row_id row.id (update row_id row.id f w.db.outbox) ≡ some (f row)
  sent_row f keeps there =
      rw (find-update row_id row.id row.id f w.db.outbox keeps, eq_refl row.id, there) refl

  finalized_record : includes row.id (finalize_dispatched clock.now row.id w).db.processed ≡ true
  unfolding finalize_dispatched
  finalized_record = ground (arith, includes-create row.id row.id w.db.processed, eq_refl row.id)

backoff-bound : (now n jitter : ℕ) → now + backoff n jitter ≤ now + 120000
unfolding backoff
backoff-bound now n jitter = omega arith

-- An attempt that Redis refuses leaves the event out and counts the attempt. The row waits at most
-- two minutes, or is failed for good when the attempts are used up.
pub dispatch_fails :
    (clock : Clock) (max_attempts : ℕ) (row : OutboxEvent) (t : DomainEventType) (o : Outcome)
    (e : String) (w : WorkerState)
    → IsReady max_attempts row t w
    → (o.published ≡ false) × (o.appended ≡ false) × (o.marked ≡ false)
    → o.exec_error ≡ some e
    → let after = dispatch_one clock max_attempts row o w in
      (after.redis ≡ w.redis)
      × (r : OutboxEvent) × (find row_id row.id after.db.outbox ≡ some r)
      × (r.attempts ≡ row.attempts + 1)
      × (r.status ≡ (
          if leb max_attempts (row.attempts + 1)
          then OutboxStatus.failed
          else OutboxStatus.pending))
      × (at : ℕ) × (r.next_retry_at ≡ some at)
      × (clock.now ≤ at)
      × (at ≤ clock.now + 120000)
dispatch_fails clock max_attempts row t o e w r none_done failed =
    rw
      (
        dispatch-eq-publish clock max_attempts row t o w r,
        publish-retries clock max_attempts row t o w e failed,
      )
      (
        ground (arith, none_done.0, none_done.1, none_done.2),
        retried clock max_attempts row e row,
        sent_row clock max_attempts row t o w (retried clock max_attempts row e) (λ x. refl)
            r.there,
        refl,
        refl,
        clock.now + backoff (row.attempts + 1) clock.jitter,
        refl,
        omega arith,
        backoff-bound clock.now (row.attempts + 1) clock.jitter,
      )
