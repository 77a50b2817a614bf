-- ===== src/Dispatch/HalfDone.antt =====
-- apps/worker/src/dispatch.ts: Redis runs the commands of a MULTI without rolling back, so the
-- marker can be set although the event could not be appended to the stream.
use protect_platform.Prelude.{
  String, ◌≡◌, ◌∙◌, ap, refl, true, false, some, arith, eq_refl, find, find-update, leb, includes,
  lookup-put, Bool-cases, inl, inr, ℕ,
}
use protect_platform.Shared.Events.{DomainEventType, is_domain_event_type, build_domain_envelope}
use protect_platform.Store.{OutboxEvent}
use protect_platform.Dispatch.{
  Redis, WorkerState, row_id, finalized, finalize_dispatched, Outcome, Clock, has_marker,
  dispatch_one, is_dispatched,
}
use protect_platform.Dispatch.Retries.{IsReady, dispatch-eq-publish, publish-retries}

-- The row of an event is dispatched.
abbrev pub IsDone : String → WorkerState → Type 0
IsDone id w =
    (r : OutboxEvent) × (find row_id id w.db.outbox ≡ some r) × (is_dispatched r.status ≡ true)

finalize-IsDone :
    (now : ℕ) (id : String) (r : OutboxEvent) (w : WorkerState)
    → find row_id id w.db.outbox ≡ some r
    → IsDone id (finalize_dispatched now id w)
unfolding finalize_dispatched
finalize-IsDone now id r w there = (
  finalized now r,
  rw (find-update row_id id id (finalized now) w.db.outbox (λ x. refl), eq_refl id, there) refl,
  refl,
)

-- A copy of a row that still has attempts left and a known type.
pub record IsLive (max_attempts : ℕ) (row : OutboxEvent) : Type 0 where
  pub attempts_left : leb max_attempts row.attempts ≡ false
  pub known : is_domain_event_type row.event_type ≡ true

module _ (clock : Clock) (max_attempts : ℕ) (row r : OutboxEvent) (o : Outcome) (w : WorkerState)
    (live : IsLive max_attempts row) (there : find row_id row.id w.db.outbox ≡ some r)
    (marked : has_marker row.id w ≡ true) where
  marked_skips :
      ((dispatch_one clock max_attempts row o w).redis ≡ w.redis)
      × IsDone row.id (dispatch_one clock max_attempts row o w)
  unfolding dispatch_one
  marked_skips = elim (Bool-cases (is_dispatched r.status)) [
    | inl done ↦ rw (live.attempts_left, live.known, there, done) (refl, (r, there, done))
    | inr open_ ↦ elim (Bool-cases (includes row.id w.db.processed)) [
      | inl recorded ↦
          rw (live.attempts_left, live.known, there, open_, recorded)
            (finalize-redis, finalize-IsDone clock.now row.id r w there)
      | inr unrecorded ↦
          rw (live.attempts_left, live.known, there, open_, unrecorded, marked)
            (finalize-redis, finalize-IsDone clock.now row.id r w there)
    ]
  ]
    where
      finalize-redis : (finalize_dispatched clock.now row.id w).redis ≡ w.redis
      finalize-redis = unfold finalize_dispatched in refl

module _ (clock : Clock) (max_attempts : ℕ) (row : OutboxEvent) (t : DomainEventType) (o : Outcome)
    (e : String) (w : WorkerState) (ready : IsReady max_attempts row t w)
    (half : (o.appended ≡ false) × (o.marked ≡ true)) (failed : o.exec_error ≡ some e) where
  half_done :
      ((dispatch_one clock max_attempts row o w).redis.stream ≡ w.redis.stream)
      × (has_marker row.id (dispatch_one clock max_attempts row o w) ≡ true)
  unfolding build_domain_envelope
  half_done =
      rw
        (
          dispatch-eq-publish clock max_attempts row t o w ready,
          publish-retries clock max_attempts row t o w e failed,
        )
        (
          ground (arith, half.0),
          ground (
            arith,
            half.1,
            lookup-put row.id row.id "1" w.redis.markers,
            eq_refl row.id,
            eq_refl "1",
          ),
        )

  -- When Redis sets the marker of an event but fails to append it to the stream, the client sees an
  -- error and the row is to be retried. Every later attempt at the row, in any state with what
  -- Redis then holds, marks it dispatched and leaves the stream without the event.
  pub half_multi_loses_event :
      (clock' : Clock) (o' : Outcome) (row' r : OutboxEvent) (v : WorkerState)
      → v.redis ≡ (dispatch_one clock max_attempts row o w).redis
      → row'.id ≡ row.id
      → IsLive max_attempts row'
      → find row_id row'.id v.db.outbox ≡ some r
      → ((dispatch_one clock' max_attempts row' o' v).redis.stream ≡ w.redis.stream)
        × IsDone row'.id (dispatch_one clock' max_attempts row' o' v)
  half_multi_loses_event clock' o' row' r v same same_id live there =
      let (stream, marked) = half_done in
      let marked' : has_marker row'.id v ≡ true = rw (same_id, same) marked in
      let (kept, done) = marked_skips clock' max_attempts row' r o' v live there marked' in
      (ap (λ (x : Redis). x.stream) (kept ∙ same) ∙ stream, done)
