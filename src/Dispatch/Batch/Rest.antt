-- ===== src/Dispatch/Batch/Rest.antt =====
-- apps/worker/src/dispatch.ts: what a turn of the dispatcher leaves of the rows that it claims.
use protect_platform.Shared.Events.Channels.{parse_known}
use Prim.Native.String.{◌++◌}
use protect_platform.Shared.Events.{channel_for_event_type, parse, DomainEventType}
use protect_platform.Store.{OutboxEvent}
use protect_platform.Dispatch.{
  row_envelope, apply_multi, publish_parsed, Outcome, row_id, finalize_dispatched,
  already_dispatched, is_processing, finalized, publish, after_exec, give_up, WorkerState,
  dispatch_one, retried, Clock,
}
use protect_platform.Prelude.{
  [], ◌+◌, ◌∷◌, any, inr, find-update, inl, Option-cases, none, not, update, eq_iff, refl, is_some,
  some, ◌||◌, false, ◌==◌, ◌≡◌, arith, true, find, List, Bool, ℕ, Option, String,
}
use protect_platform.Dispatch.Batch.{
  claim_of, Turn, BatchOptions, publish_backlog_snapshot, dispatch_rows, process_outbox_batch,
}

-- The row with the identifier is not being processed.
abbrev rests : Option OutboxEvent → Bool
rests none = true
rests (some r) = not (is_processing r.status)

abbrev pub is_at_rest : String → WorkerState → Bool
is_at_rest id w = rests (find row_id id w.db.outbox)

-- A write that ends the processing of the row `k`.
record IsEnd (f : OutboxEvent → OutboxEvent) : Type 0 where
  quiet : (r : OutboxEvent) → is_processing (f r).status ≡ false
  same : (r : OutboxEvent) → (f r).id ≡ r.id

ended :
    (k j : String) (f : OutboxEvent → OutboxEvent) (rows : List OutboxEvent)
    → IsEnd f
    → (k == j || rests (find row_id j rows)) ≡ true
    → rests (find row_id j (update row_id k f rows)) ≡ true
ended k j f rows end h = elim (Option-cases (find row_id j rows)) [
  | inl missing ↦ ground (arith, missing, find-update row_id k j f rows end.same, eq_iff k j)
  | inr (r, there) ↦
      ground (arith, there, end.quiet r, find-update row_id k j f rows end.same, eq_iff k j)
]

retried-IsEnd :
    (clock : Clock) (max_attempts : ℕ) (row : OutboxEvent) (e : String)
    → IsEnd (retried clock max_attempts row e)
retried-IsEnd clock max_attempts row e = record { quiet = λ r. ground arith; same = λ r. refl }

finalized-IsEnd : (now : ℕ) → IsEnd (finalized now)
finalized-IsEnd now = record { quiet = λ r. refl; same = λ r. refl }

give_up-IsEnd : (e : String) → IsEnd (give_up e)
give_up-IsEnd e = record { quiet = λ r. refl; same = λ r. refl }

module _ (j : String) (clock : Clock) (max_attempts : ℕ) (row : OutboxEvent) where
  after_exec-rest :
      (a b c : Option String) (w : WorkerState)
      → (row.id == j || is_at_rest j w) ≡ true
      → is_at_rest j (after_exec clock max_attempts row a b c w) ≡ true
  unfolding after_exec finalize_dispatched
  after_exec-rest (some e) b c w h =
      ended row.id j (retried clock max_attempts row e) w.db.outbox
        (retried-IsEnd clock max_attempts row e) h
  after_exec-rest none (some e) c w h =
      ended row.id j (retried clock max_attempts row e) w.db.outbox
        (retried-IsEnd clock max_attempts row e) h
  after_exec-rest none none (some e) w h =
      let final = ended row.id j (finalized clock.now) w.db.outbox (finalized-IsEnd clock.now) h in
      ended row.id j (retried clock max_attempts row e)
        (update row_id row.id (finalized clock.now) w.db.outbox)
        (retried-IsEnd clock max_attempts row e) (ground (arith, final))
  after_exec-rest none none none w h =
      ended row.id j (finalized clock.now) w.db.outbox (finalized-IsEnd clock.now) h

  dispatched-rest :
      (w : WorkerState)
      → already_dispatched (find row_id row.id w.db.outbox) ≡ true
      → (row.id == j || is_at_rest j w) ≡ true
      → is_at_rest j w ≡ true
  dispatched-rest w done h = ground (arith, done, h, eq_iff row.id j)

  parsed-rest :
      (t : Option DomainEventType) (o : Outcome) (w : WorkerState)
      → is_some t ≡ true
      → (row.id == j || is_at_rest j w) ≡ true
      → is_at_rest j (publish_parsed clock max_attempts row t o w) ≡ true
  unfolding publish
  parsed-rest none o w known h = ground (arith, known)
  parsed-rest (some t) o w known h =
      after_exec-rest o.exec_error o.finalize_error o.incr_error
        (record w { redis = apply_multi o (channel_for_event_type t) (row_envelope row t) w.redis })
        h

  dispatch_one-rest :
      (o : Outcome) (w : WorkerState)
      → (row.id == j || is_at_rest j w) ≡ true
      → is_at_rest j (dispatch_one clock max_attempts row o w) ≡ true
  unfolding dispatch_one finalize_dispatched
  dispatch_one-rest o w h =
      let over = λ (e : String). ended row.id j (give_up e) w.db.outbox (give_up-IsEnd e) h in
      let final = ended row.id j (finalized clock.now) w.db.outbox (finalized-IsEnd clock.now) h in
      ground (
        arith,
        over "max_dispatch_attempts",
        over ("unknown_event_type:" ++ row.event_type),
        final,
        dispatched-rest w,
        parsed-rest (parse row.event_type) o w,
        parse_known row.event_type,
      )

abbrev any_of : String → List OutboxEvent → Bool
any_of j rows = any (λ r. r.id == j) rows

dispatch_rows-rest :
    (opts : BatchOptions) (turn : Turn) (j : String) (i : ℕ) (rows : List OutboxEvent)
    (w : WorkerState)
    → (any_of j rows || is_at_rest j w) ≡ true
    → is_at_rest j (dispatch_rows opts turn i rows w) ≡ true
unfolding dispatch_rows
dispatch_rows-rest opts turn j i [] w h = h
dispatch_rows-rest opts turn j i (row ∷ rows) w h =
    dispatch_rows-rest opts turn j (i + 1) rows
      (dispatch_one (turn.clocks i) opts.max_attempts row (turn.outcomes i) w)
      (ground
        (arith, h, dispatch_one-rest j (turn.clocks i) opts.max_attempts row (turn.outcomes i) w))

-- At the end of a turn that nothing interrupts none of the rows that it has claimed is being
-- processed any more, whatever happens around their publication.
pub process_outbox_batch_rests :
    (opts : BatchOptions) (turn : Turn) (w : WorkerState) (id : String)
    → any (λ r. r.id == id) (claim_of opts turn w).0 ≡ true
    → is_at_rest id (process_outbox_batch opts turn w) ≡ true
unfolding process_outbox_batch publish_backlog_snapshot
process_outbox_batch_rests opts turn w id claimed =
    dispatch_rows-rest opts turn id 0 (claim_of opts turn w).0 (claim_of opts turn w).1
      (ground (arith, claimed))
