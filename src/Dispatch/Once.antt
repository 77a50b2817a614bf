-- ===== src/Dispatch/Once.antt =====
-- apps/worker/src/dispatch.ts: an event enters the stream once, and a row that counts as
-- dispatched has an event there.
use Prim.Native.String.{◌++◌}
use protect_platform.Prelude.{
  ◌&&◌, not, leb, inr, inl, Option-cases, ℕ, suc, ◌+◌, String, ◌≡◌, refl, Bool, true, false, Option,
  none, some, List, [], ◌∷◌, ◌==◌, arith, eq_iff, eq_refl, find, find-update, create, includes,
  lookup-put, if◌then◌else◌,
}
use protect_platform.Shared.Events.{DomainEventType, build_domain_envelope}
use protect_platform.Store.{OutboxEvent}
use protect_platform.Redis.{Envelope}
use protect_platform.Dispatch.{
  parse, already_dispatched, is_domain_event_type, give_up, after_exec, channel_for_event_type,
  publish_parsed, retried, WorkerState, row_id, update_row, finalized, finalize_dispatched, Outcome,
  Clock, has_marker, apply_multi, publish, dispatch_one, is_dispatched, row_envelope,
}

-- How often an event stands in the stream.
unfoldable pub entries : String → List Envelope → ℕ
entries id [] = 0
entries id (e ∷ es) = if e.event_id == id then suc (entries id es) else entries id es

entries-create :
    (id : String) (e : Envelope) (es : List Envelope)
    → entries id (create e es) ≡ entries id es + (if e.event_id == id then 1 else 0)
unfolding entries
entries-create id e [] = ground arith
entries-create id e (x ∷ es) = ground (arith, entries-create id e es)

pub includes-create :
    (id k : String) (xs : List String)
    → includes id (create k xs) ≡ (if k == id then true else includes id xs)
includes-create id k [] = ground arith
includes-create id k (x ∷ xs) = ground (arith, includes-create id k xs)

-- What Redis documents of MULTI: its commands are run together or not at all, and an EXEC that
-- reports no error has run them. A command that fails on its own is left out here.
pub record IsAtomic (o : Outcome) : Type 0 where
  pub together : o.appended ≡ o.marked
  pub run : o.exec_error ≡ none → o.appended ≡ true

-- Markers, recorded ids and dispatched rows stand for one entry in the stream; without a marker
-- there is none.
pub record IsOnce (w : WorkerState) : Type 0 where
  pub unmarked : (id : String) → has_marker id w ≡ false → entries id w.redis.stream ≡ 0
  pub marked : (id : String) → has_marker id w ≡ true → entries id w.redis.stream ≡ 1
  pub recorded : (id : String) → includes id w.db.processed ≡ true → entries id w.redis.stream ≡ 1
  pub dispatched :
      (id : String) (r : OutboxEvent)
      → find row_id id w.db.outbox ≡ some r
      → is_dispatched r.status ≡ true
      → entries id w.redis.stream ≡ 1

finalize-IsOnce :
    (now : ℕ) (id : String) (w : WorkerState)
    → entries id w.redis.stream ≡ 1
    → IsOnce w
    → IsOnce (finalize_dispatched now id w)
unfolding finalize_dispatched
finalize-IsOnce now id w there o = record {
  unmarked = λ j h. o.unmarked j h;
  marked = λ j h. o.marked j h;
  recorded = λ j h. ground (arith, includes-create j id w.db.processed, o.recorded j, eq_iff id j);
  dispatched = λ j r h d. ground (
    arith,
    find-update row_id id j (finalized now) w.db.outbox (λ a. refl),
    o.dispatched j r,
    eq_iff id j,
  );
}

-- An update that makes no row dispatched.
pub update_row-IsOnce :
    (id : String) (f : OutboxEvent → OutboxEvent) (w : WorkerState)
    → ((r : OutboxEvent) → (f r).id ≡ r.id)
    → ((r : OutboxEvent) → is_dispatched (f r).status ≡ false)
    → IsOnce w
    → IsOnce (update_row id f w)
update_row-IsOnce id f w keeps never o = record {
  unmarked = λ j h. o.unmarked j h;
  marked = λ j h. o.marked j h;
  recorded = λ j h. o.recorded j h;
  dispatched = λ j r h d. elim (Option-cases (find row_id id w.db.outbox)) [
    | inl missing ↦
        ground (arith, find-update row_id id j f w.db.outbox keeps, o.dispatched j r, missing)
    | inr (x, e) ↦
        ground (arith, find-update row_id id j f w.db.outbox keeps, o.dispatched j r, e, never x)
  ];
}

-- The MULTI for an event that has no marker.
module _ (o : Outcome) (channel : String) (e : Envelope) (w : WorkerState) (a : IsAtomic o)
    (absent : has_marker e.event_id w ≡ false) (once : IsOnce w) where
  abbrev pub sent : WorkerState
  sent = record w { redis = apply_multi o channel e w.redis }

  has_marker-sent :
      (j : String)
      → has_marker j sent ≡ (if o.marked && (e.event_id == j) then true else has_marker j w)
  has_marker-sent j = ground (arith, lookup-put e.event_id j "1" w.redis.markers, eq_refl "1")

  entries-sent :
      (j : String)
      → entries j sent.redis.stream
        ≡ (if o.marked && (e.event_id == j) then 1 else entries j w.redis.stream)
  entries-sent j = ground (
    arith,
    a.together,
    entries-create j e w.redis.stream,
    once.unmarked e.event_id absent,
    eq_iff e.event_id j,
  )

  pub apply_multi-IsOnce : IsOnce sent
  apply_multi-IsOnce = record {
    unmarked = λ j h. ground (arith, has_marker-sent j, entries-sent j, once.unmarked j);
    marked = λ j h. ground (arith, has_marker-sent j, entries-sent j, once.marked j);
    recorded = λ j h. ground (arith, entries-sent j, once.recorded j);
    dispatched = λ j r h d. ground (arith, entries-sent j, once.dispatched j r);
  }

  apply_multi-marked : o.appended ≡ true → entries e.event_id sent.redis.stream ≡ 1
  apply_multi-marked h = ground (arith, a.together, entries-sent e.event_id, eq_refl e.event_id)

retried-IsOnce :
    (clock : Clock) (max_attempts : ℕ) (row : OutboxEvent) (e : String) (w : WorkerState)
    → IsOnce w
    → IsOnce (update_row row.id (retried clock max_attempts row e) w)
retried-IsOnce clock max_attempts row e w o =
    update_row-IsOnce row.id (retried clock max_attempts row e) w (λ r. refl) (λ r. ground arith) o

after_exec-IsOnce :
    (clock : Clock) (max_attempts : ℕ) (row : OutboxEvent)
    (exec_error finalize_error incr_error : Option String) (w : WorkerState)
    → (exec_error ≡ none → entries row.id w.redis.stream ≡ 1)
    → IsOnce w
    → IsOnce (after_exec clock max_attempts row exec_error finalize_error incr_error w)
unfolding after_exec finalize_dispatched
after_exec-IsOnce clock max_attempts row (some e) _ _ w there once =
    retried-IsOnce clock max_attempts row e w once
after_exec-IsOnce clock max_attempts row none (some e) _ w there once =
    retried-IsOnce clock max_attempts row e w once
after_exec-IsOnce clock max_attempts row none none (some e) w there once =
    retried-IsOnce clock max_attempts row e _ (finalize-IsOnce clock.now row.id w (there refl) once)
after_exec-IsOnce clock max_attempts row none none none w there once =
    finalize-IsOnce clock.now row.id w (there refl) once

pub publish-IsOnce :
    (clock : Clock) (max_attempts : ℕ) (row : OutboxEvent) (t : DomainEventType) (o : Outcome)
    (w : WorkerState)
    → IsAtomic o
    → has_marker row.id w ≡ false
    → IsOnce w
    → IsOnce (publish clock max_attempts row t o w)
unfolding publish build_domain_envelope
publish-IsOnce clock max_attempts row t o w a absent once =
    let channel = channel_for_event_type t in
    let e = row_envelope row t in
    after_exec-IsOnce clock max_attempts row o.exec_error o.finalize_error o.incr_error
      (record w { redis = apply_multi o channel e w.redis })
      (λ h. apply_multi-marked o channel e w a absent once (a.run h))
      (apply_multi-IsOnce o channel e w a absent once)

publish_parsed-IsOnce :
    (clock : Clock) (max_attempts : ℕ) (row : OutboxEvent) (t : Option DomainEventType)
    (o : Outcome) (w : WorkerState)
    → IsAtomic o
    → has_marker row.id w ≡ false
    → IsOnce w
    → IsOnce (publish_parsed clock max_attempts row t o w)
publish_parsed-IsOnce clock max_attempts row none o w a absent once = once
publish_parsed-IsOnce clock max_attempts row (some t) o w a absent once =
    publish-IsOnce clock max_attempts row t o w a absent once

-- A test splits the state.
choose :
    (b : Bool) {x y : WorkerState}
    → (b ≡ true → IsOnce x)
    → (b ≡ false → IsOnce y)
    → IsOnce (if b then x else y)
choose true yes_ no_ = yes_ refl
choose false yes_ no_ = no_ refl

-- Dispatching a row, whatever copy of it the worker holds and whatever goes wrong, keeps the
-- invariant: no event enters the stream twice, and a row is dispatched only with its event there.
pub dispatch_one-IsOnce :
    (clock : Clock) (max_attempts : ℕ) (row : OutboxEvent) (o : Outcome) (w : WorkerState)
    → IsAtomic o
    → IsOnce w
    → IsOnce (dispatch_one clock max_attempts row o w)
unfolding dispatch_one
dispatch_one-IsOnce clock max_attempts row o w a once =
    choose (leb max_attempts row.attempts)
      (λ _.
        update_row-IsOnce row.id (give_up "max_dispatch_attempts") w (λ r. refl) (λ r. refl) once)
      (λ _.
        choose (not (is_domain_event_type row.event_type))
          (λ _.
            update_row-IsOnce row.id (give_up ("unknown_event_type:" ++ row.event_type)) w
              (λ r. refl) (λ r. refl) once)
          (λ _.
            choose (already_dispatched (find row_id row.id w.db.outbox)) (λ _. once)
              (λ _.
                choose (includes row.id w.db.processed)
                  (λ h. finalize-IsOnce clock.now row.id w (once.recorded row.id h) once)
                  (λ _.
                    choose (has_marker row.id w)
                      (λ h. finalize-IsOnce clock.now row.id w (once.marked row.id h) once)
                      (λ h.
                        publish_parsed-IsOnce clock max_attempts row (parse row.event_type) o w a h
                          once)))))
