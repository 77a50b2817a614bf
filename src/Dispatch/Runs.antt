-- ===== src/Dispatch/Runs.antt =====
-- apps/worker/src/dispatch.ts and apps/api/scripts/outbox-safe-requeue.ts: any interleaving of the
-- steps of several workers, the API and the operator.
use protect_platform.Prelude.{
  [], not, leb, ◌==◌, eq_iff, if◌then◌else◌, lookup-put, ◌∷◌, Bool, ◌||◌, inl, inr, Bool-cases,
  Option-cases, ◌≤◌, ℕ, String, ◌≡◌, refl, true, false, some, List, arith, create, find,
  find-create, find-map, map, includes,
}
use protect_platform.Shared.Events.{
  is_domain_event_type, DomainEventType, build_domain_envelope, channel_for_event_type,
}
use protect_platform.Store.{OutboxEvent}
use protect_platform.Dispatch.{
  already_dispatched, after_exec, publish, finalize_dispatched, requeued, WorkerState, row_id,
  set_outbox, reclaim_stale_processing, claim_outbox_batch, Outcome, Clock, has_marker, apply_multi,
  row_envelope, dispatch_one, is_dispatched, requeue_one,
}
use protect_platform.Dispatch.Once.{
  publish-IsOnce, update_row-IsOnce, apply_multi-IsOnce, IsAtomic, IsOnce, entries,
  dispatch_one-IsOnce,
}

-- What the dispatcher works on, and the rows that some worker has found without a marker and not yet
-- published: `dispatchOne` reads the marker and runs the MULTI as separate calls.
pub record Fleet : Type 0 where
  pub state : WorkerState
  pub in_flight : List String

abbrev pub land : String → List String → List String
land id [] = []
land id (x ∷ xs) = if x == id then land id xs else x ∷ land id xs

abbrev pub moved : WorkerState → Fleet → Fleet
moved w f = record f { state = w }

abbrev pub landed : String → WorkerState → Fleet → Fleet
landed id w f = record { state = w; in_flight = land id f.in_flight }

-- The tests after which `dispatch_one` publishes nothing.
abbrev pub is_settled : ℕ → OutboxEvent → WorkerState → Bool
is_settled max_attempts row w =
    leb max_attempts row.attempts
    || not (is_domain_event_type row.event_type)
    || already_dispatched (find row_id row.id w.db.outbox)
    || includes row.id w.db.processed
    || has_marker row.id w

-- A step of a worker, of the API or of the operator. A claim may skip any rows, and a worker may hold
-- any copy of a row. A worker that finds no marker begins, and other steps may come before it
-- publishes; it may stop in between, or right after the MULTI. What a worker that publishes nothing
-- has read stays so, since ids that are recorded and markers stay.
pub data Step (f : Fleet) : Fleet → Type 0 where
  enqueue :
      (r : OutboxEvent)
      → is_dispatched r.status ≡ false
      → Step f (moved (set_outbox (create r f.state.db.outbox) f.state) f)
  reclaim : (now lease_sec : ℕ) → Step f (moved (reclaim_stale_processing now lease_sec f.state) f)
  claim :
      (now limit : ℕ) (locked : List String)
      → Step f (moved (claim_outbox_batch now limit locked f.state).1 f)
  pass_over :
      (clock : Clock) (max_attempts : ℕ) (row : OutboxEvent) (o : Outcome)
      → is_settled max_attempts row f.state ≡ true
      → Step f (moved (dispatch_one clock max_attempts row o f.state) f)
  begin :
      (row : OutboxEvent)
      → has_marker row.id f.state ≡ false
      → Step f (record f { in_flight = row.id ∷ f.in_flight })
  finish :
      (clock : Clock) (max_attempts : ℕ) (row : OutboxEvent) (t : DomainEventType) (o : Outcome)
      → includes row.id f.in_flight ≡ true
      → Step f (landed row.id (publish clock max_attempts row t o f.state) f)
  stop :
      (row : OutboxEvent) (t : DomainEventType) (o : Outcome)
      → includes row.id f.in_flight ≡ true
      → Step f (
          landed row.id
            (record f.state {
              redis = apply_multi o (channel_for_event_type t) (row_envelope row t) f.state.redis;
            })
            f)
  requeue : (row : OutboxEvent) → Step f (moved (requeue_one row f.state) f)

pub data Reach (f : Fleet) : Fleet → Type 0 where
  here : Reach f f
  next : {g h : Fleet} → Reach f g → Step g h → Reach f h

-- A lease that outlasts every dispatch: no row is begun while it is in flight.
abbrev pub KeepsLease : {f g : Fleet} → Step f g → Type 0
KeepsLease {f} (begin row h) = includes row.id f.in_flight ≡ false
KeepsLease _ = Unit {0}

abbrev pub IsLeased : {f g : Fleet} → Reach f g → Type 0
IsLeased here = Unit {0}
IsLeased (next r s) = IsLeased r × KeepsLease s

-- Each MULTI is run whole or not at all.
abbrev pub RunsWhole : {f g : Fleet} → Step f g → Type 0
RunsWhole (finish clock max_attempts row t o h) = IsAtomic o
RunsWhole (pass_over clock max_attempts row o h) = IsAtomic o
RunsWhole (stop row t o h) = IsAtomic o
RunsWhole _ = Unit {0}

abbrev pub AllRunWhole : {f g : Fleet} → Reach f g → Type 0
AllRunWhole here = Unit {0}
AllRunWhole (next r s) = AllRunWhole r × RunsWhole s

-- The invariant of a fleet: a row in flight has no marker.
pub record IsOrderly (f : Fleet) : Type 0 where
  pub once : IsOnce f.state
  pub flying : (id : String) → includes id f.in_flight ≡ true → has_marker id f.state ≡ false

includes-land :
    (id j : String) (ids : List String)
    → includes j (land id ids) ≡ (if id == j then false else includes j ids)
includes-land id j [] = ground arith
includes-land id j (x ∷ xs) =
    ground (arith, includes-land id j xs, eq_iff id j, eq_iff x id, eq_iff x j)

-- A change of the rows that makes none of them dispatched.
map-IsOnce :
    (f : OutboxEvent → OutboxEvent) (w : WorkerState)
    → ((r : OutboxEvent) → (f r).id ≡ r.id)
    → ((r : OutboxEvent) → is_dispatched (f r).status ≡ true → is_dispatched r.status ≡ true)
    → IsOnce w
    → IsOnce (set_outbox (map f w.db.outbox) w)
map-IsOnce f w keeps never o = record {
  unmarked = λ j h. o.unmarked j h;
  marked = λ j h. o.marked j h;
  recorded = λ j h. o.recorded j h;
  dispatched = λ j r h d. elim (Option-cases (find row_id j w.db.outbox)) [
    | inl missing ↦ absurd (ground (arith, find-map row_id j f w.db.outbox keeps, missing))
    | inr (x, e) ↦
        o.dispatched j x e (never x (ground (arith, find-map row_id j f w.db.outbox keeps, e)))
  ];
}

create-IsOnce :
    (r : OutboxEvent) (w : WorkerState)
    → is_dispatched r.status ≡ false
    → IsOnce w
    → IsOnce (set_outbox (create r w.db.outbox) w)
create-IsOnce r w new o = record {
  unmarked = λ j h. o.unmarked j h;
  marked = λ j h. o.marked j h;
  recorded = λ j h. o.recorded j h;
  dispatched = λ j x h d. ground (arith, find-create row_id j r w.db.outbox, o.dispatched j x, new);
}

reclaim-IsOnce :
    (now lease_sec : ℕ) (w : WorkerState)
    → IsOnce w
    → IsOnce (reclaim_stale_processing now lease_sec w)
unfolding reclaim_stale_processing
reclaim-IsOnce now lease_sec w o = map-IsOnce _ w (λ r. ground arith) (λ r h. ground arith) o

claim-IsOnce :
    (now limit : ℕ) (locked : List String) (w : WorkerState)
    → IsOnce w
    → IsOnce (claim_outbox_batch now limit locked w).1
unfolding claim_outbox_batch
claim-IsOnce now limit locked w o = map-IsOnce _ w (λ r. ground arith) (λ r h. ground arith) o

multi-IsOnce :
    (row : OutboxEvent) (t : DomainEventType) (o : Outcome) (w : WorkerState)
    → IsAtomic o
    → has_marker row.id w ≡ false
    → IsOnce w
    → IsOnce
        (record w { redis = apply_multi o (channel_for_event_type t) (row_envelope row t) w.redis })
unfolding build_domain_envelope
multi-IsOnce row t o w a absent once =
    apply_multi-IsOnce o (channel_for_event_type t) (row_envelope row t) w a absent once

requeue_one-IsOnce : (row : OutboxEvent) (w : WorkerState) → IsOnce w → IsOnce (requeue_one row w)
unfolding requeue_one
requeue_one-IsOnce row w o =
    elim (Bool-cases (includes row.id w.db.processed || has_marker row.id w)) [
      | inl skipped ↦ rw skipped o
      | inr open_ ↦ rw open_ (update_row-IsOnce row.id requeued w (λ r. refl) (λ r. refl) o)
    ]

dispatch_one-redis :
    (clock : Clock) (max_attempts : ℕ) (row : OutboxEvent) (o : Outcome) (w : WorkerState)
    → is_settled max_attempts row w ≡ true
    → (dispatch_one clock max_attempts row o w).redis ≡ w.redis
unfolding dispatch_one finalize_dispatched
dispatch_one-redis clock max_attempts row o w h = ground (arith, h)

publish-redis :
    (clock : Clock) (max_attempts : ℕ) (row : OutboxEvent) (t : DomainEventType) (o : Outcome)
    (w : WorkerState)
    → (publish clock max_attempts row t o w).redis
      ≡ apply_multi o (channel_for_event_type t) (row_envelope row t) w.redis
unfolding publish after_exec finalize_dispatched
publish-redis clock max_attempts row t o w = ground arith

requeue-redis : (row : OutboxEvent) (w : WorkerState) → (requeue_one row w).redis ≡ w.redis
unfolding requeue_one
requeue-redis row w = ground arith

-- A step that leaves Redis alone.
moved-IsOrderly :
    {f : Fleet} {w : WorkerState}
    → IsOnce w
    → w.redis ≡ f.state.redis
    → IsOrderly f
    → IsOrderly (moved w f)
moved-IsOrderly once same o = record { once = once; flying = λ id h. rw same (o.flying id h) }

-- A MULTI, after which its row is no longer in flight.
landed-IsOrderly :
    {f : Fleet} {w : WorkerState} (row : OutboxEvent) (t : DomainEventType) (o : Outcome)
    → IsOnce w
    → w.redis ≡ apply_multi o (channel_for_event_type t) (row_envelope row t) f.state.redis
    → IsOrderly f
    → IsOrderly (landed row.id w f)
unfolding build_domain_envelope
landed-IsOrderly {f} row t o once same orderly = record {
  once = once;
  flying = λ id h. rw same (
      ground (
        arith,
        h,
        includes-land row.id id f.in_flight,
        orderly.flying id,
        lookup-put row.id id "1" f.state.redis.markers,
      ));
}

Step-IsOrderly :
    {f g : Fleet} (s : Step f g) → KeepsLease s → RunsWhole s → IsOrderly f → IsOrderly g
unfolding reclaim_stale_processing claim_outbox_batch
Step-IsOrderly {f} (enqueue r new) k a o =
    moved-IsOrderly (create-IsOnce r f.state new o.once) refl o
Step-IsOrderly {f} (reclaim now lease_sec) k a o =
    moved-IsOrderly (reclaim-IsOnce now lease_sec f.state o.once) refl o
Step-IsOrderly {f} (claim now limit locked) k a o =
    moved-IsOrderly (claim-IsOnce now limit locked f.state o.once) refl o
Step-IsOrderly {f} (pass_over clock max_attempts row outcome h) k a o =
    moved-IsOrderly (dispatch_one-IsOnce clock max_attempts row outcome f.state a o.once)
      (dispatch_one-redis clock max_attempts row outcome f.state h) o
Step-IsOrderly {f} (begin row absent) k a o = record {
  once = o.once;
  flying = λ id h. ground (arith, h, absent, o.flying id, eq_iff row.id id);
}
Step-IsOrderly {f} (finish clock max_attempts row t outcome h) k a o =
    landed-IsOrderly row t outcome
      (publish-IsOnce clock max_attempts row t outcome f.state a (o.flying row.id h) o.once)
      (publish-redis clock max_attempts row t outcome f.state) o
Step-IsOrderly {f} (stop row t outcome h) k a o =
    landed-IsOrderly row t outcome (multi-IsOnce row t outcome f.state a (o.flying row.id h) o.once)
      refl o
Step-IsOrderly {f} (requeue row) k a o =
    moved-IsOrderly (requeue_one-IsOnce row f.state o.once) (requeue-redis row f.state) o

Reach-IsOrderly :
    {f g : Fleet} (r : Reach f g) → IsLeased r → AllRunWhole r → IsOrderly f → IsOrderly g
Reach-IsOrderly here leased whole o = o
Reach-IsOrderly (next r s) (leased, keeps) (whole, runs) o =
    Step-IsOrderly s keeps runs (Reach-IsOrderly r leased whole o)

-- However the steps of workers, API and operator interleave, those of a worker between its read of
-- the marker and its MULTI included, an event stands in the stream at most once, if the lease of a
-- row outlasts its dispatch, so that no second worker begins with a row in flight, and each MULTI is
-- run whole or not at all. The start is any state with the invariant, such as an empty one; markers
-- do not expire.
pub at_most_once :
    {f g : Fleet} (reach : Reach f g)
    → IsOrderly f
    → IsLeased reach
    → AllRunWhole reach
    → (id : String) → entries id g.state.redis.stream ≤ 1
at_most_once {f} {g} reach o leased whole id =
    let once = (Reach-IsOrderly reach leased whole o).once in
    ground (arith, once.marked id, once.unmarked id)

-- In every run in which the lease of a row outlasts its dispatch and each MULTI is run whole or not
-- at all, an event whose row is dispatched stands in the stream exactly once. The start is any state
-- with the invariant, and markers do not expire.
pub dispatched_exactly_once :
    {f g : Fleet} (reach : Reach f g) (id : String) (r : OutboxEvent)
    → IsOrderly f
    → IsLeased reach
    → AllRunWhole reach
    → find row_id id g.state.db.outbox ≡ some r
    → is_dispatched r.status ≡ true
    → entries id g.state.redis.stream ≡ 1
dispatched_exactly_once reach id r o leased whole =
    (Reach-IsOrderly reach leased whole o).once.dispatched id r
