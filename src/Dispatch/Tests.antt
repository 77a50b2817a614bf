-- ===== src/Dispatch/Tests.antt =====
-- Runs of the dispatcher, and the theorems at concrete inputs.
use protect_platform.Dispatch.Claim.{claim_takes_oldest, Older}
use protect_platform.Dispatch.Retries.{IsReady, dispatch_fails}
use protect_platform.Dispatch.HalfDone.{IsLive, half_multi_loses_event, IsDone}
use protect_platform.Shared.Events.{
  build_domain_envelope, parse, user_updated, is_domain_event_type,
}
use protect_platform.Dispatch.Once.{IsOnce, entries}
use mathlib.Core.List.{Perm}
use protect_platform.Prelude.{
  All, length, keep, ◌++◌, refl, delete, arith, map, ◌∷◌, put, update, create, ◌≡◌, find, ◌≤◌,
  lookup,
}
use protect_platform.Store.{OutboxStatus, OutboxEvent}
use protect_platform.Dispatch.Runs.{
  IsLeased, IsOrderly, AllRunWhole, is_settled, Fleet, at_most_once, dispatched_exactly_once, Step,
  Reach,
}
use protect_platform.Dispatch.{
  has_marker, is_eligible, backoff, finalize_dispatched, after_exec, publish, ℕ, insert_by_age,
  retried, row_id, order_by_age, none, claim_row, false, List, some, [], true, finalized,
  claimed_ids, set_outbox, WorkerState, claim_outbox_batch, Clock, Outcome, dispatch_one,
}
use protect_platform.Samples.{empty_db, empty_redis}

abbrev row : OutboxEvent
row = record {
  id = "e1";
  event_type = "user.updated";
  payload = [];
  correlation_id = none;
  idempotency_key = none;
  status = OutboxStatus.pending;
  attempts = 0;
  next_retry_at = none;
  last_error = none;
  created_at = 5;
  dispatched_at = none;
  processing_started_at = none;
}

abbrev at_start : WorkerState
at_start = record { db = empty_db; redis = empty_redis }

abbrev queued : WorkerState
queued = set_outbox (create row at_start.db.outbox) at_start

abbrev claimed : WorkerState
claimed = (claim_outbox_batch 10 5 [] queued).1

abbrev fine : Outcome
fine = record {
  published = true;
  appended = true;
  marked = true;
  exec_error = none;
  finalize_error = none;
  incr_error = none;
}

-- The MULTI is run and the connection is lost before its answer.
abbrev unanswered : Outcome
unanswered = record fine { exec_error = some "ECONNRESET" }

abbrev refused : Outcome
refused = record unanswered { published = false; appended = false; marked = false }

abbrev half : Outcome
half = record unanswered { appended = false }

abbrev clock : Clock
clock = record { now = 20; jitter = 0 }

abbrev claimed_row : OutboxEvent
claimed_row = claim_row 10 row

abbrev tried : WorkerState
tried = dispatch_one clock 3 claimed_row unanswered claimed

abbrev tried_again : WorkerState
tried_again = dispatch_one clock 3 claimed_row fine tried

claims_one : claimed.db.outbox ≡ claimed_row ∷ []
unfolding claim_outbox_batch claimed_ids order_by_age insert_by_age
claims_one = refl

empty-IsOnce : IsOnce at_start
unfolding lookup entries find
empty-IsOnce = record {
  unmarked = λ id h. refl;
  marked = λ id h. ground arith;
  recorded = λ id h. ground arith;
  dispatched = λ id r h d. ground arith;
}

abbrev on_the_ground : WorkerState → Fleet
on_the_ground w = record { state = w; in_flight = [] }

empty-IsOrderly : IsOrderly (on_the_ground at_start)
empty-IsOrderly = record { once = empty-IsOnce; flying = λ id h. ground arith }

-- The row is claimed and published, the answer is lost, and the next attempt finds the marker.
abbrev published : WorkerState
published = publish clock 3 claimed_row user_updated unanswered claimed

abbrev settled : WorkerState
settled = dispatch_one clock 3 claimed_row fine published

no_marker : has_marker "e1" claimed ≡ false
unfolding lookup claim_outbox_batch
no_marker = refl

marker_found : is_settled 3 claimed_row published ≡ true
unfolding claim_outbox_batch claimed_ids order_by_age insert_by_age publish after_exec backoff find
    update parse is_domain_event_type lookup put build_domain_envelope
marker_found = refl

abbrev run : Reach (on_the_ground at_start) (on_the_ground settled)
run =
    Reach.next
      (Reach.next
        (Reach.next
          (Reach.next (Reach.next Reach.here (Step.enqueue row refl)) (Step.claim 10 5 []))
          (Step.begin claimed_row no_marker))
        (Step.finish clock 3 claimed_row user_updated unanswered refl))
      (Step.pass_over clock 3 claimed_row fine marker_found)

run-IsLeased : IsLeased run
run-IsLeased = (((((tt, tt), tt), refl), tt), tt)

run-AllRunWhole : AllRunWhole run
run-AllRunWhole = (
  ((((tt, tt), tt), tt), record { together = refl; run = λ h. cc }),
  record { together = refl; run = λ h. refl },
)

abbrev last_row : OutboxEvent
last_row = finalized 20 (retried clock 3 claimed_row "ECONNRESET" claimed_row)

found_last : find row_id "e1" settled.db.outbox ≡ some last_row
unfolding claim_outbox_batch claimed_ids order_by_age insert_by_age dispatch_one publish after_exec
    finalize_dispatched backoff find update parse is_domain_event_type lookup put delete
    build_domain_envelope
found_last = refl

at_most_once_example : entries "e1" settled.redis.stream ≤ 1
at_most_once_example = at_most_once run empty-IsOrderly run-IsLeased run-AllRunWhole "e1"

dispatched_exactly_once_example : entries "e1" settled.redis.stream ≡ 1
dispatched_exactly_once_example =
    dispatched_exactly_once run "e1" last_row empty-IsOrderly run-IsLeased run-AllRunWhole
      found_last refl

ready : IsReady 3 claimed_row user_updated claimed
unfolding claim_outbox_batch claimed_ids order_by_age insert_by_age find parse is_domain_event_type
    lookup
ready = record {
  attempts_left = refl;
  known = refl;
  of_type = refl;
  there = refl;
  undispatched = refl;
  unrecorded = refl;
  unmarked = refl;
}

abbrev failing : WorkerState
failing = dispatch_one clock 3 claimed_row refused claimed

dispatch_fails_example :
    (failing.redis ≡ claimed.redis)
    × (r : OutboxEvent) × (find row_id "e1" failing.db.outbox ≡ some r)
    × (r.attempts ≡ 1)
    × (r.status ≡ OutboxStatus.pending)
    × (at : ℕ) × (r.next_retry_at ≡ some at)
    × (20 ≤ at)
    × (at ≤ 120020)
dispatch_fails_example =
    dispatch_fails clock 3 claimed_row user_updated refused "ECONNRESET" claimed ready
      (refl, refl, refl) refl

claim_takes_oldest_example :
    (first rest : List OutboxEvent) × (claimed_ids 10 1 [] (row ∷ []) ≡ map row_id first)
    × Perm (first ++ rest) (keep (is_eligible 10 []) (row ∷ []))
    × (length first ≤ 1)
    × All (λ x. All (Older x) rest) first
claim_takes_oldest_example = claim_takes_oldest 10 1 [] (row ∷ [])

abbrev half_sent : WorkerState
half_sent = dispatch_one clock 3 claimed_row half claimed

live : IsLive 3 claimed_row
unfolding is_domain_event_type
live = record { attempts_left = refl; known = refl }

still_there :
    find row_id "e1" half_sent.db.outbox
    ≡ some (retried clock 3 claimed_row "ECONNRESET" claimed_row)
unfolding claim_outbox_batch claimed_ids order_by_age insert_by_age dispatch_one publish after_exec
    finalize_dispatched backoff find update parse is_domain_event_type lookup put delete
    build_domain_envelope
still_there = refl

half_multi_loses_event_example :
    ((dispatch_one clock 3 claimed_row fine half_sent).redis.stream ≡ claimed.redis.stream)
    × IsDone "e1" (dispatch_one clock 3 claimed_row fine half_sent)
half_multi_loses_event_example =
    half_multi_loses_event clock 3 claimed_row user_updated half "ECONNRESET" claimed ready
      (refl, refl) refl clock fine claimed_row
      (retried clock 3 claimed_row "ECONNRESET" claimed_row) half_sent refl refl live still_there
