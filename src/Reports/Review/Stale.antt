-- ===== src/Reports/Review/Stale.antt =====
-- apps/api/src/reports/reports.service.ts: two approvals of a report whose reads both come before
-- either of them commits. The guards of both have passed; what is left is `approve_found`.
use protect_platform.Shared.Events.{DomainEventType}
use Prim.Native.String.{◌++◌}
use protect_platform.Shared.Levels.{FlagLevel}
use protect_platform.Policy.{trusted_command_weight_for_severity, FlagPolicy}
use protect_platform.Reports.Review.{approval_flag, approve_found, tell_approved}
use protect_platform.Scores.{raise_score}
use protect_platform.Js.{Js}
use protect_platform.Tickets.{report_key, Verdict, finalize_ticket_for_report, finalize_found}
use protect_platform.Store.{
  keyed, JsonObject, outbox_row, enqueue-key, same_key, log-outbox, log_with_tx, OutboxEvent,
  any-create_kept, bind-ok, SupportTicket, OutboxEnqueueItem, User, Env, has_key, enqueue_many,
  Report, enqueue, Db,
}
use protect_platform.Prelude.{
  find, [], suc, create, ◌∷◌, refl, none, false, ◌≢◌, true, arith, Option, ◌≡◌, List, some, ℕ,
  String, ok,
}

-- The key of the event of an approval.
abbrev approval_key : Report → String
approval_key r = "user.reported:" ++ r.id ++ ":approved"

-- No key leaves the outbox.
abbrev pub KeepsKeys : Db → Db → Type 0
KeepsKeys db db' =
    (k : String) → has_key (some k) db.outbox ≡ true → has_key (some k) db'.outbox ≡ true

enqueue-KeepsKeys :
    (env : Env) (id : String) (item : OutboxEnqueueItem) (db : Db) {u : Unit {0}} {db' : Db}
    → enqueue env id item db ≡ ok (u, db')
    → KeepsKeys db db'
unfolding enqueue has_key
enqueue-KeepsKeys env id item db h k there = ground (
  arith,
  h,
  there,
  any-create_kept (λ (r : OutboxEvent). same_key k r.idempotency_key) (outbox_row env id item)
      db.outbox,
)

enqueue_many-KeepsKeys :
    (env : Env) (i : ℕ) (items : List OutboxEnqueueItem) (db : Db) {u : Unit {0}} {db' : Db}
    → enqueue_many env i items db ≡ ok (u, db')
    → KeepsKeys db db'
unfolding enqueue_many
enqueue_many-KeepsKeys env i [] db {u} {db'} h k there =
    let same : db ≡ db' = ground arith in rw (← same) there
enqueue_many-KeepsKeys env i (item ∷ items) db h k there =
    let (a, mid, first, rest) = bind-ok (enqueue env (env.uuid i) item) _ db h in
    enqueue_many-KeepsKeys env (suc i) items mid rest k
      (enqueue-KeepsKeys env (env.uuid i) item db first k there)

enqueue_many-key :
    (env : Env) (i : ℕ) (event_type : DomainEventType) (payload : JsonObject) (key : String)
    (items : List OutboxEnqueueItem) (db : Db) {u : Unit {0}} {db' : Db}
    → enqueue_many env i (keyed event_type payload key ∷ items) db ≡ ok (u, db')
    → (has_key (some key) db.outbox ≡ false) × (has_key (some key) db'.outbox ≡ true)
unfolding enqueue_many
enqueue_many-key env i event_type payload key items db h =
    let item = keyed event_type payload key in
    let (a, mid, first, rest) = bind-ok (enqueue env (env.uuid i) item) _ db h in
    let (new, there, _) = enqueue-key env (env.uuid i) key event_type payload db first in
    (new, enqueue_many-KeepsKeys env (suc i) items mid rest key there)

finalize_found-KeepsKeys :
    (env : Env) (event_id report : String) (verdict : Verdict) (admin : String)
    (t : Option SupportTicket) (db : Db) {u : Unit {0}} {db' : Db}
    → finalize_found env event_id report verdict admin t db ≡ ok (u, db')
    → KeepsKeys db db'
unfolding finalize_found
finalize_found-KeepsKeys env event_id report verdict admin none db {u} {db'} h k there =
    let same : db ≡ db' = ground arith in rw (← same) there
finalize_found-KeepsKeys env event_id report verdict admin (some t) db h k there =
    enqueue-KeepsKeys env event_id _ _ h k there

finalize_ticket_for_report-KeepsKeys :
    (env : Env) (event_id report : String) (verdict : Verdict) (admin : String) (db : Db)
    {u : Unit {0}} {db' : Db}
    → finalize_ticket_for_report env event_id report verdict admin db ≡ ok (u, db')
    → KeepsKeys db db'
unfolding finalize_ticket_for_report
finalize_ticket_for_report-KeepsKeys env event_id report verdict admin db h =
    finalize_found-KeepsKeys env event_id report verdict admin (find report_key report db.tickets)
      db h

raise_score-outbox :
    (policy : FlagPolicy) (env : Env) (id : String) (weight : ℕ) (db : Db) {u : User} {db' : Db}
    → raise_score policy env id weight db ≡ ok (u, db')
    → db'.outbox ≡ db.outbox
unfolding raise_score
raise_score-outbox policy env id weight db h = ground arith

tell_approved-key :
    (js : Js) (env : Env) (admin : String) (r : Report) (saved : User) (db : Db) {u : Unit {0}}
    {db' : Db}
    → tell_approved js env admin r saved db ≡ ok (u, db')
    → (has_key (some (approval_key r)) db.outbox ≡ false)
      × (has_key (some (approval_key r)) db'.outbox ≡ true)
unfolding tell_approved
tell_approved-key js env admin r saved db h =
    let (_, mid, logged, h1) = bind-ok (log_with_tx env _) _ db h in
    let (_, queued_db, queued, h2) = bind-ok (enqueue_many env 1 _) _ mid h1 in
    let (outbox, _) = log-outbox env _ db logged in
    let (new, there) = enqueue_many-key env 1 _ _ (approval_key r) _ mid queued in
    (
      rw (← outbox) new,
      finalize_ticket_for_report-KeepsKeys env (env.uuid 3) r.id Verdict.resolved admin queued_db h2
          (approval_key r) there,
    )

module _ (js : Js) (policy : FlagPolicy) where
  -- An approval finds the key of its event unused, and leaves it in the outbox.
  approve_found-key :
      (env : Env) (admin : String) (severity : FlagLevel) (r : Report) (db : Db) (saved : User)
      (db' : Db)
      → approve_found js policy env admin severity r db ≡ ok (saved, db')
      → (has_key (some (approval_key r)) db.outbox ≡ false)
        × (has_key (some (approval_key r)) db'.outbox ≡ true)
  unfolding approve_found
  approve_found-key env admin severity r db saved db' h =
      let weight = trusted_command_weight_for_severity policy severity in
      let flags = create (approval_flag env weight r) db.flags in
      let (u, mid, raised, h1) =
        bind-ok (raise_score policy env r.reported_user_id weight) _ (record db { flags = flags })
          h in
      let (_, last, told, end) = bind-ok (tell_approved js env admin r u) _ _ h1 in
      let outbox = raise_score-outbox policy env r.reported_user_id weight _ raised in
      let (new, there) = tell_approved-key js env admin r u _ told in
      let same : last ≡ db' = ground arith in (rw (← outbox) new, rw (← same) there)

  -- A report is approved once, also where both approvals have read it while it was pending: the
  -- transaction of the second is refused in every later state of the outbox, since the key of its
  -- event is that of the first and the index is unique. No key leaves the outbox in between.
  pub approve_found_once :
      (env env' : Env) (admin admin' : String) (severity severity' : FlagLevel) (r r' : Report)
      (db db' later last : Db) (saved saved' : User)
      → r'.id ≡ r.id
      → approve_found js policy env admin severity r db ≡ ok (saved, db')
      → KeepsKeys db' later
      → approve_found js policy env' admin' severity' r' later ≢ ok (saved', last)
  approve_found_once env env' admin admin' severity severity' r r' db db' later last saved saved'
        same first keeps second =
      let (_, used) = approve_found-key env admin severity r db saved db' first in
      let (unused, _) = approve_found-key env' admin' severity' r' later saved' last second in
      let key : approval_key r' ≡ approval_key r = rw same refl in
      ground (arith, key, keeps (approval_key r) used, unused)
