-- ===== src/Store/Keys.antt =====
-- The unique index on the idempotency keys of the outbox: a key goes in once.
use protect_platform.Prelude.{
  String, ◌≡◌, Bool, true, false, some, List, [], ◌∷◌, ok, create, any, arith, eq_refl,
}
use protect_platform.Shared.Events.{DomainEventType}
use protect_platform.Store.Model.{OutboxEvent, JsonObject, Db}
use protect_platform.Store.Transaction.{
  Env, has_key, same_key, outbox_row, OutboxEnqueueItem, enqueue, AuditInput, log_with_tx,
}

pub any-create :
    (p : OutboxEvent → Bool) (r : OutboxEvent) (rows : List OutboxEvent)
    → p r ≡ true
    → any p (create r rows) ≡ true
any-create p r [] h = ground arith
any-create p r (x ∷ xs) h = ground (arith, any-create p r xs)

pub any-create_kept :
    (p : OutboxEvent → Bool) (r : OutboxEvent) (rows : List OutboxEvent)
    → any p rows ≡ true
    → any p (create r rows) ≡ true
any-create_kept p r [] h = ground arith
any-create_kept p r (x ∷ xs) h = ground (arith, any-create_kept p r xs)

abbrev pub keyed : DomainEventType → JsonObject → String → OutboxEnqueueItem
keyed event_type payload k = record {
  event_type = event_type;
  payload = payload;
  idempotency_key = some k;
}

-- An event with a key goes in only if the key is new, and then the key is there.
pub enqueue-key :
    (env : Env) (id k : String) (event_type : DomainEventType) (payload : JsonObject) (db : Db)
    {u : Unit {0}} {db' : Db}
    → enqueue env id (keyed event_type payload k) db ≡ ok (u, db')
    → (has_key (some k) db.outbox ≡ false)
      × (has_key (some k) db'.outbox ≡ true)
      × (db'.users ≡ db.users)
unfolding enqueue has_key
enqueue-key env id k event_type payload db h = ground (
  arith,
  eq_refl k,
  any-create (λ (r : OutboxEvent). same_key k r.idempotency_key)
      (outbox_row env id (keyed event_type payload k)) db.outbox,
)

pub log-outbox :
    (env : Env) (input : AuditInput) (db : Db) {u : Unit {0}} {db' : Db}
    → log_with_tx env input db ≡ ok (u, db')
    → (db'.outbox ≡ db.outbox) × (db'.users ≡ db.users)
unfolding log_with_tx
log-outbox env input db h = ground arith
