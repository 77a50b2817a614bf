-- ===== src/Store/Binds.antt =====
-- Transactions taken apart: what a successful sequence, guard or write says of its parts.
use protect_platform.Prelude.{
  Option, none, some, ℕ, String, ◌≡◌, refl, Bool, true, false, List, [], ◌∷◌, Result, ok, err,
  ApiError, arith, suc,
}
use protect_platform.Store.Model.{Db}
use protect_platform.Store.Transaction.{
  Env, Tx, found, ◌>>=◌, continue, check, OutboxEnqueueItem, enqueue, enqueue_many, AuditInput,
  log_with_tx,
}

module _ {A B : Type 0} where
  pub bind-ok :
      (m : Tx A) (f : A → Tx B) (db : Db) {b : B} {db' : Db}
      → (m >>= f) db ≡ ok (b, db')
      → (a : A) × (mid : Db) × (m db ≡ ok (a, mid)) × (f a mid ≡ ok (b, db'))
  bind-ok m f db {b} {db'} h = go (m db) refl h
    where
      go :
          (r : Result (A × Db))
          → m db ≡ r
          → continue f r ≡ ok (b, db')
          → (a : A) × (mid : Db) × (m db ≡ ok (a, mid)) × (f a mid ≡ ok (b, db'))
      go (ok (a, mid)) e k = (a, mid, e, k)
      go (err e') e k = cc

module _ {B : Type 0} where
  -- A guard that lets a transaction through held, and changed nothing.
  pub check-ok :
      (test : Bool) (e : ApiError) (f : Unit {0} → Tx B) (db : Db) {b : B} {db' : Db}
      → (check test e >>= f) db ≡ ok (b, db')
      → (test ≡ true) × (f tt db ≡ ok (b, db'))
  check-ok true e f db h = (refl, h)
  check-ok false e f db h = cc

module _ {A B : Type 0} where
  -- A row that a transaction requires is there.
  pub required-ok :
      (o : Option A) (e : ApiError) (f : A → Tx B) (db : Db) {b : B} {db' : Db}
      → (found o e >>= f) db ≡ ok (b, db')
      → (a : A) × (o ≡ some a) × (f a db ≡ ok (b, db'))
  required-ok none e f db h = cc
  required-ok (some a) e f db h = (a, refl, h)

-- Two states with the same users, flags, reports and tickets: what audit and outbox rows leave alone.
pub record IsFramed (db db' : Db) : Type 0 where
  pub users : db'.users ≡ db.users
  pub flags : db'.flags ≡ db.flags
  pub reports : db'.reports ≡ db.reports
  pub tickets : db'.tickets ≡ db.tickets

pub IsFramed-refl : (db : Db) → IsFramed db db
IsFramed-refl db = record { users = refl; flags = refl; reports = refl; tickets = refl }

pub IsFramed-trans : {a b c : Db} → IsFramed a b → IsFramed b c → IsFramed a c
IsFramed-trans h k = record {
  users = cc (h.users, k.users);
  flags = cc (h.flags, k.flags);
  reports = cc (h.reports, k.reports);
  tickets = cc (h.tickets, k.tickets);
}

pub enqueue-IsFramed :
    (env : Env) (id : String) (item : OutboxEnqueueItem) (db : Db) {u : Unit {0}} {db' : Db}
    → enqueue env id item db ≡ ok (u, db')
    → IsFramed db db'
unfolding enqueue
enqueue-IsFramed env id item db h = ground arith

pub enqueue_many-IsFramed :
    (env : Env) (i : ℕ) (items : List OutboxEnqueueItem) (db : Db) {u : Unit {0}} {db' : Db}
    → enqueue_many env i items db ≡ ok (u, db')
    → IsFramed db db'
unfolding enqueue_many
enqueue_many-IsFramed env i [] db h = ground arith
enqueue_many-IsFramed env i (item ∷ items) db h =
    let (a, mid, first, rest) = bind-ok (enqueue env (env.uuid i) item) _ db h in
    IsFramed-trans (enqueue-IsFramed env (env.uuid i) item db first)
      (enqueue_many-IsFramed env (suc i) items mid rest)

pub log_with_tx-IsFramed :
    (env : Env) (input : AuditInput) (db : Db) {u : Unit {0}} {db' : Db}
    → log_with_tx env input db ≡ ok (u, db')
    → IsFramed db db'
unfolding log_with_tx
log_with_tx-IsFramed env input db h = ground arith
