-- ===== src/Backpressure.antt =====
-- apps/api/src/common/outbox-backpressure.middleware.ts: writes are refused while the outbox is behind.
use protect_platform.Redis.{Backlog, Redis}
use protect_platform.Prelude.{
  not, ◌||◌, [], ◌∷◌, ltb, none, leb, includes, if◌then◌else◌, is_some, false, some, Bool, Option,
  ℕ, String,
}
use protect_platform.Js.{strip_prefix}

pub record Request : Type 0 where
  pub method : String
  pub path : String

abbrev pub is_mutating : String → Bool
is_mutating method = includes method ("POST" ∷ "PUT" ∷ "PATCH" ∷ "DELETE" ∷ [])

abbrev pub is_v1 : String → Bool
is_v1 path = is_some (strip_prefix "/v1/" path)

abbrev exceeds : ℕ → Option Backlog → Bool
exceeds threshold none = false
exceeds threshold (some snap) = ltb threshold snap.pending

abbrev backlog_of : Option Redis → Option Backlog
backlog_of none = none
backlog_of (some r) = r.backlog

-- The request is answered with 503; otherwise it goes on. A Redis that fails lets it go on.
unfoldable pub is_refused : ℕ → Request → Option Redis → Bool
is_refused threshold req redis =
    if leb threshold 0 || not (is_mutating req.method)
    then false
    else if not (is_v1 req.path)
    then false
    else exceeds threshold (backlog_of redis)
