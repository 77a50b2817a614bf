-- ===== src/Redis.antt =====
-- The Redis keys that the API and the worker use, one dictionary for each key prefix, and the state
-- that a request sees: the database and, if it is configured and connected, Redis. A key that
-- expires is a key that another step deletes; no operation below waits for that.
use protect_platform.Prelude.{ℕ, String, Option, List, Dict, Result, ok, err}
use protect_platform.Prelude.Int.{ℤ}
use protect_platform.Shared.Levels.{FlagLevel}
use protect_platform.Shared.Events.{DomainEventEnvelope}
use protect_platform.Store.{Db, Tx, JsonObject}

-- packages/shared/src/index.ts: `UserPublic`, the JSON under `user:{discordId}`.
pub record UserPublic : Type 0 where
  pub discord_id : String
  pub flag_score : ℕ
  pub flag_level : FlagLevel
  pub flag_count : Option ℕ
  pub updated_at : ℕ
  pub state_version : Option ℕ

abbrev pub Envelope : Type 0
Envelope = DomainEventEnvelope JsonObject

-- The JSON of the backlog snapshot.
pub record Backlog : Type 0 where
  pub pending : ℕ
  pub processing : ℕ
  pub failed : ℕ
  pub oldest_pending_lag_ms : Option ℕ
  pub captured_at : ℕ

pub record Redis : Type 0 where
  -- `user:stver:{id}`, `user:{id}` and `user:neg:{id}`
  pub versions : Dict ℕ
  pub users : Dict UserPublic
  pub negatives : Dict String
  -- `reports:reporter:{id}:day` and `report:cooldown:{reporter}:{guild}`
  pub day_counts : Dict ℤ
  pub cooldowns : Dict String
  -- `protect:event:processed:{id}`
  pub markers : Dict String
  -- the messages on the channels, with the channel, and the entries of the stream
  -- `protect:events`, both oldest first
  pub published : List (String × Envelope)
  pub stream : List Envelope
  -- `protect:outbox:backlog_snapshot`
  pub backlog : Option Backlog

pub record World : Type 0 where
  pub db : Db
  pub redis : Option Redis

-- A handler that runs a transaction and, once that has committed, goes on with the new state. If
-- the transaction fails, nothing has changed.
abbrev pub commit : {A : Type 0} → Tx A → (A → World → World) → World → Result A × World
commit tx after w = elim (tx w.db) [
  | err e ↦ (err e, w)
  | ok (a, db) ↦ (ok a, after a (record w { db = db }))
]
