-- ===== src/Store.antt =====
-- The state behind the services: the tables of apps/api/prisma/schema.prisma, transactions over
-- them, and the writes that every transaction shares (user rows, audit rows and outbox rows).
mod Model
mod Transaction
mod Binds
mod Keys
pub use Binds.*
pub use Keys.*
pub use Model.*
pub use Transaction.*
unfoldable pub use Transaction.{enqueue, enqueue_many, log_with_tx, upsert_user, has_key}
