-- ===== src/Prelude/Errors.antt =====
-- The errors that the services throw, by HTTP status, and fallible code as values.
use Prim.Native.String.{String}

-- The exceptions of `@nestjs/common` that the services throw, and the unique-constraint failure
-- (P2002) and the foreign-key failure (P2003) of the database client, with the column.
pub data ApiError : Type 0 where
  bad_request unauthorized forbidden not_found conflict too_many unavailable : String → ApiError
  unique_violation foreign_key_violation : String → ApiError

pub data Result {ℓ} (A : Type ℓ) : Type ℓ where
  ok : A → Result A
  err : ApiError → Result A
