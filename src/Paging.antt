-- ===== src/Paging.antt =====
-- apps/api/src/users/users.service.ts and apps/api/src/audit/audit.service.ts: the pages that both cut
-- from an ordered query, with the identifier of a row as the cursor.
use protect_platform.Prelude.{
  length, ◌==◌, ltb, [], ◌+◌, drop, if◌then◌else◌, some, take, none, ◌∷◌, Option, ℕ, List, String,
}
pub mod Skipped

pub record CursorPage (A : Type 0) : Type 0 where
  pub items : List A
  pub next_cursor : Option String

module _ {A : Type 0} where
  -- `cursor: { id: k }`: the rows from that one on, none if it is not there.
  unfoldable pub from_cursor : (A → String) → String → List A → List A
  from_cursor id k [] = []
  from_cursor id k (x ∷ xs) = let rest = from_cursor id k xs in if id x == k then x ∷ xs else rest

  abbrev pub after_cursor : (A → String) → Option String → List A → List A
  after_cursor id none rows = rows
  after_cursor id (some k) rows = drop 1 (from_cursor id k rows)

  abbrev pub id_of : (A → String) → List A → Option String
  id_of id [] = none
  id_of id (x ∷ xs) = some (id x)

  -- One row more than the page is read, and its identifier is the next cursor.
  abbrev pub page_of_read : (A → String) → ℕ → List A → CursorPage A
  page_of_read id limit read =
      if ltb limit (length read)
      then record { items = take limit read; next_cursor = id_of id (drop limit read) }
      else record { items = read; next_cursor = none }

  unfoldable pub cursor_page : (A → String) → ℕ → Option String → List A → CursorPage A
  cursor_page id limit cursor rows =
      page_of_read id limit (take (limit + 1) (after_cursor id cursor rows))
