-- ===== src/Users/Flagged/Lost.antt =====
-- apps/api/src/users/users.service.ts: the user between two pages of flagged users is on neither.
use protect_platform.Paging.Skipped.{cursor_page_skips, IsNew}
use protect_platform.Store.{User, Db}
use protect_platform.Shared.Levels.{FlagLevel}
use protect_platform.Prelude.{ap, take, some, map, none, length, ◌∷◌, append, ◌≡◌, List, ℕ, Option}
use protect_platform.Users.Flagged.{view_of, user_row_id, listed_users, list_flagged}

-- Where a first page of flagged users is full and another user follows, that user is not on the first
-- page, and not on the page that the first page's cursor leads to, which begins with the one after.
pub list_flagged_skips :
    (level : Option FlagLevel) (limit : ℕ) (db : Db) (before rest : List User) (lost : User)
    → listed_users level db ≡ append before (lost ∷ rest)
    → length before ≡ limit
    → IsNew user_row_id lost.id before
    → ((list_flagged level none limit db).items ≡ map (view_of db) before)
      × ((list_flagged level none limit db).next_cursor ≡ some lost.id)
      × ((list_flagged level (some lost.id) limit db).items ≡ map (view_of db) (take limit rest))
unfolding list_flagged
list_flagged_skips level limit db before rest lost ordered full new =
    let (first, cursor, second) = cursor_page_skips user_row_id limit lost before rest full new in
    rw ordered (ap (map (view_of db)) first, cursor, ap (map (view_of db)) second)
