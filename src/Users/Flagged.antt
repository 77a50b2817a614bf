-- ===== src/Users/Flagged.antt =====
-- apps/api/src/users/users.service.ts: `listFlagged`, the users that are not clean, page by page.
use protect_platform.Paging.{cursor_page, CursorPage}
use protect_platform.Users.{count_flags, user_to_public}
use protect_platform.Shared.Levels.{level_name, index_of, FlagLevel}
use protect_platform.Redis.{UserPublic}
use protect_platform.Store.{Db, User}
use protect_platform.Prelude.{
  ◌&&◌, none, ◌==◌, map, ◌||◌, ltb, some, eqb, [], ℕ, keep, not, if◌then◌else◌, ◌∷◌, String, Bool,
  List, Option,
}
pub mod Lost
mod Tests

-- The place of a level in its enum.
abbrev pub rank : FlagLevel → ℕ
rank FlagLevel.clean = 0
rank FlagLevel.watch = 1
rank FlagLevel.suspicious = 2
rank FlagLevel.high_risk = 3
rank FlagLevel.confirmed_cheater = 4

-- The filter of the query: a level that is asked for replaces the test for CLEAN.
abbrev pub is_listed : Option FlagLevel → User → Bool
is_listed none u = not (eqb (rank u.flag_level) 0)
is_listed (some level) u = eqb (rank u.flag_level) (rank level)

-- `orderBy: [{ flagLevel: 'desc' }, { updatedAt: 'desc' }]`: levels are in the order of their enum.
abbrev comes_before : User → User → Bool
comes_before u v =
    let m = rank u.flag_level in
    let n = rank v.flag_level in ltb n m || (eqb m n && ltb v.updated_at u.updated_at)

abbrev insert_user : User → List User → List User
insert_user u [] = u ∷ []
insert_user u (v ∷ vs) =
    let rest = insert_user u vs in if comes_before u v then u ∷ v ∷ vs else v ∷ rest

unfoldable pub order_users : List User → List User
order_users [] = []
order_users (u ∷ us) = insert_user u (order_users us)

abbrev pub listed_users : Option FlagLevel → Db → List User
listed_users level db = order_users (keep (is_listed level) db.users)

abbrev pub user_row_id : User → String
user_row_id u = u.id

abbrev pub view_of : Db → User → UserPublic
view_of db u = user_to_public u (count_flags u.id db.flags)

unfoldable pub list_flagged :
    Option FlagLevel → Option String → (limit : ℕ) → Db → CursorPage UserPublic
list_flagged level cursor limit db =
    let page = cursor_page user_row_id limit cursor (listed_users level db) in
    record { items = map (view_of db) page.items; next_cursor = page.next_cursor }
