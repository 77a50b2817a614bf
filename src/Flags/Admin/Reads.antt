-- ===== src/Flags/Admin/Reads.antt =====
-- apps/api/src/admin/admin-flags.service.ts: the reads that a deletion or a change begins with.
use protect_platform.Prelude.{
  String, ◌≡◌, Option, none, some, find, find_first, ok, ApiError, not_found,
}
use protect_platform.Store.{User, Flag, Db, Tx, ◌>>=◌, bind-ok, found, gets}
use protect_platform.Scores.{discord_key}
use protect_platform.Flags.Admin.{is_flag_of, with_flag}

module _ {A : Type 0} where
  -- A row that is required is there.
  found-ok :
      (o : Option A) (e : ApiError) (db : Db) {a : A} {db' : Db}
      → found o e db ≡ ok (a, db')
      → (o ≡ some a) × (db' ≡ db)
  found-ok none e db h = cc
  found-ok (some a) e db h = (cc, cc)

module _ (target : String) (db : Db) where
  abbrev find_rest : String → (User → Flag → Tx User) → User → Tx User
  find_rest flag_id f u =
      gets (λ (db : Db). find_first (is_flag_of flag_id u.id) db.flags) >>= λ row.
      found row (not_found "Flag not found") >>= λ g. f u g

  -- The two rows that both operations require: the user's and the flag's.
  pub with_flag-ok :
      (flag_id : String) (f : User → Flag → Tx User) {after : User} {db' : Db}
      → with_flag target flag_id f db ≡ ok (after, db')
      → (u : User) × (g : Flag) × (find discord_key target db.users ≡ some u)
        × (find_first (is_flag_of flag_id u.id) db.flags ≡ some g)
        × (f u g db ≡ ok (after, db'))
  unfolding with_flag
  with_flag-ok flag_id f {after} {db'} h =
      let (u, mid, first, h1) =
        bind-ok (found (find discord_key target db.users) (not_found "User not found")) _ db h in
      let (there, same) = found-ok (find discord_key target db.users) _ db first in
      let here : find_rest flag_id f u db ≡ ok (after, db') = rw same at h1 in
      let (g, mid', second, h2) =
        bind-ok (found (find_first (is_flag_of flag_id u.id) db.flags) (not_found "Flag not found"))
          _ db here in
      let (of_user, same') = found-ok (find_first (is_flag_of flag_id u.id) db.flags) _ db second in
      (u, g, there, of_user, rw same' at h2)
