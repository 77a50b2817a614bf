-- ===== src/Servers/Members/Refined.antt =====
-- apps/api/src/servers/servers.service.ts: the table of members implements a map from a guild and a
-- user to a profile, and a batch implements a sequence of assignments to it.
use protect_platform.Entitlements.{set_member_sync_state, in_state, guild_key}
use protect_platform.Store.{MemberSyncState, Db, Env, GuildMemberCache}
use protect_platform.Prelude.{
  foreign_key_violation, err, true, false, inr, update, inl, find, Bool-cases, refl, eq_iff, [],
  arith, ap, ◌&&◌, ◌∙◌, length, ok, ◌==◌, suc, if◌then◌else◌, ◌≡◌, none, ℕ, ◌∷◌, find_first, some,
  String, Option, List,
}
use protect_platform.Servers.Members.{
  has_server, is_queued, is_member, GuildMemberBatchRow, batch_upsert_guild_members, upsert_member,
  upsert_members,
}

pub record Profile : Type 0 where
  pub username : Option String
  pub global_name : Option String
  pub avatar_hash : Option String
  pub source : String

-- The abstract view: who is known where, without identifiers, times or order.
abbrev pub Directory : Type 0
Directory = String → String → Option Profile

abbrev profile_of : GuildMemberCache → Profile
profile_of m = record {
  username = m.username;
  global_name = m.global_name;
  avatar_hash = m.avatar_hash;
  source = m.source;
}

abbrev profile_row : Option GuildMemberCache → Option Profile
profile_row none = none
profile_row (some m) = some (profile_of m)

unfoldable pub directory : List GuildMemberCache → Directory
directory ms guild user = profile_row (find_first (is_member guild user) ms)

abbrev batch_profile : String → GuildMemberBatchRow → Profile
batch_profile source row = record {
  username = row.username;
  global_name = row.global_name;
  avatar_hash = row.avatar_hash;
  source = source;
}

-- The assignments of a batch to a map, the last one of a user winning.
unfoldable pub assign_all : String → String → List GuildMemberBatchRow → Directory → Directory
assign_all source guild [] d = d
assign_all source guild (row ∷ rows) d = assign_all source guild rows λ g user.
    if guild == g && row.discord_user_id == user then some (batch_profile source row) else d g user

directory-upsert_member :
    (env : Env) (i : ℕ) (source guild : String) (row : GuildMemberBatchRow)
    (ms : List GuildMemberCache) (g user : String)
    → directory (upsert_member env i source guild row ms) g user ≡ (
        if guild == g && row.discord_user_id == user
        then some (batch_profile source row)
        else directory ms g user)
unfolding directory upsert_member find_first
directory-upsert_member env i source guild row [] g user = ground arith
directory-upsert_member env i source guild row (m ∷ ms) g user = ground (
  arith,
  directory-upsert_member env i source guild row ms g user,
  eq_iff guild g,
  eq_iff row.discord_user_id user,
  eq_iff m.guild_id guild,
  eq_iff m.guild_id g,
  eq_iff m.discord_user_id row.discord_user_id,
  eq_iff m.discord_user_id user,
)

directory-upsert_members :
    (env : Env) (source guild : String) (rows : List GuildMemberBatchRow) (i : ℕ)
    (ms : List GuildMemberCache)
    → directory (upsert_members env i source guild rows ms)
      ≡ assign_all source guild rows (directory ms)
unfolding upsert_members assign_all
directory-upsert_members env source guild [] i ms = refl
directory-upsert_members env source guild (row ∷ rows) i ms =
    directory-upsert_members env source guild rows (suc i) (upsert_member env i source guild row ms)
    ∙ ap (assign_all source guild rows)
        (λ k g user. directory-upsert_member env i source guild row ms g user k)

-- A batch for a guild that has a server row succeeds, reports as many rows as it was given, and assigns
-- to each of its users in the guild the profile that it gives them last. All other profiles stay as
-- they are, and so do the server rows.
pub batch_upsert_guild_members-directory :
    (env : Env) (source guild : String) (rows : List GuildMemberBatchRow) (db : Db)
    → has_server guild db ≡ true
    → (db' : Db) × (batch_upsert_guild_members env source guild rows db ≡ ok (length rows, db'))
      × (directory db'.members ≡ assign_all source guild rows (directory db.members))
      × (db'.servers ≡ db.servers)
unfolding batch_upsert_guild_members assign_all set_member_sync_state
batch_upsert_guild_members-directory env source guild [] db known = (db, refl, refl, refl)
batch_upsert_guild_members-directory env source guild (row ∷ rows) db known =
    let ms = upsert_members env 0 source guild (row ∷ rows) db.members in
    let assigned = directory-upsert_members env source guild (row ∷ rows) 0 db.members in
    elim (Bool-cases (is_queued (find guild_key guild db.entitlements))) [
      | inl queued ↦ (
        record db {
          members = ms;
          entitlements = update guild_key guild (in_state MemberSyncState.running) db.entitlements;
        },
        rw (queued, known) refl,
        assigned,
        refl,
      )
      | inr running ↦ (record db { members = ms }, rw (running, known) refl, assigned, refl)
    ]

-- A batch that is not empty is refused for a guild without a server row.
pub batch_upsert_guild_members_refused :
    (env : Env) (source guild : String) (row : GuildMemberBatchRow)
    (rows : List GuildMemberBatchRow) (db : Db)
    → has_server guild db ≡ false
    → batch_upsert_guild_members env source guild (row ∷ rows) db
      ≡ err (foreign_key_violation "guild_id")
unfolding batch_upsert_guild_members set_member_sync_state
batch_upsert_guild_members_refused env source guild row rows db unknown =
    elim (Bool-cases (is_queued (find guild_key guild db.entitlements))) [
      | inl queued ↦ rw (queued, unknown) refl
      | inr running ↦ rw (running, unknown) refl
    ]
