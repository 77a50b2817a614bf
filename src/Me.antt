-- ===== src/Me.antt =====
-- apps/api/src/me/me.service.ts: the guilds and the members that a user may see.
pub mod Pages
mod Tests
use protect_platform.Servers.{server_key}
use protect_platform.Entitlements.{is_guild_licensed, guild_key, row_is_active}
use protect_platform.Auth.{AppRole, principal_has_any_role, RequestPrincipal}
use protect_platform.Js.{split_commas, is_empty, Js}
use protect_platform.Prelude.{
  forbidden, includes, ◌&&◌, none, drop, eqb, if◌then◌else◌, some, [], or_else, length, not, ◌+◌,
  ◌||◌, find, max, ltb, map, keep, take, false, ◌∷◌, ◌==◌, List, Bool, min, String, ℕ, Option,
}
use protect_platform.Store.{
  check, pure, gets, Tx, Server, GuildMemberCache, GuildEntitlement, Db, ◌>>=◌, ◌>>◌,
}

pub record GuildLine : Type 0 where
  pub guild_id : String
  pub licensed : Bool
  pub server : Option Server
  pub entitlement : Option GuildEntitlement

abbrev is_active : ℕ → Option GuildEntitlement → Bool
is_active now none = false
is_active now (some e) = row_is_active now e

-- A guild that is not known is not licensed: its entitlement refers to its server.
abbrev line_of : ℕ → Db → String → Option Server → GuildLine
line_of now db id none = record {
  guild_id = id;
  licensed = false;
  server = none;
  entitlement = none;
}
line_of now db id (some s) = record {
  guild_id = id;
  licensed = is_active now (find guild_key id db.entitlements);
  server = some s;
  entitlement = find guild_key id db.entitlements;
}

pub resolve_guilds : ℕ → Db → List String → List GuildLine
resolve_guilds now db ids = map (λ id. line_of now db id (find server_key id db.servers)) ids

abbrev pub names_of : Js → String → List String
names_of js csv = keep (λ s. not (is_empty s)) (map js.trim (split_commas csv))

-- A caller who is no administrator may manage the guild, and the guild has a licence.
abbrev pub assert_manageable :
    Js → List String → ℕ → RequestPrincipal → String → String → Tx (Unit {0})
assert_manageable js allowlist now principal manageable guild =
    if principal_has_any_role principal (AppRole.admin ∷ []) then pure tt else do
      check (includes guild (names_of js manageable))
          (forbidden "Guild not in your manageable list")
      licensed ← gets (is_guild_licensed allowlist now guild)
      check licensed (forbidden "Guild has no active license")

abbrev pub is_of_guild : String → GuildMemberCache → Bool
is_of_guild guild m = m.guild_id == guild

-- `[{ firstSeenAt: 'desc' }, { discordUserId: 'desc' }]`. `above` compares two identifiers in the
-- order of the database's texts.
abbrev pub comes_before : (String → String → Bool) → GuildMemberCache → GuildMemberCache → Bool
comes_before above m n =
    ltb n.first_seen_at m.first_seen_at
    || (eqb n.first_seen_at m.first_seen_at && above m.discord_user_id n.discord_user_id)

abbrev pub insert_member :
    (String → String → Bool) → GuildMemberCache → List GuildMemberCache → List GuildMemberCache
insert_member above m [] = m ∷ []
insert_member above m (n ∷ ns) =
    let rest = insert_member above m ns in if comes_before above m n then m ∷ n ∷ ns else n ∷ rest

unfoldable pub newest_members :
    (String → String → Bool) → List GuildMemberCache → List GuildMemberCache
newest_members above [] = []
newest_members above (m ∷ ms) = insert_member above m (newest_members above ms)

-- The rows of a guild in the order in which they are listed.
unfoldable pub members_of : (String → String → Bool) → String → Db → List GuildMemberCache
members_of above guild db = newest_members above (keep (is_of_guild guild) db.members)

pub record Page : Type 0 where
  pub take : ℕ
  pub skip : ℕ
  pub has_more : Bool
  pub next_skip : Option ℕ
  pub items : List GuildMemberCache

-- `Math.min(500, Math.max(1, Math.floor(take ?? 10)))` of a natural number.
abbrev pub page_size : Option ℕ → ℕ
page_size wanted = min 500 (max 1 (or_else wanted 10))

-- One row more than the page is read, to know whether there is another page.
abbrev pub page_of : ℕ → ℕ → List GuildMemberCache → Page
page_of size skip rows =
    let more = ltb size (length rows) in
    record {
      take = size;
      skip = skip;
      has_more = more;
      next_skip = if more then some (skip + size) else none;
      items = if more then take size rows else rows;
    }

unfoldable pub list_page : (String → String → Bool) → String → Option ℕ → ℕ → Db → Page
list_page above guild wanted skip db =
    page_of (page_size wanted) skip
      (take (page_size wanted + 1) (drop skip (members_of above guild db)))

unfoldable pub list_guild_members :
    Js
    → List String
    → (String → String → Bool)
    → ℕ
    → String
    → RequestPrincipal
    → String
    → Option ℕ
    → Option ℕ
    → Tx Page
list_guild_members js allowlist above now guild principal manageable wanted skip = do
  assert_manageable js allowlist now principal manageable guild
  gets (list_page above guild wanted (or_else skip 0))
