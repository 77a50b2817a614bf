-- ===== src/Reports/Displays.antt =====
-- apps/api/src/reports/reports.service.ts: the names of members, which are shown with reports.
use protect_platform.Servers.Members.{is_member}
use protect_platform.Js.{is_empty}
use protect_platform.Store.{Db, GuildMemberCache}
use protect_platform.Prelude.{
  create, find_first, ◌&&◌, keep, append, includes, Bool, [], none, ◌==◌, ◌∷◌, if◌then◌else◌, some,
  Option, List, String,
}

-- `ReportMemberDisplay`
pub record MemberDisplay : Type 0 where
  pub discord_user_id : String
  pub username : Option String
  pub global_name : Option String
  pub avatar_hash : Option String

-- A guild that may be missing, and a user.
abbrev pub Pair : Type 0
Pair = Option String × String

-- A guild, and the users whose rows it is asked for.
abbrev pub Asked : Type 0
Asked = String × List String

abbrev pub add_user : String → List String → List String
add_user user ids = if includes user ids then ids else create user ids

-- `byGuild.get(guild).add(user)`, with a new set for a guild that has none.
unfoldable pub ask : String → String → List Asked → List Asked
ask guild user [] = (guild, user ∷ []) ∷ []
ask guild user ((g, ids) ∷ rest) =
    let later = ask guild user rest in
    if g == guild then (g, add_user user ids) ∷ rest else (g, ids) ∷ later

abbrev pub ask_pair : Pair → List Asked → List Asked
ask_pair (none, user) asked = asked
ask_pair (some guild, user) asked = if is_empty guild then asked else ask guild user asked

unfoldable pub ask_all : List Pair → List Asked → List Asked
ask_all [] asked = asked
ask_all (p ∷ pairs) asked = ask_all pairs (ask_pair p asked)

abbrev pub is_asked_for : String → List String → GuildMemberCache → Bool
is_asked_for guild ids m = m.guild_id == guild && includes m.discord_user_id ids

-- The queries, guild by guild.
unfoldable pub rows_of : List Asked → Db → List GuildMemberCache
rows_of [] db = []
rows_of ((guild, ids) ∷ rest) db =
    append (keep (is_asked_for guild ids) db.members) (rows_of rest db)

-- `loadMemberDisplaysForGuildUsers`. The rows stand for the map: a row holds both halves of its key.
unfoldable pub load_member_displays : List Pair → Db → List GuildMemberCache
load_member_displays pairs db = rows_of (ask_all pairs []) db

abbrev pub display_of : Option GuildMemberCache → Option MemberDisplay
display_of none = none
display_of (some m) = some record {
  discord_user_id = m.discord_user_id;
  username = m.username;
  global_name = m.global_name;
  avatar_hash = m.avatar_hash;
}

-- An empty guild has no key, as a missing one has none.
unfoldable pub pick_display : List GuildMemberCache → Option String → String → Option MemberDisplay
pick_display rows none user = none
pick_display rows (some guild) user =
    if is_empty guild then none else display_of (find_first (is_member guild user) rows)
