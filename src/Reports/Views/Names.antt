-- ===== src/Reports/Views/Names.antt =====
-- apps/api/src/reports/reports.service.ts: the names of members, looked up for many reports at once.
use protect_platform.Js.{is_empty}
use protect_platform.Servers.Members.{is_member}
use protect_platform.Store.{Db, GuildMemberCache}
use protect_platform.Reports.Displays.{
  add_user, is_asked_for, load_member_displays, Asked, ask_all, ask, Pair, rows_of, pick_display,
}
use protect_platform.Prelude.{
  ◌∙◌, inr, inl, Bool-cases, [], refl, eq_refl, eq_iff, or_row, ◌||◌, ◌&&◌, arith, none, keep,
  if◌then◌else◌, ◌==◌, create, false, append, any, true, some, ◌≡◌, ◌∷◌, includes, Bool, find_first,
  List, String, Option,
}

module _ (p q : GuildMemberCache → Bool) where
  find_first-keep :
      (ms : List GuildMemberCache)
      → ((m : GuildMemberCache) → p m ≡ true → q m ≡ true)
      → find_first p (keep q ms) ≡ find_first p ms
  unfolding find_first
  find_first-keep [] h = refl
  find_first-keep (m ∷ ms) h = ground (arith, h m, find_first-keep ms h)

  find_first-keep-none :
      (ms : List GuildMemberCache)
      → ((m : GuildMemberCache) → p m ≡ true → q m ≡ false)
      → find_first p (keep q ms) ≡ none
  unfolding find_first
  find_first-keep-none [] h = refl
  find_first-keep-none (m ∷ ms) h = ground (arith, h m, find_first-keep-none ms h)

find_first-append :
    (p : GuildMemberCache → Bool) (ms ns : List GuildMemberCache)
    → find_first p (append ms ns) ≡ or_row (find_first p ms) (find_first p ns)
unfolding find_first
find_first-append p [] ns = refl
find_first-append p (m ∷ ms) ns = ground (arith, find_first-append p ms ns)

-- The guild is asked for the user.
abbrev asks : String → String → Asked → Bool
asks guild user (g, ids) = g == guild && includes user ids

abbrev same_pair : String → String → Pair → Bool
same_pair guild user (none, u) = false
same_pair guild user (some g, u) = g == guild && u == user

is_asked_for-asks :
    (guild user g : String) (ids : List String) (m : GuildMemberCache)
    → is_member guild user m ≡ true
    → is_asked_for g ids m ≡ asks guild user (g, ids)
is_asked_for-asks guild user g ids m h =
    let same_guild : m.guild_id ≡ guild = ground (arith, h, eq_iff m.guild_id guild) in
    let same_user : m.discord_user_id ≡ user = ground (arith, h, eq_iff m.discord_user_id user) in
    rw (same_guild, same_user) (ground (arith, eq_iff guild g, eq_iff g guild))

includes-create :
    (user u : String) (ids : List String)
    → includes user (create u ids) ≡ (includes user ids || u == user)
includes-create user u [] = ground arith
includes-create user u (i ∷ ids) = ground (arith, includes-create user u ids)

includes-add_user :
    (user u : String) (ids : List String)
    → includes user (add_user u ids) ≡ (includes user ids || u == user)
includes-add_user user u ids = elim (Bool-cases (u == user)) [
  | inl same ↦
      let e : u ≡ user = ground (arith, same, eq_iff u user) in
      rw e (ground (arith, includes-create user user ids, eq_refl user))
  | inr other ↦ ground (arith, other, includes-create user u ids)
]

find_first-rows_of :
    (guild user : String) (asked : List Asked) (db : Db)
    → find_first (is_member guild user) (rows_of asked db)
      ≡ (if any (asks guild user) asked then find_first (is_member guild user) db.members else none)
unfolding rows_of find_first
find_first-rows_of guild user [] db = refl
find_first-rows_of guild user ((g, ids) ∷ rest) db =
    rw
      (find_first-append (is_member guild user) (keep (is_asked_for g ids) db.members)
        (rows_of rest db))
      (elim (Bool-cases (asks guild user (g, ids))) [
        | inl asked ↦ ground (
          arith,
          asked,
          find_first-keep (is_member guild user) (is_asked_for g ids) db.members
              (λ m h. is_asked_for-asks guild user g ids m h ∙ asked),
          find_first-rows_of guild user rest db,
        )
        | inr other ↦ ground (
          arith,
          other,
          find_first-keep-none (is_member guild user) (is_asked_for g ids) db.members
              (λ m h. is_asked_for-asks guild user g ids m h ∙ other),
          find_first-rows_of guild user rest db,
        )
      ])

any-ask :
    (guild user g u : String) (asked : List Asked)
    → any (asks guild user) (ask g u asked)
      ≡ (any (asks guild user) asked || (g == guild && u == user))
unfolding ask
any-ask guild user g u [] = ground arith
any-ask guild user g u ((h, ids) ∷ rest) = ground (
  arith,
  includes-add_user user u ids,
  any-ask guild user g u rest,
  eq_iff h g,
  eq_iff h guild,
  eq_iff g guild,
)

any-ask_all :
    (guild user : String) (pairs : List Pair) (asked : List Asked)
    → is_empty guild ≡ false
    → any (asks guild user) (ask_all pairs asked)
      ≡ (any (asks guild user) asked || any (same_pair guild user) pairs)
unfolding ask_all
any-ask_all guild user [] asked full = ground arith
any-ask_all guild user ((none, u) ∷ pairs) asked full =
    ground (arith, any-ask_all guild user pairs asked full)
any-ask_all guild user ((some g, u) ∷ pairs) asked full = ground (
  arith,
  any-ask_all guild user pairs asked full,
  any-ask_all guild user pairs (ask g u asked) full,
  any-ask guild user g u asked,
  eq_iff g guild,
  full,
)

-- The names that are loaded for many pairs at once are, for each pair among them, those of the row
-- of that guild and user, if there is one. Nothing is shown for a pair that was not asked for.
pub pick_display-load_member_displays :
    (pairs : List Pair) (guild user : String) (db : Db)
    → pick_display (load_member_displays pairs db) (some guild) user ≡ (
        if any (same_pair guild user) pairs
        then pick_display db.members (some guild) user
        else none)
unfolding pick_display load_member_displays
pick_display-load_member_displays pairs guild user db = elim (Bool-cases (is_empty guild)) [
  | inl empty ↦ ground (arith, empty)
  | inr full ↦ ground (
    arith,
    full,
    find_first-rows_of guild user (ask_all pairs []) db,
    any-ask_all guild user pairs [] full,
  )
]

-- The pair is one that is looked up among these, or has no guild.
abbrev pub covers : List Pair → Option String → String → Bool
covers pairs none user = true
covers pairs (some guild) user = any (same_pair guild user) pairs

pub pick_display-covered :
    (pairs : List Pair) (guild : Option String) (user : String) (db : Db)
    → covers pairs guild user ≡ true
    → pick_display (load_member_displays pairs db) guild user ≡ pick_display db.members guild user
unfolding pick_display
pick_display-covered pairs none user db h = refl
pick_display-covered pairs (some guild) user db h =
    rw (pick_display-load_member_displays pairs guild user db, h)

pub covers_first :
    (guild : Option String) (user : String) (pairs : List Pair)
    → covers ((guild, user) ∷ pairs) guild user ≡ true
covers_first none user pairs = refl
covers_first (some guild) user pairs = ground (arith, eq_refl guild, eq_refl user)

pub covers_more :
    (p : Pair) (pairs : List Pair) (guild : Option String) (user : String)
    → covers pairs guild user ≡ true
    → covers (p ∷ pairs) guild user ≡ true
covers_more p pairs none user h = refl
covers_more p pairs (some guild) user h = ground (arith, h)
