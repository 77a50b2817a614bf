-- ===== src/Me/Pages.antt =====
-- apps/api/src/me/me.service.ts: the pages of a guild's members, followed from the first by their
-- `nextSkip`.
use protect_platform.Store.{Db, GuildMemberCache}
use protect_platform.Me.{
  page_size, is_of_guild, list_page, insert_member, members_of, newest_members,
}
use protect_platform.Prelude.{
  take-take_more, take_short, count_where, length-drop, take-append-drop, ◌∙◌, sym, min, inr,
  length-take, inl, ltb, Bool-cases, append, zero, refl, keep, is_some, [], some, ap, or_else, ◌<◌,
  arith, if◌then◌else◌, ◌≤◌, ◌∷◌, none, ◌≡◌, ◌+◌, suc, take, length, drop, List, Option, Bool, ℕ,
  String,
}

module _ {A : Type 0} where
  drop-empty : (n : ℕ) → drop {A = A} n [] ≡ []
  drop-empty zero = refl
  drop-empty (suc n) = refl

  drop-drop : (m n : ℕ) (xs : List A) → drop n (drop m xs) ≡ drop (m + n) xs
  drop-drop zero n xs = ground arith
  drop-drop (suc m) n [] = ground (arith, drop-empty n, drop-empty (suc m + n))
  drop-drop (suc m) n (x ∷ xs) =
      let e : suc m + n ≡ suc (m + n) = omega arith in rw e (drop-drop m n xs)

abbrev joined :
    List GuildMemberCache → Option (List GuildMemberCache) → Option (List GuildMemberCache)
joined ms none = none
joined ms (some rest) = some (append ms rest)

-- A client that reads pages until one has no next page; none if `fuel` pages are not enough.
unfoldable pub walk :
    (above : String → String → Bool) (guild : String) (wanted : Option ℕ) (db : Db) (fuel skip : ℕ)
    → Option (List GuildMemberCache)
walk above guild wanted db zero skip = none
walk above guild wanted db (suc fuel) skip =
    let page = list_page above guild wanted skip db in
    let rest = walk above guild wanted db fuel (or_else page.next_skip 0) in
    if is_some page.next_skip then joined page.items rest else some page.items

page_size_positive : (wanted : Option ℕ) → 0 < page_size wanted
page_size_positive none = omega arith
page_size_positive (some n) = omega arith

module _ (above : String → String → Bool) where
  count-insert_member :
      (p : GuildMemberCache → Bool) (m : GuildMemberCache) (ms : List GuildMemberCache)
      → count_where p (insert_member above m ms) ≡ count_where p (m ∷ ms)
  count-insert_member p m [] = refl
  count-insert_member p m (n ∷ ns) = ground (arith, count-insert_member p m ns)

  count-newest_members :
      (p : GuildMemberCache → Bool) (ms : List GuildMemberCache)
      → count_where p (newest_members above ms) ≡ count_where p ms
  unfolding newest_members
  count-newest_members p [] = refl
  count-newest_members p (m ∷ ms) =
      ground (arith, count-insert_member p m (newest_members above ms), count-newest_members p ms)

  module _ (guild : String) (wanted : Option ℕ) (db : Db) where
    abbrev rows : List GuildMemberCache
    rows = members_of above guild db

    walk-drop :
        (fuel skip : ℕ)
        → length (drop skip rows) < fuel
        → walk above guild wanted db fuel skip ≡ some (drop skip rows)
    unfolding walk list_page
    walk-drop zero skip h = ground (arith, h)
    walk-drop (suc fuel) skip h =
        let size = page_size wanted in
        let left = drop skip rows in
        let read = take (size + 1) left in
        let count : length read ≡ min (size + 1) (length left) = length-take (size + 1) left in
        elim (Bool-cases (ltb size (length read))) [
          | inl more ↦
              let longer : size < length left = ground (arith, more, count) in
              let shorter : length (drop (skip + size) rows) < fuel = omega (
                arith,
                h,
                longer,
                page_size_positive wanted,
                length-drop skip rows,
                length-drop (skip + size) rows,
              ) in
              rw (more, walk-drop fuel (skip + size) shorter, take-take_more size left)
                (ap some (
                  ap (append (take size left)) (sym (drop-drop skip size rows))
                  ∙ take-append-drop size left))
          | inr done ↦
              let short : length left ≤ size = ground (arith, done, count) in
              rw (done, take_short (size + 1) left (omega (arith, short))) refl
        ]

  -- Following the pages from the first ends after at most one page more than the guild has members
  -- and yields the ordered rows, in which each member of the guild occurs as often as in the table.
  pub walk-members_of :
      (guild : String) (wanted : Option ℕ) (db : Db)
      → (walk above guild wanted db (suc (length (members_of above guild db))) 0
          ≡ some (members_of above guild db))
        × ((p : GuildMemberCache → Bool)
            → count_where p (members_of above guild db)
              ≡ count_where p (keep (is_of_guild guild) db.members))
  unfolding members_of
  walk-members_of guild wanted db = (
    walk-drop guild wanted db (suc (length (rows guild wanted db))) 0 (omega arith),
    λ p. count-newest_members p (keep (is_of_guild guild) db.members),
  )
