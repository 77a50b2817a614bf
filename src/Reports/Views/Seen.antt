-- ===== src/Reports/Views/Seen.antt =====
-- apps/api/src/reports/reports.service.ts: the names that the list of pending reports shows.
use protect_platform.Reports.Views.Names.{pick_display-covered, covers_first, covers_more, covers}
use protect_platform.Reports.Displays.{load_member_displays, Pair}
use protect_platform.Prelude.{
  keep, length-take, refl, arith, suc, ◌≤◌, [], ap, map, true, ◌∷◌, length, All, ◌≡◌, ℕ, List,
}
use protect_platform.Store.{GuildMemberCache, Report, Db}
use protect_platform.Reports.Views.{
  newest_reports, clamp, is_pending, target_pair, pending_reports, reporter_pair, pending_item,
  target_of, pairs_of, list_pending,
}

-- Both users of a report are looked up.
abbrev IsCovered : Db → List Pair → Report → Type 0
IsCovered db pairs r =
    (covers pairs r.guild_id r.reporter_discord_id ≡ true)
    × (covers pairs r.guild_id (target_of db r) ≡ true)

IsCovered-more :
    (db : Db) (p q : Pair) (pairs : List Pair) (rs : List Report)
    → All (IsCovered db pairs) rs
    → All (IsCovered db (p ∷ q ∷ pairs)) rs
IsCovered-more db p q pairs [] h = tt
IsCovered-more db p q pairs (r ∷ rs) ((reporter, target), rest) = (
  (
    covers_more p (q ∷ pairs) r.guild_id _ (covers_more q pairs r.guild_id _ reporter),
    covers_more p (q ∷ pairs) r.guild_id _ (covers_more q pairs r.guild_id _ target),
  ),
  IsCovered-more db p q pairs rs rest,
)

pairs_of-IsCovered : (db : Db) (rs : List Report) → All (IsCovered db (pairs_of db rs)) rs
pairs_of-IsCovered db [] = tt
pairs_of-IsCovered db (r ∷ rs) =
    let pairs = pairs_of db rs in
    (
      (
        covers_first r.guild_id r.reporter_discord_id (target_pair db r ∷ pairs),
        covers_more (reporter_pair r) (target_pair db r ∷ pairs) r.guild_id (target_of db r)
            (covers_first r.guild_id (target_of db r) pairs),
      ),
      IsCovered-more db (reporter_pair r) (target_pair db r) pairs rs (pairs_of-IsCovered db rs),
    )

map-covered :
    (db : Db) (pairs : List Pair) (rs : List Report)
    → All (IsCovered db pairs) rs
    → map (pending_item (load_member_displays pairs db) db) rs ≡ map (pending_item db.members db) rs
map-covered db pairs [] h = refl
map-covered db pairs (r ∷ rs) ((reporter, target), rest) = rw (
  pick_display-covered pairs r.guild_id r.reporter_discord_id db reporter,
  pick_display-covered pairs r.guild_id (target_of db r) db target,
  map-covered db pairs rs rest,
)

length-items :
    (names : List GuildMemberCache) (db : Db) (rs : List Report)
    → length (map (pending_item names db) rs) ≡ length rs
length-items names db [] = refl
length-items names db (r ∷ rs) = ap suc (length-items names db rs)

-- Each item of the list of pending reports shows the names that its own users have in its guild:
-- one lookup for the whole list finds what a lookup for each report would find. At most 100 reports
-- are listed.
pub list_pending-pending_item :
    (limit : ℕ) (db : Db)
    → (list_pending limit db ≡ map (pending_item db.members db) (pending_reports limit db))
      × (length (list_pending limit db) ≤ 100)
unfolding list_pending
list_pending-pending_item limit db =
    let rows = pending_reports limit db in
    let same = map-covered db (pairs_of db rows) rows (pairs_of-IsCovered db rows) in
    (
      same,
      omega (
        arith,
        length-items (load_member_displays (pairs_of db rows) db) db rows,
        length-take (clamp 100 limit) (newest_reports (keep is_pending db.reports)),
      ),
    )
