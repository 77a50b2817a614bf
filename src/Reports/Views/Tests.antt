-- ===== src/Reports/Views/Tests.antt =====
-- Runs of the views, and their theorems at concrete inputs.
use protect_platform.Reports.Views.Seen.{list_pending-pending_item}
use protect_platform.Samples.{plain_js}
use protect_platform.Auth.{is_discord_platform_admin}
use protect_platform.Reports.Samples.{waiting, with_report}
use protect_platform.Prelude.{
  ◌≤◌, [], forbidden, ◌∷◌, ok, err, refl, none, false, true, some, length, map, ◌≡◌, find,
}
use protect_platform.Reports.Views.{
  pending_reports, pending_item, newest_reports, viewed, jwt_detail_of, JwtReportDetail,
  list_pending, get_for_bot_viewer, get_jwt_report_detail,
}
use protect_platform.Store.{Db}

abbrev with_members : Db
with_members = record with_report {
  members =
      record {
        id = "m1";
        guild_id = "5";
        discord_user_id = "7";
        username = some "rita";
        global_name = none;
        avatar_hash = none;
        first_seen_at = 10;
        source = "join";
      }
      ∷ [];
}

abbrev detail : JwtReportDetail
detail = jwt_detail_of true with_members waiting

shows : get_jwt_report_detail "r1" "1" true with_members ≡ ok (detail, with_members)
unfolding get_jwt_report_detail viewed find
shows = refl

refuses :
    get_jwt_report_detail "r1" "8" false with_members
    ≡ err (forbidden "Not allowed to view this report")
unfolding get_jwt_report_detail viewed find
refuses = refl

bot_shows :
    get_for_bot_viewer plain_js none "r1" "8" with_members
    ≡ err (forbidden "Not allowed to view this report")
unfolding get_for_bot_viewer viewed find is_discord_platform_admin
bot_shows = refl

lists : length (list_pending 0 with_members) ≡ 1
unfolding list_pending newest_reports
lists = refl

list_pending-pending_item_example :
    (list_pending 5 with_members
      ≡ map (pending_item with_members.members with_members) (pending_reports 5 with_members))
    × (length (list_pending 5 with_members) ≤ 100)
list_pending-pending_item_example = list_pending-pending_item 5 with_members
