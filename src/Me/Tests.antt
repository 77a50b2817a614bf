-- ===== src/Me/Tests.antt =====
-- The pages of a guild with two members.
use protect_platform.Samples.{empty_db}
use protect_platform.Store.{GuildMemberCache, Db}
use protect_platform.Me.Pages.{walk-members_of, walk}
use protect_platform.Prelude.{
  count_where, keep, refl, none, ◌≡◌, [], length, ◌∷◌, false, suc, some, Bool, ℕ, String,
}
use protect_platform.Me.{is_of_guild, newest_members, members_of, list_page}

abbrev member : String → ℕ → GuildMemberCache
member user seen = record {
  id = user;
  guild_id = "5";
  discord_user_id = user;
  username = none;
  global_name = none;
  avatar_hash = none;
  first_seen_at = seen;
  source = "SYNC";
}

abbrev peopled : Db
peopled = record empty_db { members = member "1" 10 ∷ member "2" 20 ∷ [] }

abbrev never : String → String → Bool
never s t = false

newest_is_first : (list_page never "5" (some 1) 0 peopled).items ≡ member "2" 20 ∷ []
unfolding list_page members_of newest_members
newest_is_first = refl

walk-members_of_example :
    (walk never "5" (some 1) peopled (suc (length (members_of never "5" peopled))) 0
      ≡ some (members_of never "5" peopled))
    × ((p : GuildMemberCache → Bool)
        → count_where p (members_of never "5" peopled)
          ≡ count_where p (keep (is_of_guild "5") peopled.members))
walk-members_of_example = walk-members_of never "5" (some 1) peopled
