-- ===== src/Users/Flagged/Tests.antt =====
-- Two flagged users on pages of one.
use protect_platform.Users.Flagged.Lost.{list_flagged_skips}
use protect_platform.Samples.{suspect, flagged}
use protect_platform.Shared.Levels.{FlagLevel}
use protect_platform.Prelude.{eq_iff, String, ◌≢◌, refl, some, [], map, ◌≡◌, ◌∷◌, none}
use protect_platform.Users.Flagged.{view_of, listed_users, order_users, list_flagged}
use protect_platform.Store.{Db, User}

abbrev watched : User
watched = record {
  id = "w";
  discord_id = "8";
  flag_score = 1;
  flag_level = FlagLevel.watch;
  state_version = 1;
  updated_at = 0;
}

abbrev two : Db
two = record flagged { users = watched ∷ suspect ∷ [] }

two_listed : listed_users none two ≡ suspect ∷ watched ∷ []
unfolding order_users
two_listed = refl

list_flagged_skips_example :
    ((list_flagged none none 1 two).items ≡ map (view_of two) (suspect ∷ []))
    × ((list_flagged none none 1 two).next_cursor ≡ some "w")
    × ((list_flagged none (some "w") 1 two).items ≡ [])
list_flagged_skips_example =
    list_flagged_skips none 1 two (suspect ∷ []) [] watched two_listed refl (other, tt)
  where
    other : ◌≢◌ {A = String} "u" "w"
    other e = cc ((eq_iff "u" "w").1 e)
