-- ===== src/Aggregates/Tests.antt =====
-- A run of two transactions, and the theorem on it.
use protect_platform.Shared.Levels.{clean}
use protect_platform.Flags.Admin.Samples.{body, flag_id, changed, rescored, with_patch}
use protect_platform.Flags.Samples.{bot, created, flagged, dto, with_one, trusting}
use protect_platform.Samples.{env, policy, plain_js}
use protect_platform.Aggregates.{Change, IsFreshIn, Changes}
use protect_platform.Policy.{level_from_score}
use protect_platform.Aggregates.Sound.{Changes-IsSound, IsSound}
use protect_platform.Prelude.{arith, refl, ◌≡◌, find}

starts : level_from_score policy 0 ≡ clean
unfolding level_from_score
starts = refl

none_there : IsSound policy trusting
unfolding find
none_there = record {
  consistent = record {
    score = λ id u h. ground arith;
    level = λ id u h. ground arith;
    indexed = λ id u h. ground arith;
  };
  unique = tt;
}

fresh : IsFreshIn (env "a") trusting
unfolding find
fresh = record {
  unused = λ i. record { no_user = refl; no_flags = refl };
  unused_flag = λ i. refl;
  distinct = refl;
}

-- A trusted user flags another one, and an administrator changes the weight of the flag.
abbrev run : Changes plain_js policy trusting with_patch
run =
    Changes.then_ {mid = with_one}
      (Changes.then_ {mid = trusting} Changes.none_yet
        (Change.flag (env "a") dto bot flagged fresh created))
      (Change.patch_flag (env "b") "1" "9" flag_id body rescored changed)

Changes-IsSound_example : IsSound policy with_patch
Changes-IsSound_example = Changes-IsSound plain_js policy starts run none_there
