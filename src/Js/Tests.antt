-- ===== src/Js/Tests.antt =====
-- The text functions at concrete inputs.
use protect_platform.Js.{split_commas, is_snowflake, strip_prefix}
use protect_platform.Prelude.{false, [], true, ◌∷◌, some, ◌≡◌, refl}

splits : split_commas "12, 3,,4" ≡ "12" ∷ " 3" ∷ "" ∷ "4" ∷ []
unfolding split_commas
splits = refl

strips : strip_prefix "Bearer " "Bearer abc" ≡ some "abc"
unfolding strip_prefix
strips = refl

snowflakes : (is_snowflake "123456789012345678" ≡ true) × (is_snowflake "12345" ≡ false)
unfolding is_snowflake
snowflakes = (refl, refl)
