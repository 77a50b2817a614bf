-- ===== src/Bot/Buttons/Printed.antt =====
-- apps/bot/src/services/joinHold.ts and apps/bot/src/interactions/joinHoldButton.ts: a button's text
-- and its parts, and who may press it.
use Prim.Native.Char.{code}
use Prim.Native.String.{◌++◌}
use Prim.Native.Char.{Char}
use text.Mathlib.TextEquality.{Char-path}
use text.Mathlib.TextLemmas.{nil-append, cons-append}
use protect_platform.Bot.Buttons.{
  same_guild, permits, Permissions, Press, execute_join_hold_button, release, ban, action_of, kick,
  letter, parse_parts, Button, HoldAction, parse_join_hold_button_id, button_id, colon,
}
use protect_platform.Prelude.{
  none, Option, Option-cases, ap, eq_iff, sym, ◌↔◌, ◌∙◌, inr, some, inl, Bool-cases, ◌&&◌, eqb,
  arith, [], not, refl, true, ◌≡◌, ◌∷◌, Bool, String, List, ℕ,
}
use protect_platform.Js.{prepend, split_on, is_snowflake, all_digits}

-- A text without a character.
unfoldable lacks : ℕ → String → Bool
lacks c String.[] = true
lacks c (String.◌∷◌ x s) = not (eqb (code x) c) && lacks c s

lacks-all_digits : (s : String) → all_digits s ≡ true → lacks b':' s ≡ true
unfolding all_digits lacks
lacks-all_digits String.[] h = refl
lacks-all_digits (String.◌∷◌ x s) h = ground (arith, lacks-all_digits s, h)

lacks-is_snowflake : (s : String) → is_snowflake s ≡ true → lacks b':' s ≡ true
unfolding is_snowflake
lacks-is_snowflake s h = ground (arith, lacks-all_digits s, h)

colon-empty : (t : String) → colon "" t ≡ String.◌∷◌ ":" t
colon-empty t =
    nil-append (":" ++ t) ∙ cons-append ":" "" t ∙ ap (λ u. String.◌∷◌ ":" u) (nil-append t)

split_on-last : (s : String) → lacks b':' s ≡ true → split_on b':' s ≡ s ∷ []
unfolding split_on lacks
split_on-last String.[] h = refl
split_on-last (String.◌∷◌ x s) h = ground (arith, split_on-last s, h)

split_on-colon :
    (s t : String) → lacks b':' s ≡ true → split_on b':' (colon s t) ≡ s ∷ split_on b':' t
unfolding split_on lacks
split_on-colon String.[] t h = rw (colon-empty t) refl
split_on-colon (String.◌∷◌ x s) t h =
    rw (cons-append x s (":" ++ t)) (ground (arith, h, split_on-colon s t))

abbrev joined : List String → String
joined [] = ""
joined (s ∷ []) = s
joined (s ∷ t ∷ rest) = colon s (joined (t ∷ rest))

split_on-cons :
    (s : String) → (first : String) × (rest : List String) × (split_on b':' s ≡ first ∷ rest)
unfolding split_on
split_on-cons String.[] = ("", [], refl)
split_on-cons (String.◌∷◌ x s) =
    let (first, rest, e) = split_on-cons s in
    elim (Bool-cases (eqb (code x) b':')) [
      | inl is ↦ ("", split_on b':' s, rw is refl)
      | inr other ↦ (String.◌∷◌ x first, rest, rw (other, e) refl)
    ]

-- A character put in front of the first of the texts is in front of them all.
joined-prepend :
    (x : Char) (first : String) (rest : List String)
    → joined (prepend x (first ∷ rest)) ≡ String.◌∷◌ x (joined (first ∷ rest))
joined-prepend x first [] = refl
joined-prepend x first (t ∷ rest) = cons-append x first (":" ++ joined (t ∷ rest))

joined-split_on : (s : String) → joined (split_on b':' s) ≡ s
unfolding split_on
joined-split_on String.[] = refl
joined-split_on (String.◌∷◌ x s) =
    let (first, rest, e) = split_on-cons s in
    let same : joined (first ∷ rest) ≡ s = rw (← e) (joined-split_on s) in
    elim (Bool-cases (eqb (code x) b':')) [
      | inl is ↦
          let is_colon : x ≡ ":" = Char-path x ":" (ground (arith, is)) in
          rw (is, e, same, is_colon) (colon-empty s)
      | inr other ↦ rw (other, e, joined-prepend x first rest, same) refl
    ]

lacks-letter : (action : HoldAction) → lacks b':' (letter action) ≡ true
unfolding lacks
lacks-letter kick = refl
lacks-letter ban = refl
lacks-letter release = refl

lacks-name : lacks b':' "sjh" ≡ true
unfolding lacks
lacks-name = refl

action_of-letter : (action : HoldAction) → action_of (letter action) ≡ some action
action_of-letter kick = refl
action_of-letter ban = refl
action_of-letter release = refl

split_on-button_id :
    (action : HoldAction) (guild user : String)
    → is_snowflake guild ≡ true
    → is_snowflake user ≡ true
    → split_on b':' (button_id action guild user) ≡ "sjh" ∷ letter action ∷ guild ∷ user ∷ []
unfolding button_id
split_on-button_id action guild user g u =
    rw
      (
        split_on-colon "sjh" (colon (letter action) (colon guild user)) lacks-name,
        split_on-colon (letter action) (colon guild user) (lacks-letter action),
        split_on-colon guild user (lacks-is_snowflake guild g),
        split_on-last user (lacks-is_snowflake user u),
      )
      refl

parse-parts :
    (parts : List String) (b : Button)
    → parse_parts parts ≡ some b
    → (joined parts ≡ button_id b.action b.guild_id b.user_id)
      × (is_snowflake b.guild_id ≡ true)
      × (is_snowflake b.user_id ≡ true)
unfolding button_id
parse-parts (name ∷ action ∷ guild ∷ user ∷ []) b h =
    let is_name : name ≡ "sjh" = ground (arith, eq_iff name "sjh", h) in
    let is_letter : action ≡ letter b.action =
      ground (arith, h, eq_iff action "k", eq_iff action "b", eq_iff action "r") in
    let (is_guild, g) : (guild ≡ b.guild_id) × (is_snowflake guild ≡ true) =
      ground (arith, h, eq_iff action "k", eq_iff action "b", eq_iff action "r") in
    let (is_user, u) : (user ≡ b.user_id) × (is_snowflake user ≡ true) =
      ground (arith, h, eq_iff action "k", eq_iff action "b", eq_iff action "r") in
    (cc (is_name, is_letter, is_guild, is_user), cc (is_guild, g), cc (is_user, u))
parse-parts _ b h = cc h

-- A text is read as a button exactly if it is the text of that button and its guild and user are
-- snowflakes.
pub parse_join_hold_button_id-button_id :
    (s : String) (b : Button)
    → (parse_join_hold_button_id s ≡ some b) ↔ (
        (s ≡ button_id b.action b.guild_id b.user_id)
        × (is_snowflake b.guild_id ≡ true)
        × (is_snowflake b.user_id ≡ true))
unfolding parse_join_hold_button_id
parse_join_hold_button_id-button_id s b = (
  λ h.
      let (same, g, u) = parse-parts (split_on b':' s) b h in
      (sym (joined-split_on s) ∙ same, g, u),
  λ (is_id, g, u).
      rw
        (
          is_id,
          split_on-button_id b.action b.guild_id b.user_id g u,
          g,
          u,
          action_of-letter b.action,
        )
        refl,
)

same_guild-some : (o : Option String) (guild : String) → same_guild o guild ≡ true → o ≡ some guild
same_guild-some none guild h = cc h
same_guild-some (some g) guild h = ground (arith, h, eq_iff guild g)

-- A press makes a call on a member only if its text is the button of that action and that member in
-- the guild of the press, and the presser has the permission for the action.
pub execute_join_hold_button-permits :
    (press : Press) (action : HoldAction) (user : String)
    → (execute_join_hold_button press).called ≡ some (action, user)
    → (guild : String) × (p : Permissions) × (press.custom_id ≡ button_id action guild user)
      × (press.guild_id ≡ some guild)
      × (press.permissions ≡ some p)
      × (permits p action ≡ true)
unfolding execute_join_hold_button
execute_join_hold_button-permits press action user h =
    elim (Option-cases (parse_join_hold_button_id press.custom_id)) [
      | inl missing ↦ ground (arith, missing, h)
      | inr (b, parsed) ↦ elim (Option-cases press.permissions) [
        | inl missing ↦ ground (arith, missing, parsed, h)
        | inr (p, there) ↦
            let (is_id, _, _) = (parse_join_hold_button_id-button_id press.custom_id b).0 parsed in
            let same : (b.action ≡ action) × (b.user_id ≡ user) × (permits p b.action ≡ true) =
              ground (arith, parsed, there, h) in
            let here : press.guild_id ≡ some b.guild_id =
              same_guild-some press.guild_id b.guild_id (ground (arith, parsed, there, h)) in
            (b.guild_id, p, cc (is_id, same.0, same.1), here, there, cc (same.0, same.2))
      ]
    ]
