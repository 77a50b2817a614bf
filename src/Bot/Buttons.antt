-- ===== src/Bot/Buttons.antt =====
-- apps/bot/src/services/joinHold.ts and apps/bot/src/interactions/joinHoldButton.ts: the buttons under
-- the message on a held member, and what happens when one is pressed.
use Prim.Native.String.{◌++◌}
use protect_platform.Js.{is_snowflake, split_on}
use protect_platform.Prelude.{
  ◌&&◌, [], ◌==◌, not, is_some, ◌∷◌, false, if◌then◌else◌, String, List, Option, some, none, Bool,
}
pub mod Printed
mod Tests

pub data HoldAction : Type 0 where
  kick ban release : HoldAction

abbrev pub letter : HoldAction → String
letter kick = "k"
letter ban = "b"
letter release = "r"

abbrev pub colon : String → String → String
colon s t = s ++ (":" ++ t)

-- The `customId` of a button.
unfoldable pub button_id : HoldAction → String → String → String
button_id action guild user = colon "sjh" (colon (letter action) (colon guild user))

pub join_hold_action_row : String → String → List String
join_hold_action_row guild user =
    button_id kick guild user ∷ button_id ban guild user ∷ button_id release guild user ∷ []

pub record Button : Type 0 where
  pub action : HoldAction
  pub guild_id : String
  pub user_id : String

abbrev pub action_of : String → Option HoldAction
action_of s =
    if s == "k"
    then some kick
    else if s == "b"
    then some ban
    else if s == "r"
    then some release
    else none

abbrev pub button_of : String → String → Option HoldAction → Option Button
button_of guild user none = none
button_of guild user (some action) =
    some record { action = action; guild_id = guild; user_id = user }

abbrev pub parse_parts : List String → Option Button
parse_parts (name ∷ action ∷ guild ∷ user ∷ []) =
    if name == "sjh" && is_snowflake guild && is_snowflake user
    then button_of guild user (action_of action)
    else none
parse_parts _ = none

-- `/^sjh:([kbr]):(\d{17,20}):(\d{17,20})$/`: no group takes a colon.
unfoldable pub parse_join_hold_button_id : String → Option Button
parse_join_hold_button_id s = parse_parts (split_on b':' s)

pub is_join_hold_button : String → Bool
is_join_hold_button s = is_some (parse_join_hold_button_id s)

pub record Permissions : Type 0 where
  pub kick_members : Bool
  pub ban_members : Bool
  pub moderate_members : Bool

abbrev pub permits : Permissions → HoldAction → Bool
permits p kick = p.kick_members
permits p ban = p.ban_members
permits p release = p.moderate_members

pub data Answer : Type 0 where
  invalid outside no_permissions gone failed : Answer
  needs : HoldAction → Answer
  done : HoldAction → Answer

-- What Discord says of the press: `guild_id` and `permissions` are those of the interaction,
-- `inside` that it has a guild and a member, `is_present` that the target is found, and `works` that
-- the call on the target does not throw.
pub record Press : Type 0 where
  pub custom_id : String
  pub guild_id : Option String
  pub inside : Bool
  pub permissions : Option Permissions
  pub is_present : String → Bool
  pub works : HoldAction → String → Bool

-- The call that is made on a member, and the answer.
pub record Pressed : Type 0 where
  pub called : Option (HoldAction × String)
  pub answer : Answer

abbrev refused : Answer → Pressed
refused answer = record { called = none; answer = answer }

abbrev pub carry_out : Press → Button → Pressed
carry_out press b = record {
  called = some (b.action, b.user_id);
  answer = if press.works b.action b.user_id then done b.action else failed;
}

abbrev pub with_permissions : Press → Button → Option Permissions → Pressed
with_permissions press b none = refused no_permissions
with_permissions press b (some p) =
    if not (permits p b.action)
    then refused (needs b.action)
    else if not (press.is_present b.user_id)
    then refused gone
    else carry_out press b

abbrev pub same_guild : Option String → String → Bool
same_guild none guild = false
same_guild (some g) guild = guild == g

abbrev pub with_button : Press → Option Button → Pressed
with_button press none = refused invalid
with_button press (some b) =
    if not (same_guild press.guild_id b.guild_id)
    then refused invalid
    else if not press.inside
    then refused outside
    else with_permissions press b press.permissions

unfoldable pub execute_join_hold_button : Press → Pressed
execute_join_hold_button press = with_button press (parse_join_hold_button_id press.custom_id)
