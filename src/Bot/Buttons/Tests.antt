-- ===== src/Bot/Buttons/Tests.antt =====
-- Buttons of one guild and one member.
use protect_platform.Bot.Buttons.Printed.{
  execute_join_hold_button-permits, parse_join_hold_button_id-button_id,
}
use protect_platform.Js.{size_of, all_digits, is_snowflake, split_on}
use protect_platform.Prelude.{refl, false, ◌↔◌, true, ◌≡◌, some, String}
use protect_platform.Bot.Buttons.{
  permits, button_id, ban, Permissions, execute_join_hold_button, Press, Button,
  parse_join_hold_button_id,
}

abbrev guild : String
guild = "123456789012345678"

abbrev member : String
member = "234567890123456789"

abbrev ban_button : Button
ban_button = record { action = ban; guild_id = guild; user_id = member }

abbrev press : Press
press = record {
  custom_id = "sjh:b:123456789012345678:234567890123456789";
  guild_id = some guild;
  inside = true;
  permissions = some record { kick_members = false; ban_members = true; moderate_members = false };
  is_present = λ s. true;
  works = λ a s. true;
}

parse_join_hold_button_id-button_id_example :
    (parse_join_hold_button_id press.custom_id ≡ some ban_button) ↔ (
      (press.custom_id ≡ button_id ban guild member)
      × (is_snowflake guild ≡ true)
      × (is_snowflake member ≡ true))
parse_join_hold_button_id-button_id_example =
    parse_join_hold_button_id-button_id press.custom_id ban_button

is_called : (execute_join_hold_button press).called ≡ some (ban, member)
unfolding execute_join_hold_button parse_join_hold_button_id split_on is_snowflake all_digits
    size_of
is_called = refl

execute_join_hold_button-permits_example :
    (g : String) × (p : Permissions) × (press.custom_id ≡ button_id ban g member)
    × (press.guild_id ≡ some g)
    × (press.permissions ≡ some p)
    × (permits p ban ≡ true)
execute_join_hold_button-permits_example =
    execute_join_hold_button-permits press ban member is_called
