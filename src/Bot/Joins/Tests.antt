-- ===== src/Bot/Joins/Tests.antt =====
-- A member that joins a guild which bans elevated members.
use protect_platform.Bot.Joins.Decided.{
  on_guild_member_add-calls, IsAllowed, kicks, is_kick, bans, is_ban,
}
use protect_platform.Prelude.{All, ◌&&◌, not, ◌≡◌, none, false, true, some, any}
use protect_platform.Bot.Joins.{
  is_elevated, parse_join_policy, wants_hold, ServerConfigLike, Joined, on_guild_member_add,
}

abbrev newcomer : Joined
newcomer = record {
  guild_id = "123456789012345678";
  user_id = "234567890123456789";
  kickable = true;
  bannable = true;
  is_sendable = λ s. true;
  timeout_works = true;
}

abbrev strict : ServerConfigLike
strict = record {
  alert_channel_id = some "345678901234567890";
  alert_min_level = some "WATCH";
  join_hold_enabled = some false;
  join_hold_duration_minutes = none;
  join_hold_min_level = none;
  join_action_policy = some "ban";
}

on_guild_member_add-calls_example :
    (any is_ban (on_guild_member_add newcomer (some "HIGH_RISK") (some strict)) ≡ (
      not (wants_hold strict "HIGH_RISK")
      && is_elevated strict "HIGH_RISK"
      && bans (parse_join_policy strict)
      && true))
    × (any is_kick (on_guild_member_add newcomer (some "HIGH_RISK") (some strict)) ≡ (
        not (wants_hold strict "HIGH_RISK")
        && is_elevated strict "HIGH_RISK"
        && kicks (parse_join_policy strict)
        && true))
    × All IsAllowed (on_guild_member_add newcomer (some "HIGH_RISK") (some strict))
on_guild_member_add-calls_example = on_guild_member_add-calls newcomer "HIGH_RISK" strict
