-- ===== src/Bot/Joins.antt =====
-- apps/bot/src/events/guildMemberAdd.ts and apps/bot/src/services/joinHold.ts: what the bot does when
-- a member joins a guild. The texts of the messages are left out.
use protect_platform.Bot.Buttons.{join_hold_action_row}
use protect_platform.Shared.Levels.{should_alert_user_level}
use protect_platform.Prelude.{
  none, max, ◌∷◌, not, some, ◌&&◌, ◌==◌, ◌-◌, false, [], ◌||◌, if◌then◌else◌, true, min, ◌*◌, ℕ,
  String, Bool, Option, List, or_else,
}
pub mod Decided
mod Tests

pub data JoinActionPolicy : Type 0 where
  log notify quarantine kick_out ban_out : JoinActionPolicy

pub record ServerConfigLike : Type 0 where
  pub alert_channel_id : Option String
  pub alert_min_level : Option String
  pub join_hold_enabled : Option Bool
  pub join_hold_duration_minutes : Option ℕ
  pub join_hold_min_level : Option String
  pub join_action_policy : Option String

abbrev policy_of : String → JoinActionPolicy
policy_of p =
    if p == "log"
    then log
    else if p == "quarantine"
    then quarantine
    else if p == "kick"
    then kick_out
    else if p == "ban"
    then ban_out
    else notify

-- Any other policy, and a missing one, is `notify`.
unfoldable pub parse_join_policy : ServerConfigLike → JoinActionPolicy
parse_join_policy cfg = policy_of (or_else cfg.join_action_policy "notify")

unfoldable pub should_apply_join_hold : ServerConfigLike → String → Bool
should_apply_join_hold cfg user_level =
    if not (or_else cfg.join_hold_enabled false)
    then false
    else should_alert_user_level user_level (some (or_else cfg.join_hold_min_level "SUSPICIOUS"))

-- The calls on the member, and the messages that are sent to a channel.
pub data Effect : Type 0 where
  timed_out : ℕ → Effect
  kicked banned : Effect
  hold_message :
      (channel : String) → (timeout_applied : Bool) → (minutes : ℕ) → List String → Effect
  alert_message : (channel : String) → Effect

-- The member, and what Discord says: which channels can be sent to, and whether the time-out works.
pub record Joined : Type 0 where
  pub guild_id : String
  pub user_id : String
  pub kickable : Bool
  pub bannable : Bool
  pub is_sendable : String → Bool
  pub timeout_works : Bool

abbrev pub max_timeout : ℕ
max_timeout = 28 * 24 * 60 * 60000 - 60000

abbrev pub timeout_ms : ServerConfigLike → ℕ
timeout_ms cfg = min (max 1 (or_else cfg.join_hold_duration_minutes 60) * 60000) max_timeout

abbrev hold_in : Joined → ServerConfigLike → String → List Effect
hold_in member cfg channel =
    if not (member.is_sendable channel)
    then []
    else timed_out (timeout_ms cfg)
      ∷ hold_message channel member.timeout_works (or_else cfg.join_hold_duration_minutes 60)
          (join_hold_action_row member.guild_id member.user_id)
      ∷ []

abbrev pub hold : Joined → ServerConfigLike → Option String → List Effect
hold member cfg none = []
hold member cfg (some channel) = hold_in member cfg channel

abbrev pub alert : Joined → Option String → List Effect
alert member none = []
alert member (some channel) =
    if not (member.is_sendable channel) then [] else alert_message channel ∷ []

abbrev pub apply_policy : Joined → ServerConfigLike → JoinActionPolicy → List Effect
apply_policy member cfg log = []
apply_policy member cfg kick_out = if member.kickable then kicked ∷ [] else []
apply_policy member cfg ban_out = if member.bannable then banned ∷ [] else []
apply_policy member cfg notify = alert member cfg.alert_channel_id
apply_policy member cfg quarantine = []

abbrev pub is_quarantine : JoinActionPolicy → Bool
is_quarantine quarantine = true
is_quarantine _ = false

abbrev pub is_elevated : ServerConfigLike → String → Bool
is_elevated cfg user_level = should_alert_user_level user_level cfg.alert_min_level

unfoldable pub wants_hold : ServerConfigLike → String → Bool
wants_hold cfg user_level =
    should_apply_join_hold cfg user_level
    || (is_quarantine (parse_join_policy cfg) && is_elevated cfg user_level)

abbrev pub react : Joined → ServerConfigLike → String → List Effect
react member cfg user_level =
    if wants_hold cfg user_level
    then hold member cfg cfg.alert_channel_id
    else if not (is_elevated cfg user_level)
    then []
    else apply_policy member cfg (parse_join_policy cfg)

-- `user_level` and `server` are what the API answers, none if the request fails.
unfoldable pub on_guild_member_add : Joined → Option String → Option ServerConfigLike → List Effect
on_guild_member_add member (some user_level) (some cfg) = react member cfg user_level
on_guild_member_add member _ _ = []
