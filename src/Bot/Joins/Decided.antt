-- ===== src/Bot/Joins/Decided.antt =====
-- apps/bot/src/events/guildMemberAdd.ts: who is banned, kicked or timed out on joining.
use protect_platform.Prelude.{
  refl, none, inr, not, arith, ◌&&◌, inl, Bool-cases, ◌*◌, false, ◌≡◌, All, some, ◌<◌, true, String,
  Option, any, ◌≤◌, Bool,
}
use protect_platform.Bot.Joins.{
  notify, parse_join_policy, quarantine, is_elevated, log, wants_hold, ban_out, banned, kicked,
  kick_out, hold, apply_policy, alert, timeout_ms, timed_out, JoinActionPolicy, Joined, Effect,
  on_guild_member_add, ServerConfigLike,
}

abbrev pub is_ban : Effect → Bool
is_ban banned = true
is_ban _ = false

abbrev pub is_kick : Effect → Bool
is_kick kicked = true
is_kick _ = false

abbrev pub bans : JoinActionPolicy → Bool
bans ban_out = true
bans _ = false

abbrev pub kicks : JoinActionPolicy → Bool
kicks kick_out = true
kicks _ = false

-- A time-out of at least a minute and less than the 28 days that Discord allows.
abbrev pub IsAllowed : Effect → Type 0
IsAllowed (timed_out ms) = (60000 ≤ ms) × (ms < 28 * 24 * 60 * 60000)
IsAllowed _ = Unit

timeout_ms-bounded :
    (cfg : ServerConfigLike) → (60000 ≤ timeout_ms cfg) × (timeout_ms cfg < 28 * 24 * 60 * 60000)
timeout_ms-bounded cfg = (omega arith, omega arith)

hold-IsAllowed :
    (member : Joined) (cfg : ServerConfigLike) (channel : Option String)
    → All IsAllowed (hold member cfg channel)
hold-IsAllowed member cfg none = tt
hold-IsAllowed member cfg (some channel) = elim (Bool-cases (member.is_sendable channel)) [
  | inl can ↦ rw can (timeout_ms-bounded cfg, (tt, tt))
  | inr cannot ↦ rw cannot tt
]

hold-harmless :
    (member : Joined) (cfg : ServerConfigLike) (channel : Option String)
    → (any is_ban (hold member cfg channel) ≡ false)
      × (any is_kick (hold member cfg channel) ≡ false)
hold-harmless member cfg none = (refl, refl)
hold-harmless member cfg (some channel) = ground arith

alert-harmless :
    (member : Joined) (channel : Option String)
    → (any is_ban (alert member channel) ≡ false)
      × (any is_kick (alert member channel) ≡ false)
      × All IsAllowed (alert member channel)
alert-harmless member none = (refl, refl, tt)
alert-harmless member (some channel) = elim (Bool-cases (member.is_sendable channel)) [
  | inl can ↦ rw can (refl, refl, (tt, tt))
  | inr cannot ↦ rw cannot (refl, refl, tt)
]

apply_policy-calls :
    (member : Joined) (cfg : ServerConfigLike) (p : JoinActionPolicy)
    → (any is_ban (apply_policy member cfg p) ≡ (bans p && member.bannable))
      × (any is_kick (apply_policy member cfg p) ≡ (kicks p && member.kickable))
      × All IsAllowed (apply_policy member cfg p)
apply_policy-calls member cfg log = (refl, refl, tt)
apply_policy-calls member cfg quarantine = (refl, refl, tt)
apply_policy-calls member cfg notify = alert-harmless member cfg.alert_channel_id
apply_policy-calls member cfg kick_out = elim (Bool-cases member.kickable) [
  | inl can ↦ rw can (refl, refl, (tt, tt))
  | inr cannot ↦ rw cannot (refl, refl, tt)
]
apply_policy-calls member cfg ban_out = elim (Bool-cases member.bannable) [
  | inl can ↦ rw can (refl, refl, (tt, tt))
  | inr cannot ↦ rw cannot (refl, refl, tt)
]

-- A member is banned exactly if the policy is to ban, the level reaches the alert level, the member
-- is not held instead, and the bot may ban; kicked likewise. A time-out lasts at least a minute and
-- less than 28 days.
pub on_guild_member_add-calls :
    (member : Joined) (user_level : String) (cfg : ServerConfigLike)
    → (any is_ban (on_guild_member_add member (some user_level) (some cfg)) ≡ (
        not (wants_hold cfg user_level)
        && is_elevated cfg user_level
        && bans (parse_join_policy cfg)
        && member.bannable))
      × (any is_kick (on_guild_member_add member (some user_level) (some cfg)) ≡ (
          not (wants_hold cfg user_level)
          && is_elevated cfg user_level
          && kicks (parse_join_policy cfg)
          && member.kickable))
      × All IsAllowed (on_guild_member_add member (some user_level) (some cfg))
unfolding on_guild_member_add
on_guild_member_add-calls member user_level cfg =
    let (no_ban, no_kick) = hold-harmless member cfg cfg.alert_channel_id in
    let (ban, kick, allowed) = apply_policy-calls member cfg (parse_join_policy cfg) in
    elim (Bool-cases (wants_hold cfg user_level)) [
      | inl held ↦ rw held (no_ban, no_kick, hold-IsAllowed member cfg cfg.alert_channel_id)
      | inr free ↦ elim (Bool-cases (is_elevated cfg user_level)) [
        | inl high ↦ rw (free, high) (ban, kick, allowed)
        | inr low ↦ rw (free, low) (refl, refl, tt)
      ]
    ]
