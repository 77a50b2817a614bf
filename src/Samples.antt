-- ===== src/Samples.antt =====
-- Data for tests: an empty database, an empty Redis, the default policy, and names.
use protect_platform.Scores.Consistency.{IsConsistent}
use protect_platform.Shared.Levels.{FlagLevel}
use protect_platform.Scores.{score_of}
use Prim.Native.String.{◌++◌}
use protect_platform.Prelude.{
  eq_refl, eq_iff, arith, ◌∷◌, find, zero, suc, ℕ, String, none, [], Result, ok, err,
}
use protect_platform.Js.{Js}
use protect_platform.Policy.{level_from_score, Settings, FlagPolicy}
use protect_platform.Store.{FlagSource, User, Db, Env}
use protect_platform.Redis.{Redis}

abbrev pub empty_db : Db
empty_db = record {
  users = [];
  flags = [];
  reports = [];
  tickets = [];
  attachments = [];
  messages = [];
  outbox = [];
  processed = [];
  audit = [];
  trusted = [];
  accounts = [];
  license_keys = [];
  entitlements = [];
  servers = [];
  members = [];
  blacklist = [];
  stats = [];
}

abbrev pub empty_redis : Redis
empty_redis = record {
  versions = [];
  users = [];
  negatives = [];
  day_counts = [];
  cooldowns = [];
  markers = [];
  published = [];
  stream = [];
  backlog = none;
}

abbrev pub no_settings : Settings
no_settings = record {
  threshold_watch = none;
  threshold_suspicious = none;
  threshold_high_risk = none;
  threshold_confirmed = none;
  weight_multiplier = none;
  weight_cap = none;
  weight_community_report = none;
  tier_watch = none;
  tier_suspicious = none;
  tier_high_risk = none;
  tier_confirmed = none;
  weight_admin_override = none;
  decay_enabled = none;
  decay_half_life_days = none;
}

abbrev pub policy : FlagPolicy
policy = record { watch = 1; suspicious = 3; high_risk = 10; confirmed = 25; config = no_settings }

-- The identifiers of a call, told apart by the name of the call.
abbrev pub uuids : String → ℕ → String
uuids call zero = call ++ "/0"
uuids call (suc n) = uuids call n ++ "+1"

abbrev pub env : String → Env
env call = record { now = 1000; uuid = uuids call; correlation = none }

module _ {A : Type 0} where
  -- The value and the state of a run that succeeds.
  abbrev pub value_or : A → Result (A × Db) → A
  value_or d (ok (a, db)) = a
  value_or d (err e) = d

  abbrev pub state_or : Db → Result (A × Db) → Db
  state_or d (ok (a, db)) = db
  state_or d (err e) = d

-- A JavaScript whose texts are short and plain.
abbrev pub plain_js : Js
plain_js = record {
  trim = λ s. s;
  lower_case = λ s. s;
  collapse = λ s. s;
  size = λ s. 3;
  slice = λ n s. s;
  sha256_hex = λ s. s;
  decimal = uuids "";
}

-- A user with one flag.
abbrev pub suspect : User
suspect = record {
  id = "u";
  discord_id = "9";
  flag_score = 10;
  flag_level = FlagLevel.high_risk;
  state_version = 1;
  updated_at = 0;
}

abbrev pub flagged : Db
flagged = record empty_db {
  users = suspect ∷ [];
  flags =
      record {
        id = "f";
        user_id = "u";
        weight = 10;
        effective_weight = none;
        reason = "aimbot";
        source = FlagSource.trusted_command;
        actor_discord_id = "7";
        guild_id = none;
        created_at = 0;
      }
      ∷ [];
}

pub flagged-IsConsistent : IsConsistent policy flagged.users flagged.flags
unfolding find score_of level_from_score
flagged-IsConsistent = record {
  score = λ id u h. ground arith;
  level = λ id u h. ground arith;
  indexed = λ discord_id u h. ground (arith, eq_iff "u" u.id, eq_refl u.id);
}
