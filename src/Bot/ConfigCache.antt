-- ===== src/Bot/ConfigCache.antt =====
-- apps/bot/src/services/serverConfigCache.ts: the configuration of the guilds, by guild.
use protect_platform.Prelude.{ltb, lookup, ◌+◌, Bool, put, Option, delete, ℕ, Dict, String}

pub record ServerConfigCacheEntry {ℓ} (T : Type ℓ) : Type ℓ where
  pub data_ : T
  pub fetched_at : ℕ
  pub expires_at : ℕ

abbrev pub Store : Type 0 → Type 0
Store T = Dict (ServerConfigCacheEntry T)

module _ {T : Type 0} where
  abbrev pub get : String → Store T → Option (ServerConfigCacheEntry T)
  get guild store = lookup guild store

  abbrev pub set : (now ttl_ms : ℕ) → String → T → Store T → Store T
  set now ttl_ms guild value store =
      put guild record { data_ = value; fetched_at = now; expires_at = now + ttl_ms } store

  abbrev pub invalidate : String → Store T → Store T
  invalidate guild store = delete guild store

  abbrev pub is_fresh : ℕ → ServerConfigCacheEntry T → Bool
  is_fresh now entry = ltb now entry.expires_at
