-- ===== src/Cache.antt =====
-- The cache of packages/backend/internal/pkg/cache/cache.go. SHA-256 is the parameter `hash`, with its
-- 32 bytes as a text. A time is in nanoseconds from the epoch on, and a call gets the time at which it
-- runs. The mutex makes each call one step.
pub mod Writes
use kkite.Prelude.{ℕ, ◌+◌, String, Option, none, some, ltb, if◌then◌else◌}
use kkite.Store.{put}
use Prim.Native.Nat.{◌/◌}

pub record CacheEntry (V : Type 0) : Type 0 where
  pub value : V
  pub expiration : ℕ

abbrev pub Cache : Type 0 → Type 0
Cache V = String → Option (CacheEntry V)

abbrev pub empty_cache : {V : Type 0} → Cache V
empty_cache hashed_key = none

-- `Time.Unix`: whole seconds.
abbrev pub unix : ℕ → ℕ
unix time = time / 1000000000

abbrev pub value_at : {V : Type 0} → ℕ → Option (CacheEntry V) → Option V
value_at now none = none
value_at now (some entry) = if ltb entry.expiration (unix now) then none else some entry.value

module _ (hash : String → String) {V : Type 0} where
  unfoldable pub set : String → V → ℕ → ℕ → Cache V → Cache V
  set key value duration now items =
      put (hash key) (record { value = value; expiration = unix (now + duration) }) items

  unfoldable pub get : String → ℕ → Cache V → Option V
  get key now items = value_at now (items (hash key))
