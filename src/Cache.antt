-- ===== src/Cache.antt =====
-- src/cache/cache.js: the optional LRU cache in front of the storage.
pub mod Sizes
pub mod Lru
use resplite.Base.{ℕ, Bool, Option, none, Bytes, if◌then◌else◌}
use resplite.Base.Int.{ℤ}
use resplite.Cache.Sizes.{Value}

-- The object that `createCache` returns; `limits` are read by the engine alone.
pub record Cache : Type 0 where
  pub enabled : Bool
  pub lru : Lru.Lru

unfoldable pub create_cache : Bool → ℕ → ℕ → Cache
unfolding Lru.create_lru
create_cache enabled max_entries max_bytes = record {
  enabled = enabled;
  lru = Lru.create_lru max_entries max_bytes;
}

unfoldable pub get : Bytes → Cache → Option Lru.Entry × Cache
get key c =
    let (ent, lru) = Lru.get key c.lru in
    if c.enabled then (ent, record c { lru = lru }) else (none, c)

unfoldable pub set : Bytes → Bytes → Value → ℕ → Option ℤ → Cache → Cache
set key kind value version expires_at c =
    let entry : Lru.Entry = record {
      kind = kind;
      version = version;
      expires_at = expires_at;
      value = value;
    } in
    if c.enabled then record c { lru = Lru.set key entry c.lru } else c

unfoldable pub invalidate : Bytes → Cache → Cache
invalidate key c = if c.enabled then record c { lru = Lru.del key c.lru } else c

unfoldable pub clear : Cache → Cache
clear c = if c.enabled then record c { lru = Lru.clear c.lru } else c
