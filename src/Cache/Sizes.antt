-- ===== src/Cache/Sizes.antt =====
-- src/cache/lru.js, `estimateSize`: the JavaScript values that the cache holds, and their size.
use resplite.Base.{ℕ, ◌+◌, ◌*◌, Bytes, length}

-- A string is its list of UTF-16 units; the keys of a `Map` are strings.
mutual
  pub data Value : Type 0 where
    null : Value
    buffer : Bytes → Value
    text : Bytes → Value
    array : Items → Value
    map : Pairs → Value
    other : Value

  pub data Items : Type 0 where
    nil : Items
    item : Value → Items → Items

  pub data Pairs : Type 0 where
    end : Pairs
    pair : Bytes → Value → Pairs → Pairs

unfoldable mutual
  pub estimate_size : Value → ℕ
  estimate_size null = 0
  estimate_size (buffer b) = length b
  estimate_size (text s) = length s * 2
  estimate_size (array xs) = estimate_items xs
  estimate_size (map ps) = estimate_pairs ps
  estimate_size other = 8

  pub estimate_items : Items → ℕ
  estimate_items nil = 0
  estimate_items (item v xs) = estimate_size v + estimate_items xs

  pub estimate_pairs : Pairs → ℕ
  estimate_pairs end = 0
  estimate_pairs (pair k v ps) = length k * 2 + estimate_size v + estimate_pairs ps
