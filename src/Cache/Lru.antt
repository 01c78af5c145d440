-- ===== src/Cache/Lru.antt =====
-- src/cache/lru.js, `createLRU`: an LRU map with a limit on entries and one on bytes.
-- The closure's variables are the record; `maxEntries` and `maxBytes` are natural numbers, so that
-- `<= 0` is `== 0`.
pub mod Bounds
pub mod Valid
pub mod Order
pub mod Uses
pub mod Recency
use resplite.Base.{
  ℕ, zero, suc, ◌+◌, ◌-◌, ◌||◌, Bool, true, false, Option, none, some, List, [], ◌∷◌, Bytes, ltb,
  leb, ◌==◌, bytes_eq, nat_eq, length, if◌then◌else◌,
}
use resplite.Base.Int.{ℤ}
use resplite.Base.Maps
use resplite.Cache.Sizes.{Value, estimate_size}

pub record Entry : Type 0 where
  pub kind : Bytes
  pub version : ℕ
  pub expires_at : Option ℤ
  pub value : Value

abbrev pub Entries : Type 0
Entries = List (Bytes × Entry)

pub record Lru : Type 0 where
  pub max_entries : ℕ
  pub max_bytes : ℕ
  pub entries : Entries
  pub total_bytes : ℕ
  pub hits : ℕ
  pub misses : ℕ

unfoldable pub create_lru : ℕ → ℕ → Lru
create_lru max_entries max_bytes = record {
  max_entries = max_entries;
  max_bytes = max_bytes;
  entries = [];
  total_bytes = 0;
  hits = 0;
  misses = 0;
}

abbrev pub size : Entry → ℕ
size ent = estimate_size ent.value

-- `map.delete(key); totalBytes -= estimateSize(ent.value)`
unfoldable pub drop_entry : Bytes → Entry → Lru → Lru
drop_entry key ent c = record c {
  entries = Maps.delete key c.entries;
  total_bytes = c.total_bytes - size ent;
}

-- `evictOne`: the first key of the map is the one that has not been used for longest.
evict_first : Entries → Lru → Lru
evict_first [] c = c
evict_first ((key, ent) ∷ _) c = drop_entry key ent c

unfoldable pub evict_one : Lru → Lru
unfolding evict_first
evict_one c = evict_first c.entries c

unfoldable pub get : Bytes → Lru → Option Entry × Lru
get key c = elim (Maps.get key c.entries) [
  | none ↦ (none, record c { misses = c.misses + 1 })
  | some ent ↦ (
    some ent,
    record c { entries = Maps.set key ent (Maps.delete key c.entries); hits = c.hits + 1 },
  )
]

-- The test of the `while` loop of `set`.
unfoldable pub over_limit : ℕ → Lru → Bool
over_limit size c = leb c.max_entries (length c.entries) || ltb c.max_bytes (c.total_bytes + size)

-- The loop, for at most `fuel` rounds; `set` gives it one round for each entry.
unfoldable pub make_room : ℕ → ℕ → Lru → Lru
make_room zero size c = c
make_room (suc fuel) size c = elim (over_limit size c) [
  | true ↦ make_room fuel size (evict_one c)
  | false ↦ c
]

unfoldable pub del : Bytes → Lru → Lru
del key c = elim (Maps.get key c.entries) [ none ↦ c | some ent ↦ drop_entry key ent c ]

-- The first guard of `set`: the value cannot fit.
unfoldable pub cannot_fit : ℕ → Lru → Bool
cannot_fit size c = c.max_entries == 0 || (c.max_bytes == 0 || ltb c.max_bytes size)

store : Bytes → Entry → Lru → Lru
store key entry c = record c {
  entries = Maps.set key entry c.entries;
  total_bytes = c.total_bytes + size entry;
}

unfoldable pub set : Bytes → Entry → Lru → Lru
unfolding store
set key entry c =
    let rest = del key c in
    if cannot_fit (size entry) c
    then rest
    else store key entry (make_room (length rest.entries) (size entry) rest)

unfoldable pub clear : Lru → Lru
clear c = record c { entries = []; total_bytes = 0 }

-- One call by a client of the cache.
pub data Call : Type 0 where
  get_call : Bytes → Call
  set_call : Bytes → Entry → Call
  del_call : Bytes → Call
  clear_call : Call

unfoldable pub step : Call → Lru → Lru
step (get_call key) c = (get key c).1
step (set_call key entry) c = set key entry c
step (del_call key) c = del key c
step clear_call c = clear c

unfoldable pub run : List Call → Lru → Lru
run [] c = c
run (x ∷ calls) c = run calls (step x c)
