-- ===== src/Engine/Lists.antt =====
-- src/engine/engine.js: the operations on lists, over tables and cache, but for the pushes.
-- `clock()` and `Date.now()` are an argument `now`, read once for a call, as in Strings.  What
-- `parseInt` makes of an index or a count is an argument too: `none` is NaN.
pub mod Served
pub mod Listed
pub mod Reads
pub mod Ranges
pub mod Writes
pub mod Pushes
pub mod Serves
pub mod Fifo
use resplite.Base.{
  ℕ, zero, suc, ◌+◌, ◌||◌, Bool, true, false, Option, none, some, List, [], ◌∷◌, Bytes,
  if◌then◌else◌, length, ltb, bytes_eq, ◌==◌,
}
use resplite.Base.Int.{ℤ, pos, negsuc}
use resplite.Cache
use resplite.Cache.Lru.{Entry}
use resplite.Cache.Sizes.{Value, Items, array, nil, item, buffer}
use resplite.Storage.{
  Db, KeyMeta, Result, ok, err, wrong_type, no_such_key, index_out_of_range, not_an_integer, ◌>>=◌,
}
use resplite.Storage.Lists
use resplite.Storage.Lists.{is_list}
use resplite.Storage.Lists.Removes
use resplite.Storage.Lists.Removes.{Popped, null, one, many}
use resplite.Engine.Cached.{cached_list_range, cached_list_index}
use resplite.Engine.Strings.{State, invalidate, forget, is_past, get_key_meta}

-- "list"
abbrev pub list_kind : Bytes
list_kind = b'l' ∷ b'i' ∷ b's' ∷ b't' ∷ []

-- `cache.limits`
pub record ListLimits : Type 0 where
  pub max_list_items : ℕ
  pub max_list_bytes : ℕ

abbrev pub default_limits : ListLimits
default_limits = record { max_list_items = 256; max_list_bytes = 262144 }

-- An array of buffers.
unfoldable pub items_of : List Bytes → Items
items_of [] = nil
items_of (v ∷ vs) = item (buffer v) (items_of vs)

unfoldable pub values_in : Items → List Bytes
values_in nil = []
values_in (item (buffer v) xs) = v ∷ values_in xs
values_in (item _ xs) = values_in xs

unfoldable pub values_of : Value → List Bytes
values_of (array xs) = values_in xs
values_of _ = []

unfoldable pub total_length : List Bytes → ℕ
total_length [] = 0
total_length (v ∷ vs) = length v + total_length vs

unfoldable pub cache_list : ListLimits → Bytes → List Bytes → KeyMeta → State → State
cache_list limits key values m st =
    if ltb limits.max_list_items (length values) || ltb limits.max_list_bytes (total_length values)
    then invalidate key st
    else record st {
      cache = Cache.set key list_kind (array (items_of values)) m.version m.expires_at st.cache;
    }

-- `CACHE_MISS`, null, or the values.
pub data Collection : Type 0 where
  miss : Collection
  gone : Collection
  held : List Bytes → Collection

unfoldable pub read_collection_entry : ℤ → Bytes → Option Entry → State → Collection × State
read_collection_entry now key none st = (miss, st)
read_collection_entry now key (some entry) st =
    if entry.kind == list_kind
    then (if is_past now entry.expires_at
        then (gone, forget key st)
        else (held (values_of entry.value), st))
    else (miss, st)

-- `readCachedCollection` of the kind "list"
unfoldable pub read_cached_list : ℤ → Bytes → State → Collection × State
read_cached_list now key st =
    let (entry, cache) = Cache.get key st.cache in
    read_collection_entry now key entry (record st { cache = cache })

-- The part of a read behind the cache and `getKeyMeta`: `absent` is its answer without the key.
unfoldable pub of_list {ℓ} :
    {A : Type ℓ} → A → (KeyMeta → State → A × State) → Option KeyMeta → State → Result A × State
of_list absent read none st = (ok absent, st)
of_list absent read (some m) st =
    let (a, st') = read m st in if is_list m.kind then (ok a, st') else (err wrong_type, st)

-- The frame of LLEN, LRANGE and LINDEX.
unfoldable pub read_list {ℓ} :
    {A : Type ℓ}
    → ℤ
    → Bytes
    → A
    → (List Bytes → A)
    → (KeyMeta → State → A × State)
    → Collection
    → State
    → Result A × State
read_list now key absent cached read miss st =
    let (meta, st') = get_key_meta now key st in of_list absent read meta st'
read_list now key absent cached read gone st = (ok absent, st)
read_list now key absent cached read (held values) st = (ok (cached values), st)

unfoldable pub llen : ℤ → Bytes → State → Result ℤ × State
llen now key st =
    let (hit, st') = read_cached_list now key st in
    read_list now key (pos 0) (λ vs. pos (length vs)) (λ m s. (Lists.llen key s.db, s)) hit st'

is_whole : ℤ → ℤ → Bool
is_whole (pos zero) (negsuc zero) = true
is_whole _ _ = false

-- What LRANGE reads from the tables; the whole list goes to the cache.
unfoldable pub load_range : ListLimits → Bytes → ℤ → ℤ → KeyMeta → State → List Bytes × State
unfolding is_whole
load_range limits key s e m st =
    let values = Lists.lrange key s e st.db in
    (values, if is_whole s e then cache_list limits key values m st else st)

unfoldable pub lrange :
    ListLimits → ℤ → Bytes → Option ℤ → Option ℤ → State → Result (List Bytes) × State
lrange limits now key (some s) (some e) st =
    let (hit, st') = read_cached_list now key st in
    read_list now key [] (λ vs. cached_list_range vs s e) (load_range limits key s e) hit st'
lrange limits now key _ _ st = (ok [], st)

unfoldable pub lindex : ℤ → Bytes → Option ℤ → State → Result (Option Bytes) × State
lindex now key none st = (ok none, st)
lindex now key (some i) st =
    let (hit, st') = read_cached_list now key st in
    read_list now key none (λ vs. cached_list_index vs i) (λ m s. (Lists.lindex key i s.db, s)) hit
      st'

-- A write of the tables that does not throw, and the cache without the key.
abbrev pub written {ℓ} : {A : Type ℓ} → Bytes → State → Result A × Db → Result A × State
written key st (ok a, db) = (ok a, invalidate key (record st { db = db }))
written key st (err e, db) = (err e, record st { db = db })

-- `count != null && count > 0 ? [] : null`
unfoldable pub nothing_popped : Option ℤ → Popped
nothing_popped (some (pos (suc n))) = many []
nothing_popped _ = null

-- The frame of the other writes: `absent` is the answer without the key.
unfoldable pub write_list {ℓ} :
    {A : Type ℓ} → ℤ → Bytes → Result A → (Db → Result A × Db) → State → Result A × State
write_list now key absent write st =
    let (meta, st') = get_key_meta now key st in
    elim meta [
      | none ↦ (absent, st')
      | some m ↦ if is_list m.kind then written key st' (write st'.db) else (err wrong_type, st')
    ]

abbrev returned {ℓ} : {A : Type ℓ} → A × Db → Result A × Db
returned (a, db) = (ok a, db)

unfoldable pub lpop : ℤ → Bytes → Option ℤ → State → Result Popped × State
unfolding nothing_popped
lpop now key count =
    write_list now key (ok (nothing_popped count)) (λ db. returned (Removes.lpop key count now db))

unfoldable pub rpop : ℤ → Bytes → Option ℤ → State → Result Popped × State
unfolding nothing_popped
rpop now key count =
    write_list now key (ok (nothing_popped count)) (λ db. returned (Removes.rpop key count now db))

unfoldable pub lrem : ℤ → Bytes → Option ℤ → Bytes → State → Result ℕ × State
lrem now key none element = write_list now key (ok 0) (λ db. (err not_an_integer, db))
lrem now key (some count) element = write_list now key (ok 0) (Removes.lrem key count element now)

unfoldable pub lset : ℤ → Bytes → Option ℤ → Bytes → State → Result (Unit {0}) × State
lset now key none value = write_list now key (err no_such_key) (λ db. (err index_out_of_range, db))
lset now key (some i) value =
    write_list now key (err no_such_key) (Removes.lset key (some i) value now)

unfoldable pub ltrim : ℤ → Bytes → Option ℤ → Option ℤ → State → Result (Unit {0}) × State
ltrim now key (some s) (some e) =
    write_list now key (ok tt) (λ db. (ok tt, Removes.ltrim key s e now db))
ltrim now key _ _ =
    λ st. let (meta, st') = get_key_meta now key st in of_list tt (λ m s. (tt, s)) meta st'

-- An array of values, or the one value; `null` has none.
unfoldable pub popped_values : Popped → List Bytes
popped_values null = []
popped_values (one v) = v ∷ []
popped_values (many vs) = vs

-- "LEFT"
abbrev pub left_word : Bytes
left_word = b'L' ∷ b'E' ∷ b'F' ∷ b'T' ∷ []

abbrev pop_side : Bytes → Bytes → ℤ → ℤ → Db → Popped × Db
pop_side direction key count now db =
    if direction == left_word
    then Removes.lpop key (some count) now db
    else Removes.rpop key (some count) now db

abbrev pub Taken : Type 0
Taken = Option (Bytes × List Bytes)

-- Where nothing was popped, the loop goes on.
taken_or : Bytes → List Bytes → State → (State → Result Taken × State) → Result Taken × State
taken_or key [] st rest = rest st
taken_or key (v ∷ vs) st rest = (ok (some (key, v ∷ vs)), st)

unfoldable pub pop_first : ℤ → List Bytes → Bytes → ℤ → State → Result Taken × State
unfolding taken_or popped_values
pop_first now [] direction count st = (ok none, st)
pop_first now (key ∷ keys) direction count st =
    let rest = pop_first now keys direction count in
    let (meta, st₁) = get_key_meta now key st in
    let (p, db) = pop_side direction key count now st₁.db in
    let st₂ = invalidate key (record st₁ { db = db }) in
    elim meta [
      | none ↦ rest st₁
      | some m ↦
          if is_list m.kind then taken_or key (popped_values p) st₂ rest else (err wrong_type, st₁)
    ]

-- `runInTransaction` around what also changes the cache: an exception brings the tables back.
abbrev pub rolled_back {ℓ} : {A : Type ℓ} → State → Result A × State → Result A × State
rolled_back st (ok a, st') = (ok a, st')
rolled_back st (err e, st') = (err e, record st' { db = st.db })

unfoldable pub lmpop : ℤ → List Bytes → Bytes → ℤ → State → Result Taken × State
lmpop now keys direction count st = rolled_back st (pop_first now keys direction count st)
