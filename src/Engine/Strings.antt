-- ===== src/Engine/Strings.antt =====
-- src/engine/engine.js: the operations on strings and on keys as a whole, over tables and cache.
-- `clock()` is an argument `now`, read once for a call.  `cacheKey`, which is base64 and so one to
-- one, is the key itself; `Buffer.from` copies, and values do not change here.  An engine without a
-- cache is one whose cache is off.
pub mod Coherent
pub mod Reads
pub mod Gets
pub mod Sets
pub mod Expiries
pub mod Refines
use resplite.Base.{
  ℕ, suc, ◌+◌, ◌*◌, ◌/◌, Bool, true, false, Option, none, some, List, [], ◌∷◌, Bytes, if◌then◌else◌,
  bytes_eq, ◌==◌, length,
}
use resplite.Base.Int.{ℤ, pos, negsuc, ◌+ℤ◌, ◌-ℤ◌, leb_ℤ}
use resplite.Base.Maps
use resplite.Cache
use resplite.Cache.{Cache}
use resplite.Cache.Sizes.{Value, buffer}
use resplite.Cache.Lru.{Entry}
use resplite.Storage.{Db, KeyMeta, set, Result, ok, err, wrong_type, ◌>>=◌}
use resplite.Storage.Keys
use resplite.Storage.Keys.{Options, no_options}
use resplite.Storage.Strings
use resplite.Storage.Strings.{is_string}

pub record State : Type 0 where
  pub db : Db
  pub cache : Cache

-- "string"
abbrev pub string_kind : Bytes
string_kind = 115 ∷ 116 ∷ 114 ∷ 105 ∷ 110 ∷ 103 ∷ []

unfoldable pub invalidate : Bytes → State → State
invalidate key st = record st { cache = Cache.invalidate key st.cache }

-- `cacheString` of a value that is not null
unfoldable pub cache_string : Bytes → Bytes → ℕ → Option ℤ → State → State
cache_string key value version expires_at st = record st {
  cache = Cache.set key string_kind (buffer value) version expires_at st.cache;
}

-- The bytes that `Buffer.from` makes of a cached string; the engine caches a buffer.
abbrev pub bytes_of : Value → Bytes
bytes_of (buffer b) = b
bytes_of _ = []

pub data Cached : Type 0 where
  miss : Cached
  hit : Option Bytes → Cached

unfoldable pub is_past : ℤ → Option ℤ → Bool
is_past now none = false
is_past now (some t) = leb_ℤ t now

-- The key goes from the tables and from the cache.
unfoldable pub forget : Bytes → State → State
forget key st = record { db = Keys.delete key st.db; cache = Cache.invalidate key st.cache }

unfoldable pub read_entry : ℤ → Bytes → Option Entry → State → Cached × State
read_entry now key none st = (miss, st)
read_entry now key (some entry) st =
    if entry.kind == string_kind
    then (if is_past now entry.expires_at
        then (hit none, forget key st)
        else (hit (some (bytes_of entry.value)), st))
    else (miss, st)

unfoldable pub read_cached_string : ℤ → Bytes → State → Cached × State
read_cached_string now key st =
    let (entry, cache) = Cache.get key st.cache in
    read_entry now key entry (record st { cache = cache })

-- `getKeyMeta`: a key whose time is over goes when it is looked at.
unfoldable pub get_key_meta : ℤ → Bytes → State → Option KeyMeta × State
get_key_meta now key st = elim (Keys.get key st.db) [
  | none ↦ (none, st)
  | some m ↦ if is_past now m.expires_at then (none, forget key st) else (some m, st)
]

-- What `readString` does once the key's row is at hand.
unfoldable pub load_string : Bytes → Bool → Option KeyMeta → State → Result (Option Bytes) × State
load_string key wrong_type_as_null none st = (ok none, st)
load_string key wrong_type_as_null (some m) st =
    if is_string m.kind
    then elim (Strings.get key st.db) [
      | none ↦ (ok none, st)
      | some value ↦ (ok (some value), cache_string key value m.version m.expires_at st)
    ]
    else (if wrong_type_as_null then ok none else err wrong_type, st)

-- `readString` behind its look into the cache.
unfoldable pub past_cache : ℤ → Bytes → Bool → Cached → State → Result (Option Bytes) × State
past_cache now key wrong_type_as_null (hit value) st = (ok value, st)
past_cache now key wrong_type_as_null miss st =
    let (meta, st') = get_key_meta now key st in load_string key wrong_type_as_null meta st'

unfoldable pub read_string : ℤ → Bytes → Bool → State → Result (Option Bytes) × State
read_string now key wrong_type_as_null st =
    let (cached, st') = read_cached_string now key st in
    past_cache now key wrong_type_as_null cached st'

unfoldable pub get : ℤ → Bytes → State → Result (Option Bytes) × State
get now key st = read_string now key false st

unfoldable pub size_of : Option Bytes → ℕ
size_of none = 0
size_of (some b) = length b

unfoldable pub strlen : ℤ → Bytes → State → Result ℕ × State
strlen now key st = let (r, st') = read_string now key false st in (r >>= λ v. ok (size_of v), st')

unfoldable pub mget : ℤ → List Bytes → State → List (Result (Option Bytes)) × State
mget now [] st = ([], st)
mget now (key ∷ keys) st =
    let (r, st₁) = read_string now key true st in let (rs, st₂) = mget now keys st₁ in (r ∷ rs, st₂)

unfoldable pub version_after_write : Option KeyMeta → ℕ
version_after_write none = 1
version_after_write (some m) = m.version + 1

-- A number of seconds in milliseconds.
unfoldable pub milliseconds : ℤ → ℤ
milliseconds (pos n) = pos (n * 1000)
milliseconds (negsuc n) = negsuc (n * 1000 + 999)

-- The options `expiresAt`, `ex` and `px` of `set`.
pub record Expiry : Type 0 where
  pub expires_at : Option ℤ
  pub ex : Option ℤ
  pub px : Option ℤ

-- The sums are exact as long as they are safe integers; beyond them JavaScript rounds.
unfoldable pub expiry_at : ℤ → Expiry → Option ℤ
expiry_at now o = elim o.px [
  | some ms ↦ some (now +ℤ ms)
  | none ↦ elim o.ex [ none ↦ o.expires_at | some s ↦ some (now +ℤ milliseconds s) ]
]

-- What the tables took goes to the cache.
unfoldable pub cache_stored :
    Bytes → Bytes → ℕ → Option ℤ → State → Result (Unit {0}) × Db → Result (Unit {0}) × State
cache_stored key value version expires_at st (ok _, db) =
    (ok tt, cache_string key value version expires_at (record st { db = db }))
cache_stored key value version expires_at st (err e, db) = (err e, record st { db = db })

unfoldable pub store_string :
    ℤ → Bytes → Bytes → Option ℤ → Option KeyMeta → State → Result (Unit {0}) × State
store_string now key value expires_at existing st =
    let o : Options = record no_options {
      expires_at = expires_at;
      existing_meta = some existing;
    } in
    cache_stored key value (version_after_write existing) expires_at st
      (Strings.set key value now o st.db)

unfoldable pub set_string : ℤ → Bytes → Bytes → Expiry → State → Result (Unit {0}) × State
set_string now key value o st =
    let (existing, st₁) = get_key_meta now key st in
    store_string now key value (expiry_at now o) existing st₁

unfoldable pub del : List Bytes → State → ℕ × State
del [] st = (0, st)
del (key ∷ keys) st =
    let there = Keys.get key st.db in
    let (n, st') = del keys (elim there [ none ↦ invalidate key st | some _ ↦ forget key st ]) in
    (elim there [ none ↦ n | some _ ↦ suc n ], st')

unfoldable pub exists : ℤ → List Bytes → State → ℕ × State
exists now [] st = (0, st)
exists now (key ∷ keys) st =
    let (meta, st₁) = get_key_meta now key st in
    let (n, st₂) = exists now keys st₁ in (elim meta [ none ↦ n | some _ ↦ suc n ], st₂)

-- `expire`, `pexpire` and `persist` differ in the time that they set.
unfoldable pub re_time : ℤ → Bytes → Option ℤ → Option KeyMeta → State → Bool × State
re_time now key expires_at none st = (false, st)
re_time now key expires_at (some _) st =
    (true, invalidate key (record st { db = Keys.set_expires key expires_at now st.db }))

unfoldable pub set_expiry : ℤ → Bytes → Option ℤ → State → Bool × State
set_expiry now key expires_at st =
    let (meta, st') = get_key_meta now key st in re_time now key expires_at meta st'

unfoldable pub expire : ℤ → Bytes → ℤ → State → Bool × State
expire now key seconds st = set_expiry now key (some (now +ℤ milliseconds seconds)) st

unfoldable pub pexpire : ℤ → Bytes → ℤ → State → Bool × State
pexpire now key ms st = set_expiry now key (some (now +ℤ ms)) st

unfoldable pub persist : ℤ → Bytes → State → Bool × State
persist now key st = set_expiry now key none st

-- `pttl`, and `ttl` in whole seconds.
unfoldable pub remaining : ℤ → Option KeyMeta → ℤ
remaining now none = negsuc 1
remaining now (some m) = elim m.expires_at [
  | none ↦ negsuc 0
  | some t ↦ let ms = t -ℤ now in if leb_ℤ ms (pos 0) then negsuc 1 else ms
]

unfoldable pub pttl : ℤ → Bytes → State → ℤ × State
pttl now key st = let (meta, st') = get_key_meta now key st in (remaining now meta, st')

unfoldable pub in_seconds : ℤ → ℤ
in_seconds (pos ms) = pos (ms / 1000)
in_seconds (negsuc n) = negsuc n

unfoldable pub ttl : ℤ → Bytes → State → ℤ × State
ttl now key st = let (ms, st') = pttl now key st in (in_seconds ms, st')
