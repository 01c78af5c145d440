-- ===== src/Storage/Keys.antt =====
-- src/storage/sqlite/keys.js: the statements over redis_keys, and `createKeysStorage`.
-- `now` is `options.updatedAt ?? Date.now()`.
use resplite.Base.{
  ℕ, ◌+◌, Bool, false, Option, none, some, List, [], ◌∷◌, Bytes, bytes_eq, ◌==◌, if◌then◌else◌,
  length,
}
use resplite.Base.Int.{ℤ, leb_ℤ}
use resplite.Base.Maps
use resplite.Storage.{Db, KeyMeta, KeyType, hash, set, zset, empty_db, Result, ok, err, constraint}

-- A table of a key's rows, with the rows of one key replaced.
abbrev pub at_key {ℓ} : {A : Type ℓ} → Bytes → A → (Bytes → A) → Bytes → A
at_key k a f j = if k == j then a else f j

unfoldable pub get : Bytes → Db → Option KeyMeta
get key db = Maps.get key db.keys

pub record Options : Type 0 where
  pub expires_at : Option ℤ
  pub set_count : Option ℕ
  pub hash_count : Option ℕ
  pub zset_count : Option ℕ
  -- `none`: the option is not given
  pub existing_meta : Option (Option KeyMeta)

abbrev pub no_options : Options
no_options = record {
  expires_at = none;
  set_count = none;
  hash_count = none;
  zset_count = none;
  existing_meta = none;
}

-- `options.xCount ?? existing?.xCount ?? 0`
count_of : Option ℕ → Option ℕ → ℕ
count_of (some n) _ = n
count_of none (some n) = n
count_of none none = 0

and_then {ℓ} : {A B : Type ℓ} → Option A → (A → Option B) → Option B
and_then none f = none
and_then (some a) f = f a

set_count_for : KeyType → Options → Option KeyMeta → Option ℕ
set_count_for set o m = some (count_of o.set_count (and_then m (λ r. r.set_count)))
set_count_for _ o m = none

hash_count_for : KeyType → Options → Option KeyMeta → Option ℕ
hash_count_for hash o m = some (count_of o.hash_count (and_then m (λ r. r.hash_count)))
hash_count_for _ o m = none

zset_count_for : KeyType → Options → Option KeyMeta → Option ℕ
zset_count_for zset o m = some (count_of o.zset_count (and_then m (λ r. r.zset_count)))
zset_count_for _ o m = none

unfoldable pub existing_of : Options → Option KeyMeta → Option KeyMeta
existing_of o row = elim o.existing_meta [ none ↦ row | some given ↦ given ]

-- `UPDATE redis_keys SET … WHERE key = ?`
unfoldable pub update : Bytes → (KeyMeta → KeyMeta) → Db → Db
update key f db = elim (get key db) [
  | none ↦ db
  | some row ↦ record db { keys = Maps.set key (f row) db.keys }
]

-- `INSERT INTO redis_keys …`
unfoldable pub insert : Bytes → KeyMeta → Db → Result Db
insert key row db = elim (get key db) [
  | none ↦ ok (record db { keys = Maps.set key row db.keys })
  | some _ ↦ err constraint
]

-- The columns that `set` writes, beside the version.
unfoldable pub new_row : KeyType → ℤ → Options → Option KeyMeta → ℕ → KeyMeta
unfolding count_of and_then set_count_for hash_count_for zset_count_for
new_row kind now o existing version = record {
  kind = kind;
  expires_at = o.expires_at;
  set_count = set_count_for kind o existing;
  hash_count = hash_count_for kind o existing;
  zset_count = zset_count_for kind o existing;
  version = version;
  updated_at = now;
}

unfoldable pub set_key : Bytes → KeyType → ℤ → Options → Db → Result Db
unfolding existing_of update insert new_row
set_key key kind now o db =
    let existing = existing_of o (get key db) in
    elim existing [
      | none ↦ insert key (new_row kind now o none 1) db
      | some m ↦ ok (update key (λ row. new_row kind now o (some m) (row.version + 1)) db)
    ]

unfoldable pub set_expires : Bytes → Option ℤ → ℤ → Db → Db
unfolding update
set_expires key expires_at now =
    update key (λ row. record row { expires_at = expires_at; updated_at = now })

unfoldable pub bump_version : Bytes → ℤ → Db → Db
unfolding update
bump_version key now =
    update key (λ row. record row { version = row.version + 1; updated_at = now })

-- `DELETE FROM redis_keys WHERE key = ?`, with its cascade.
unfoldable pub delete : Bytes → Db → Db
delete key db = record {
  keys = Maps.delete key db.keys;
  strings = at_key key none db.strings;
  list_meta = at_key key none db.list_meta;
  list_items = at_key key [] db.list_items;
}

unfoldable pub delete_all : Db → ℕ × Db
delete_all db = (length db.keys, empty_db)

-- `expires_at IS NOT NULL AND expires_at <= ?`
unfoldable pub is_expired : ℤ → KeyMeta → Bool
is_expired now row = elim row.expires_at [ none ↦ false | some t ↦ leb_ℤ t now ]

delete_keys : List Bytes → Db → Db
delete_keys [] db = db
delete_keys (k ∷ ks) db = delete_keys ks (delete k db)

unfoldable pub expired_keys : ℤ → List (Bytes × KeyMeta) → List Bytes
expired_keys now [] = []
expired_keys now ((k, row) ∷ m) =
    let rest = expired_keys now m in if is_expired now row then k ∷ rest else rest

unfoldable pub delete_expired : ℤ → Db → Db
unfolding delete_keys
delete_expired now db = delete_keys (expired_keys now db.keys) db

unfoldable pub count : Db → ℕ
count db = length db.keys
