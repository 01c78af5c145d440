-- ===== src/Storage/Strings.antt =====
-- src/storage/sqlite/strings.js, `createStringsStorage`: the values of redis_strings, with the rows
-- of redis_keys that they belong to.
pub mod Writes
use resplite.Base.{
  Bool, true, false, Option, none, some, List, [], ◌∷◌, Bytes, if◌then◌else◌, bytes_eq,
}
use resplite.Base.Int.{ℤ}
use resplite.Storage.Keys
use resplite.Storage.Keys.{at_key, no_options, existing_of, Options}
use resplite.Storage.{
  Db, KeyType, KeyMeta, string, Result, ok, err, wrong_type, constraint, ◌>>=◌, run_in_transaction,
}

unfoldable pub is_string : KeyType → Bool
is_string string = true
is_string _ = false

-- `SELECT value FROM redis_strings`
unfoldable pub get : Bytes → Db → Option Bytes
get key db = db.strings key

-- `INSERT INTO redis_strings`; the primary key wants no row, the foreign key one of redis_keys.
unfoldable pub insert_text : Bytes → Bytes → Db → Result Db
insert_text key value db = elim (db.strings key) [
  | some _ ↦ err constraint
  | none ↦ elim (Keys.get key db) [
    | none ↦ err constraint
    | some _ ↦ ok (record db { strings = at_key key (some value) db.strings })
  ]
]

-- `UPDATE redis_strings SET value = ?`
unfoldable pub update_text : Bytes → Bytes → Db → Db
update_text key value db = elim (db.strings key) [
  | none ↦ db
  | some _ ↦ record db { strings = at_key key (some value) db.strings }
]

unfoldable pub delete_text : Bytes → Db → Db
delete_text key db = record db { strings = at_key key none db.strings }

-- `_setOne` on a key with a row of redis_keys, and on one without.
unfoldable pub overwrite : Bytes → Bytes → ℤ → Option ℤ → KeyMeta → Db → Result Db
overwrite key value now expires_at m db =
    let o : Options = record no_options {
      expires_at = expires_at;
      existing_meta = some (some m);
    } in
    if is_string m.kind
    then (do d ← Keys.set_key key string now o db; ok (update_text key value d))
    else err wrong_type

unfoldable pub create : Bytes → Bytes → ℤ → Option ℤ → Db → Result Db
create key value now expires_at db =
    let o : Options = record no_options { expires_at = expires_at; existing_meta = some none } in
    do d ← Keys.set_key key string now o db; insert_text key value d

unfoldable pub set_one : Bytes → Bytes → ℤ → Options → Db → Result Db
set_one key value now o db = elim (existing_of o (Keys.get key db)) [
  | some m ↦ overwrite key value now o.expires_at m db
  | none ↦ create key value now o.expires_at db
]

unfoldable pub set : Bytes → Bytes → ℤ → Options → Db → Result (Unit {0}) × Db
set key value now o db =
    run_in_transaction db (λ d. set_one key value now o d >>= λ d'. ok (tt, d'))

pub record Write : Type 0 where
  pub key : Bytes
  pub value : Bytes
  pub options : Options

unfoldable pub set_each : List Write → ℤ → Db → Result Db
set_each [] now db = ok db
set_each (w ∷ writes) now db = do d ← set_one w.key w.value now w.options db; set_each writes now d

unfoldable pub set_multiple : List Write → ℤ → Db → Result (Unit {0}) × Db
set_multiple writes now db =
    run_in_transaction db (λ d. set_each writes now d >>= λ d'. ok (tt, d'))

unfoldable pub delete : Bytes → Db → Db
delete key db = Keys.delete key (delete_text key db)

unfoldable pub copy_key : Bytes → Bytes → Db → Result Db
copy_key old_key new_key db = elim (get old_key db) [
  | none ↦ ok db
  | some value ↦ insert_text new_key value db
]
