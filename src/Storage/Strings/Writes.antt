-- ===== src/Storage/Strings/Writes.antt =====
-- src/storage/sqlite/strings.js: what `_setOne` writes, and when it refuses.
use resplite.Base.{
  ◌+◌, ◌≡◌, refl, ◌∙◌, ap, true, false, Option, none, some, Bytes, bytes_eq, ==_refl,
}
use resplite.Base.Int.{ℤ}
use resplite.Base.Maps
use resplite.Base.Maps.{Distinct}
use resplite.Storage.{
  Db, KeyMeta, string, Error, ok, err, wrong_type, transaction_ok, transaction_err,
}
use resplite.Storage.Keys
use resplite.Storage.Keys.{at_key, no_options, existing_of, Options, new_row, set_key}
use resplite.Storage.Frame.{SameElsewhere, at_key_same, at_key_ne, get-set_keys, get-update}
use resplite.Storage.Strings.{is_string, insert_text, update_text, overwrite, create, set_one, set}

-- The tables with a row of redis_keys and a value under the key.
unfoldable pub with_text : Bytes → KeyMeta → Bytes → Db → Db
with_text key row value db = record db {
  keys = Maps.set key row db.keys;
  strings = at_key key (some value) db.strings;
}

module _ (key value : Bytes) (row : KeyMeta) (db : Db) where
  pub with_text-SameElsewhere : SameElsewhere key db (with_text key row value db)
  unfolding with_text Keys.get
  with_text-SameElsewhere = record {
    keys = λ j h. get-set_keys key j row db ∙ (rw h);
    strings = at_key_ne key (some value) db.strings;
    list_meta = λ j h. refl;
    list_items = λ j h. refl;
  }

  pub with_text-row : Keys.get key (with_text key row value db) ≡ some row
  unfolding with_text Keys.get
  with_text-row = get-set_keys key key row db ∙ (rw ==_refl)

  pub with_text-value : (with_text key row value db).strings key ≡ some value
  unfolding with_text
  with_text-value = at_key_same key (some value) db.strings

  pub with_text-Distinct : Distinct db.keys → Distinct (with_text key row value db).keys
  unfolding with_text
  with_text-Distinct d = Maps.set-Distinct key row db.keys d

-- The options that `_setOne` hands on.
abbrev pub string_options : Option ℤ → Option KeyMeta → Options
string_options expires_at existing = record no_options {
  expires_at = expires_at;
  existing_meta = some existing;
}

insert_text-there :
    (key value : Bytes) (db : Db) (row : KeyMeta)
    → db.strings key ≡ none
    → Keys.get key db ≡ some row
    → insert_text key value db ≡ ok (record db { strings = at_key key (some value) db.strings })
unfolding insert_text
insert_text-there key value db row no_text there = rw (no_text, insert_text) (rw there)

update_text-there :
    (key value : Bytes) (db : Db) (old : Bytes)
    → db.strings key ≡ some old
    → update_text key value db ≡ record db { strings = at_key key (some value) db.strings }
unfolding update_text
update_text-there key value db old text = rw (text, update_text)

new_row_there :
    (key : Bytes) (row : KeyMeta) (db : Db)
    → Keys.get key (record db { keys = Maps.set key row db.keys }) ≡ some row
new_row_there key row db = get-set_keys key key row db ∙ (rw ==_refl)

module _ (key value : Bytes) (now : ℤ) (expires_at : Option ℤ) (db : Db) where
  -- The row that a write leaves.
  abbrev pub written : Option KeyMeta → KeyMeta
  written none = new_row string now (string_options expires_at none) none 1
  written (some m) =
      new_row string now (string_options expires_at (some m)) (some m) (m.version + 1)

  set_key-create :
      Keys.get key db ≡ none
      → set_key key string now (string_options expires_at none) db
        ≡ ok (record db { keys = Maps.set key (written none) db.keys })
  unfolding set_key Keys.insert existing_of
  set_key-create absent = rw (absent, Keys.insert)

  set_key-update :
      (m : KeyMeta)
      → Keys.get key db ≡ some m
      → set_key key string now (string_options expires_at (some m)) db
        ≡ ok (record db { keys = Maps.set key (written (some m)) db.keys })
  unfolding set_key existing_of
  set_key-update m there = ap ok (get-update key _ db m there)

  pub create-with_text :
      Keys.get key db ≡ none
      → db.strings key ≡ none
      → create key value now expires_at db ≡ ok (with_text key (written none) value db)
  unfolding create with_text
  create-with_text absent no_text =
      rw (set_key-create absent)
        (insert_text-there key value _ (written none) no_text (new_row_there key (written none) db))

  pub overwrite-with_text :
      (m : KeyMeta) (old : Bytes)
      → Keys.get key db ≡ some m
      → is_string m.kind ≡ true
      → db.strings key ≡ some old
      → overwrite key value now expires_at m db ≡ ok (with_text key (written (some m)) value db)
  unfolding overwrite with_text
  overwrite-with_text m old there kind text =
      rw (kind, set_key-update m there) (ap ok (update_text-there key value _ old text))

  pub overwrite-refused :
      (m : KeyMeta)
      → is_string m.kind ≡ false
      → overwrite key value now expires_at m db ≡ err wrong_type
  unfolding overwrite
  overwrite-refused m other = rw other

module _ (key value : Bytes) (now : ℤ) (expires_at : Option ℤ) (existing : Option KeyMeta)
    (db : Db) where
  -- `set` where the caller has looked the row up.
  pub set-done :
      (db' : Db)
      → set_one key value now (string_options expires_at existing) db ≡ ok db'
      → set key value now (string_options expires_at existing) db ≡ (ok tt, db')
  unfolding set
  set-done db' h = transaction_ok db _ tt db' (rw h)

  pub set-refused :
      (e : Error)
      → set_one key value now (string_options expires_at existing) db ≡ err e
      → set key value now (string_options expires_at existing) db ≡ (err e, db)
  unfolding set
  set-refused e h = transaction_err db _ e (rw h)
