-- ===== src/Storage.antt =====
-- src/storage/sqlite/schema.js, tx.js and keys.js: the tables, transactions, and redis_keys.
-- Each prepared SQL statement is a function over the tables.  A table that belongs to one key is a
-- function of the key; its rows stand in the order of its primary key, which is the order that
-- every `ORDER BY` of the program asks for.  `ON DELETE CASCADE` is written out in `delete`.
pub mod Keys
pub mod Frame
pub mod Lists
pub mod Strings
use resplite.Base.{ℕ, ◌≡◌, refl, Option, none, List, [], Bytes}
use resplite.Base.Int.{ℤ}

-- `KEY_TYPES`
pub data KeyType : Type 0 where
  string hash set list zset : KeyType

-- A row of redis_keys, without its key.
pub record KeyMeta : Type 0 where
  pub kind : KeyType
  pub expires_at : Option ℤ
  pub set_count : Option ℕ
  pub hash_count : Option ℕ
  pub zset_count : Option ℕ
  pub version : ℕ
  pub updated_at : ℤ

-- A row of redis_list_meta.
pub record ListMeta : Type 0 where
  pub head_seq : ℤ
  pub tail_seq : ℤ

-- The rows of redis_list_items of one key: (seq, value), by ascending seq.
abbrev pub Rows : Type 0
Rows = List (ℤ × Bytes)

pub record Db : Type 0 where
  pub keys : List (Bytes × KeyMeta)
  pub strings : Bytes → Option Bytes
  pub list_meta : Bytes → Option ListMeta
  pub list_items : Bytes → Rows

abbrev pub empty_db : Db
empty_db = record { keys = []; strings = λ k. none; list_meta = λ k. none; list_items = λ k. [] }

-- What the storage and the engine throw. `constraint` is SQLite's: a primary or a foreign key is violated.
pub data Error : Type 0 where
  wrong_type no_such_key index_out_of_range not_an_integer constraint : Error

pub data Result {ℓ} (A : Type ℓ) : Type ℓ where
  ok : A → Result A
  err : Error → Result A

infixl 5 ◌>>=◌ ◌>>◌
abbrev pub ◌>>=◌ {ℓ κ} : {V : Type ℓ} {W : Type κ} → Result V → (V → Result W) → Result W
err e >>= next = err e
ok v >>= next = next v

abbrev pub ◌>>◌ {ℓ κ} : {V : Type ℓ} {W : Type κ} → Result V → Result W → Result W
first >> second = first >>= λ v. second

-- `runInTransaction`: the new tables and the value, or the error and the tables as they were.
unfoldable pub run_in_transaction : {A : Type 0} → Db → (Db → Result (A × Db)) → Result A × Db
run_in_transaction db fn = elim (fn db) [ ok r ↦ (ok r.0, r.1) | err e ↦ (err e, db) ]

-- Inversion of a chain that succeeds.
pub >>=-eq-ok {ℓ κ} :
    {V : Type ℓ} {W : Type κ} (first : Result V) (next : V → Result W) {w : W}
    → (first >>= next) ≡ ok w
    → (v : V) × (first ≡ ok v) × (next v ≡ ok w)
>>=-eq-ok (err e) next h = cc
>>=-eq-ok (ok v) next h = (v, refl, h)

-- A body that throws leaves the tables as they were.
pub transaction_err :
    {A : Type 0} (db : Db) (body : Db → Result (A × Db)) (e : Error)
    → body db ≡ err e
    → run_in_transaction db body ≡ (err e, db)
unfolding run_in_transaction
transaction_err db body e h = rw (h, run_in_transaction)

pub transaction_ok :
    {A : Type 0} (db : Db) (body : Db → Result (A × Db)) (a : A) (db' : Db)
    → body db ≡ ok (a, db')
    → run_in_transaction db body ≡ (ok a, db')
unfolding run_in_transaction
transaction_ok db body a db' h = rw (h, run_in_transaction)
