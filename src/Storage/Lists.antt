-- ===== src/Storage/Lists.antt =====
-- src/storage/sqlite/lists.js, `createListsStorage`: lists as rows under consecutive numbers, from
-- `head_seq` to `tail_seq`.  `now` is `Date.now()`, read once for a call.
pub mod Statements
pub mod Removes
pub mod Copy
pub mod Numbered
pub mod View
pub mod Pushes
pub mod Reads
pub mod Unique
use resplite.Base.{
  Bool, true, false, ◌&&◌, Option, none, some, List, [], ◌∷◌, map, Bytes, if◌then◌else◌, length,
  ◌||◌, bytes_eq, ◌-◌,
}
use resplite.Base.Int.{ℤ, pos, ◌+ℤ◌, ◌-ℤ◌, ltb_ℤ, leb_ℤ, min_ℤ, max_ℤ}
use mathlib.Core.List.{reverse}
use mathlib.Core.Option
use resplite.Storage.Keys
use resplite.Storage.Keys.{at_key, no_options}
use resplite.Storage.{
  Db, Rows, ListMeta, list, Result, ok, err, wrong_type, constraint, ◌>>=◌, run_in_transaction,
  KeyType,
}
use resplite.Storage.Lists.Statements.{insert_row, select_range, select_seq}

-- `getMeta`
unfoldable pub get_meta : Bytes → Db → Option ListMeta
get_meta key db = db.list_meta key

-- `length(meta)`, of a row that is there
unfoldable pub meta_length : ListMeta → ℤ
meta_length m = m.tail_seq -ℤ m.head_seq +ℤ pos 1

unfoldable pub length_of : Option ListMeta → ℤ
unfolding meta_length
length_of none = pos 0
length_of (some m) = meta_length m

unfoldable pub is_list : KeyType → Bool
is_list list = true
is_list _ = false

-- The check and the row of redis_keys that both pushes begin with.
unfoldable pub ensure_list_key : Bytes → ℤ → Db → Result Db
unfolding is_list
ensure_list_key key now db = elim (Keys.get key db) [
  | some row ↦ if is_list row.kind then ok db else err wrong_type
  | none ↦ Keys.set_key key list now no_options db
]

-- `INSERT INTO redis_list_items`; the foreign key wants a row of redis_keys.
unfoldable pub insert_item : Bytes → ℤ → Bytes → Db → Result Db
insert_item key seq value db = elim (Keys.get key db) [
  | none ↦ err constraint
  | some _ ↦ do
    rows ← insert_row seq value (db.list_items key)
    ok (record db { list_items = at_key key rows db.list_items })
]

-- The loops `for (i …) insertItem(key, start + i, values[…])`, over the values in that order.
unfoldable pub insert_items : Bytes → ℤ → List Bytes → Db → Result Db
insert_items key start [] db = ok db
insert_items key start (v ∷ vs) db = do
  db' ← insert_item key start v db
  insert_items key (start +ℤ pos 1) vs db'

-- `INSERT INTO redis_list_meta`
unfoldable pub insert_meta : Bytes → ListMeta → Db → Result Db
insert_meta key m db = elim (db.list_meta key) [
  | some _ ↦ err constraint
  | none ↦ elim (Keys.get key db) [
    | none ↦ err constraint
    | some _ ↦ ok (record db { list_meta = at_key key (some m) db.list_meta })
  ]
]

-- `UPDATE redis_list_meta`
unfoldable pub update_meta : Bytes → ListMeta → Db → Db
update_meta key m db = elim (db.list_meta key) [
  | none ↦ db
  | some _ ↦ record db { list_meta = at_key key (some m) db.list_meta }
]

unfoldable pub delete_meta : Bytes → Db → Db
delete_meta key db = record db { list_meta = at_key key none db.list_meta }

unfoldable pub set_items : Bytes → Rows → Db → Db
set_items key rows db = record db { list_items = at_key key rows db.list_items }

-- The end of both pushes: the new version, and the new length.
finish_push : Bytes → ℤ → Db → Result (ℤ × Db)
finish_push key now db =
    let db' = Keys.bump_version key now db in ok (length_of (get_meta key db'), db')

-- `lpush` on a new list and on one that is there.
pub place_front : Bytes → List Bytes → Option ListMeta → Db → Result Db
place_front key values none db = do
  d ← insert_items key (pos 0) (reverse values) db
  insert_meta key (record { head_seq = pos 0; tail_seq = pos (length values) -ℤ pos 1 }) d
place_front key values (some m) db = do
  let start = m.head_seq -ℤ pos (length values)
  d ← insert_items key start (reverse values) db
  ok (update_meta key (record { head_seq = start; tail_seq = m.tail_seq }) d)

-- `rpush` on a new list and on one that is there.
pub place_back : Bytes → List Bytes → Option ListMeta → Db → Result Db
place_back key values none db = do
  d ← insert_items key (pos 0) values db
  insert_meta key (record { head_seq = pos 0; tail_seq = pos (length values) -ℤ pos 1 }) d
place_back key values (some m) db = do
  let start = m.tail_seq +ℤ pos 1
  d ← insert_items key start values db
  let tail = start +ℤ pos (length values) -ℤ pos 1
  ok (update_meta key (record { head_seq = m.head_seq; tail_seq = tail }) d)

-- The body of both transactions; `place` writes the rows.
pub push_body : (Option ListMeta → Db → Result Db) → Bytes → ℤ → Db → Result (ℤ × Db)
push_body place key now db = do
  db₁ ← ensure_list_key key now db
  db₂ ← place (get_meta key db₁) db₁
  finish_push key now db₂

unfoldable pub lpush : Bytes → List Bytes → ℤ → Db → Result ℤ × Db
unfolding push_body place_front finish_push
lpush key [] now db = (ok (pos 0), db)
lpush key (v ∷ vs) now db = run_in_transaction db (push_body (place_front key (v ∷ vs)) key now)

unfoldable pub rpush : Bytes → List Bytes → ℤ → Db → Result ℤ × Db
unfolding push_body place_back finish_push
rpush key [] now db = (ok (pos 0), db)
rpush key (v ∷ vs) now db = run_in_transaction db (push_body (place_back key (v ∷ vs)) key now)

unfoldable pub llen : Bytes → Db → ℤ
llen key db = length_of (get_meta key db)

-- `start < 0 ? Math.max(0, len + start) : Math.min(start, len - 1)`
unfoldable pub clamp_index : ℤ → ℤ → ℤ
clamp_index len i = if ltb_ℤ i (pos 0) then max_ℤ (pos 0) (len +ℤ i) else min_ℤ i (len -ℤ pos 1)

pub is_zero : ℤ → Bool
is_zero n = leb_ℤ n (pos 0) && leb_ℤ (pos 0) n

-- `lrange` and `lindex` of a key with a row in redis_list_meta.
range_of : ListMeta → ℤ → ℤ → Rows → List Bytes
range_of m start stop rows =
    let len = meta_length m in
    let s = clamp_index len start in
    let e = clamp_index len stop in
    if is_zero len
    then []
    else if ltb_ℤ e s
    then []
    else map (λ r. r.1) (select_range (m.head_seq +ℤ s) (m.head_seq +ℤ e) rows)

unfoldable pub lrange : Bytes → ℤ → ℤ → Db → List Bytes
unfolding is_zero range_of
lrange key start stop db = elim (get_meta key db) [
  | none ↦ []
  | some m ↦ range_of m start stop (db.list_items key)
]

index_of : ListMeta → ℤ → Rows → Option Bytes
index_of m index rows =
    let len = meta_length m in
    let i = if ltb_ℤ index (pos 0) then len +ℤ index else index in
    if is_zero len
    then none
    else if ltb_ℤ i (pos 0) || leb_ℤ len i
    then none
    else select_seq (m.head_seq +ℤ i) rows

unfoldable pub lindex : Bytes → ℤ → Db → Option Bytes
unfolding is_zero index_of
lindex key index db = elim (get_meta key db) [
  | none ↦ none
  | some m ↦ index_of m index (db.list_items key)
]
