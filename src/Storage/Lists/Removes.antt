-- ===== src/Storage/Lists/Removes.antt =====
-- src/storage/sqlite/lists.js: lpop, rpop, lrem, lset and ltrim.
pub mod Pops
pub mod Answers
pub mod Assign
pub mod Ends
pub mod Trim
pub mod Unique
pub mod Occurrences
pub mod Removal
use resplite.Base.{
  ℕ, zero, suc, ◌+◌, ◌-◌, Bool, false, Option, none, some, List, [], ◌∷◌, map, Bytes, if◌then◌else◌,
  length, take, ◌||◌, bytes_eq, ◌==◌, filter, drop,
}
use resplite.Base.Int.{ℤ, pos, negsuc, ◌+ℤ◌, ◌-ℤ◌, ltb_ℤ, leb_ℤ, min_ℤ}
use mathlib.Core.List.{reverse}
use resplite.Storage.Keys
use resplite.Storage.{
  Db, Rows, ListMeta, Result, ok, err, no_such_key, index_out_of_range, ◌>>=◌, run_in_transaction,
}
use resplite.Storage.Lists.Statements.{
  select_range, select_seq, delete_range, delete_seq, update_seq, delete_before, delete_after,
}
use resplite.Storage.Lists.{
  get_meta, meta_length, insert_items, update_meta, delete_meta, set_items, clamp_index, is_zero,
}

-- What a pop returns: `null`, one value, or an array.
pub data Popped : Type 0 where
  null : Popped
  one : Bytes → Popped
  many : List Bytes → Popped

unfoldable pub value_or_null : Option Bytes → Popped
value_or_null none = null
value_or_null (some v) = one v

-- The end of every pop: a list with no rows left goes with its key.
pub settle : Bytes → ListMeta → ℤ → Db → Db
settle key m now db =
    if ltb_ℤ m.tail_seq m.head_seq
    then Keys.delete key (delete_meta key db)
    else Keys.bump_version key now (update_meta key m db)

-- `count != null && count > 0`
positive : Option ℤ → Bool
positive none = false
positive (some n) = ltb_ℤ (pos 0) n

pub lpop_one : Bytes → ListMeta → ℤ → Db → Popped × Db
lpop_one key m now db =
    let seq = m.head_seq in
    let rows = db.list_items key in
    (
      value_or_null (select_seq seq rows),
      settle key (record m { head_seq = m.head_seq +ℤ pos 1 }) now
          (set_items key (delete_seq seq rows) db),
    )

pub lpop_many : Bytes → ListMeta → ℤ → ℤ → Db → Popped × Db
lpop_many key m count now db =
    let n = min_ℤ count (meta_length m) in
    let seq_end = m.head_seq +ℤ n -ℤ pos 1 in
    let rows = db.list_items key in
    (
      many (map (λ r. r.1) (select_range m.head_seq seq_end rows)),
      settle key (record m { head_seq = m.head_seq +ℤ n }) now
          (set_items key (delete_range m.head_seq seq_end rows) db),
    )

pub rpop_one : Bytes → ListMeta → ℤ → Db → Popped × Db
rpop_one key m now db =
    let seq = m.tail_seq in
    let rows = db.list_items key in
    (
      value_or_null (select_seq seq rows),
      settle key (record m { tail_seq = m.tail_seq -ℤ pos 1 }) now
          (set_items key (delete_seq seq rows) db),
    )

pub rpop_many : Bytes → ListMeta → ℤ → ℤ → Db → Popped × Db
rpop_many key m count now db =
    let n = min_ℤ count (meta_length m) in
    let seq_start = m.tail_seq -ℤ n +ℤ pos 1 in
    let rows = db.list_items key in
    (
      many (reverse (map (λ r. r.1) (select_range seq_start m.tail_seq rows))),
      settle key (record m { tail_seq = m.tail_seq -ℤ n }) now
          (set_items key (delete_range seq_start m.tail_seq rows) db),
    )

-- The frame of both pops: `single` for no count or one that is not positive.
pop :
    Option ListMeta
    → Option ℤ
    → (ListMeta → Db → Popped × Db)
    → (ListMeta → ℤ → Db → Popped × Db)
    → Db
    → Popped × Db
pop none count single several db = (if positive count then many [] else null, db)
pop (some m) none single several db = if is_zero (meta_length m) then (null, db) else single m db
pop (some m) (some n) single several db =
    if is_zero (meta_length m)
    then (if ltb_ℤ (pos 0) n then many [] else null, db)
    else if ltb_ℤ (pos 0) n
    then several m n db
    else single m db

unfoldable pub lpop : Bytes → Option ℤ → ℤ → Db → Popped × Db
unfolding value_or_null settle positive lpop_one lpop_many pop is_zero
lpop key count now db =
    pop (get_meta key db) count (λ m. lpop_one key m now) (λ m n. lpop_many key m n now) db

unfoldable pub rpop : Bytes → Option ℤ → ℤ → Db → Popped × Db
unfolding value_or_null settle positive rpop_one rpop_many pop is_zero
rpop key count now db =
    pop (get_meta key db) count (λ m. rpop_one key m now) (λ m n. rpop_many key m n now) db

-- `matches.slice(0, count)` and `matches.slice(count)`
pub select_matches {ℓ} : {A : Type ℓ} → ℤ → List A → List A
select_matches (pos zero) xs = xs
select_matches (pos (suc n)) xs = take (suc n) xs
select_matches (negsuc n) xs = drop (length xs - suc n) xs

pub delete_seqs : List (ℤ × Bytes) → Rows → Rows
delete_seqs [] rows = rows
delete_seqs ((s, _) ∷ items) rows = delete_seqs items (delete_seq s rows)

pub matching : Bytes → Rows → Rows
matching element rows = filter (λ r. r.1 == element) rows

-- Rewrites what `lrem` has left, from `head_seq` on; the values are numbered anew.
renumber : Bytes → ListMeta → Rows → ℤ → Db → Result Db
renumber key m [] now db = ok (Keys.delete key (delete_meta key db))
renumber key m (r ∷ rs) now db = do
  d ← insert_items key m.head_seq (map (λ x. x.1) (r ∷ rs)) (set_items key [] db)
  let tail = m.head_seq +ℤ pos (length (r ∷ rs)) -ℤ pos 1
  ok (
      Keys.bump_version key now
        (update_meta key (record { head_seq = m.head_seq; tail_seq = tail }) d))

-- What is left is read back and written anew.
pub remove_rows : Bytes → ListMeta → Rows → ℤ → Db → Result (ℕ × Db)
remove_rows key m to_delete now db = do
  let remaining = delete_seqs to_delete (db.list_items key)
  d ← renumber key m remaining now (set_items key remaining db)
  ok (length to_delete, d)

-- `if (matches.length === 0) return 0`
pub if_any : Rows → Db → Result (ℕ × Db) → Result (ℕ × Db)
if_any [] db rest = ok (0, db)
if_any (_ ∷ _) db rest = rest

lrem_body : Bytes → ℤ → Bytes → ℤ → Db → Result (ℕ × Db)
lrem_body key count element now db = elim (get_meta key db) [
  | none ↦ ok (0, db)
  | some m ↦
      let matches = matching element (db.list_items key) in
      if_any matches db (remove_rows key m (select_matches count matches) now db)
]

unfoldable pub lrem : Bytes → ℤ → Bytes → ℤ → Db → Result ℕ × Db
unfolding select_matches delete_seqs matching renumber remove_rows if_any lrem_body
lrem key count element now db = run_in_transaction db (lrem_body key count element now)

-- `index` is what `parseInt` made of the argument; `none` is NaN.
lset_body : Bytes → Option ℤ → Bytes → ℤ → Db → Result (Unit {0} × Db)
lset_body key index value now db = elim (get_meta key db) [
  | none ↦ err no_such_key
  | some m ↦
      let len = meta_length m in
      if is_zero len then err no_such_key else elim index [
        | none ↦ err index_out_of_range
        | some idx ↦
            let i = if ltb_ℤ idx (pos 0) then len +ℤ idx else idx in
            let (rows, changed) = update_seq (m.head_seq +ℤ i) value (db.list_items key) in
            if ltb_ℤ i (pos 0) || leb_ℤ len i
            then err index_out_of_range
            else if changed
            then ok (tt, Keys.bump_version key now (set_items key rows db))
            else err index_out_of_range
      ]
]

unfoldable pub lset : Bytes → Option ℤ → Bytes → ℤ → Db → Result (Unit {0}) × Db
unfolding lset_body is_zero
lset key index value now db = run_in_transaction db (lset_body key index value now)

-- `ltrim` of a key with a row in redis_list_meta.
trim_list : Bytes → ListMeta → ℤ → ℤ → ℤ → Db → Db
trim_list key m start stop now db =
    let len = meta_length m in
    let s = clamp_index len start in
    let e = clamp_index len stop in
    let head = m.head_seq +ℤ s in
    let tail = m.head_seq +ℤ e in
    let rows = delete_after tail (delete_before head (db.list_items key)) in
    if is_zero len
    then db
    else if ltb_ℤ e s
    then Keys.delete key (delete_meta key (set_items key [] db))
    else Keys.bump_version key now
        (update_meta key (record { head_seq = head; tail_seq = tail }) (set_items key rows db))

unfoldable pub ltrim : Bytes → ℤ → ℤ → ℤ → Db → Db
unfolding is_zero trim_list
ltrim key start stop now db = elim (get_meta key db) [
  | none ↦ db
  | some m ↦ trim_list key m start stop now db
]
