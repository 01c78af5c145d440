-- ===== src/Storage/Lists/Removes/Unique.antt =====
-- src/storage/sqlite/lists.js: pops keep each key in redis_keys once.
use resplite.Base.{sym, Option, none, some, Bytes, branches, bytes_eq}
use mathlib.Core.Path.{subst}
use resplite.Base.Int.{ℤ, pos, ltb_ℤ}
use resplite.Base.Maps
use resplite.Base.Maps.{Distinct}
use resplite.Storage.Keys
use resplite.Storage.{Db, ListMeta, Rows}
use resplite.Storage.Lists.{get_meta, meta_length, delete_meta, set_items, is_zero}
use resplite.Storage.Lists.Unique.{bump-Distinct, update_meta-keys}
use resplite.Storage.Lists.Removes.{
  Popped, settle, lpop_one, lpop_many, rpop_one, rpop_many, pop, lpop, rpop,
}

abbrev Once : Db → Type 0
Once db = Distinct db.keys

settle-Distinct :
    (key : Bytes) (m : ListMeta) (now : ℤ) (db : Db) → Once db → Once (settle key m now db)
unfolding settle Keys.delete delete_meta
settle-Distinct key m now db d =
    branches Once (ltb_ℤ m.tail_seq m.head_seq) (λ empty. Maps.delete-Distinct key db.keys d)
      (λ some_left. bump-Distinct key now _ (subst Distinct (sym (update_meta-keys key m db)) d))

settle_items-Distinct :
    (key : Bytes) (m : ListMeta) (now : ℤ) (rows : Rows) (db : Db)
    → Once db
    → Once (settle key m now (set_items key rows db))
unfolding set_items
settle_items-Distinct key m now rows db d = settle-Distinct key m now (set_items key rows db) d

abbrev Left : Popped × Db → Type 0
Left r = Once r.1

pop-Distinct :
    (o : Option ListMeta) (count : Option ℤ) (single : ListMeta → Db → Popped × Db)
    (several : ListMeta → ℤ → Db → Popped × Db) (db : Db)
    → Distinct db.keys
    → ((m : ListMeta) → Distinct (single m db).1.keys)
    → ((m : ListMeta) (n : ℤ) → Distinct (several m n db).1.keys)
    → Distinct (pop o count single several db).1.keys
unfolding pop
pop-Distinct none count single several db d one more = d
pop-Distinct (some m) none single several db d one more =
    branches Left (is_zero (meta_length m)) (λ z. d) (λ z. one m)
pop-Distinct (some m) (some n) single several db d one more =
    branches Left (is_zero (meta_length m)) (λ z. d)
      (λ z. branches Left (ltb_ℤ (pos 0) n) (λ p. more m n) (λ p. one m))

pub lpop-Distinct :
    (key : Bytes) (count : Option ℤ) (now : ℤ) (db : Db)
    → Distinct db.keys
    → Distinct (lpop key count now db).1.keys
unfolding lpop lpop_one lpop_many
lpop-Distinct key count now db d =
    pop-Distinct (get_meta key db) count (λ m. lpop_one key m now) (λ m n. lpop_many key m n now) db
      d (λ m. search settle_items-Distinct) (λ m n. search settle_items-Distinct)

pub rpop-Distinct :
    (key : Bytes) (count : Option ℤ) (now : ℤ) (db : Db)
    → Distinct db.keys
    → Distinct (rpop key count now db).1.keys
unfolding rpop rpop_one rpop_many
rpop-Distinct key count now db d =
    pop-Distinct (get_meta key db) count (λ m. rpop_one key m now) (λ m n. rpop_many key m n now) db
      d (λ m. search settle_items-Distinct) (λ m n. search settle_items-Distinct)
