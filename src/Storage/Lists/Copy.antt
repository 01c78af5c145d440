-- ===== src/Storage/Lists/Copy.antt =====
-- src/storage/sqlite/lists.js, `copyKey`: the rows of one key under another, as RENAME needs them.
use resplite.Base.{◌≡◌, refl, ◌∙◌, sym, ap, none, some, List, [], ◌∷◌, Bytes, bytes_eq}
use mathlib.Core.Path.{fun_ext}
use mathlib.Core.List.{append-nil}
use resplite.Base.Int.{ℤ, pos, ◌+ℤ◌}
use resplite.Storage.Keys
use resplite.Storage.Keys.{at_key}
use resplite.Storage.Frame.{SameElsewhere}
use resplite.Storage.{Db, KeyMeta, ListMeta, Rows, list, Result, ok, ◌>>=◌}
use resplite.Storage.Lists.{get_meta, insert_item, insert_items, insert_meta, set_items}
use resplite.Storage.Lists.Numbered.{number, insert_rows, insert_rows-number, at-zero}
use resplite.Storage.Lists.View.{
  Stored, insert_items-rows, with_list, with_list-SameElsewhere, with_list-Stored,
}

-- The loop over the rows of the old key.
unfoldable copy_items : Bytes → Rows → Db → Result Db
copy_items key [] db = ok db
copy_items key ((seq, value) ∷ rows) db = do
  db' ← insert_item key seq value db
  copy_items key rows db'

unfoldable pub copy_key : Bytes → Bytes → Db → Result Db
unfolding copy_items
copy_key old_key new_key db = elim (get_meta old_key db) [
  | none ↦ ok db
  | some m ↦ do db' ← insert_meta new_key m db; copy_items new_key (db'.list_items old_key) db'
]

copy_items-number :
    (key : Bytes) (h : ℤ) (vs : List Bytes) (db : Db)
    → copy_items key (number h vs) db ≡ insert_items key h vs db
unfolding copy_items insert_items number
copy_items-number key h [] db = refl
copy_items-number key h (v ∷ vs) db =
    ap (λ f. insert_item key h v db >>= f) (fun_ext (copy_items-number key (h +ℤ pos 1) vs))

insert_meta-fresh :
    (key : Bytes) (m : ListMeta) (db : Db) (row : KeyMeta)
    → Keys.get key db ≡ some row
    → db.list_meta key ≡ none
    → insert_meta key m db ≡ ok (record db { list_meta = at_key key (some m) db.list_meta })
unfolding insert_meta
insert_meta-fresh key m db row h absent = rw (absent, insert_meta) (rw h)

pub insert_rows-fresh : (h : ℤ) (vs : List Bytes) → insert_rows h vs [] ≡ ok (number h vs)
unfolding number
insert_rows-fresh h vs =
    insert_rows-number h h vs [] [] (sym (at-zero h)) tt ∙ ap ok (append-nil (number h vs))

-- The rows of a list under a key that has a row in redis_keys, and neither head and tail nor values.
copied :
    (key : Bytes) (m : ListMeta) (vs : List Bytes) (db : Db) (row : KeyMeta)
    → Keys.get key db ≡ some row
    → db.list_items key ≡ []
    → copy_items key
        (number m.head_seq vs)
        (record db { list_meta = at_key key (some m) db.list_meta })
      ≡ ok (with_list key m (number m.head_seq vs) db)
unfolding with_list set_items Keys.get
copied key m vs db row h empty =
    copy_items-number key m.head_seq vs _
    ∙ insert_items-rows key m.head_seq vs _ row (number m.head_seq vs) h
        (ap (insert_rows m.head_seq vs) empty ∙ insert_rows-fresh m.head_seq vs)

copy_key-there :
    (old_key new_key : Bytes) (db d : Db) (m : ListMeta)
    → db.list_meta old_key ≡ some m
    → insert_meta new_key m db ≡ ok d
    → copy_key old_key new_key db ≡ copy_items new_key (d.list_items old_key) d
unfolding get_meta copy_key
copy_key-there old_key new_key db d m h e = rw (h, copy_key) (rw e)

-- Copying a list `vs` to a key that has a row of type list, and no list rows yet: it succeeds, the new
-- key holds `vs`, and every other key, the old one too, is as it was.
copy_key-Stored :
    (old_key new_key : Bytes) (vs : List Bytes) (db : Db) (row : KeyMeta)
    → Stored old_key vs db
    → Keys.get new_key db ≡ some row
    → row.kind ≡ list
    → db.list_meta new_key ≡ none
    → db.list_items new_key ≡ []
    → (db' : Db) × (copy_key old_key new_key db ≡ ok db')
      × Stored new_key vs db'
      × SameElsewhere new_key db db'
copy_key-Stored old_key new_key vs db row s h kind no_meta empty =
    let d = record db { list_meta = at_key new_key (some s.m) db.list_meta } in
    let rows = number s.m.head_seq vs in
    (
      with_list new_key s.m rows db,
      copy_key-there old_key new_key db d s.m s.meta_there
            (insert_meta-fresh new_key s.m db row h no_meta)
          ∙ ap (λ r. copy_items new_key r d) s.items
          ∙ copied new_key s.m vs db row h empty,
      with_list-Stored new_key s.m rows db row vs h kind s.ends refl,
      with_list-SameElsewhere new_key s.m rows db,
    )
