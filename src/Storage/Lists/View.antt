-- ===== src/Storage/Lists/View.antt =====
-- The list that the tables hold under a key, and how the writes of src/storage/sqlite/lists.js
-- change it.
use resplite.Base.{
  ℕ, ◌+◌, ◌≡◌, refl, ◌∙◌, sym, ap, none, some, List, [], ◌∷◌, Bytes, length, bytes_eq, ==_refl,
}
use resplite.Base.Int.{ℤ, pos, pos_part, neg_part, ◌+ℤ◌, ◌-ℤ◌, int_laws}
use resplite.Storage.Keys
use resplite.Storage.Keys.{at_key, no_options}
use resplite.Storage.Frame.{
  at_key_same, at_key_ne, at_key_self, at_key_twice, SameElsewhere, get-update, get-set_keys,
  update-SameElsewhere,
}
use resplite.Storage.{Db, KeyMeta, Rows, ListMeta, list, ok, >>=-eq-ok}
use resplite.Storage.Lists.{
  get_meta, meta_length, length_of, insert_item, insert_items, insert_meta, update_meta, set_items,
}
use resplite.Storage.Lists.Statements.{insert_row}
use resplite.Storage.Lists.Numbered.{number, insert_rows}

-- The key holds the list `vs`: numbered rows, from the head to the tail.
pub record Stored (key : Bytes) (vs : List Bytes) (db : Db) : Type 0 where
  pub row : KeyMeta
  pub m : ListMeta
  pub row_there : Keys.get key db ≡ some row
  pub kind : row.kind ≡ list
  pub meta_there : db.list_meta key ≡ some m
  pub ends : m.tail_seq +ℤ pos 1 ≡ m.head_seq +ℤ pos (length vs)
  pub items : db.list_items key ≡ number m.head_seq vs

pub record Absent (key : Bytes) (db : Db) : Type 0 where
  pub no_row : Keys.get key db ≡ none
  pub no_meta : db.list_meta key ≡ none
  pub no_items : db.list_items key ≡ []

-- An empty list is a key that is not there.
abbrev pub Holds : Bytes → List Bytes → Db → Type 0
Holds key [] db = Absent key db
Holds key (v ∷ vs) db = Stored key (v ∷ vs) db

pub length-ends :
    (m : ListMeta) (n : ℕ) → m.tail_seq +ℤ pos 1 ≡ m.head_seq +ℤ pos n → meta_length m ≡ pos n
unfolding meta_length
length-ends m n e = ends_sub m.tail_seq m.head_seq n e
  where
    ends_sub : (t h : ℤ) (k : ℕ) → t +ℤ pos 1 ≡ h +ℤ pos k → t -ℤ h +ℤ pos 1 ≡ pos k
    ends_sub t h k p = omega (int_laws, ap pos_part p, ap neg_part p)

pub llen-Stored :
    {key : Bytes} {vs : List Bytes} {db : Db}
    → Stored key vs db
    → length_of (get_meta key db) ≡ pos (length vs)
unfolding length_of get_meta
llen-Stored {vs} s = rw s.meta_there (length-ends s.m (length vs) s.ends)

insert_item-row :
    (key : Bytes) (seq : ℤ) (v : Bytes) (db : Db) (row : KeyMeta) (rows : Rows)
    → Keys.get key db ≡ some row
    → insert_row seq v (db.list_items key) ≡ ok rows
    → insert_item key seq v db ≡ ok (set_items key rows db)
unfolding insert_item set_items
insert_item-row key seq v db row rows h e = rw (h, insert_item) (rw e)

pub insert_items-rows :
    (key : Bytes) (start : ℤ) (vs : List Bytes) (db : Db) (row : KeyMeta) (rows : Rows)
    → Keys.get key db ≡ some row
    → insert_rows start vs (db.list_items key) ≡ ok rows
    → insert_items key start vs db ≡ ok (set_items key rows db)
unfolding insert_items insert_rows set_items Keys.get
insert_items-rows key start [] db row rows h e = λ i. ok (record db { list_items = same i })
  where
    held : db.list_items key ≡ rows
    held = cc

    same : db.list_items ≡ at_key key rows db.list_items
    same = sym (at_key_self key db.list_items) ∙ ap (λ r. at_key key r db.list_items) held
insert_items-rows key start (v ∷ vs) db row rows h e =
    let (r, first, later) =
      >>=-eq-ok (insert_row start v (db.list_items key)) (insert_rows (start +ℤ pos 1) vs) e in
    let db₁ : Db = set_items key r db in
    rw (insert_item-row key start v db row r h first) (
      insert_items-rows key (start +ℤ pos 1) vs db₁ row rows h
        (rw (at_key_same key r db.list_items) later)
      ∙ (rw at_key_twice))

-- The tables with other rows and another head and tail under the key.
unfoldable pub with_list : Bytes → ListMeta → Rows → Db → Db
with_list key m rows db = record db {
  list_items = at_key key rows db.list_items;
  list_meta = at_key key (some m) db.list_meta;
}

module _ (key : Bytes) (m : ListMeta) (rows : Rows) (db : Db) where
  pub update_meta-with_list :
      (old : ListMeta)
      → db.list_meta key ≡ some old
      → update_meta key m (set_items key rows db) ≡ with_list key m rows db
  unfolding update_meta set_items with_list
  update_meta-with_list old h = rw (h, update_meta)

  pub insert_meta-with_list :
      (row : KeyMeta)
      → Keys.get key db ≡ some row
      → db.list_meta key ≡ none
      → insert_meta key m (set_items key rows db) ≡ ok (with_list key m rows db)
  unfolding insert_meta set_items with_list Keys.get
  insert_meta-with_list row h e = rw (e, insert_meta) (rw (h, insert_meta))

  pub with_list-SameElsewhere : SameElsewhere key db (with_list key m rows db)
  unfolding with_list Keys.get
  with_list-SameElsewhere = record {
    keys = λ j h. refl;
    strings = λ j h. refl;
    list_meta = at_key_ne key (some m) db.list_meta;
    list_items = at_key_ne key rows db.list_items;
  }

  pub with_list-Stored :
      (row : KeyMeta) (vs : List Bytes)
      → Keys.get key db ≡ some row
      → row.kind ≡ list
      → m.tail_seq +ℤ pos 1 ≡ m.head_seq +ℤ pos (length vs)
      → rows ≡ number m.head_seq vs
      → Stored key vs (with_list key m rows db)
  unfolding with_list Keys.get
  with_list-Stored row vs h k e i = record {
    row = row;
    m = m;
    row_there = h;
    kind = k;
    meta_there = at_key_same key (some m) db.list_meta;
    ends = e;
    items = at_key_same key rows db.list_items ∙ i;
  }

-- A new version changes nothing of the list.
pub bump-Stored :
    {key : Bytes} {vs : List Bytes} {db : Db} (now : ℤ)
    → Stored key vs db
    → Stored key vs (Keys.bump_version key now db)
unfolding Keys.bump_version
bump-Stored {key} {vs} {db} now s =
    let row : KeyMeta = record s.row { version = s.row.version + 1; updated_at = now } in
    rw (get-update key _ db s.row s.row_there) (record {
      row = row;
      m = s.m;
      row_there = get-set_keys key key row db ∙ (rw ==_refl);
      kind = s.kind;
      meta_there = s.meta_there;
      ends = s.ends;
      items = s.items;
    })

pub bump-SameElsewhere :
    (key : Bytes) (now : ℤ) (db : Db) → SameElsewhere key db (Keys.bump_version key now db)
unfolding Keys.bump_version
bump-SameElsewhere key now db = update-SameElsewhere key _ db
