-- ===== src/Storage/Lists/Pushes.antt =====
-- LPUSH and RPUSH on the tables put the values at the two ends of the list that a key holds.
pub mod Ends
use resplite.Base.{
  ℕ, ◌+◌, ◌≡◌, refl, ◌∙◌, sym, ap, Option, none, some, List, [], ◌∷◌, ◌++◌, Bytes, length, arith,
  bytes_eq,
}
use mathlib.Core.List.{append-nil}
use resplite.Base.Int.{ℤ, pos, ◌+ℤ◌, ◌-ℤ◌, int_laws}
use resplite.Base.Maps
use resplite.Storage.Keys
use resplite.Storage.Keys.{no_options}
use resplite.Storage.Frame.{SameElsewhere, SameElsewhere-trans, set_keys-SameElsewhere}
use resplite.Storage.{Db, KeyMeta, ListMeta, list, Result, ok, err, ◌>>=◌, run_in_transaction}
use resplite.Storage.Lists.{
  get_meta, ensure_list_key, is_list, insert_items, set_items, finish_push, push_body,
}
use resplite.Storage.Lists.Numbered.{
  number, number-append, insert_rows, insert_rows-number, at-zero, Above,
}
use resplite.Storage.Lists.View.{
  Stored, Absent, llen-Stored, insert_items-rows, with_list, with_list-SameElsewhere,
  with_list-Stored, bump-Stored, bump-SameElsewhere,
}

-- The value that a push returns, and the list that it leaves; every other key is as it was.
abbrev pub Pushed : Bytes → List Bytes → Db → Result ℤ × Db → Type 0
Pushed key vs db (r, db') =
    (r ≡ ok (pos (length vs))) × Stored key vs db' × SameElsewhere key db db'

abbrev pub Done : Bytes → List Bytes → Db → Result (ℤ × Db) → Type 0
Done key vs db (ok (n, db')) = (n ≡ pos (length vs)) × Stored key vs db' × SameElsewhere key db db'
Done key vs db (err e) = ⊥

pub Done-Pushed :
    (key : Bytes) (vs : List Bytes) (db : Db) (body : Db → Result (ℤ × Db))
    → Done key vs db (body db)
    → Pushed key vs db (run_in_transaction db body)
unfolding run_in_transaction
Done-Pushed key vs db body d = go (body db) d
  where
    go :
        (r : Result (ℤ × Db))
        → Done key vs db r
        → Pushed key vs db (elim r [ ok p ↦ (ok p.0, p.1) | err e ↦ (err e, db) ])
    go (ok (n, db')) (e, s, f) = (ap ok e, s, f)
    go (err e) h = absurd h

finish_push-Done :
    (key : Bytes) (vs : List Bytes) (now : ℤ) (db db' : Db)
    → SameElsewhere key db db'
    → Stored key vs db'
    → Done key vs db (finish_push key now db')
unfolding finish_push
finish_push-Done key vs now db db' f s = (
  llen-Stored (bump-Stored now s),
  bump-Stored now s,
  SameElsewhere-trans key f (bump-SameElsewhere key now db'),
)

Above-number : (t h : ℤ) (vs : List Bytes) → t ≡ h → Above t (number h vs)
unfolding number
Above-number t h [] e = tt
Above-number t h (v ∷ vs) e = rw e (omega arith)

below_head : (h : ℤ) (n : ℕ) → h -ℤ pos n +ℤ pos n ≡ h
below_head h n = omega int_laws

insert_rows-front :
    (h : ℤ) (ws vs : List Bytes)
    → let q = h -ℤ pos (length ws) in insert_rows q ws (number h vs) ≡ ok (number q (ws ++ vs))
unfolding number
insert_rows-front h ws vs =
    let q = h -ℤ pos (length ws) in
    let e : q +ℤ pos (length ws) ≡ h = below_head h (length ws) in
    insert_rows-number q q ws [] (number h vs) (sym (at-zero q)) (Above-number _ h vs e)
    ∙ ap ok (ap (λ x. number q ws ++ number x vs) (sym e) ∙ sym (number-append q ws vs))

-- The rows that both pushes write.
pub lpush_rows :
    (h : ℤ) (n : ℕ) (ws vs : List Bytes) (db : Db) (key : Bytes) (row : KeyMeta)
    → Keys.get key db ≡ some row
    → db.list_items key ≡ number h vs
    → n ≡ length ws
    → insert_items key (h -ℤ pos n) ws db ≡ ok (set_items key (number (h -ℤ pos n) (ws ++ vs)) db)
lpush_rows h n ws vs db key row r e size =
    rw size (insert_items-rows key _ ws db row _ r (rw e (insert_rows-front h ws vs)))

pub rpush_rows :
    (h q : ℤ) (ws vs : List Bytes) (db : Db) (key : Bytes) (row : KeyMeta)
    → Keys.get key db ≡ some row
    → db.list_items key ≡ number h vs
    → q ≡ h +ℤ pos (length vs)
    → insert_items key q ws db ≡ ok (set_items key (number h (vs ++ ws)) db)
rpush_rows h q ws vs db key row r e start = insert_items-rows key q ws db row _ r (
    rw (e, ← append-nil (number h vs)) (insert_rows-number h q ws vs [] start tt ∙ (rw append-nil)))

-- The first step of both pushes.
ensure_there :
    (key : Bytes) (now : ℤ) (db : Db) (row : KeyMeta)
    → Keys.get key db ≡ some row
    → row.kind ≡ list
    → ensure_list_key key now db ≡ ok db
unfolding ensure_list_key
ensure_there key now db row h k = rw (h, ensure_list_key) (rw (k, is_list))

unfoldable pub new_list_row : ℤ → KeyMeta
unfolding Keys.new_row
new_list_row now = Keys.new_row list now no_options none 1

ensure_absent :
    (key : Bytes) (now : ℤ) (db : Db)
    → Keys.get key db ≡ none
    → ensure_list_key key now db ≡ ok (record db { keys = Maps.set key (new_list_row now) db.keys })
unfolding ensure_list_key Keys.set_key new_list_row Keys.insert
ensure_absent key now db h = rw (h, ensure_list_key) (rw (h, Keys.set_key) (rw (h, Keys.insert)))

-- What `place` has to do for a push to leave `us`.
unfoldable pub Places :
    Bytes → List Bytes → (Option ListMeta → Db → Result Db) → Option ListMeta → Db → Type 0
Places key us place o db =
    (db' : Db) × (place o db ≡ ok db') × (Stored key us db' × SameElsewhere key db db')

pub push_there :
    (key : Bytes) (vs us : List Bytes) (now : ℤ) (db : Db)
    (place : Option ListMeta → Db → Result Db)
    → (s : Stored key vs db) → Places key us place (some s.m) db
    → Done key us db (push_body place key now db)
unfolding push_body get_meta Places
push_there key vs us now db place s (db', placed, (stored, same)) =
    rw (ensure_there key now db s.row s.row_there s.kind, s.meta_there, placed)
      (finish_push-Done key us now db db' same stored)

pub push_new :
    (key : Bytes) (us : List Bytes) (now : ℤ) (db : Db) (place : Option ListMeta → Db → Result Db)
    → Absent key db
    → Places key us place none (record db { keys = Maps.set key (new_list_row now) db.keys })
    → Done key us db (push_body place key now db)
unfolding push_body get_meta Places
push_new key us now db place a (db', placed, (stored, same)) =
    rw (ensure_absent key now db a.no_row, a.no_meta, placed)
      (finish_push-Done key us now db db'
        (SameElsewhere-trans key (set_keys-SameElsewhere key (new_list_row now) db) same) stored)

-- The tables that a push leaves before the new version.
pub placed_list :
    (key : Bytes) (m : ListMeta) (us : List Bytes) (db : Db) (row : KeyMeta)
    → Keys.get key db ≡ some row
    → row.kind ≡ list
    → m.tail_seq +ℤ pos 1 ≡ m.head_seq +ℤ pos (length us)
    → Stored key us (with_list key m (number m.head_seq us) db)
      × SameElsewhere key db (with_list key m (number m.head_seq us) db)
placed_list key m us db row r k e =
    (with_list-Stored key m _ db row us r k e refl, with_list-SameElsewhere key m _ db)
