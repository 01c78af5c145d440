-- ===== src/Storage/Lists/Pushes/Ends.antt =====
-- src/storage/sqlite/lists.js: what `lpush` and `rpush` do to the list of the key.
use resplite.Base.{
  ℕ, ◌+◌, ◌≡◌, ◌≢◌, refl, ◌∙◌, sym, ap, false, Option, none, some, List, [], ◌∷◌, ◌++◌, Bytes,
  length, bytes_eq, ==_refl, length-reverse, length-append,
}
use mathlib.Core.List.{reverse, append-nil}
use resplite.Base.Int.{ℤ, pos, ◌+ℤ◌, ◌-ℤ◌, int_laws}
use resplite.Base.Maps
use resplite.Storage.Keys
use resplite.Storage.Frame.{SameElsewhere, get-set_keys}
use resplite.Storage.{
  Db, KeyMeta, KeyType, ListMeta, list, Result, ok, err, wrong_type, ◌>>=◌, run_in_transaction,
  transaction_err,
}
use resplite.Storage.Lists.{
  ensure_list_key, is_list, insert_items, insert_meta, place_front, place_back, push_body, lpush,
  rpush,
}
use resplite.Storage.Lists.Numbered.{number}
use resplite.Storage.Lists.View.{
  Stored, Absent, Holds, with_list, update_meta-with_list, insert_meta-with_list,
}
use resplite.Storage.Lists.Pushes.{
  Pushed, Done-Pushed, lpush_rows, rpush_rows, new_list_row, Places, push_there, push_new,
  placed_list,
}

head_moves : (t h : ℤ) (n k : ℕ) → t +ℤ pos 1 ≡ h +ℤ pos n → t +ℤ pos 1 ≡ h -ℤ pos k +ℤ pos (k + n)
head_moves t h n k e = e ∙ omega int_laws

tail_moves :
    (t h : ℤ) (n k : ℕ)
    → t +ℤ pos 1 ≡ h +ℤ pos n
    → t +ℤ pos 1 +ℤ pos k -ℤ pos 1 +ℤ pos 1 ≡ h +ℤ pos (n + k)
tail_moves t h n k e = rw e (omega int_laws)

new_tail : (k : ℕ) → pos k -ℤ pos 1 +ℤ pos 1 ≡ pos 0 +ℤ pos k
new_tail k = omega int_laws

module _ (key : Bytes) (vs ws : List Bytes) (now : ℤ) (db : Db) (s : Stored key vs db) where
  place_front-there : Places key (reverse ws ++ vs) (place_front key ws) (some s.m) db
  unfolding Places place_front
  place_front-there =
      let start = s.m.head_seq -ℤ pos (length ws) in
      let m : ListMeta = record { head_seq = start; tail_seq = s.m.tail_seq } in
      (
        with_list key m (number start (reverse ws ++ vs)) db,
        (rw
            (lpush_rows s.m.head_seq (length ws) (reverse ws) vs db key s.row s.row_there s.items
              (sym (length-reverse ws)))
            (ap ok (update_meta-with_list key m _ db s.m s.meta_there))),
        placed_list key m (reverse ws ++ vs) db s.row s.row_there s.kind (
            rw (length-append, length-reverse)
              (head_moves s.m.tail_seq s.m.head_seq (length vs) (length ws) s.ends)),
      )

  place_back-there : Places key (vs ++ ws) (place_back key ws) (some s.m) db
  unfolding Places place_back
  place_back-there =
      let start = s.m.tail_seq +ℤ pos 1 in
      let m : ListMeta = record {
        head_seq = s.m.head_seq;
        tail_seq = start +ℤ pos (length ws) -ℤ pos 1;
      } in
      (
        with_list key m (number s.m.head_seq (vs ++ ws)) db,
        (rw (rpush_rows s.m.head_seq start ws vs db key s.row s.row_there s.items s.ends)
            (ap ok (update_meta-with_list key m _ db s.m s.meta_there))),
        placed_list key m (vs ++ ws) db s.row s.row_there s.kind (
            rw length-append (tail_moves s.m.tail_seq s.m.head_seq (length vs) (length ws) s.ends)),
      )

module _ (key : Bytes) (ws : List Bytes) (now : ℤ) (db : Db) (a : Absent key db) where
  fresh : Db
  fresh = record db { keys = Maps.set key (new_list_row now) db.keys }

  fresh-row : Keys.get key fresh ≡ some (new_list_row now)
  unfolding fresh
  fresh-row = get-set_keys key key (new_list_row now) db ∙ (rw ==_refl)

  new_meta : ListMeta
  new_meta = record { head_seq = pos 0; tail_seq = pos (length ws) -ℤ pos 1 }

  place_new :
      (us : List Bytes)
      → length us ≡ length ws
      → (insert_items key (pos 0) us fresh >>= insert_meta key new_meta)
        ≡ ok (with_list key new_meta (number (pos 0) us) fresh)
  unfolding number fresh
  place_new us size =
      rw
        (rpush_rows (pos 0) (pos 0) us [] fresh key (new_list_row now) fresh-row a.no_items
          (omega int_laws))
        (insert_meta-with_list key new_meta _ fresh (new_list_row now) fresh-row a.no_meta)

  placed_new :
      (us : List Bytes)
      → length us ≡ length ws
      → Stored key us (with_list key new_meta (number (pos 0) us) fresh)
        × SameElsewhere key fresh (with_list key new_meta (number (pos 0) us) fresh)
  unfolding new_meta new_list_row
  placed_new us size =
      placed_list key new_meta us fresh (new_list_row now) fresh-row refl
        (rw size (new_tail (length ws)))

  place_front-absent : Places key (reverse ws) (place_front key ws) none fresh
  unfolding Places place_front new_meta
  place_front-absent = (
    with_list key new_meta (number (pos 0) (reverse ws)) fresh,
    place_new (reverse ws) (length-reverse ws),
    placed_new (reverse ws) (length-reverse ws),
  )

  place_back-absent : Places key ws (place_back key ws) none fresh
  unfolding Places place_back new_meta
  place_back-absent =
      (with_list key new_meta (number (pos 0) ws) fresh, place_new ws refl, placed_new ws refl)

-- LPUSH of at least one value on a key that holds the list `vs`, or no key at all (`vs` empty):
-- it succeeds, returns the new length, leaves the values in reverse order in front of `vs`, and
-- every other key is as it was.
pub lpush-Holds :
    (key w : Bytes) (ws vs : List Bytes) (now : ℤ) (db : Db)
    → Holds key vs db
    → Pushed key (reverse (w ∷ ws) ++ vs) db (lpush key (w ∷ ws) now db)
unfolding lpush fresh
lpush-Holds key w ws [] now db a = Done-Pushed key _ db _ (
    rw append-nil (
      push_new key _ now db (place_front key (w ∷ ws)) a
        (place_front-absent key (w ∷ ws) now db a)))
lpush-Holds key w ws (v ∷ vs) now db s = Done-Pushed key _ db _ (
    push_there key (v ∷ vs) _ now db (place_front key (w ∷ ws)) s
      (place_front-there key (v ∷ vs) (w ∷ ws) now db s))

-- RPUSH of at least one value on a key that holds the list `vs`, or no key at all (`vs` empty):
-- it succeeds, returns the new length, leaves the values in order behind `vs`, and every other key
-- is as it was.
pub rpush-Holds :
    (key w : Bytes) (ws vs : List Bytes) (now : ℤ) (db : Db)
    → Holds key vs db
    → Pushed key (vs ++ w ∷ ws) db (rpush key (w ∷ ws) now db)
unfolding rpush fresh
rpush-Holds key w ws [] now db a =
    Done-Pushed key _ db _
      (push_new key _ now db (place_back key (w ∷ ws)) a (place_back-absent key (w ∷ ws) now db a))
rpush-Holds key w ws (v ∷ vs) now db s = Done-Pushed key _ db _ (
    push_there key (v ∷ vs) _ now db (place_back key (w ∷ ws)) s
      (place_back-there key (v ∷ vs) (w ∷ ws) now db s))

is_list-ne : (k : KeyType) → k ≢ list → is_list k ≡ false
unfolding is_list
is_list-ne list h = absurd (h refl)
is_list-ne _ h = refl

push_refused :
    (key : Bytes) (now : ℤ) (db : Db) (row : KeyMeta) (place : Option ListMeta → Db → Result Db)
    → Keys.get key db ≡ some row
    → row.kind ≢ list
    → run_in_transaction db (push_body place key now) ≡ (err wrong_type, db)
unfolding push_body
push_refused key now db row place h other =
    transaction_err db (push_body place key now) wrong_type (rw refused)
  where
    refused : ensure_list_key key now db ≡ err wrong_type
    refused = unfold ensure_list_key in rw (h, ensure_list_key) (rw (is_list-ne row.kind other))

-- On a key of another type, LPUSH and RPUSH of at least one value raise WRONGTYPE and change
-- nothing.
pub push_wrong_type :
    (key w : Bytes) (ws : List Bytes) (now : ℤ) (db : Db) (row : KeyMeta)
    → Keys.get key db ≡ some row
    → row.kind ≢ list
    → (lpush key (w ∷ ws) now db ≡ (err wrong_type, db))
      × (rpush key (w ∷ ws) now db ≡ (err wrong_type, db))
unfolding lpush rpush
push_wrong_type key w ws now db row h other = (
  push_refused key now db row (place_front key (w ∷ ws)) h other,
  push_refused key now db row (place_back key (w ∷ ws)) h other,
)
