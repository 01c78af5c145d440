-- ===== src/Storage/Lists/Removes/Removal.antt =====
-- src/storage/sqlite/lists.js: LREM, from the matches to the list that is left.
use resplite.Base.{
  ℕ, zero, suc, ◌-◌, ◌≡◌, refl, ◌∙◌, sym, ap, none, some, List, [], ◌∷◌, map, Bytes, bytes_eq,
  arith, length,
}
use mathlib.Core.Path.{subst}
use resplite.Base.Int.{ℤ, pos, negsuc, ◌+ℤ◌, ◌-ℤ◌, int_laws}
use resplite.Base.Maps.{Distinct}
use resplite.Storage.Keys
use resplite.Storage.Frame.{
  at_key_same, at_key_twice, SameElsewhere, SameElsewhere-refl, SameElsewhere-trans,
}
use resplite.Storage.{Db, KeyMeta, ListMeta, Rows, list, Result, ok, run_in_transaction, ◌>>=◌}
use resplite.Storage.Lists.{get_meta, insert_items, set_items, update_meta, delete_meta}
use resplite.Storage.Lists.Numbered.{number}
use resplite.Storage.Lists.Copy.{insert_rows-fresh}
use resplite.Storage.Lists.View.{
  Stored, Holds, insert_items-rows, with_list, update_meta-with_list, with_list-SameElsewhere,
  with_list-Stored, bump-Stored, bump-SameElsewhere,
}
use resplite.Storage.Lists.Removes.{
  select_matches, delete_seqs, matching, renumber, lrem_body, lrem, remove_rows, if_any,
}
use resplite.Storage.Lists.Removes.Pops.{delete-Absent}
use resplite.Storage.Lists.Removes.Occurrences.{removed, removed-none, select_matches-Selected}

-- What is written back: the tables hold the values under the key.
record Written (key : Bytes) (us : List Bytes) (db : Db) (r : Result Db) : Type 0 where
  left : Db
  done : r ≡ ok left
  holds : Holds key us left
  same : SameElsewhere key db left

new_tail : (h : ℤ) (n : ℕ) → h +ℤ pos n -ℤ pos 1 +ℤ pos 1 ≡ h +ℤ pos n
new_tail h n = omega int_laws

length-map : (rows : Rows) → length (map (λ r. r.1) rows) ≡ length rows
length-map [] = refl
length-map (r ∷ rows) = ap suc (length-map rows)

module _ (key : Bytes) (now : ℤ) (db : Db) (row : KeyMeta) (m : ListMeta)
    (there : Keys.get key db ≡ some row) (kind : row.kind ≡ list) (meta : db.list_meta key ≡ some m)
    (d : Distinct db.keys) where
  emptied : Rows → Db
  emptied rows = set_items key [] (set_items key rows db)

  emptied-with_list :
      (rows new : Rows) (m' : ListMeta)
      → with_list key m' new (emptied rows) ≡ with_list key m' new db
  unfolding emptied with_list set_items
  emptied-with_list rows new m' =
      ap (λ f. record db { list_items = f; list_meta = Keys.at_key key (some m') db.list_meta })
        (at_key_twice key new [] (Keys.at_key key rows db.list_items)
          ∙ at_key_twice key new rows db.list_items)

  items_back :
      (rows : Rows) (us : List Bytes)
      → insert_items key m.head_seq us (emptied rows)
        ≡ ok (set_items key (number m.head_seq us) (emptied rows))
  unfolding emptied set_items Keys.get
  items_back rows us =
      insert_items-rows key m.head_seq us (emptied rows) row (number m.head_seq us) there (
        rw (at_key_same key [] (Keys.at_key key rows db.list_items))
          (insert_rows-fresh m.head_seq us))

  renumber-Written :
      (rows : Rows)
      → Written key (map (λ r. r.1) rows) db (renumber key m rows now (set_items key rows db))
  unfolding renumber emptied set_items
  renumber-Written [] =
      let (a, s) = delete-Absent key [] db d in
      record {
        left = Keys.delete key (delete_meta key (set_items key [] db));
        done = refl;
        holds = a;
        same = s;
      }
  renumber-Written (r ∷ rows) =
      let us = map (λ x. x.1) (r ∷ rows) in
      let tail = m.head_seq +ℤ pos (length (r ∷ rows)) -ℤ pos 1 in
      let m' : ListMeta = record { head_seq = m.head_seq; tail_seq = tail } in
      let new = with_list key m' (number m.head_seq us) db in
      record {
        left = Keys.bump_version key now new;
        done =
            ap (λ x. x >>= λ e. ok (Keys.bump_version key now (update_meta key m' e)))
              (items_back (r ∷ rows) us)
            ∙ ap (λ e. ok (Keys.bump_version key now e))
                (update_meta-with_list key m' (number m.head_seq us) (emptied (r ∷ rows)) m meta
                  ∙ emptied-with_list (r ∷ rows) (number m.head_seq us) m');
        holds = bump-Stored now (
            with_list-Stored key m' (number m.head_seq us) db row us there kind
              (new_tail m.head_seq (length (r ∷ rows))
                ∙ ap (λ n. m.head_seq +ℤ pos n) (sym (length-map (r ∷ rows))))
              refl);
        same =
            SameElsewhere-trans key (with_list-SameElsewhere key m' (number m.head_seq us) db)
              (bump-SameElsewhere key now new);
      }

-- The answer of LREM, and the list that it leaves; every other key is as it was.
abbrev pub Removed : Bytes → ℕ → List Bytes → Db → Result ℕ × Db → Type 0
Removed key n us db (r, db') = (r ≡ ok n) × Holds key us db' × SameElsewhere key db db'

removed-nil : (count : ℤ) (e : Bytes) → removed count e [] ≡ []
unfolding removed
removed-nil (pos zero) e = refl
removed-nil (pos (suc n)) e = refl
removed-nil (negsuc n) e = refl

if_any-cases :
    (P : Result (ℕ × Db) → Type 0) (matches : Rows) (db : Db) (rest : Result (ℕ × Db))
    → (matches ≡ [] → P (ok (0, db)))
    → P rest
    → P (if_any matches db rest)
unfolding if_any
if_any-cases P [] db rest first second = first refl
if_any-cases P (r ∷ rs) db rest first second = second

module _ (key e : Bytes) (count now : ℤ) (db : Db) (d : Distinct db.keys) where
  EndsIn : List Bytes → Result (ℕ × Db) → Type 0
  EndsIn vs r =
      Removed key (length vs - length (removed count e vs)) (removed count e vs) db
        (run_in_transaction db (λ _. r))

  rows-removed :
      (vs : List Bytes) (s : Stored key vs db)
      → EndsIn vs
          (remove_rows key s.m (select_matches count (matching e (db.list_items key))) now db)
  unfolding remove_rows run_in_transaction EndsIn
  rows-removed vs s =
      let ds = select_matches count (matching e (db.list_items key)) in
      let sel = select_matches-Selected count e s.m.head_seq vs in
      let kept = delete_seqs ds (db.list_items key) in
      let values : map (λ r. r.1) kept ≡ removed count e vs =
        ap (λ rows. map (λ r. r.1) (delete_seqs (select_matches count (matching e rows)) rows))
          s.items
        ∙ sel.values in
      let w = renumber-Written key now db s.row s.m s.row_there s.kind s.meta_there d kept in
      let size : length ds ≡ length vs - length (removed count e vs) =
        omega
          (arith, ap (λ rows. length (select_matches count (matching e rows))) s.items, sel.size) in
      subst (λ r. EndsIn vs (r >>= λ x. ok (length ds, x))) (sym w.done)
        (ap ok size, subst (λ us. Holds key us w.left) values w.holds, w.same)

  nothing_goes :
      (v : Bytes) (vs : List Bytes)
      → Stored key (v ∷ vs) db
      → removed count e (v ∷ vs) ≡ v ∷ vs
      → EndsIn (v ∷ vs) (ok (0, db))
  unfolding EndsIn run_in_transaction
  nothing_goes v vs s same =
      subst (λ us. Removed key (length (v ∷ vs) - length us) us db (ok 0, db)) (sym same)
        (ap ok (omega arith), s, SameElsewhere-refl key db)

  rest-removed :
      (v : Bytes) (vs : List Bytes) (s : Stored key (v ∷ vs) db)
      → EndsIn (v ∷ vs) (
          if_any
            (matching e (db.list_items key))
            db
            (remove_rows key s.m (select_matches count (matching e (db.list_items key))) now db))
  rest-removed v vs s =
      if_any-cases (EndsIn (v ∷ vs)) (matching e (db.list_items key)) db _
        (λ none.
          nothing_goes v vs s
            (removed-none count e s.m.head_seq (v ∷ vs) (ap (matching e) (sym s.items) ∙ none)))
        (rows-removed (v ∷ vs) s)

  lrem_body-none : db.list_meta key ≡ none → lrem_body key count e now db ≡ ok (0, db)
  unfolding lrem_body get_meta
  lrem_body-none h = rw (h, lrem_body) refl

  lrem_body-some :
      (m : ListMeta)
      → db.list_meta key ≡ some m
      → lrem_body key count e now db
        ≡ if_any
            (matching e (db.list_items key))
            db
            (remove_rows key m (select_matches count (matching e (db.list_items key))) now db)
  unfolding lrem_body get_meta
  lrem_body-some m h = rw (h, lrem_body) refl

  -- LREM on a key that holds the list `vs`, or no key, in tables with each key once, takes away what
  -- `removed` says: every occurrence of the element for the count 0, the first or the last so many for a
  -- positive or a negative count; the other values stay in order. It answers how many have gone; the key
  -- goes with its last value, and every other key is as it was.
  pub lrem-Holds :
      (vs : List Bytes)
      → Holds key vs db
      → Removed key
          (length vs - length (removed count e vs))
          (removed count e vs)
          db
          (lrem key count e now db)
  unfolding lrem run_in_transaction EndsIn
  lrem-Holds [] a =
      subst (EndsIn []) (sym (lrem_body-none a.no_meta))
        (rw (removed-nil count e) (refl, a, SameElsewhere-refl key db))
  lrem-Holds (v ∷ vs) s =
      subst (EndsIn (v ∷ vs)) (sym (lrem_body-some s.m s.meta_there)) (rest-removed v vs s)
