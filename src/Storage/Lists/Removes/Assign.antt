-- ===== src/Storage/Lists/Removes/Assign.antt =====
-- src/storage/sqlite/lists.js: `lset` replaces one value of the list.
use resplite.Base.{
  ℕ, zero, suc, ◌<◌, ◌≡◌, refl, ◌∙◌, sym, ap, true, false, ◌||◌, Option, none, some, List, [], ◌∷◌,
  Bytes, length, set, arith, if◌then◌else◌, bytes_eq, Bool-cases, inl, inr,
}
use resplite.Base.Int.{ℤ, pos, negsuc, pos_part, ◌+ℤ◌, ltb_ℤ, leb_ℤ, beq_ℤ, +ℤ_parts}
use resplite.Storage.Frame.{
  at_key_same, at_key_ne, SameElsewhere, SameElsewhere-refl, SameElsewhere-trans,
}
use resplite.Storage.{
  Error, Db, Rows, Result, ok, err, no_such_key, index_out_of_range, transaction_ok,
  transaction_err,
}
use resplite.Storage.Keys
use resplite.Storage.Keys.{at_key}
use resplite.Storage.Lists.{get_meta, set_items}
use resplite.Storage.Lists.Statements.{update_seq}
use resplite.Storage.Lists.Numbered.{number, at-suc}
use resplite.Storage.Lists.View.{Stored, Holds, length-ends, bump-Stored, bump-SameElsewhere}
use resplite.Storage.Lists.Removes.{lset, lset_body}
use resplite.Storage.Lists.Removes.Pops.{is_zero-suc}

-- What LSET answers and leaves; `index` is the parsed argument, or `none`.
unfoldable pub set_at : Option ℤ → Bytes → List Bytes → Result (Unit {0}) × List Bytes
set_at index value [] = (err no_such_key, [])
set_at none value vs = (err index_out_of_range, vs)
set_at (some idx) value vs =
    let len = pos (length vs) in
    let i = if ltb_ℤ idx (pos 0) then len +ℤ idx else idx in
    if ltb_ℤ i (pos 0) || leb_ℤ len i
    then (err index_out_of_range, vs)
    else (ok tt, set vs (pos_part i) value)

update_seq_before :
    (h a : ℤ) (v : Bytes) (vs : List Bytes)
    → ltb_ℤ a h ≡ true
    → update_seq a v (number h vs) ≡ (number h vs, false)
unfolding update_seq number
update_seq_before h a v [] l = refl
update_seq_before h a v (x ∷ vs) l =
    let next : ltb_ℤ a (h +ℤ pos 1) ≡ true = ground (arith, +ℤ_parts h (pos 1)) in
    let other : beq_ℤ h a ≡ false = ground arith in
    rw (update_seq_before (h +ℤ pos 1) a v vs next, other)

update_seq-number :
    (h : ℤ) (k : ℕ) (v : Bytes) (vs : List Bytes)
    → k < length vs
    → update_seq (h +ℤ pos k) v (number h vs) ≡ (number h (set vs k v), true)
unfolding update_seq number
update_seq-number h k v [] l = absurd (omega arith)
update_seq-number h zero v (x ∷ vs) l =
    let less : ltb_ℤ (h +ℤ pos 0) (h +ℤ pos 1) ≡ true =
      ground (arith, +ℤ_parts h (pos 0), +ℤ_parts h (pos 1)) in
    let same : beq_ℤ h (h +ℤ pos 0) ≡ true = ground (arith, +ℤ_parts h (pos 0)) in
    rw (update_seq_before (h +ℤ pos 1) (h +ℤ pos 0) v vs less, same)
update_seq-number h (suc k) v (x ∷ vs) l =
    let other : beq_ℤ h (h +ℤ pos (suc k)) ≡ false = ground (arith, +ℤ_parts h (pos (suc k))) in
    let ih = update_seq-number (h +ℤ pos 1) k v vs (omega arith) in
    let at : update_seq (h +ℤ pos (suc k)) v (number (h +ℤ pos 1) vs)
        ≡ (number (h +ℤ pos 1) (set vs k v), true) =
      ap (λ a. update_seq a v (number (h +ℤ pos 1) vs)) (sym (at-suc h k)) ∙ ih in
    rw (at, other)

length-set : (k : ℕ) (v : Bytes) (vs : List Bytes) → length (set vs k v) ≡ length vs
length-set k v [] = refl
length-set zero v (x ∷ vs) = refl
length-set (suc k) v (x ∷ vs) = omega (arith, length-set k v vs)

update_seq-inside :
    (h i : ℤ) (v : Bytes) (vs : List Bytes)
    → ltb_ℤ i (pos 0) || leb_ℤ (pos (length vs)) i ≡ false
    → update_seq (h +ℤ i) v (number h vs) ≡ (number h (set vs (pos_part i) v), true)
update_seq-inside h (pos k) v vs l = update_seq-number h k v vs (ground arith)
update_seq-inside h (negsuc k) v vs l = absurd (ground arith)

-- The answer of an assignment, and the list that it leaves; every other key is as it was.
abbrev pub Assigned : Bytes → Result (Unit {0}) → List Bytes → Db → Result (Unit {0}) × Db → Type 0
Assigned key answer us db (r, db') = (r ≡ answer) × Holds key us db' × SameElsewhere key db db'

Holds-set :
    (key v w : Bytes) (vs : List Bytes) (k : ℕ) (db : Db)
    → Stored key (set (v ∷ vs) k w) db
    → Holds key (set (v ∷ vs) k w) db
Holds-set key v w vs zero db s = s
Holds-set key v w vs (suc k) db s = s

set_items-Stored :
    (key : Bytes) (us vs : List Bytes) (db : Db) (s : Stored key vs db)
    → length us ≡ length vs
    → Stored key us (set_items key (number s.m.head_seq us) db)
unfolding set_items Keys.get
set_items-Stored key us vs db s same = record {
  row = s.row;
  m = s.m;
  row_there = s.row_there;
  kind = s.kind;
  meta_there = s.meta_there;
  ends = s.ends ∙ ap (λ n. s.m.head_seq +ℤ pos n) (sym same);
  items = at_key_same key (number s.m.head_seq us) db.list_items;
}

set_items-SameElsewhere :
    (key : Bytes) (rows : Rows) (db : Db) → SameElsewhere key db (set_items key rows db)
unfolding set_items Keys.get
set_items-SameElsewhere key rows db = record {
  keys = λ j h. refl;
  strings = λ j h. refl;
  list_meta = λ j h. refl;
  list_items = at_key_ne key rows db.list_items;
}

module _ (key value : Bytes) (index : Option ℤ) (vs : List Bytes) (now : ℤ) (db : Db) where
  lset_refused :
      (e : Error)
      → Holds key vs db
      → lset_body key index value now db ≡ err e
      → Assigned key (err e) vs db (lset key index value now db)
  unfolding lset
  lset_refused e holds h =
      rw (transaction_err db (lset_body key index value now) e h)
        (refl, holds, SameElsewhere-refl key db)

  lset_done :
      (us : List Bytes) (db' : Db)
      → Holds key us db'
      → SameElsewhere key db db'
      → lset_body key index value now db ≡ ok (tt, db')
      → Assigned key (ok tt) us db (lset key index value now db)
  unfolding lset
  lset_done us db' holds same h =
      rw (transaction_ok db (lset_body key index value now) tt db' h) (refl, holds, same)

-- LSET on a key that holds the list `vs`, or no key (`vs` empty), answers and leaves what `set_at`
-- says, and every other key is as it was.
pub lset-Holds :
    (key value : Bytes) (index : Option ℤ) (vs : List Bytes) (now : ℤ) (db : Db)
    → Holds key vs db
    → Assigned key
        (set_at index value vs).0
        (set_at index value vs).1
        db
        (lset key index value now db)
unfolding lset_body get_meta set_at
lset-Holds key value index [] now db a =
    lset_refused key value index [] now db no_such_key a (rw (a.no_meta, lset_body))
lset-Holds key value none (v ∷ vs) now db s =
    lset_refused key value none (v ∷ vs) now db index_out_of_range s
      (rw (s.meta_there, lset_body) (rw (length-ends s.m (suc (length vs)) s.ends, is_zero-suc)))
lset-Holds key value (some idx) (v ∷ vs) now db s =
    let len = pos (suc (length vs)) in
    let i = if ltb_ℤ idx (pos 0) then len +ℤ idx else idx in
    let size = length-ends s.m (suc (length vs)) s.ends in
    elim (Bool-cases (ltb_ℤ i (pos 0) || leb_ℤ len i)) [
      | inl outside ↦ rw outside (
          lset_refused key value (some idx) (v ∷ vs) now db index_out_of_range s
            (rw (s.meta_there, lset_body) (rw (size, is_zero-suc, outside))))
      | inr inside ↦
          let us = set (v ∷ vs) (pos_part i) value in
          let db' = set_items key (number s.m.head_seq us) db in
          rw inside (
            lset_done key value (some idx) (v ∷ vs) now db us (Keys.bump_version key now db')
              (Holds-set key v value vs (pos_part i) _ (
                bump-Stored now
                  (set_items-Stored key us (v ∷ vs) db s (length-set (pos_part i) value (v ∷ vs)))))
              (SameElsewhere-trans key (set_items-SameElsewhere key _ db)
                (bump-SameElsewhere key now db'))
              (rw (s.meta_there, lset_body)
                (rw (
                  size,
                  is_zero-suc,
                  inside,
                  s.items,
                  update_seq-inside s.m.head_seq i value (v ∷ vs) inside,
                ))))
    ]
