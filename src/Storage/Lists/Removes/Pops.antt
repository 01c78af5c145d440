-- ===== src/Storage/Lists/Removes/Pops.antt =====
-- src/storage/sqlite/lists.js: what `lpop`, `rpop` and `ltrim` leave of the list of the key.
use resplite.Base.{
  ℕ, suc, ◌-◌, ◌≤◌, ◌<◌, ◌≡◌, refl, ◌∙◌, ap, true, false, not, none, some, List, [], ◌∷◌, Bytes,
  length, arith, ltb, leb, lt→ltb, ltb_of_le, bytes_eq, ==_refl,
}
use resplite.Base.Int.{ℤ, pos, pos_part, neg_part, ◌+ℤ◌, ◌-ℤ◌, ltb_ℤ, beq_ℤ, +ℤ_parts, -ℤ_parts}
use resplite.Base.Maps
use resplite.Base.Maps.{Distinct}
use resplite.Storage.Keys
use resplite.Storage.Keys.{at_key}
use resplite.Storage.Frame.{at_key_same, at_key_ne, SameElsewhere, SameElsewhere-trans}
use resplite.Storage.{Db, KeyMeta, Rows, ListMeta, list}
use resplite.Storage.Lists.{delete_meta, set_items, is_zero}
use resplite.Storage.Lists.Statements.{between}
use resplite.Storage.Lists.Numbered.{number}
use resplite.Storage.Lists.View.{
  Absent, Holds, update_meta-with_list, with_list-Stored, with_list-SameElsewhere, bump-Stored,
  bump-SameElsewhere,
}
use resplite.Storage.Lists.Removes.{Popped, settle}

-- What a pop answers, and the list that it leaves; every other key is as it was.
abbrev pub Popping : Bytes → Popped → List Bytes → Db → Popped × Db → Type 0
Popping key answer us db (p, db') = (p ≡ answer) × Holds key us db' × SameElsewhere key db db'

pub delete-Absent :
    (key : Bytes) (rows : Rows) (db : Db)
    → Distinct db.keys
    → Absent key (Keys.delete key (delete_meta key (set_items key rows db)))
      × SameElsewhere key db (Keys.delete key (delete_meta key (set_items key rows db)))
unfolding Keys.delete delete_meta set_items Keys.get
delete-Absent key rows db d = (
  record {
    no_row = Maps.get-delete key key db.keys d ∙ (rw ==_refl);
    no_meta = at_key_same key none (at_key key none db.list_meta);
    no_items = at_key_same key [] (at_key key rows db.list_items);
  },
  record {
    keys = λ j h. Maps.get-delete_ne key j db.keys h;
    strings = at_key_ne key none db.strings;
    list_meta = λ j h.
        at_key_ne key none (at_key key none db.list_meta) j h ∙ at_key_ne key none db.list_meta j h;
    list_items = λ j h.
        at_key_ne key [] (at_key key rows db.list_items) j h ∙ at_key_ne key rows db.list_items j h;
  },
)

ends_empty : (t h : ℤ) → t +ℤ pos 1 ≡ h +ℤ pos 0 → ltb_ℤ t h ≡ true
ends_empty t h e =
    lt→ltb _ _ (omega (arith, ap pos_part e, ap neg_part e, +ℤ_parts t (pos 1), +ℤ_parts h (pos 0)))

ends_some : (t h : ℤ) (n : ℕ) → t +ℤ pos 1 ≡ h +ℤ pos (suc n) → ltb_ℤ t h ≡ false
ends_some t h n e =
    ltb_of_le _ _
      (omega (arith, ap pos_part e, ap neg_part e, +ℤ_parts t (pos 1), +ℤ_parts h (pos (suc n))))

pub settle-Holds :
    (key : Bytes) (m : ListMeta) (us : List Bytes) (now : ℤ) (db : Db) (row : KeyMeta)
    (old : ListMeta)
    → Distinct db.keys
    → Keys.get key db ≡ some row
    → row.kind ≡ list
    → db.list_meta key ≡ some old
    → m.tail_seq +ℤ pos 1 ≡ m.head_seq +ℤ pos (length us)
    → Holds key us (settle key m now (set_items key (number m.head_seq us) db))
      × SameElsewhere key db (settle key m now (set_items key (number m.head_seq us) db))
unfolding settle
settle-Holds key m [] now db row old d r k o e =
    rw (ends_empty m.tail_seq m.head_seq e) (delete-Absent key _ db d)
settle-Holds key m (u ∷ us) now db row old d r k o e =
    rw
      (
        ends_some m.tail_seq m.head_seq (length us) e,
        update_meta-with_list key m (number m.head_seq (u ∷ us)) db old o,
      )
      (
        bump-Stored now (with_list-Stored key m _ db row (u ∷ us) r k e refl),
        SameElsewhere-trans key (with_list-SameElsewhere key m _ db) (bump-SameElsewhere key now _),
      )

pub is_zero-suc : (n : ℕ) → is_zero (pos (suc n)) ≡ false
unfolding is_zero
is_zero-suc n = ground arith

-- Which positions the statements of the pops read, from the numbers `h` and `t` of the ends.
module _ (h : ℤ) (i : ℕ) where
  pub reads_head : not (beq_ℤ (h +ℤ pos i) h) ≡ leb 1 i
  reads_head = ground (arith, +ℤ_parts h (pos i))

  pub reads_front : (k : ℕ) → between h (h +ℤ pos k -ℤ pos 1) (h +ℤ pos i) ≡ ltb i k
  reads_front k =
      ground (arith, +ℤ_parts h (pos i), +ℤ_parts h (pos k), -ℤ_parts (h +ℤ pos k) (pos 1))

  pub reads_last :
      (t : ℤ) (n : ℕ)
      → t +ℤ pos 1 ≡ h +ℤ pos (suc n)
      → i < suc n
      → not (beq_ℤ (h +ℤ pos i) t) ≡ ltb i n
  reads_last t n e less = ground (
    arith,
    ap pos_part e,
    ap neg_part e,
    +ℤ_parts h (pos i),
    +ℤ_parts t (pos 1),
    +ℤ_parts h (pos (suc n)),
  )

  pub reads_back :
      (t : ℤ) (n k : ℕ)
      → t +ℤ pos 1 ≡ h +ℤ pos n
      → k ≤ n
      → i < n
      → between (t -ℤ pos k +ℤ pos 1) t (h +ℤ pos i) ≡ leb (n - k) i
  reads_back t n k e le less = ground (
    arith,
    ap pos_part e,
    ap neg_part e,
    +ℤ_parts h (pos i),
    +ℤ_parts t (pos 1),
    +ℤ_parts h (pos n),
    -ℤ_parts t (pos k),
    +ℤ_parts (t -ℤ pos k) (pos 1),
  )
