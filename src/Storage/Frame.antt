-- ===== src/Storage/Frame.antt =====
-- Tables of a key's rows: reading what was written, and what a write leaves alone.
use resplite.Base.{
  false, none, some, [], Bytes, bytes_eq, ◌==◌, ==_refl, ◌≡◌, refl, arith, if◌then◌else◌, ◌∙◌, inl,
  inr, Option-cases,
}
use resplite.Base.Maps
use mathlib.Core.Path.{fun_ext}
use resplite.Storage.{Db, KeyMeta}
use resplite.Storage.Keys
use resplite.Storage.Keys.{at_key}

module _ {ℓ} {A : Type ℓ} (k : Bytes) where
  pub at_key_same : (a : A) (f : Bytes → A) → at_key k a f k ≡ a
  at_key_same a f = rw (==_refl k)

  pub at_key_ne : (a : A) (f : Bytes → A) (j : Bytes) → (k == j) ≡ false → at_key k a f j ≡ f j
  at_key_ne a f j h = rw h

  pub at_key_self : (f : Bytes → A) → at_key k (f k) f ≡ f
  at_key_self f = fun_ext (λ j. same j)
    where
      same : (j : Bytes) → at_key k (f k) f j ≡ f j
      same j = ground (arith, bytes_eq.beq_iff k j)

  pub at_key_twice : (a b : A) (f : Bytes → A) → at_key k a (at_key k b f) ≡ at_key k a f
  at_key_twice a b f = fun_ext (λ j. same j)
    where
      same : (j : Bytes) → at_key k a (at_key k b f) j ≡ at_key k a f j
      same j = ground arith

-- Every table reads the same at every key but `k`.
pub record SameElsewhere (k : Bytes) (a b : Db) : Type 0 where
  pub keys : (j : Bytes) → (k == j) ≡ false → Keys.get j b ≡ Keys.get j a
  pub strings : (j : Bytes) → (k == j) ≡ false → b.strings j ≡ a.strings j
  pub list_meta : (j : Bytes) → (k == j) ≡ false → b.list_meta j ≡ a.list_meta j
  pub list_items : (j : Bytes) → (k == j) ≡ false → b.list_items j ≡ a.list_items j

pub SameElsewhere-refl : (k : Bytes) (a : Db) → SameElsewhere k a a
SameElsewhere-refl k a = record {
  keys = λ j h. refl;
  strings = λ j h. refl;
  list_meta = λ j h. refl;
  list_items = λ j h. refl;
}

pub SameElsewhere-trans :
    (k : Bytes) {a b c : Db} → SameElsewhere k a b → SameElsewhere k b c → SameElsewhere k a c
SameElsewhere-trans k p q = record {
  keys = λ j h. q.keys j h ∙ p.keys j h;
  strings = λ j h. q.strings j h ∙ p.strings j h;
  list_meta = λ j h. q.list_meta j h ∙ p.list_meta j h;
  list_items = λ j h. q.list_items j h ∙ p.list_items j h;
}

-- The four statements that change redis_keys, as they are read.
pub get-update :
    (k : Bytes) (f : KeyMeta → KeyMeta) (db : Db) (row : KeyMeta)
    → Keys.get k db ≡ some row
    → Keys.update k f db ≡ record db { keys = Maps.set k (f row) db.keys }
unfolding Keys.update
get-update k f db row h = rw (h, Keys.update)

pub get-set_keys :
    (k j : Bytes) (row : KeyMeta) (db : Db)
    → Keys.get j (record db { keys = Maps.set k row db.keys })
      ≡ (if k == j then some row else Keys.get j db)
unfolding Keys.get
get-set_keys k j row db = Maps.get-set k j row db.keys

-- Writes to redis_keys at one key.
pub set_keys-SameElsewhere :
    (k : Bytes) (row : KeyMeta) (db : Db)
    → SameElsewhere k db (record db { keys = Maps.set k row db.keys })
set_keys-SameElsewhere k row db = record {
  keys = λ j h. get-set_keys k j row db ∙ (rw h);
  strings = λ j h. refl;
  list_meta = λ j h. refl;
  list_items = λ j h. refl;
}

pub update-SameElsewhere :
    (k : Bytes) (f : KeyMeta → KeyMeta) (db : Db) → SameElsewhere k db (Keys.update k f db)
unfolding Keys.update
update-SameElsewhere k f db = elim (Option-cases (Keys.get k db)) [
  | inl absent ↦ rw (absent, Keys.update) (SameElsewhere-refl k db)
  | inr (row, there) ↦ rw (there, Keys.update) (set_keys-SameElsewhere k (f row) db)
]

pub delete-SameElsewhere : (k : Bytes) (db : Db) → SameElsewhere k db (Keys.delete k db)
unfolding Keys.delete Keys.get
delete-SameElsewhere k db = record {
  keys = λ j h. Maps.get-delete_ne k j db.keys h;
  strings = at_key_ne k none db.strings;
  list_meta = at_key_ne k none db.list_meta;
  list_items = at_key_ne k [] db.list_items;
}
