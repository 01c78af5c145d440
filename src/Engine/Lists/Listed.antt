-- ===== src/Engine/Lists/Listed.antt =====
-- src/engine/engine.js: LRANGE, LLEN and LINDEX answer from the cache what the tables hold.
use resplite.Base.{
  ◌≡◌, refl, ◌∙◌, sym, ap, true, false, Option, none, some, List, [], ◌∷◌, Bytes, if◌then◌else◌,
  bytes_eq, ==_refl, inl, inr, Bool-cases, Option-cases, branches,
}
use mathlib.Core.Path.{subst}
use resplite.Base.Int.{ℤ}
use resplite.Base.Maps
use resplite.Base.Maps.{Distinct}
use resplite.Cache
use resplite.Cache.Lru
use resplite.Cache.Lru.{Entry, get_call, set_call, del_call}
use resplite.Cache.Lru.Bounds.{IsValid}
use resplite.Cache.Lru.Valid.{step-IsValid}
use resplite.Cache.Lru.Order.{lookup-get}
use resplite.Cache.Sizes.{array}
use resplite.Storage.{Db, KeyMeta, list}
use resplite.Storage.Keys
use resplite.Storage.Frame.{at_key_same}
use resplite.Storage.Lists.View.{Holds, Absent}
use resplite.Engine.Strings.{State, invalidate, forget, is_past, get_key_meta}
use resplite.Engine.Strings.Coherent.{invalidate-lookup}
use resplite.Engine.Lists.{list_kind, items_of, values_in}

-- A cached copy of the list, with the key's expiry.
pub record IsCopy (key : Bytes) (vs : List Bytes) (entry : Entry) (db : Db) : Type 0 where
  pub row : KeyMeta
  pub row_there : Keys.get key db ≡ some row
  pub value : entry.value ≡ array (items_of vs)
  pub expiry : entry.expires_at ≡ row.expires_at

-- The key holds a list in the tables; if the cache has a list under the key, it is a copy of it.
pub record Listed (key : Bytes) (vs : List Bytes) (st : State) : Type 0 where
  pub cache : IsValid st.cache.lru
  pub distinct : Distinct st.db.keys
  pub holds : Holds key vs st.db
  pub copy :
      st.cache.enabled ≡ true
      → (entry : Entry) → Maps.get key st.cache.lru.entries ≡ some entry
      → entry.kind ≡ list_kind
      → IsCopy key vs entry st.db

-- The list as a client sees it: none, once the time of the key is over.
unfoldable pub seen : ℤ → Option KeyMeta → List Bytes → List Bytes
seen now none vs = vs
seen now (some row) vs = if is_past now row.expires_at then [] else vs

pub values_in-items_of : (vs : List Bytes) → values_in (items_of vs) ≡ vs
unfolding values_in items_of
values_in-items_of [] = refl
values_in-items_of (v ∷ vs) = ap (◌∷◌ v) (values_in-items_of vs)

module _ (key : Bytes) where
  delete-Absent : (db : Db) → Distinct db.keys → Absent key (Keys.delete key db)
  unfolding Keys.delete Keys.get
  delete-Absent db d = record {
    no_row = Maps.get-delete key key db.keys d ∙ (rw ==_refl);
    no_meta = at_key_same key none db.list_meta;
    no_items = at_key_same key [] db.list_items;
  }

  delete-Distinct : (db : Db) → Distinct db.keys → Distinct (Keys.delete key db).keys
  unfolding Keys.delete
  delete-Distinct db d = Maps.delete-Distinct key db.keys d

  -- After a write to the tables and `invalidateCachedKey`, whatever was cached before.
  pub invalidate-Listed :
      (vs : List Bytes) (st : State) (db : Db)
      → IsValid st.cache.lru
      → Distinct db.keys
      → Holds key vs db
      → Listed key vs (invalidate key (record st { db = db }))
  unfolding invalidate Cache.invalidate Lru.step
  invalidate-Listed vs st db v d h = elim (Bool-cases st.cache.enabled) [
    | inl on ↦ rw on (record {
      cache = step-IsValid (del_call key) st.cache.lru v;
      distinct = d;
      holds = h;
      copy = λ _ entry there kind.
          let (other, old) = invalidate-lookup key key entry st.cache.lru v there in
          absurd (cc (other, ==_refl key));
    })
    | inr off ↦
        rw off
          (record { cache = v; distinct = d; holds = h; copy = λ on entry there kind. absurd (cc) })
  ]

  pub forget-Listed :
      (vs : List Bytes) (st : State) → Listed key vs st → Listed key [] (forget key st)
  unfolding forget invalidate
  forget-Listed vs st l =
      invalidate-Listed [] st (Keys.delete key st.db) l.cache (delete-Distinct st.db l.distinct)
        (delete-Absent st.db l.distinct)

  pub touch-Listed :
      (vs : List Bytes) (st : State)
      → Listed key vs st
      → Listed key vs (record st { cache = (Cache.get key st.cache).1 })
  unfolding Cache.get Lru.step
  touch-Listed vs st l = elim (Bool-cases st.cache.enabled) [
    | inl on ↦ rw on (record {
      cache = step-IsValid (get_call key) st.cache.lru l.cache;
      distinct = l.distinct;
      holds = l.holds;
      copy = λ _ entry there kind.
          l.copy on entry (sym (lookup-get key key st.cache.lru l.cache) ∙ there) kind;
    })
    | inr off ↦ rw off (record {
      cache = l.cache;
      distinct = l.distinct;
      holds = l.holds;
      copy = λ on entry there kind. absurd (cc);
    })
  ]

  -- What `getKeyMeta` comes to.
  pub data Looked (now : ℤ) (vs : List Bytes) (st : State) : Option KeyMeta × State → Type 0 where
    absent :
        (st' : State)
        → seen now (Keys.get key st.db) vs ≡ []
        → Listed key [] st'
        → Looked now vs st (none, st')
    present :
        (row : KeyMeta)
        → Keys.get key st.db ≡ some row
        → seen now (Keys.get key st.db) vs ≡ vs
        → row.kind ≡ list
        → is_past now row.expires_at ≡ false
        → Looked now vs st (some row, st)

  Holds-kind :
      (vs : List Bytes) (db : Db) (row : KeyMeta)
      → Holds key vs db
      → Keys.get key db ≡ some row
      → row.kind ≡ list
  Holds-kind [] db row a there = absurd (cc (a.no_row, there))
  Holds-kind (v ∷ vs) db row s there =
      let same : s.row ≡ row = cc (s.row_there, there) in ap (λ r. r.kind) (sym same) ∙ s.kind

  Holds-empty : (vs : List Bytes) (db : Db) → Holds key vs db → Keys.get key db ≡ none → vs ≡ []
  Holds-empty [] db a out = refl
  Holds-empty (v ∷ vs) db s out = absurd (cc (s.row_there, out))

  pub get_key_meta-Looked :
      (now : ℤ) (vs : List Bytes) (st : State)
      → Listed key vs st
      → Looked now vs st (get_key_meta now key st)
  unfolding get_key_meta seen
  get_key_meta-Looked now vs st l = elim (Option-cases (Keys.get key st.db)) [
    | inl out ↦
        let e = Holds-empty vs st.db l.holds out in
        rw (out, get_key_meta) (absent st (rw (out, seen) e) (subst (λ us. Listed key us st) e l))
    | inr (row, there) ↦
        rw (there, get_key_meta)
          (branches (Looked now vs st) (is_past now row.expires_at)
            (λ past.
              absent (forget key st) (rw (there, seen) (rw past refl)) (forget-Listed vs st l))
            (λ live.
              present row there (rw (there, seen) (rw live refl))
                (Holds-kind vs st.db row l.holds there) live))
  ]
