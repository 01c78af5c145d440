-- ===== src/Engine/Strings/Coherent.antt =====
-- src/engine/engine.js: what the cache holds is what the tables hold, and what keeps it so.
use resplite.Base.{
  ℕ, ◌≡◌, refl, ◌∙◌, sym, ap, Bool, true, false, Option, none, some, Bytes, if◌then◌else◌, bytes_eq,
  ◌==◌, arith, inl, inr, Bool-cases,
}
use mathlib.Core.Path.{subst}
use resplite.Base.Maps
use resplite.Base.Maps.{Distinct}
use resplite.Cache
use resplite.Cache.{Cache}
use resplite.Cache.Sizes.{buffer}
use resplite.Cache.Lru
use resplite.Cache.Lru.{Entry, get_call, set_call, del_call}
use resplite.Cache.Lru.Bounds.{IsValid}
use resplite.Cache.Lru.Valid.{step-IsValid}
use resplite.Cache.Lru.Order.{tell, step-IsFresh, lookup-get}
use resplite.Storage.{Db, KeyMeta, string}
use resplite.Storage.Keys
use resplite.Storage.Frame.{SameElsewhere}
use resplite.Storage.Strings.{is_string}
use resplite.Engine.Strings.{State, string_kind, invalidate, cache_string}

-- A cached string is the value under its key, with the key's expiry.
pub record Agrees (key : Bytes) (entry : Entry) (db : Db) : Type 0 where
  pub row : KeyMeta
  pub value : Bytes
  pub row_there : Keys.get key db ≡ some row
  pub kind : row.kind ≡ string
  pub value_there : db.strings key ≡ some value
  pub cached : entry.value ≡ buffer value
  pub expiry : entry.expires_at ≡ row.expires_at

-- Every string in the cache agrees with the tables, but perhaps under keys that `skip` names.
abbrev pub Coherent : (Bytes → Bool) → State → Type 0
Coherent skip st =
    st.cache.enabled ≡ true
    → (j : Bytes) (entry : Entry) → skip j ≡ false
    → Maps.get j st.cache.lru.entries ≡ some entry
    → entry.kind ≡ string_kind
    → Agrees j entry st.db

-- A row of redis_strings stands exactly under the keys of type string.
abbrev pub TextOf : Option KeyMeta → Option Bytes → Type 0
TextOf none text = text ≡ none
TextOf (some row) text = if is_string row.kind then ((v : Bytes) × (text ≡ some v)) else text ≡ none

-- The tables are well formed, and so is the cache.
pub record Sound (skip : Bytes → Bool) (st : State) : Type 0 where
  pub cache : IsValid st.cache.lru
  pub distinct : Distinct st.db.keys
  pub texts : (j : Bytes) → TextOf (Keys.get j st.db) (st.db.strings j)
  pub coherent : Coherent skip st

abbrev pub nowhere : Bytes → Bool
nowhere j = false

abbrev pub IsGood : State → Type 0
IsGood st = Sound nowhere st

Agrees-SameElsewhere :
    (key j : Bytes) (entry : Entry) (a b : Db)
    → SameElsewhere key a b
    → (key == j) ≡ false
    → Agrees j entry a
    → Agrees j entry b
Agrees-SameElsewhere key j entry a b s ne g = record {
  row = g.row;
  value = g.value;
  row_there = s.keys j ne ∙ g.row_there;
  kind = g.kind;
  value_there = s.strings j ne ∙ g.value_there;
  cached = g.cached;
  expiry = g.expiry;
}

-- After a write to the tables under `key`, the cache may be stale there and nowhere else.
pub write-Sound :
    (key : Bytes) (st : State) (db : Db)
    → IsGood st
    → SameElsewhere key st.db db
    → Distinct db.keys
    → TextOf (Keys.get key db) (db.strings key)
    → Sound (λ j. key == j) (record st { db = db })
write-Sound key st db g s d t = record {
  cache = g.cache;
  distinct = d;
  texts = λ j. elim (Bool-cases (key == j)) [
    | inl same ↦
        subst (λ i. TextOf (Keys.get i db) (db.strings i)) ((bytes_eq.beq_iff key j).0 same) t
    | inr other ↦ rw (s.keys j other, s.strings j other) (g.texts j)
  ];
  coherent = λ on j entry skip there kind.
      Agrees-SameElsewhere key j entry st.db db s skip (g.coherent on j entry refl there kind);
}

pub invalidate-lookup :
    (key j : Bytes) (entry : Entry) (lru : Lru.Lru)
    → IsValid lru
    → Maps.get j (Lru.del key lru).entries ≡ some entry
    → ((key == j) ≡ false) × (Maps.get j lru.entries ≡ some entry)
unfolding tell Lru.step
invalidate-lookup key j entry lru v h =
    let e =
      step-IsFresh (del_call key) lru (λ i. Maps.get i lru.entries) v (λ i x p. p) j entry h in
    ground (arith, e)

pub set-lookup :
    (key j : Bytes) (new entry : Entry) (lru : Lru.Lru)
    → IsValid lru
    → Maps.get j (Lru.set key new lru).entries ≡ some entry
    → (if key == j then some new else Maps.get j lru.entries) ≡ some entry
unfolding tell Lru.step
set-lookup key j new entry lru v h =
    step-IsFresh (set_call key new) lru (λ i. Maps.get i lru.entries) v (λ i x p. p) j entry h

pub weaken : (skip : Bytes → Bool) (st : State) → IsGood st → Sound skip st
weaken skip st g = record {
  cache = g.cache;
  distinct = g.distinct;
  texts = g.texts;
  coherent = λ on j entry s there kind. g.coherent on j entry refl there kind;
}

-- The three calls of the cache, on a state that may be stale at the key.
pub invalidate-IsGood :
    (key : Bytes) (st : State) → Sound (λ j. key == j) st → IsGood (invalidate key st)
unfolding invalidate Cache.invalidate Lru.step
invalidate-IsGood key st g = elim (Bool-cases st.cache.enabled) [
  | inl on ↦ rw on (record {
    cache = step-IsValid (del_call key) st.cache.lru g.cache;
    distinct = g.distinct;
    texts = g.texts;
    coherent = λ _ j entry s there kind.
        let (other, old) = invalidate-lookup key j entry st.cache.lru g.cache there in
        g.coherent on j entry other old kind;
  })
  | inr off ↦ rw off (record {
    cache = g.cache;
    distinct = g.distinct;
    texts = g.texts;
    coherent = λ on j entry s there kind. absurd (cc);
  })
]

pub cache_string-IsGood :
    (key value : Bytes) (version : ℕ) (st : State) (row : KeyMeta)
    → Sound (λ j. key == j) st
    → Keys.get key st.db ≡ some row
    → row.kind ≡ string
    → st.db.strings key ≡ some value
    → IsGood (cache_string key value version row.expires_at st)
unfolding cache_string Cache.set Lru.step
cache_string-IsGood key value version st row g there kind text =
    elim (Bool-cases st.cache.enabled) [
      | inl on ↦
          let new : Entry = record {
            kind = string_kind;
            version = version;
            expires_at = row.expires_at;
            value = buffer value;
          } in
          rw on (record {
            cache = step-IsValid (set_call key new) st.cache.lru g.cache;
            distinct = g.distinct;
            texts = g.texts;
            coherent = λ _ j entry s h k.
                agrees new on refl refl j entry (set-lookup key j new entry st.cache.lru g.cache h)
                  k;
          })
      | inr off ↦ rw off (record {
        cache = g.cache;
        distinct = g.distinct;
        texts = g.texts;
        coherent = λ on j entry s there kind. absurd (cc);
      })
    ]
  where
    agrees :
        (new : Entry)
        → st.cache.enabled ≡ true
        → new.value ≡ buffer value
        → new.expires_at ≡ row.expires_at
        → (j : Bytes) (entry : Entry)
        → (if key == j then some new else Maps.get j st.cache.lru.entries) ≡ some entry
        → entry.kind ≡ string_kind
        → Agrees j entry st.db
    agrees new on v x j entry h k = elim (Bool-cases (key == j)) [
      | inl same ↦
          let h' : some new ≡ some entry = rw same at h in
          let e : new ≡ entry = cc in
          subst (λ i. Agrees i entry st.db) ((bytes_eq.beq_iff key j).0 same)
            (record {
              row = row;
              value = value;
              row_there = there;
              kind = kind;
              value_there = text;
              cached = ap (λ n. n.value) (sym e) ∙ v;
              expiry = ap (λ n. n.expires_at) (sym e) ∙ x;
            })
      | inr other ↦ g.coherent on j entry other (rw other at h) k
    ]

pub touch-IsGood :
    (key : Bytes) (st : State)
    → IsGood st
    → IsGood (record st { cache = (Cache.get key st.cache).1 })
unfolding Cache.get Lru.step
touch-IsGood key st g = elim (Bool-cases st.cache.enabled) [
  | inl on ↦ rw on (record {
    cache = step-IsValid (get_call key) st.cache.lru g.cache;
    distinct = g.distinct;
    texts = g.texts;
    coherent = λ _ j entry s there kind.
        g.coherent on j entry refl (sym (lookup-get key j st.cache.lru g.cache) ∙ there) kind;
  })
  | inr off ↦ rw off (record {
    cache = g.cache;
    distinct = g.distinct;
    texts = g.texts;
    coherent = λ on j entry s there kind. absurd (cc);
  })
]
