-- ===== src/Engine/Strings/Sets.antt =====
-- src/engine/engine.js: `set` and the other writes, seen by a client.
use resplite.Base.{
  ℕ, ◌≡◌, refl, ◌∙◌, sym, ap, false, Option, none, some, Bytes, if◌then◌else◌, bytes_eq, ◌==◌, inl,
  inr, Bool-cases,
}
use resplite.Base.Int.{ℤ}
use resplite.Storage.{Error, Db, KeyMeta, string, Result, ok, err, wrong_type}
use resplite.Storage.Keys
use resplite.Storage.Strings.{is_string}
use resplite.Engine.Strings.{State, cache_string, is_past, get_key_meta}
use resplite.Engine.Strings.Coherent.{TextOf, IsGood, write-Sound, cache_string-IsGood}
use resplite.Storage.Strings.Writes.{
  with_text, with_text-SameElsewhere, with_text-row, with_text-value, with_text-Distinct,
  string_options, written, create-with_text, overwrite-with_text, overwrite-refused, set-done,
  set-refused,
}
use resplite.Storage.Strings.{set_one, overwrite, create}
use resplite.Storage.Keys.{new_row, existing_of}
use resplite.Engine.Strings.{
  Expiry, expiry_at, store_string, cache_stored, set_string, version_after_write,
}
use resplite.Engine.Strings.Reads.{
  Item, item_of, view, SameView, view-write, past_row, get_key_meta-Looked,
}
use resplite.Engine.Strings.Gets.{text_there}

-- A write answers `r`, and is seen under one key.
pub record Writes {ℓ} (now : ℤ) (key : Bytes) (new : Option Item) (st : State) {A : Type ℓ} (r : A)
    (out : A × State) : Type ℓ where
  pub good : IsGood out.1
  pub seen : (j : Bytes) → view now out.1.db j ≡ (if key == j then new else view now st.db j)
  pub answers : out.0 ≡ r

-- What stands under a key after a string was stored.
unfoldable pub stored_item : ℤ → Bytes → Option ℤ → Option Item
unfolding is_past
stored_item now value expires_at =
    if is_past now expires_at
    then none
    else some (record { kind = string; expires_at = expires_at; text = some value })

with_text-TextOf :
    (key value : Bytes) (row : KeyMeta) (db : Db)
    → row.kind ≡ string
    → TextOf (Keys.get key (with_text key row value db)) ((with_text key row value db).strings key)
unfolding is_string
with_text-TextOf key value row db kind =
    rw (with_text-row key value row db, with_text-value key value row db) (rw kind (value, refl))

with_text-view :
    (now : ℤ) (key value : Bytes) (row : KeyMeta) (db : Db)
    → row.kind ≡ string
    → view now (with_text key row value db) key ≡ stored_item now value row.expires_at
unfolding view item_of stored_item
with_text-view now key value row db kind =
    rw (with_text-row key value row db, with_text-value key value row db) (rw kind)

-- A call that changes nothing that can be seen.
pub same-Writes {ℓ} :
    (now : ℤ) (key : Bytes) (new : Option Item) (st : State) {A : Type ℓ} (r : A) (out : A × State)
    → IsGood out.1
    → SameView now st.db out.1.db
    → new ≡ view now st.db key
    → out.0 ≡ r
    → Writes now key new st r out
same-Writes now key new st r out g same e a = record {
  good = g;
  seen = λ j. elim (Bool-cases (key == j)) [
    | inl here ↦
        rw here (same j ∙ ap (view now st.db) (sym ((bytes_eq.beq_iff key j).0 here)) ∙ sym e)
    | inr other ↦ rw other (same j)
  ];
  answers = a;
}

-- A write after a step that changes nothing that can be seen.
pub Writes-before {ℓ} :
    (now : ℤ) (key : Bytes) (new : Option Item) (a b : State) {A : Type ℓ} (r : A) (out : A × State)
    → SameView now a.db b.db
    → Writes now key new b r out
    → Writes now key new a r out
Writes-before now key new a b r out same w = record {
  good = w.good;
  seen = λ j. w.seen j ∙ ap (λ v. if key == j then new else v) (same j);
  answers = w.answers;
}

-- A string that the tables took goes to the cache.
put-Writes :
    (now : ℤ) (key value : Bytes) (version : ℕ) (row : KeyMeta) (st : State)
    → IsGood st
    → row.kind ≡ string
    → Writes now key (stored_item now value row.expires_at) st {A = Result (Unit {0})} (ok tt) (
      ok tt,
      cache_string key value version row.expires_at
          (record st { db = with_text key row value st.db }),
    )
put-Writes now key value version row st g kind =
    let db = with_text key row value st.db in
    let elsewhere = with_text-SameElsewhere key value row st.db in
    record {
      good =
          cache_string-IsGood key value version (record st { db = db }) row
            (write-Sound key st db g elsewhere (with_text-Distinct key value row st.db g.distinct)
              (with_text-TextOf key value row st.db kind))
            (with_text-row key value row st.db) kind (with_text-value key value row st.db);
      seen =
          unfold cache_string in
          view-write key now st.db db (stored_item now value row.expires_at) elsewhere
            (with_text-view now key value row st.db kind);
      answers = refl;
    }

-- What `set` answers, and what it leaves under the key.
unfoldable pub set_answer : Option Item → Result (Unit {0})
set_answer none = ok tt
set_answer (some item) = if is_string item.kind then ok tt else err wrong_type

unfoldable pub set_leaves : Option Item → Option Item → Option Item
set_leaves none new = new
set_leaves (some item) new = if is_string item.kind then new else some item

module _ (now : ℤ) (key value : Bytes) (expires_at : Option ℤ) (m : Option KeyMeta)
    (st : State) where
  store_done :
      (db : Db)
      → set_one key value now (string_options expires_at m) st.db ≡ ok db
      → store_string now key value expires_at m st
        ≡ (ok tt, cache_string key value (version_after_write m) expires_at (record st { db = db }))
  unfolding store_string cache_stored
  store_done db h =
      ap (cache_stored key value (version_after_write m) expires_at st)
        (set-done key value now expires_at m st.db db h)

  store_refused :
      (e : Error)
      → set_one key value now (string_options expires_at m) st.db ≡ err e
      → store_string now key value expires_at m st ≡ (err e, st)
  unfolding store_string cache_stored
  store_refused e h =
      ap (cache_stored key value (version_after_write m) expires_at st)
        (set-refused key value now expires_at m st.db e h)

set_one-none :
    (key value : Bytes) (now : ℤ) (expires_at : Option ℤ) (db : Db)
    → set_one key value now (string_options expires_at none) db ≡ create key value now expires_at db
unfolding set_one existing_of
set_one-none key value now expires_at db = refl

set_one-some :
    (key value : Bytes) (now : ℤ) (expires_at : Option ℤ) (m : KeyMeta) (db : Db)
    → set_one key value now (string_options expires_at (some m)) db
      ≡ overwrite key value now expires_at m db
unfolding set_one existing_of
set_one-some key value now expires_at m db = refl

pub store_string-Writes :
    (now : ℤ) (key value : Bytes) (expires_at : Option ℤ) (m : Option KeyMeta) (st : State)
    → IsGood st
    → Keys.get key st.db ≡ m
    → past_row now m ≡ false
    → let seen = view now st.db key in
      Writes now key
        (set_leaves seen (stored_item now value expires_at))
        st
        (set_answer seen)
        (store_string now key value expires_at m st)
unfolding view item_of past_row set_answer set_leaves new_row
store_string-Writes now key value expires_at none st g there live =
    let no_text : st.db.strings key ≡ none = rw there at (g.texts key) in
    let done =
      set_one-none key value now expires_at st.db
      ∙ create-with_text key value now expires_at st.db there no_text in
    rw (store_done now key value expires_at none st _ done, there)
      (put-Writes now key value (version_after_write none)
        (written key value now expires_at st.db none) st g refl)
store_string-Writes now key value expires_at (some m) st g there live =
    elim (Bool-cases (is_string m.kind)) [
      | inl kind ↦
          let (old, text) = text_there key m st g there kind in
          let done =
            set_one-some key value now expires_at m st.db
            ∙ overwrite-with_text key value now expires_at st.db m old there kind text in
          rw (store_done now key value expires_at (some m) st _ done, there)
            (rw live (
              rw kind (
                put-Writes now key value (version_after_write (some m))
                  (written key value now expires_at st.db (some m)) st g refl)))
      | inr other ↦
          let refused =
            set_one-some key value now expires_at m st.db
            ∙ overwrite-refused key value now expires_at st.db m other in
          rw (store_refused now key value expires_at (some m) st wrong_type refused) (
            same-Writes now key _ st _ (err wrong_type, st) g (λ j. refl)
              (rw there (rw live (rw other))) (rw there (rw live (rw other))))
    ]

-- SET on a well-formed state: on a key of another type it raises WRONGTYPE and nothing changes that
-- can be seen; else the value and its expiry are seen under the key, and every other key is as it was.
pub set_string-Writes :
    (now : ℤ) (key value : Bytes) (o : Expiry) (st : State)
    → IsGood st
    → let seen = view now st.db key in
      Writes now key
        (set_leaves seen (stored_item now value (expiry_at now o)))
        st
        (set_answer seen)
        (set_string now key value o st)
unfolding set_string
set_string-Writes now key value o st g =
    let l = get_key_meta-Looked now key st g in
    let st' = (get_key_meta now key st).1 in
    let m = (get_key_meta now key st).0 in
    rw (← l.same key) (
      Writes-before now key _ st st' _ _ l.same
        (store_string-Writes now key value (expiry_at now o) m st' l.good l.row l.live))
