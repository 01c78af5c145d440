-- ===== src/Engine/Strings/Reads.antt =====
-- src/engine/engine.js: what a reader sees of the keys, and that the reads answer it.
use resplite.Base.{
  ◌≡◌, refl, ◌∙◌, sym, ap, Bool, true, false, Option, none, some, Bytes, if◌then◌else◌, bytes_eq,
  ◌==◌, ==_refl, inl, inr, Bool-cases, Option-cases,
}
use mathlib.Core.Path.{subst}
use resplite.Base.Int.{ℤ}
use resplite.Base.Maps
use resplite.Base.Maps.{Distinct}
use resplite.Storage.{Db, KeyMeta, KeyType}
use resplite.Storage.Keys
use resplite.Storage.Frame.{SameElsewhere, delete-SameElsewhere, at_key_same}
use resplite.Engine.Strings.{State, invalidate, forget, is_past, get_key_meta}
use resplite.Engine.Strings.Coherent.{TextOf, IsGood, write-Sound, invalidate-IsGood}

-- A key as a client sees it; the values of the other types are left out.
pub record Item : Type 0 where
  pub kind : KeyType
  pub expires_at : Option ℤ
  pub text : Option Bytes

abbrev pub Seen : Type 0
Seen = Bytes → Option Item

unfoldable pub item_of : ℤ → Option KeyMeta → Option Bytes → Option Item
item_of now none text = none
item_of now (some row) text =
    if is_past now row.expires_at
    then none
    else some (record { kind = row.kind; expires_at = row.expires_at; text = text })

-- The keys that are there at the time `now`.
unfoldable pub view : ℤ → Db → Seen
view now db j = item_of now (Keys.get j db) (db.strings j)

abbrev pub SameView : ℤ → Db → Db → Type 0
SameView now a b = (j : Bytes) → view now b j ≡ view now a j

pub view-elsewhere :
    (key j : Bytes) (now : ℤ) (a b : Db)
    → SameElsewhere key a b
    → (key == j) ≡ false
    → view now b j ≡ view now a j
unfolding view
view-elsewhere key j now a b s other = rw (s.keys j other, s.strings j other)

-- A write at one key, seen from every key.
pub view-write :
    (key : Bytes) (now : ℤ) (a b : Db) (new : Option Item)
    → SameElsewhere key a b
    → view now b key ≡ new
    → (j : Bytes) → view now b j ≡ (if key == j then new else view now a j)
view-write key now a b new s e j = elim (Bool-cases (key == j)) [
  | inl same ↦ rw same (subst (λ i. view now b i ≡ new) ((bytes_eq.beq_iff key j).0 same) e)
  | inr other ↦ rw other (view-elsewhere key j now a b s other)
]

get-delete-none :
    (key : Bytes) (db : Db) → Distinct db.keys → Keys.get key (Keys.delete key db) ≡ none
unfolding Keys.get Keys.delete
get-delete-none key db d = rw (Maps.get-delete key key db.keys d) (rw ==_refl)

-- After a deletion there is nothing under the key.
view-delete :
    (key : Bytes) (now : ℤ) (db : Db) → Distinct db.keys → view now (Keys.delete key db) key ≡ none
unfolding view item_of
view-delete key now db d = rw (get-delete-none key db d)

pub forget-view :
    (key : Bytes) (now : ℤ) (st : State)
    → IsGood st
    → (j : Bytes) → view now (forget key st).db j ≡ (if key == j then none else view now st.db j)
unfolding forget
forget-view key now st g =
    view-write key now st.db (Keys.delete key st.db) none (delete-SameElsewhere key st.db)
      (view-delete key now st.db g.distinct)

delete-TextOf :
    (key : Bytes) (db : Db)
    → Distinct db.keys
    → TextOf (Keys.get key (Keys.delete key db)) ((Keys.delete key db).strings key)
delete-TextOf key db d = rw (get-delete-none key db d) (text key db)
  where
    text : (key : Bytes) (db : Db) → (Keys.delete key db).strings key ≡ none
    text key db = unfold Keys.delete in at_key_same key none db.strings

pub forget-IsGood : (key : Bytes) (st : State) → IsGood st → IsGood (forget key st)
unfolding forget
forget-IsGood key st g =
    let db = Keys.delete key st.db in
    unfold invalidate in
    invalidate-IsGood key (record st { db = db })
      (write-Sound key st db g (delete-SameElsewhere key st.db)
        (unfold Keys.delete in Maps.delete-Distinct key st.db.keys g.distinct)
        (delete-TextOf key st.db g.distinct))

-- A key whose time is over can go unseen.
pub forget_past :
    (key : Bytes) (now : ℤ) (st : State) (row : KeyMeta)
    → IsGood st
    → Keys.get key st.db ≡ some row
    → is_past now row.expires_at ≡ true
    → SameView now st.db (forget key st).db
unfolding view item_of
forget_past key now st row g there past j = elim (Bool-cases (key == j)) [
  | inl same ↦
      let gone : view now st.db key ≡ none = rw there (rw past) in
      forget-view key now st g j
      ∙ (rw same)
      ∙ sym gone
      ∙ ap (view now st.db) ((bytes_eq.beq_iff key j).0 same)
  | inr other ↦ forget-view key now st g j ∙ (rw other)
]

unfoldable pub past_row : ℤ → Option KeyMeta → Bool
past_row now none = false
past_row now (some row) = is_past now row.expires_at

-- What `get_key_meta` hands to its caller.
pub record Looked (now : ℤ) (key : Bytes) (st : State) (m : Option KeyMeta) (st' : State)
    : Type 0 where
  pub good : IsGood st'
  pub same : SameView now st.db st'.db
  pub row : Keys.get key st'.db ≡ m
  pub live : past_row now m ≡ false

pub get_key_meta-Looked :
    (now : ℤ) (key : Bytes) (st : State)
    → IsGood st
    → Looked now key st (get_key_meta now key st).0 (get_key_meta now key st).1
unfolding past_row get_key_meta
get_key_meta-Looked now key st g = elim (Option-cases (Keys.get key st.db)) [
  | inl absent ↦
      rw (absent, get_key_meta) (record { good = g; same = λ j. refl; row = absent; live = refl })
  | inr (row, there) ↦ elim (Bool-cases (is_past now row.expires_at)) [
    | inl past ↦
        rw (there, get_key_meta)
          (rw past (record {
            good = forget-IsGood key st g;
            same = forget_past key now st row g there past;
            row = unfold forget in get-delete-none key st.db g.distinct;
            live = refl;
          }))
    | inr live ↦
        rw (there, get_key_meta)
          (rw live (record { good = g; same = λ j. refl; row = there; live = live }))
  ]
]
