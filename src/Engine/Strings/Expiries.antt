-- ===== src/Engine/Strings/Expiries.antt =====
-- src/engine/engine.js: existence, expiry and deletion of keys, seen by a client.
use resplite.Base.{
  ℕ, ◌≡◌, refl, ◌∙◌, sym, ap, Bool, true, false, Option, none, some, List, [], ◌∷◌, Bytes,
  if◌then◌else◌, bytes_eq, ==_refl,
}
use resplite.Base.Int.{ℤ}
use resplite.Base.Maps
use resplite.Base.Maps.{Distinct}
use resplite.Storage.{Db, KeyMeta}
use resplite.Storage.Keys
use resplite.Storage.Frame.{SameElsewhere}
use resplite.Engine.Strings.{State, invalidate, is_past, get_key_meta}
use resplite.Engine.Strings.Coherent.{TextOf, IsGood, write-Sound, invalidate-IsGood}
use resplite.Storage.Keys.{new_row, existing_of}
use resplite.Engine.Strings.Reads.{
  Item, Seen, item_of, view, view-write, past_row, Looked, get_key_meta-Looked,
}
use resplite.Engine.Strings.Gets.{Reads}
use resplite.Base.{ℕ, suc}
use resplite.Base.Int.{◌-ℤ◌, leb_ℤ, pos, negsuc}
use mathlib.Core.Path.{fun_ext}
use resplite.Storage.Frame.{set_keys-SameElsewhere, get-update, get-set_keys}
use resplite.Engine.Strings.{exists, set_expiry, re_time, remaining, pttl}
use resplite.Engine.Strings.Sets.{Writes, same-Writes, Writes-before}

-- What is seen under the key, by the row that `get_key_meta` gives.
unfoldable seen_row : Option KeyMeta → Option Bytes → Option Item
seen_row none text = none
seen_row (some row) text =
    some (record { kind = row.kind; expires_at = row.expires_at; text = text })

Looked-view :
    (now : ℤ) (key : Bytes) (st : State) (m : Option KeyMeta) (st' : State)
    → Looked now key st m st'
    → view now st.db key ≡ seen_row m (st'.db.strings key)
unfolding view seen_row item_of past_row
Looked-view now key st none st' l = sym (l.same key) ∙ (rw l.row)
Looked-view now key st (some row) st' l = sym (l.same key) ∙ (rw l.row (rw l.live))

abbrev pub count_one : Option Item → ℕ → ℕ
count_one none n = n
count_one (some item) n = suc n

unfoldable pub count_seen : List Bytes → Seen → ℕ
count_seen [] seen = 0
count_seen (key ∷ keys) seen = count_one (seen key) (count_seen keys seen)

counted :
    (m : Option KeyMeta) (text : Option Bytes) {a b : ℕ}
    → a ≡ b
    → (elim m as (λ _. ℕ) [ none ↦ a | some _ ↦ suc a ]) ≡ count_one (seen_row m text) b
unfolding seen_row
counted none text e = e
counted (some row) text e = ap suc e

-- EXISTS on a well-formed state counts the keys that are seen, each as often as it is named, and
-- changes nothing that can be seen.
pub exists-Reads :
    (now : ℤ) (keys : List Bytes) (st : State)
    → IsGood st
    → Reads now st (count_seen keys (view now st.db)) (exists now keys st)
unfolding exists count_seen
exists-Reads now [] st g = record { good = g; same = λ j. refl; answers = refl }
exists-Reads now (key ∷ keys) st g =
    let m = (get_key_meta now key st).0 in
    let st₁ = (get_key_meta now key st).1 in
    let l = get_key_meta-Looked now key st g in
    let r = exists-Reads now keys st₁ l.good in
    record {
      good = r.good;
      same = λ j. r.same j ∙ l.same j;
      answers =
          counted m (st₁.db.strings key) (r.answers ∙ ap (count_seen keys) (fun_ext l.same))
          ∙ ap (λ v. count_one v (count_seen keys (view now st.db)))
              (sym (Looked-view now key st m st₁ l));
    }

unfoldable pub time_left : ℤ → Option Item → ℤ
time_left now none = negsuc 1
time_left now (some item) = elim item.expires_at [
  | none ↦ negsuc 0
  | some t ↦ let ms = t -ℤ now in if leb_ℤ ms (pos 0) then negsuc 1 else ms
]

-- PTTL on a well-formed state: the time left of a key that is seen and has an expiry, -1 if it has
-- none, -2 if no key is seen.
pub pttl-Reads :
    (now : ℤ) (key : Bytes) (st : State)
    → IsGood st
    → Reads now st (time_left now (view now st.db key)) (pttl now key st)
unfolding pttl remaining time_left seen_row
pttl-Reads now key st g =
    let m = (get_key_meta now key st).0 in
    let st₁ = (get_key_meta now key st).1 in
    let l = get_key_meta-Looked now key st g in
    record {
      good = l.good;
      same = l.same;
      answers = rw (Looked-view now key st m st₁ l) (left m (st₁.db.strings key));
    }
  where
    left :
        (m : Option KeyMeta) (text : Option Bytes)
        → remaining now m ≡ time_left now (seen_row m text)
    left none text = refl
    left (some row) text = refl

-- What is left under a key with a new expiry.
unfoldable pub with_expiry : ℤ → Option ℤ → Option Item → Option Item
unfolding is_past
with_expiry now expires_at none = none
with_expiry now expires_at (some item) =
    if is_past now expires_at then none else some (record item { expires_at = expires_at })

abbrev pub is_seen : Option Item → Bool
is_seen none = false
is_seen (some item) = true

set_expires-keys :
    (now : ℤ) (key : Bytes) (expires_at : Option ℤ) (row : KeyMeta) (db : Db)
    → Keys.get key db ≡ some row
    → Keys.set_expires key expires_at now db ≡ record db {
      keys = Maps.set key (record row { expires_at = expires_at; updated_at = now }) db.keys;
    }
unfolding Keys.set_expires
set_expires-keys now key expires_at row db there = get-update key _ db row there

-- A new expiry in the tables, and the key out of the cache.
re_time-Writes :
    (now : ℤ) (key : Bytes) (expires_at : Option ℤ) (row : KeyMeta) (st : State)
    → IsGood st
    → Keys.get key st.db ≡ some row
    → Writes now key
        (with_expiry now expires_at (seen_row (some row) (st.db.strings key)))
        st
        true
        (true, invalidate key (record st { db = Keys.set_expires key expires_at now st.db }))
unfolding view item_of with_expiry seen_row
re_time-Writes now key expires_at row st g there =
    let row' : KeyMeta = record row { expires_at = expires_at; updated_at = now } in
    let db : Db = record st.db { keys = Maps.set key row' st.db.keys } in
    let row_there : Keys.get key db ≡ some row' = get-set_keys key key row' st.db ∙ (rw ==_refl) in
    let elsewhere : SameElsewhere key st.db db = set_keys-SameElsewhere key row' st.db in
    let text : TextOf (Keys.get key db) (db.strings key) =
      rw row_there (rw there at (g.texts key)) in
    rw (set_expires-keys now key expires_at row st.db there) (record {
      good =
          invalidate-IsGood key (record st { db = db })
            (write-Sound key st db g elsewhere (Maps.set-Distinct key row' st.db.keys g.distinct)
              text);
      seen = unfold invalidate in view-write key now st.db db _ elsewhere (rw row_there);
      answers = refl;
    })

set_expiry-there :
    (now : ℤ) (key : Bytes) (expires_at : Option ℤ) (m : Option KeyMeta) (st : State)
    → IsGood st
    → Keys.get key st.db ≡ m
    → Writes now key
        (with_expiry now expires_at (seen_row m (st.db.strings key)))
        st
        (is_seen (seen_row m (st.db.strings key)))
        (re_time now key expires_at m st)
unfolding seen_row with_expiry re_time
set_expiry-there now key expires_at none st g there =
    same-Writes now key none st false (false, st) g (λ j. refl) (unfold view item_of in rw there)
      refl
set_expiry-there now key expires_at (some row) st g there =
    re_time-Writes now key expires_at row st g there

-- EXPIRE, PEXPIRE and PERSIST on a well-formed state set the expiry of a key that is seen; a time that
-- is over takes the key away. They answer whether a key was seen, and every other key is as it was.
pub set_expiry-Writes :
    (now : ℤ) (key : Bytes) (expires_at : Option ℤ) (st : State)
    → IsGood st
    → let seen = view now st.db key in
      Writes now key
        (with_expiry now expires_at seen)
        st
        (is_seen seen)
        (set_expiry now key expires_at st)
unfolding set_expiry
set_expiry-Writes now key expires_at st g =
    let l = get_key_meta-Looked now key st g in
    let st' = (get_key_meta now key st).1 in
    let m = (get_key_meta now key st).0 in
    rw (Looked-view now key st m st' l) (
      Writes-before now key _ st st' _ _ l.same
        (set_expiry-there now key expires_at m st' l.good l.row))
