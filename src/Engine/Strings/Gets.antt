-- ===== src/Engine/Strings/Gets.antt =====
-- src/engine/engine.js: reads of strings, through the cache and past it.
use resplite.Base.{
  ◌≡◌, refl, ◌∙◌, sym, ap, Bool, true, false, Option, none, some, Bytes, if◌then◌else◌, bytes_eq,
  ◌==◌, inl, inr, Bool-cases, Option-cases,
}
use resplite.Base.Int.{ℤ}
use resplite.Base.Maps
use resplite.Base.Maps.{Distinct}
use resplite.Cache
use resplite.Cache.{Cache}
use resplite.Cache.Lru
use resplite.Cache.Lru.{Entry}
use resplite.Storage.{KeyMeta, KeyType, string, Result, ok, err, wrong_type}
use resplite.Storage.Keys
use resplite.Storage.Strings
use resplite.Storage.Strings.{is_string}
use resplite.Engine.Strings.{
  State, string_kind, cache_string, Cached, miss, hit, is_past, read_entry, read_cached_string,
  get_key_meta, load_string, read_string, past_cache,
}
use resplite.Engine.Strings.Coherent.{Agrees, IsGood, weaken, cache_string-IsGood, touch-IsGood}
use resplite.Engine.Strings.Reads.{
  Item, item_of, view, SameView, forget-IsGood, forget_past, past_row, get_key_meta-Looked,
}

-- What a read of a string answers to what is seen under the key.
unfoldable pub answer : Bool → Option Item → Result (Option Bytes)
answer wrong_type_as_null none = ok none
answer wrong_type_as_null (some item) =
    if is_string item.kind
    then ok item.text
    else if wrong_type_as_null
    then ok none
    else err wrong_type

-- A read answers `r`, and changes nothing that can be seen.
pub record Reads {ℓ} (now : ℤ) (st : State) {A : Type ℓ} (r : A) (out : A × State) : Type ℓ where
  pub good : IsGood out.1
  pub same : SameView now st.db out.1.db
  pub answers : out.0 ≡ r

-- What a hit of the cache says of the key.
abbrev pub Answers : Option Item → Cached → Type 0
Answers seen miss = Unit
Answers seen (hit value) = (b : Bool) → ok value ≡ answer b seen

pub record Peeked (now : ℤ) (key : Bytes) (st : State) (c : Cached) (st' : State) : Type 0 where
  pub good : IsGood st'
  pub same : SameView now st.db st'.db
  pub says : Answers (view now st.db key) c

read_entry-Peeked :
    (now : ℤ) (key : Bytes) (entry : Entry) (st : State)
    → IsGood st
    → (entry.kind ≡ string_kind → Agrees key entry st.db)
    → Peeked now key st
        (read_entry now key (some entry) st).0
        (read_entry now key (some entry) st).1
unfolding read_entry view item_of answer is_string
read_entry-Peeked now key entry st g agrees = elim (Bool-cases (entry.kind == string_kind)) [
  | inr other ↦ rw other (record { good = g; same = λ j. refl; says = tt })
  | inl kind ↦
      let a = agrees ((bytes_eq.beq_iff entry.kind string_kind).0 kind) in
      elim (Bool-cases (is_past now entry.expires_at)) [
        | inl past ↦
            rw (kind, past)
              (record {
                good = forget-IsGood key st g;
                same =
                    forget_past key now st a.row g a.row_there
                      (ap (is_past now) (sym a.expiry) ∙ past);
                says = λ b. rw a.row_there (rw (ap (is_past now) (sym a.expiry) ∙ past));
              })
        | inr live ↦
            rw (kind, live)
              (record {
                good = g;
                same = λ j. refl;
                says = λ b. rw a.row_there (
                    rw (ap (is_past now) (sym a.expiry) ∙ live, a.value_there, a.cached)
                      (rw a.kind));
              })
      ]
]

pub cache_get-on :
    (key : Bytes) (c : Cache) → c.enabled ≡ true → (Cache.get key c).0 ≡ Maps.get key c.lru.entries
unfolding Cache.get Lru.get
cache_get-on key c on = elim (Option-cases (Maps.get key c.lru.entries)) [
  | inl absent ↦ rw on (rw (absent, Lru.get))
  | inr (entry, there) ↦ rw on (rw (there, Lru.get))
]

pub cache_get-off : (key : Bytes) (c : Cache) → c.enabled ≡ false → (Cache.get key c).0 ≡ none
unfolding Cache.get
cache_get-off key c off = rw off

-- The entry that the cache gives agrees with the tables.
found-Agrees :
    (key : Bytes) (st : State) (entry : Entry)
    → IsGood st
    → (Cache.get key st.cache).0 ≡ some entry
    → entry.kind ≡ string_kind
    → Agrees key entry st.db
found-Agrees key st entry g found kind = elim (Bool-cases st.cache.enabled) [
  | inl on ↦ g.coherent on key entry refl (sym (cache_get-on key st.cache on) ∙ found) kind
  | inr off ↦
      let e : none ≡ some entry = sym (cache_get-off key st.cache off) ∙ found in absurd (cc)
]

pub read_cached-Peeked :
    (now : ℤ) (key : Bytes) (st : State)
    → IsGood st
    → Peeked now key st (read_cached_string now key st).0 (read_cached_string now key st).1
unfolding read_cached_string read_entry
read_cached-Peeked now key st g =
    let touched = touch-IsGood key st g in
    elim (Option-cases (Cache.get key st.cache).0) [
      | inl nothing ↦ rw nothing (record { good = touched; same = λ j. refl; says = tt })
      | inr (entry, found) ↦
          let p =
            read_entry-Peeked now key entry (record st { cache = (Cache.get key st.cache).1 })
              touched (found-Agrees key st entry g found) in
          rw found (record { good = p.good; same = p.same; says = p.says })
    ]

pub is_string-eq : (k : KeyType) → is_string k ≡ true → k ≡ string
unfolding is_string
is_string-eq KeyType.string h = refl
is_string-eq KeyType.hash h = cc
is_string-eq KeyType.set h = cc
is_string-eq KeyType.list h = cc
is_string-eq KeyType.zset h = cc

-- The value of a key of type string.
pub text_there :
    (key : Bytes) (row : KeyMeta) (st : State)
    → IsGood st
    → Keys.get key st.db ≡ some row
    → is_string row.kind ≡ true
    → (v : Bytes) × (st.db.strings key ≡ some v)
text_there key row st g there kind = rw (there, kind) at (g.texts key)

load_string-Reads :
    (now : ℤ) (key : Bytes) (b : Bool) (m : Option KeyMeta) (st : State)
    → IsGood st
    → Keys.get key st.db ≡ m
    → past_row now m ≡ false
    → Reads now st (answer b (view now st.db key)) (load_string key b m st)
unfolding load_string view item_of answer past_row Strings.get
load_string-Reads now key b none st g there live = record {
  good = g;
  same = λ j. refl;
  answers = rw there;
}
load_string-Reads now key b (some row) st g there live = elim (Bool-cases (is_string row.kind)) [
  | inr other ↦
      rw other (record { good = g; same = λ j. refl; answers = rw there (rw (live, other)) })
  | inl kind ↦
      let (v, text) = text_there key row st g there kind in
      rw (kind, text)
        (record {
          good =
              cache_string-IsGood key v row.version st row (weaken _ st g) there
                (is_string-eq row.kind kind) text;
          same = λ j. unfold cache_string in refl;
          answers = rw there (rw (live, kind));
        })
]

-- GET on a well-formed state, and MGET with its `b` for other types: the value seen under the key,
-- whether cache or tables give it; a key whose time is over gives null, a key of another type WRONGTYPE,
-- or null for MGET. Nothing that can be seen changes, and the state stays well formed.
pub read_string-Reads :
    (now : ℤ) (key : Bytes) (b : Bool) (st : State)
    → IsGood st
    → Reads now st (answer b (view now st.db key)) (read_string now key b st)
unfolding read_string past_cache
read_string-Reads now key b st g =
    go (read_cached_string now key st).0 (read_cached_string now key st).1
      (read_cached-Peeked now key st g)
  where
    go :
        (c : Cached) (st₁ : State)
        → Peeked now key st c st₁
        → Reads now st (answer b (view now st.db key)) (past_cache now key b c st₁)
    go (hit value) st₁ p = record { good = p.good; same = p.same; answers = p.says b }
    go miss st₁ p =
        let l = get_key_meta-Looked now key st₁ p.good in
        let q =
          load_string-Reads now key b (get_key_meta now key st₁).0 (get_key_meta now key st₁).1
            l.good l.row l.live in
        record {
          good = q.good;
          same = λ j. q.same j ∙ l.same j ∙ p.same j;
          answers = q.answers ∙ ap (answer b) (l.same key ∙ p.same key);
        }
