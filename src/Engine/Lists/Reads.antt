-- ===== src/Engine/Lists/Reads.antt =====
-- src/engine/engine.js: a read of a list, from the cache or from the tables.
use resplite.Base.{
  ◌≡◌, refl, ◌∙◌, sym, ap, Option, none, some, List, [], Bytes, if◌then◌else◌, bytes_eq, ◌==◌, inl,
  inr, Bool-cases, branches,
}
use mathlib.Core.Path.{subst}
use resplite.Base.Int.{ℤ}
use resplite.Cache
use resplite.Cache.Lru.{Entry}
use resplite.Storage.{KeyMeta, list, Result, ok, err, wrong_type}
use resplite.Storage.Keys
use resplite.Storage.Lists.{is_list}
use resplite.Engine.Strings.{State, forget, is_past}
use resplite.Engine.Lists.{
  list_kind, values_of, Collection, miss, gone, held, read_collection_entry, read_cached_list,
  of_list, read_list,
}
use resplite.Engine.Strings.Gets.{cache_get-on, cache_get-off}
use resplite.Engine.Lists.Listed.{
  IsCopy, Listed, seen, values_in-items_of, forget-Listed, touch-Listed, Looked, absent, present,
  get_key_meta-Looked,
}

module _ (key : Bytes) where
  -- What the look into the cache comes to.
  data Collected (now : ℤ) (vs : List Bytes) (st : State) : Collection × State → Type 0 where
    missed : (st' : State) → st'.db ≡ st.db → Listed key vs st' → Collected now vs st (miss, st')
    went :
        (st' : State)
        → seen now (Keys.get key st.db) vs ≡ []
        → Listed key [] st'
        → Collected now vs st (gone, st')
    hit :
        (st' : State)
        → seen now (Keys.get key st.db) vs ≡ vs
        → Listed key vs st'
        → Collected now vs st (held vs, st')

  copy-Collected :
      (now : ℤ) (vs : List Bytes) (st : State) (entry : Entry)
      → Listed key vs st
      → IsCopy key vs entry st.db
      → Collected now vs st (
          if is_past now entry.expires_at
          then (gone, forget key st)
          else (held (values_of entry.value), st))
  unfolding values_of seen
  copy-Collected now vs st entry l c =
      let same : values_of entry.value ≡ vs = ap values_of c.value ∙ values_in-items_of vs in
      rw (same, c.expiry)
        (branches (Collected now vs st) (is_past now c.row.expires_at)
          (λ past.
            went (forget key st) (rw (c.row_there, seen) (rw past refl))
              (forget-Listed key vs st l))
          (λ live. hit st (rw (c.row_there, seen) (rw live refl)) l))

  entry-Collected :
      (now : ℤ) (vs : List Bytes) (st : State) (o : Option Entry)
      → Listed key vs st
      → ((entry : Entry) → o ≡ some entry → entry.kind ≡ list_kind → IsCopy key vs entry st.db)
      → Collected now vs st (read_collection_entry now key o st)
  unfolding read_collection_entry
  entry-Collected now vs st none l c = missed st refl l
  entry-Collected now vs st (some entry) l c =
      branches (Collected now vs st) (entry.kind == list_kind)
        (λ is.
          copy-Collected now vs st entry l
            (c entry refl ((bytes_eq.beq_iff entry.kind list_kind).0 is)))
        (λ other. missed st refl l)

  cached-IsCopy :
      (vs : List Bytes) (st : State) (entry : Entry)
      → Listed key vs st
      → (Cache.get key st.cache).0 ≡ some entry
      → entry.kind ≡ list_kind
      → IsCopy key vs entry st.db
  cached-IsCopy vs st entry l found kind = elim (Bool-cases st.cache.enabled) [
    | inl on ↦ l.copy on entry (sym (cache_get-on key st.cache on) ∙ found) kind
    | inr off ↦
        let e : none ≡ some entry = sym (cache_get-off key st.cache off) ∙ found in absurd (cc)
  ]

  read_cached_list-Collected :
      (now : ℤ) (vs : List Bytes) (st : State)
      → Listed key vs st
      → Collected now vs st (read_cached_list now key st)
  unfolding read_cached_list
  read_cached_list-Collected now vs st l = again _ (
      entry-Collected now vs touched (Cache.get key st.cache).0 (touch-Listed key vs st l)
        (λ entry found kind. in_touched entry (cached-IsCopy vs st entry l found kind)))
    where
      touched : State
      touched = record st { cache = (Cache.get key st.cache).1 }

      in_touched : (entry : Entry) → IsCopy key vs entry st.db → IsCopy key vs entry touched.db
      in_touched entry c = record {
        row = c.row;
        row_there = c.row_there;
        value = c.value;
        expiry = c.expiry;
      }

      again : (r : Collection × State) → Collected now vs touched r → Collected now vs st r
      again _ (missed st' e l') = missed st' e l'
      again _ (went st' e l') = went st' e l'
      again _ (hit st' e l') = hit st' e l'

  -- The answer, and the list that a client sees from then on.
  abbrev pub Answers {ℓ} : {A : Type ℓ} → List Bytes → A → Result A × State → Type ℓ
  Answers us a (r, st') = (r ≡ ok a) × Listed key us st'

  -- A read that takes from the tables what it takes from a copy in the cache.
  module _ {A : Type 0} (now : ℤ) (none_there : A) (cached : List Bytes → A)
      (read : KeyMeta → State → A × State) (empty : cached [] ≡ none_there)
      (reads : (vs : List Bytes) (row : KeyMeta) (st : State)
        → Listed key vs st
        → Keys.get key st.db ≡ some row
        → ((read row st).0 ≡ cached vs) × Listed key vs (read row st).1) where
    Looked-Answers :
        (vs : List Bytes) (st : State) (r : Option KeyMeta × State)
        → Listed key vs st
        → Looked key now vs st r
        → Answers
            (seen now (Keys.get key st.db) vs)
            (cached (seen now (Keys.get key st.db) vs))
            (of_list none_there read r.0 r.1)
    unfolding of_list is_list
    Looked-Answers vs st _ l (absent st' e l') = rw e (ap ok (sym empty), l')
    Looked-Answers vs st _ l (present row there e kind live) =
        let (value, good) = reads vs row st l there in rw e (of_kind row kind (ap ok value) good)
      where
        of_kind :
            (m : KeyMeta)
            → m.kind ≡ list
            → ok (read row st).0 ≡ ok (cached vs)
            → Listed key vs (read row st).1
            → Answers vs (cached vs) (
                if is_list m.kind
                then (ok (read row st).0, (read row st).1)
                else (err wrong_type, st))
        of_kind m k p q = rw k (p, q)

    -- The same through the cache.
    pub read_list-Answers :
        (vs : List Bytes) (st : State)
        → Listed key vs st
        → Answers (seen now (Keys.get key st.db) vs) (cached (seen now (Keys.get key st.db) vs)) (
            read_list now key none_there cached read
              (read_cached_list now key st).0
              (read_cached_list now key st).1)
    unfolding read_list
    read_list-Answers vs st l = go _ (read_cached_list-Collected now vs st l)
      where
        go :
            (r : Collection × State)
            → Collected now vs st r
            → Answers
                (seen now (Keys.get key st.db) vs)
                (cached (seen now (Keys.get key st.db) vs))
                (read_list now key none_there cached read r.0 r.1)
        go _ (missed st' e l') =
            subst
              (λ db.
                Answers (seen now (Keys.get key db) vs) (cached (seen now (Keys.get key db) vs))
                  (read_list now key none_there cached read miss st'))
              e (Looked-Answers vs st' _ l' (get_key_meta-Looked key now vs st' l'))
        go _ (went st' e l') = rw e (ap ok (sym empty), l')
        go _ (hit st' e l') = rw e (refl, l')
