-- ===== src/Engine/Lists/Pushes.antt =====
-- src/engine/engine.js: LPUSH and RPUSH over tables and cache, before anyone is woken.
use resplite.Base.{
  ◌<◌, ◌≡◌, refl, sym, ap, false, Option, List, [], ◌∷◌, ◌++◌, Bytes, bytes_eq, arith, inl, inr,
  Option-cases, length, if◌then◌else◌, length-append, length-reverse,
}
use mathlib.Core.Path.{subst}
use mathlib.Core.List.{reverse}
use resplite.Base.Int.{ℤ, pos}
use resplite.Base.Maps
use resplite.Base.Maps.{Distinct}
use resplite.Storage.{Db, KeyMeta, Result, ok, err}
use resplite.Storage.Keys
use resplite.Storage.Lists
use resplite.Storage.Lists.View.{Holds, Stored}
use resplite.Storage.Lists.Unique.{lpush-Distinct, rpush-Distinct, lpush-Live, rpush-Live, Live}
use resplite.Storage.Lists.Pushes.Ends.{lpush-Holds, rpush-Holds}
use resplite.Cache.Lru.Bounds
use resplite.Engine.Strings.{State, invalidate, get_key_meta, is_past}
use resplite.Engine.Lists.Served.{Served, wake, pushed, lpush, rpush}
use resplite.Engine.Lists.Listed.{
  Listed, seen, invalidate-Listed, Looked, absent, present, get_key_meta-Looked,
}

module _ (key : Bytes) (now : ℤ) where
  -- What a push comes to before anyone is woken: the new length, and the list in the tables.
  pub record Kept (vs : List Bytes) (sv : Served) (out : Result ℤ × Served) : Type 0 where
    pub st : State
    pub answer : out ≡ (ok (pos (length vs)), wake now key (record sv { engine = st }))
    pub listed : Listed key vs st
    pub visible : seen now (Keys.get key st.db) vs ≡ vs

  Stored-Holds : (vs : List Bytes) (db : Db) → 0 < length vs → Stored key vs db → Holds key vs db
  Stored-Holds [] db h s = absurd (omega arith)
  Stored-Holds (v ∷ vs) db h s = s

  Live-seen :
      (vs : List Bytes) (db : Db) → Live key now db.keys → seen now (Keys.get key db) vs ≡ vs
  unfolding seen Keys.get Keys.is_expired is_past
  Live-seen vs db live = elim (Option-cases (Maps.get key db.keys)) [
    | inl out ↦ rw out refl
    | inr (row, there) ↦ rw there (shown row (live row there))
  ]
    where
      shown :
          (row : KeyMeta)
          → Keys.is_expired now row ≡ false
          → (if is_past now row.expires_at then [] else vs) ≡ vs
      shown row h = elim (Option-cases row.expires_at) [
        | inl never ↦ rw never refl
        | inr (t, at) ↦ rw at (rw (rw at at h) refl)
      ]

  pushed-Kept :
      (vs : List Bytes) (sv : Served) (r : Result ℤ × Db)
      → Bounds.IsValid sv.engine.cache.lru
      → 0 < length vs
      → r.0 ≡ ok (pos (length vs))
      → Stored key vs r.1
      → Distinct r.1.keys
      → Live key now r.1.keys
      → Kept vs sv (pushed now key sv r)
  unfolding pushed invalidate
  pushed-Kept vs sv (ok n, db) v h e s d live = record {
    st = invalidate key (record sv.engine { db = db });
    answer =
        ap
          (λ r. (
            r,
            wake now key (record sv { engine = invalidate key (record sv.engine { db = db }) }),
          ))
          e;
    listed = invalidate-Listed key vs sv.engine db v d (Stored-Holds vs db h s);
    visible = Live-seen vs db live;
  }
  pushed-Kept vs sv (err x, db) v h e s d live = absurd (cc)

  Looked-Live :
      (vs : List Bytes) (st : State) (r : Option KeyMeta × State)
      → Listed key vs st
      → Looked key now vs st r
      → Listed key (seen now (Keys.get key st.db) vs) r.1 × Live key now r.1.db.keys
  unfolding Keys.get Keys.is_expired is_past
  Looked-Live vs st _ l (absent st' e l') = (
    subst (λ us. Listed key us st') (sym e) l',
    λ row there. absurd (cc (l'.holds.no_row, there)),
  )
  Looked-Live vs st _ l (present row there e kind live) = (
    subst (λ us. Listed key us st) (sym e) l,
    λ row' there'.
        let same : row ≡ row' = cc in
        subst (λ r. Keys.is_expired now r ≡ false) same (shown row live),
  )
    where
      shown : (row : KeyMeta) → is_past now row.expires_at ≡ false → Keys.is_expired now row ≡ false
      shown row h = elim (Option-cases row.expires_at) [
        | inl never ↦ rw never refl
        | inr (t, at) ↦ rw at (rw at at h)
      ]

  -- LPUSH of at least one value on a key that holds a list puts the values in front of the list that a
  -- client sees, the last one first; the list is seen, whatever the time of the key was.
  pub lpush-Kept :
      (w : Bytes) (ws vs : List Bytes) (sv : Served)
      → Listed key vs sv.engine
      → Kept
          (reverse (w ∷ ws) ++ seen now (Keys.get key sv.engine.db) vs)
          sv
          (lpush now key (w ∷ ws) sv)
  unfolding lpush
  lpush-Kept w ws vs sv l =
      go (get_key_meta now key sv.engine).1
        (Looked-Live vs sv.engine _ l (get_key_meta-Looked key now vs sv.engine l))
    where
      us : List Bytes
      us = seen now (Keys.get key sv.engine.db) vs

      some_left : 0 < length (reverse (w ∷ ws) ++ us)
      some_left = omega (arith, length-append (reverse (w ∷ ws)) us, length-reverse (w ∷ ws))

      go :
          (st : State)
          → Listed key us st × Live key now st.db.keys
          → Kept
              (reverse (w ∷ ws) ++ us)
              sv
              (pushed now key (record sv { engine = st }) (Lists.lpush key (w ∷ ws) now st.db))
      go st (l', live) =
          let (e, s, _) = lpush-Holds key w ws us now st.db l'.holds in
          let k =
            pushed-Kept (reverse (w ∷ ws) ++ us) (record sv { engine = st })
              (Lists.lpush key (w ∷ ws) now st.db) l'.cache some_left e s
              (lpush-Distinct key now (w ∷ ws) st.db l'.distinct)
              (lpush-Live key now (w ∷ ws) st.db live) in
          record { st = k.st; answer = k.answer; listed = k.listed; visible = k.visible }

  pub rpush-Kept :
      (w : Bytes) (ws vs : List Bytes) (sv : Served)
      → Listed key vs sv.engine
      → Kept (seen now (Keys.get key sv.engine.db) vs ++ w ∷ ws) sv (rpush now key (w ∷ ws) sv)
  unfolding rpush
  rpush-Kept w ws vs sv l =
      go (get_key_meta now key sv.engine).1
        (Looked-Live vs sv.engine _ l (get_key_meta-Looked key now vs sv.engine l))
    where
      us : List Bytes
      us = seen now (Keys.get key sv.engine.db) vs

      some_left : 0 < length (us ++ w ∷ ws)
      some_left = omega (arith, length-append us (w ∷ ws))

      go :
          (st : State)
          → Listed key us st × Live key now st.db.keys
          → Kept
              (us ++ w ∷ ws)
              sv
              (pushed now key (record sv { engine = st }) (Lists.rpush key (w ∷ ws) now st.db))
      go st (l', live) =
          let (e, s, _) = rpush-Holds key w ws us now st.db l'.holds in
          let k =
            pushed-Kept (us ++ w ∷ ws) (record sv { engine = st })
              (Lists.rpush key (w ∷ ws) now st.db) l'.cache some_left e s
              (rpush-Distinct key now (w ∷ ws) st.db l'.distinct)
              (rpush-Live key now (w ∷ ws) st.db live) in
          record { st = k.st; answer = k.answer; listed = k.listed; visible = k.visible }
