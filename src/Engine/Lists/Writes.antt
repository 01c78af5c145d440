-- ===== src/Engine/Lists/Writes.antt =====
-- src/engine/engine.js: LPOP, RPOP, LPUSH and RPUSH over tables and cache, and the client that a push
-- serves.
use resplite.Base.{
  zero, suc, ◌≡◌, refl, sym, ap, Option, none, some, List, [], Bytes, bytes_eq, if◌then◌else◌,
}
use mathlib.Core.Path.{subst}
use resplite.Base.Int.{ℤ, pos, negsuc}
use resplite.Base.Maps.{Distinct}
use resplite.Storage.{Db, KeyMeta, Result, ok, err, wrong_type}
use resplite.Storage.Keys
use resplite.Storage.Lists.{is_list}
use resplite.Storage.Lists.View.{Holds}
use resplite.Storage.Lists.Removes
use resplite.Storage.Lists.Removes.{Popped, null, one, many, value_or_null}
use resplite.Storage.Lists.Removes.Ends.{pop_left, pop_right, lpop-Holds, rpop-Holds}
use resplite.Storage.Lists.Removes.Unique.{lpop-Distinct, rpop-Distinct}
use resplite.Engine.Strings.{State, get_key_meta}
use resplite.Engine.Lists.{written, write_list, nothing_popped, returned, lpop, rpop}
use resplite.Engine.Lists.Listed.{
  Listed, seen, invalidate-Listed, Looked, absent, present, get_key_meta-Looked,
}
use resplite.Engine.Lists.Reads.{Answers}

module _ (key : Bytes) where
  -- A write that takes a list to an answer and the list that stays.
  module _ {A : Type 0} (now : ℤ) (spec : List Bytes → A × List Bytes) (write : Db → Result A × Db)
      (empty : (spec []).1 ≡ [])
      (writes : (us : List Bytes) (db : Db)
        → Holds key us db
        → Distinct db.keys
        → ((write db).0 ≡ ok (spec us).0)
          × Holds key (spec us).1 (write db).1
          × Distinct (write db).1.keys) where
    written-Answers :
        (vs : List Bytes) (st : State) (r : Result A × Db)
        → Listed key vs st
        → r.0 ≡ ok (spec vs).0
        → Holds key (spec vs).1 r.1
        → Distinct r.1.keys
        → Answers key (spec vs).1 (spec vs).0 (written key st r)
    written-Answers vs st (ok a, db) l e h d =
        (e, invalidate-Listed key (spec vs).1 st db l.cache d h)
    written-Answers vs st (err x, db) l e h d = absurd (cc)

    Looked-writes :
        (vs : List Bytes) (st : State) (r : Option KeyMeta × State)
        → Listed key vs st
        → Looked key now vs st r
        → Answers key
            (spec (seen now (Keys.get key st.db) vs)).1
            (spec (seen now (Keys.get key st.db) vs)).0
            (elim r.0 [
              | none ↦ (ok (spec []).0, r.1)
              | some m ↦
                  if is_list m.kind then written key r.1 (write r.1.db) else (err wrong_type, r.1)
            ])
    unfolding is_list
    Looked-writes vs st _ l (absent st' e l') =
        rw e (refl, subst (λ us. Listed key us st') (sym empty) l')
    Looked-writes vs st _ l (present row there e kind live) =
        let (a, h, d) = writes vs st.db l.holds l.distinct in
        rw e (
          subst
            (λ k.
              Answers key (spec vs).1 (spec vs).0
                (if is_list k then written key st (write st.db) else (err wrong_type, st)))
            (sym kind) (written-Answers vs st (write st.db) l a h d))

    write_list-Answers :
        (vs : List Bytes) (st : State)
        → Listed key vs st
        → Answers key
            (spec (seen now (Keys.get key st.db) vs)).1
            (spec (seen now (Keys.get key st.db) vs)).0
            (write_list now key (ok (spec []).0) write st)
    unfolding write_list
    write_list-Answers vs st l =
        Looked-writes vs st (get_key_meta now key st) l (get_key_meta-Looked key now vs st l)

  pop_left-nothing :
      (count : Option ℤ)
      → (nothing_popped count ≡ (pop_left count []).0) × ((pop_left count []).1 ≡ [])
  unfolding nothing_popped pop_left
  pop_left-nothing none = (refl, refl)
  pop_left-nothing (some (pos zero)) = (refl, refl)
  pop_left-nothing (some (pos (suc n))) = (refl, refl)
  pop_left-nothing (some (negsuc n)) = (refl, refl)

  pop_right-nothing :
      (count : Option ℤ)
      → (nothing_popped count ≡ (pop_right count []).0) × ((pop_right count []).1 ≡ [])
  unfolding nothing_popped pop_right
  pop_right-nothing none = (refl, refl)
  pop_right-nothing (some (pos zero)) = (refl, refl)
  pop_right-nothing (some (pos (suc n))) = (refl, refl)
  pop_right-nothing (some (negsuc n)) = (refl, refl)

  -- LPOP of a key that holds a list answers and leaves what `pop_left` says of the list that a client
  -- sees, and no copy of the old list stays in the cache.
  pub lpop-Answers :
      (now : ℤ) (count : Option ℤ) (vs : List Bytes) (st : State)
      → Listed key vs st
      → Answers key
          (pop_left count (seen now (Keys.get key st.db) vs)).1
          (pop_left count (seen now (Keys.get key st.db) vs)).0
          (lpop now key count st)
  unfolding lpop nothing_popped
  lpop-Answers now count vs st l =
      let (same, empty) = pop_left-nothing count in
      subst
        (λ p.
          Answers key (pop_left count (seen now (Keys.get key st.db) vs)).1
            (pop_left count (seen now (Keys.get key st.db) vs)).0
            (write_list now key (ok p) (λ db. returned (Removes.lpop key count now db)) st))
        (sym same)
        (write_list-Answers now (pop_left count) (λ db. returned (Removes.lpop key count now db))
          empty
          (λ us db h d.
            let (e, left, _) = lpop-Holds key count us now db h d in
            (ap ok e, left, lpop-Distinct key count now db d))
          vs st l)

  pub rpop-Answers :
      (now : ℤ) (count : Option ℤ) (vs : List Bytes) (st : State)
      → Listed key vs st
      → Answers key
          (pop_right count (seen now (Keys.get key st.db) vs)).1
          (pop_right count (seen now (Keys.get key st.db) vs)).0
          (rpop now key count st)
  unfolding rpop nothing_popped
  rpop-Answers now count vs st l =
      let (same, empty) = pop_right-nothing count in
      subst
        (λ p.
          Answers key (pop_right count (seen now (Keys.get key st.db) vs)).1
            (pop_right count (seen now (Keys.get key st.db) vs)).0
            (write_list now key (ok p) (λ db. returned (Removes.rpop key count now db)) st))
        (sym same)
        (write_list-Answers now (pop_right count) (λ db. returned (Removes.rpop key count now db))
          empty
          (λ us db h d.
            let (e, left, _) = rpop-Holds key count us now db h d in
            (ap ok e, left, rpop-Distinct key count now db d))
          vs st l)
