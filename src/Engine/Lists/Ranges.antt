-- ===== src/Engine/Lists/Ranges.antt =====
-- src/engine/engine.js: LRANGE, LLEN and LINDEX, from the cache or from the tables.
use resplite.Base.{
  ℕ, zero, suc, take-length, ◌≡◌, refl, ◌∙◌, sym, false, none, some, List, [], ◌∷◌, Bytes, bytes_eq,
  ==_refl, arith, inl, inr, Bool-cases, branches, length, ltb, ◌||◌,
}
use mathlib.Core.Path.{subst}
use resplite.Base.Int.{ℤ, pos, negsuc, ltb_ℤ, ◌+ℤ◌, ◌-ℤ◌}
use resplite.Cache
use resplite.Cache.Lru
use resplite.Cache.Lru.{Entry, get_call, set_call, del_call}
use resplite.Cache.Lru.Valid.{step-IsValid}
use resplite.Cache.Sizes.{array}
use resplite.Storage.{Db, KeyMeta}
use resplite.Storage.Keys
use resplite.Storage.Lists.{is_list}
use resplite.Storage.Lists
use resplite.Storage.Lists.View.{Holds, llen-Stored}
use resplite.Storage.Lists.{clamp_index}
use resplite.Storage.Lists.Reads.{lrange-cached, lindex-cached, cached_clamped, slice_positions}
use resplite.Engine.Cached.{cached_list_range, cached_list_index}
use resplite.Engine.Strings.{State}
use resplite.Engine.Strings.Coherent.{set-lookup}
use resplite.Engine.Lists.{
  ListLimits, list_kind, items_of, cache_list, llen, lrange, lindex, load_range, is_whole,
  total_length,
}
use resplite.Engine.Lists.Listed.{IsCopy, Listed, seen, invalidate-Listed}
use resplite.Engine.Lists.Reads.{Answers, read_list-Answers}

module _ (key : Bytes) where
  -- LLEN of a key that holds a list, in the tables and, if it is there, in the cache, is the length of
  -- the list that a client sees: 0 once its time is over. The key holds what is seen from then on.
  pub llen-Answers :
      (now : ℤ) (vs : List Bytes) (st : State)
      → Listed key vs st
      → Answers key
          (seen now (Keys.get key st.db) vs)
          (pos (length (seen now (Keys.get key st.db) vs)))
          (llen now key st)
  unfolding llen
  llen-Answers now vs st l =
      read_list-Answers key now (pos 0) (λ us. pos (length us)) (λ m s. (Lists.llen key s.db, s))
        refl (λ us row st' l' there. (llen-Holds us st'.db l'.holds, l')) vs st l
    where
      llen-Holds :
          (us : List Bytes) (db : Db) → Holds key us db → Lists.llen key db ≡ pos (length us)
      llen-Holds [] db a = unfold Lists.llen Lists.get_meta Lists.length_of in rw a.no_meta refl
      llen-Holds (u ∷ us) db s = unfold Lists.llen in llen-Stored s

  lindex-Answers :
      (now i : ℤ) (vs : List Bytes) (st : State)
      → Listed key vs st
      → Answers key
          (seen now (Keys.get key st.db) vs)
          (cached_list_index (seen now (Keys.get key st.db) vs) i)
          (lindex now key (some i) st)
  unfolding lindex cached_list_index
  lindex-Answers now i vs st l =
      read_list-Answers key now none (λ us. cached_list_index us i)
        (λ m s. (Lists.lindex key i s.db, s)) (ground arith)
        (λ us row st' l' there. (lindex-cached key us i st'.db l'.holds, l')) vs st l

  cache_list-Listed :
      (limits : ListLimits) (vs : List Bytes) (row : KeyMeta) (st : State)
      → Listed key vs st
      → Keys.get key st.db ≡ some row
      → Listed key vs (cache_list limits key vs row st)
  unfolding cache_list Cache.set Lru.step
  cache_list-Listed limits vs row st l there =
      branches (Listed key vs)
        (ltb limits.max_list_items (length vs) || ltb limits.max_list_bytes (total_length vs))
        (λ big. invalidate-Listed key vs st st.db l.cache l.distinct l.holds)
        (λ fits. elim (Bool-cases st.cache.enabled) [
          | inl on ↦ rw on (record {
            cache = step-IsValid (set_call key new) st.cache.lru l.cache;
            distinct = l.distinct;
            holds = l.holds;
            copy = λ _ entry found kind.
                let found' : some new ≡ some entry =
                  rw (==_refl key) at (set-lookup key key new entry st.cache.lru l.cache found) in
                let same : new ≡ entry = cc in
                subst (λ e. IsCopy key vs e st.db) same
                  (record { row = row; row_there = there; value = refl; expiry = refl });
          })
          | inr off ↦ rw off (record {
            cache = l.cache;
            distinct = l.distinct;
            holds = l.holds;
            copy = λ on entry there kind. absurd (cc);
          })
        ])
    where
      new : Entry
      new = record {
        kind = list_kind;
        version = row.version;
        expires_at = row.expires_at;
        value = array (items_of vs);
      }

  ends_whole :
      (n : ℕ)
      → (clamp_index (pos (suc n)) (pos 0) ≡ pos 0)
        × (clamp_index (pos (suc n)) (negsuc 0) ≡ pos n)
        × (ltb_ℤ (pos n) (pos 0) ≡ false)
  unfolding clamp_index ◌+ℤ◌ ◌-ℤ◌
  ends_whole n = (ground arith, ground arith, ground arith)

  whole : (vs : List Bytes) → cached_list_range vs (pos 0) (negsuc 0) ≡ vs
  unfolding cached_list_range
  whole [] = refl
  whole (v ∷ vs) =
      let (first, last, proper) = ends_whole (length vs) in
      rw (cached_clamped, first, last, proper)
        (slice_positions 0 (length vs) (v ∷ vs) (omega arith) (omega arith) ∙ take-length (v ∷ vs))

  load_range-Answers :
      (limits : ListLimits) (s e : ℤ) (vs : List Bytes) (row : KeyMeta) (st : State)
      → Listed key vs st
      → Keys.get key st.db ≡ some row
      → ((load_range limits key s e row st).0 ≡ cached_list_range vs s e)
        × Listed key vs (load_range limits key s e row st).1
  unfolding load_range is_whole
  load_range-Answers limits (pos zero) (negsuc zero) vs row st l there =
      let e = lrange-cached key vs (pos 0) (negsuc 0) st.db l.holds in
      (
        e,
        subst (λ us. Listed key vs (cache_list limits key us row st)) (sym (e ∙ whole vs))
            (cache_list-Listed limits vs row st l there),
      )
  load_range-Answers limits (pos zero) (negsuc (suc n)) vs row st l there =
      (lrange-cached key vs _ _ st.db l.holds, l)
  load_range-Answers limits (pos zero) (pos n) vs row st l there =
      (lrange-cached key vs _ _ st.db l.holds, l)
  load_range-Answers limits (pos (suc n)) e vs row st l there =
      (lrange-cached key vs _ _ st.db l.holds, l)
  load_range-Answers limits (negsuc n) e vs row st l there =
      (lrange-cached key vs _ _ st.db l.holds, l)

  -- LRANGE of a key that holds a list, in the tables and, if it is there, in the cache, is that range
  -- of the list that a client sees, which is empty once its time is over, whether it comes from the
  -- cache or from the tables. A list that is read whole may be cached; the key holds what
  -- is seen, and any copy of it in the cache is a true one, from then on.
  pub lrange-Answers :
      (limits : ListLimits) (now s e : ℤ) (vs : List Bytes) (st : State)
      → Listed key vs st
      → Answers key
          (seen now (Keys.get key st.db) vs)
          (cached_list_range (seen now (Keys.get key st.db) vs) s e)
          (lrange limits now key (some s) (some e) st)
  unfolding lrange cached_list_range
  lrange-Answers limits now s e vs st l =
      read_list-Answers key now [] (λ us. cached_list_range us s e) (load_range limits key s e) refl
        (load_range-Answers limits s e) vs st l
