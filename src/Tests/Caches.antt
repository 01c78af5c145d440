-- ===== src/Tests/Caches.antt =====
-- Runs of src/cache on small inputs, and inputs for its theorems.
use resplite.Base.{
  ℕ, ◌≤◌, ◌<◌, ◌≡◌, refl, true, false, none, List, [], ◌∷◌, ◌++◌, bytes_eq, length, drop, arith,
  bytes_beq,
}
use resplite.Base.Maps
use resplite.Base.Maps.{Distinct}
use resplite.Cache.Sizes.{buffer, estimate_size}
use resplite.Cache.Lru.{
  Entry, Lru, create_lru, size, over_limit, cannot_fit, Call, get_call, set_call, del_call,
  clear_call, run,
}
use resplite.Cache.Lru
use resplite.Cache.Lru.Bounds.{IsValid, total_size, with_entries}
use resplite.Cache.Lru.Valid.{run-create_lru, run-IsValid, create_lru-IsValid}
use resplite.Cache.Lru.Uses.{uses, ByUse}
use resplite.Cache.Lru.Recency.{set-drop}
use resplite.Cache.Lru.Order.{run-IsFresh, IsFresh, told}

-- Two bytes under the key "a"; the cache has room for two entries and for five bytes.
abbrev two_bytes : Entry
two_bytes = record { kind = []; version = 1; expires_at = none; value = buffer (1 ∷ 2 ∷ []) }

abbrev six_bytes : Entry
six_bytes = record {
  kind = [];
  version = 1;
  expires_at = none;
  value = buffer (1 ∷ 2 ∷ 3 ∷ 4 ∷ 5 ∷ 6 ∷ []);
}

abbrev cache : Lru
cache = record {
  max_entries = 2;
  max_bytes = 5;
  entries = (97 ∷ [], two_bytes) ∷ (98 ∷ [], two_bytes) ∷ [];
  total_bytes = 4;
  hits = 0;
  misses = 0;
}

abbrev calls : List Call
calls = set_call (99 ∷ []) two_bytes ∷ get_call (98 ∷ []) ∷ del_call (97 ∷ []) ∷ []

cache-IsValid : IsValid cache
unfolding Maps.get total_size estimate_size bytes_beq
cache-IsValid = record {
  distinct = (refl, (refl, tt));
  exact = refl;
  entries_bound = omega arith;
  bytes_bound = omega arith;
}

set-evicts :
    (Lru.set (99 ∷ []) two_bytes cache).entries ≡ (98 ∷ [], two_bytes) ∷ (99 ∷ [], two_bytes) ∷ []
unfolding Lru.set bytes_beq estimate_size cannot_fit Maps.set Lru.make_room Lru.del Maps.get
    over_limit Lru.evict_one Lru.drop_entry Maps.delete
set-evicts = refl

cache-full : cannot_fit (size six_bytes) cache ≡ true
unfolding cannot_fit estimate_size
cache-full = refl

cache-IsFresh : IsFresh cache (λ j. Maps.get j cache.entries)
cache-IsFresh = λ j ent h. h

run-create_lru_example :
    let c = run calls (create_lru 2 5) in
    Distinct c.entries
    × (c.total_bytes ≡ total_size c.entries)
    × (length c.entries ≤ 2)
    × (c.total_bytes ≤ 5)
run-create_lru_example = run-create_lru 2 5 calls

-- "a" is stored before "b" and read after it, so that "b" goes for "c".
abbrev three_uses : List Call
three_uses = set_call (97 ∷ []) two_bytes ∷ set_call (98 ∷ []) two_bytes ∷ get_call (97 ∷ []) ∷ []

three_uses-fits : cannot_fit (size two_bytes) (run three_uses (create_lru 2 5)) ≡ false
unfolding cannot_fit create_lru estimate_size
three_uses-fits =
    let (v, (n, b)) = run-IsValid three_uses (create_lru 2 5) (create_lru-IsValid 2 5) in
    rw (n, b) refl

set-drop_example :
    let c = run three_uses (create_lru 2 5) in
    let others = Maps.delete (99 ∷ []) c.entries in
    ByUse (uses three_uses 0 (λ j. 0)) others
    × ((j : ℕ) × ((Lru.set (99 ∷ []) two_bytes c).entries
          ≡ drop j others ++ (99 ∷ [], two_bytes) ∷ [])
        × ((i : ℕ) → i < j → over_limit (size two_bytes) (with_entries c (drop i others)) ≡ true))
set-drop_example = set-drop 2 5 three_uses (99 ∷ []) two_bytes three_uses-fits

run-IsFresh_example : IsFresh (run calls cache) (told calls (λ j. Maps.get j cache.entries))
run-IsFresh_example =
    run-IsFresh calls cache (λ j. Maps.get j cache.entries) cache-IsValid cache-IsFresh
