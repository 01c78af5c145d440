-- ===== src/Cache/Lru/Recency.antt =====
-- src/cache/lru.js: the map keeps its entries in the order of their last use, and evicts from the front.
use resplite.Base.{
  ℕ, suc, ◌<◌, ◌≡◌, true, false, List, [], ◌∷◌, ◌++◌, inl, inr, Bytes, drop, Bool-cases,
  Option-cases, bytes_eq,
}
use resplite.Base.Maps
use resplite.Cache.Lru.{
  Entry, Lru, create_lru, size, get, over_limit, cannot_fit, set, clear, Call, get_call, set_call,
  del_call, clear_call, step, run,
}
use resplite.Cache.Lru.Bounds.{
  IsValid, IsValid-IsSound, with_entries, trim, get-trim, get-delete_self, after_set, set-after,
  del-after,
}
use resplite.Cache.Lru.Valid.{get_miss, get_hit, step-IsValid, create_lru-IsValid, run-IsValid}
use resplite.Cache.Lru.Order.{set_entries-drop}
use resplite.Cache.Lru.Uses.{
  Uses, touch, use_of, uses, AllBefore, ByUse, Recent, delete-Recent, trim-Recent, later-Recent,
  moved-Recent, unused-Recent, delete-ByUse,
}

get-Recent :
    (k : Bytes) (c : Lru) (n : ℕ) (f : Uses)
    → IsValid c
    → Recent n f c.entries
    → Recent (suc n) (touch k n f) (get k c).1.entries
get-Recent k c n f v r = elim (Option-cases (Maps.get k c.entries)) [
  | inl absent ↦ rw (get_miss k c absent) (unused-Recent f n k c.entries absent r)
  | inr (ent, present) ↦ rw (get_hit k c ent present v) (
      moved-Recent f n k ent (Maps.delete k c.entries) (get-delete_self k c.entries v.distinct)
        (delete-Recent f n k c.entries r))
]

set-Recent :
    (k : Bytes) (ent : Entry) (c : Lru) (n : ℕ) (f : Uses)
    → IsValid c
    → Recent n f c.entries
    → Recent (suc n) (touch k n f) (set k ent c).entries
unfolding after_set
set-Recent k ent c n f v r =
    let others = Maps.delete k c.entries in
    let gone = get-delete_self k c.entries v.distinct in
    let left = delete-Recent f n k c.entries r in
    rw (set-after k ent c (IsValid-IsSound v)) (elim (Bool-cases (cannot_fit (size ent) c)) [
      | inl over ↦ rw over (unused-Recent f n k others gone left)
      | inr fits ↦ rw fits (
          moved-Recent f n k ent (trim c (size ent) others) (get-trim c (size ent) k others gone)
            (trim-Recent f c n (size ent) others left))
    ])

step-Recent :
    (x : Call) (c : Lru) (n : ℕ) (f : Uses)
    → IsValid c
    → Recent n f c.entries
    → Recent (suc n) (use_of x n f) (step x c).entries
unfolding step clear ByUse AllBefore
step-Recent (get_call k) c n f v r = get-Recent k c n f v r
step-Recent (set_call k ent) c n f v r = set-Recent k ent c n f v r
step-Recent (del_call k) c n f v r =
    rw (del-after k c (IsValid-IsSound v))
      (later-Recent f n (Maps.delete k c.entries) (delete-Recent f n k c.entries r))
step-Recent clear_call c n f v r = record { order = tt; before = tt }

run-ByUse :
    (calls : List Call) (c : Lru) (n : ℕ) (f : Uses)
    → IsValid c
    → Recent n f c.entries
    → ByUse (uses calls n f) (run calls c).entries
unfolding run uses
run-ByUse [] c n f v r = r.order
run-ByUse (x ∷ calls) c n f v r =
    run-ByUse calls (step x c) (suc n) (use_of x n f) (step-IsValid x c v) (step-Recent x c n f v r)

-- After any calls on a new map, storing a value that can fit puts its key last and gives up a number of the
-- other entries in front, no more than needed: with one entry more a limit would be exceeded. The others
-- stand in the order in which the calls last used their keys, by `get` or `set`, so that those given up are
-- the least recently used.
pub set-drop :
    (max_entries max_bytes : ℕ) (calls : List Call) (k : Bytes) (ent : Entry)
    → let c = run calls (create_lru max_entries max_bytes) in
      let others = Maps.delete k c.entries in
      cannot_fit (size ent) c ≡ false
      → ByUse (uses calls 0 (λ j. 0)) others
        × ((j : ℕ) × ((set k ent c).entries ≡ drop j others ++ (k, ent) ∷ [])
            × ((i : ℕ) → i < j → over_limit (size ent) (with_entries c (drop i others)) ≡ true))
set-drop max_entries max_bytes calls k ent fits =
    let start = create_lru max_entries max_bytes in
    let v = create_lru-IsValid max_entries max_bytes in
    let f = uses calls 0 (λ j. 0) in
    (
      delete-ByUse f k (run calls start).entries (
          run-ByUse calls start 0 (λ j. 0) v
            (unfold create_lru ByUse AllBefore in record { order = tt; before = tt })),
      set_entries-drop k ent (run calls start) (run-IsValid calls start v).0 fits,
    )
