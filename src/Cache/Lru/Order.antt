-- ===== src/Cache/Lru/Order.antt =====
-- Which entries the LRU map gives up, and that it never answers with a stale one.
use resplite.Base.{
  ℕ, zero, suc, ◌<◌, ◌≡◌, refl, true, false, Option, none, some, List, [], ◌∷◌, ◌++◌, inl, inr,
  arith, Bytes, drop, Bool-cases, Option-cases, bytes_eq, ◌==◌, if◌then◌else◌,
}
use resplite.Base.Maps
use resplite.Base.Maps.{Distinct}
use resplite.Cache.Lru.{
  Entry, Entries, Lru, size, get, over_limit, del, cannot_fit, set, clear, Call, get_call, set_call,
  del_call, clear_call, step, run,
}
use resplite.Cache.Lru.Bounds.{
  IsValid, IsValid-IsSound, with_entries, trim, get-trim, get-delete_self, after_set, set-after,
  del-after,
}
use resplite.Cache.Lru.Valid.{get_miss, get_hit, step-IsValid}

trim-drop :
    (c : Lru) (n : ℕ) (m : Entries)
    → (j : ℕ) × (trim c n m ≡ drop j m)
      × ((i : ℕ) → i < j → over_limit n (with_entries c (drop i m)) ≡ true)
unfolding trim
trim-drop c n [] = (0, refl, λ i h. absurd (omega arith))
trim-drop c n (e ∷ m) = elim (Bool-cases (over_limit n (with_entries c (e ∷ m)))) [
  | inl over ↦
      let (j, same, least) = trim-drop c n m in
      (suc j, rw over same, elim [ zero ↦ λ h. over | suc i ↦ λ h. least i (omega arith) ])
  | inr fits ↦ (0, rw fits, λ i h. absurd (omega arith))
]

-- Storing a value that can fit: the key goes to the end, and of the other entries those in front go, no
-- more than needed: with one entry more the limits would be exceeded.
pub set_entries-drop :
    (k : Bytes) (ent : Entry) (c : Lru)
    → IsValid c
    → cannot_fit (size ent) c ≡ false
    → let others = Maps.delete k c.entries in
      (j : ℕ) × ((set k ent c).entries ≡ drop j others ++ (k, ent) ∷ [])
      × ((i : ℕ) → i < j → over_limit (size ent) (with_entries c (drop i others)) ≡ true)
unfolding after_set
set_entries-drop k ent c v fits =
    let (j, same, least) = trim-drop c (size ent) (Maps.delete k c.entries) in
    (j, rw (set-after k ent c (IsValid-IsSound v)) (rw (fits, same)), least)

-- Storing a value that cannot fit removes the key and leaves every other entry as it was.
pub set_too_large :
    (k : Bytes) (ent : Entry) (c : Lru)
    → IsValid c
    → cannot_fit (size ent) c ≡ true
    → (set k ent c).entries ≡ Maps.delete k c.entries
unfolding after_set
set_too_large k ent c v over = rw (set-after k ent c (IsValid-IsSound v)) (rw over)

-- What a caller has told the map last about each key.
abbrev pub Told : Type 0
Told = Bytes → Option Entry

unfoldable pub tell : Call → Told → Told
tell (get_call k) f j = f j
tell (set_call k ent) f j = if k == j then some ent else f j
tell (del_call k) f j = if k == j then none else f j
tell clear_call f j = none

unfoldable pub told : List Call → Told → Told
told [] f = f
told (x ∷ calls) f = told calls (tell x f)

-- Every entry of the map is the one that was stored last under its key.
abbrev pub IsFresh : Lru → Told → Type 0
IsFresh c f = (j : Bytes) (ent : Entry) → Maps.get j c.entries ≡ some ent → f j ≡ some ent

get-trim_found :
    (c : Lru) (n : ℕ) (j : Bytes) (m : Entries) (ent : Entry)
    → Distinct m
    → Maps.get j (trim c n m) ≡ some ent
    → Maps.get j m ≡ some ent
unfolding trim Maps.get
get-trim_found c n j [] ent d h = h
get-trim_found c n j ((i, e) ∷ m) ent d h =
    ground (arith, get-trim_found c n j m ent d.1, d.0, bytes_eq.beq_iff i j)

-- `get` moves an entry, and changes nothing that a later `get` can read.
pub lookup-get :
    (k j : Bytes) (c : Lru) → IsValid c → Maps.get j (get k c).1.entries ≡ Maps.get j c.entries
lookup-get k j c v = elim (Option-cases (Maps.get k c.entries)) [
  | inl absent ↦ rw (get_miss k c absent)
  | inr (ent, present) ↦ rw (get_hit k c ent present v) (
      rw
        (← Maps.set_absent k ent (Maps.delete k c.entries) (get-delete_self k c.entries v.distinct))
        (rw (Maps.get-set k j ent (Maps.delete k c.entries)) (
          rw (Maps.get-delete k j c.entries v.distinct)
            (ground (arith, bytes_eq.beq_iff k j, present)))))
]

lookup-after_set :
    (k j : Bytes) (new ent : Entry) (c : Lru)
    → IsValid c
    → Maps.get j (after_set k new c) ≡ some ent
    → (if k == j then some new else Maps.get j c.entries) ≡ some ent
unfolding after_set Maps.get
lookup-after_set k j new ent c v =
    let others = Maps.delete k c.entries in
    let kept = trim c (size new) others in
    ground (
      arith,
      Maps.get-append j kept ((k, new) ∷ []),
      get-trim_found c (size new) j others ent (Maps.delete-Distinct k c.entries v.distinct),
      get-trim c (size new) k others (get-delete_self k c.entries v.distinct),
      Maps.get-delete k j c.entries v.distinct,
      bytes_eq.beq_iff k j,
    )

del-IsFresh :
    (k : Bytes) (c : Lru) (f : Told)
    → IsValid c
    → IsFresh c f
    → IsFresh (del k c) (tell (del_call k) f)
unfolding tell
del-IsFresh k c f v h j ent =
    rw (del-after k c (IsValid-IsSound v))
      (rw (Maps.get-delete k j c.entries v.distinct) (λ e. ground (arith, h j ent)))

set-IsFresh :
    (k : Bytes) (new : Entry) (c : Lru) (f : Told)
    → IsValid c
    → IsFresh c f
    → IsFresh (set k new c) (tell (set_call k new) f)
unfolding tell
set-IsFresh k new c f v h j ent =
    rw (set-after k new c (IsValid-IsSound v))
      (λ e. ground (arith, h j ent, lookup-after_set k j new ent c v e))

pub step-IsFresh :
    (x : Call) (c : Lru) (f : Told) → IsValid c → IsFresh c f → IsFresh (step x c) (tell x f)
unfolding step tell clear Maps.get
step-IsFresh (get_call k) c f v h j ent = rw (lookup-get k j c v) (h j ent)
step-IsFresh (set_call k new) c f v h j ent = set-IsFresh k new c f v h j ent
step-IsFresh (del_call k) c f v h j ent = del-IsFresh k c f v h j ent
step-IsFresh clear_call c f v h j ent = cc

-- Whatever the calls, evictions included, an entry that the map holds is the one last stored under
-- its key, with no `del` of the key and no `clear` since.
pub run-IsFresh :
    (calls : List Call) (c : Lru) (f : Told)
    → IsValid c
    → IsFresh c f
    → IsFresh (run calls c) (told calls f)
unfolding run told
run-IsFresh [] c f v h = h
run-IsFresh (x ∷ calls) c f v h =
    run-IsFresh calls (step x c) (tell x f) (step-IsValid x c v) (step-IsFresh x c f v h)

-- A value that fits is found under its key right after it was stored.
pub lookup-set_self :
    (k : Bytes) (ent : Entry) (c : Lru)
    → IsValid c
    → cannot_fit (size ent) c ≡ false
    → Maps.get k (set k ent c).entries ≡ some ent
unfolding after_set Maps.get
lookup-set_self k ent c v fits =
    let others = Maps.delete k c.entries in
    rw (set-after k ent c (IsValid-IsSound v)) (
      ground (
        arith,
        Maps.get-append k (trim c (size ent) others) ((k, ent) ∷ []),
        get-trim c (size ent) k others (get-delete_self k c.entries v.distinct),
        bytes_eq.beq_iff k k,
      ))
