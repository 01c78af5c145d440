-- ===== src/Cache/Lru/Valid.antt =====
-- Both limits and the exact byte total hold in every state that calls can reach.
use resplite.Base.{
  ℕ, suc, ◌+◌, ◌≤◌, ◌≡◌, refl, ◌∙◌, false, none, some, List, [], ◌∷◌, ◌++◌, inl, inr, arith, Bytes,
  length, Bool-cases, Option-cases, length-append, bytes_eq,
}
use resplite.Base.Maps
use resplite.Base.Maps.{Distinct}
use resplite.Cache.Lru.{
  Entry, Entries, Lru, create_lru, size, get, over_limit, del, cannot_fit, set, clear, Call,
  get_call, set_call, del_call, clear_call, step, run,
}
use resplite.Cache.Lru.Bounds.{
  IsValid, IsValid-IsSound, total_size, total_size-append, total_size-delete, with_entries, trim,
  trim-fits, trim-Distinct, get-trim, get-delete_self, after_set, set-after, del-after,
}

append-Distinct :
    (m : Entries) (k : Bytes) (ent : Entry)
    → Distinct m
    → Maps.get k m ≡ none
    → Distinct (m ++ (k, ent) ∷ [])
append-Distinct m k ent d fresh = rw (← Maps.set_absent k ent m fresh) (Maps.set-Distinct k ent m d)

length-delete-le : (k : Bytes) (m : Entries) → length (Maps.delete k m) ≤ length m
unfolding Maps.delete
length-delete-le k [] = omega arith
length-delete-le k ((j, w) ∷ m) = ground (arith, length-delete-le k m)

total_size-delete-le : (k : Bytes) (m : Entries) → total_size (Maps.delete k m) ≤ total_size m
unfolding Maps.delete total_size
total_size-delete-le k [] = omega arith
total_size-delete-le k ((j, w) ∷ m) = ground (arith, total_size-delete-le k m)

with_entries-IsValid :
    (c : Lru) (m : Entries)
    → Distinct m
    → length m ≤ c.max_entries
    → total_size m ≤ c.max_bytes
    → IsValid (with_entries c m)
with_entries-IsValid c m d n t = record {
  distinct = d;
  exact = refl;
  entries_bound = n;
  bytes_bound = t;
}

del-IsValid : (k : Bytes) (c : Lru) → IsValid c → IsValid (del k c)
del-IsValid k c v = rw (del-after k c (IsValid-IsSound v)) (
    with_entries-IsValid c (Maps.delete k c.entries) (Maps.delete-Distinct k c.entries v.distinct)
      (omega (arith, length-delete-le k c.entries, v.entries_bound))
      (omega (arith, total_size-delete-le k c.entries, v.exact, v.bytes_bound)))

-- What it means that the loop's test fails.
room_left :
    (c : Lru) (n : ℕ) (m : Entries)
    → over_limit n (with_entries c m) ≡ false
    → (suc (length m) ≤ c.max_entries) × (total_size m + n ≤ c.max_bytes)
unfolding over_limit
room_left c n m h = ground arith

set-IsValid : (k : Bytes) (ent : Entry) (c : Lru) → IsValid c → IsValid (set k ent c)
unfolding after_set
set-IsValid k ent c v =
    rw (set-after k ent c (IsValid-IsSound v)) (elim (Bool-cases (cannot_fit (size ent) c)) [
      | inl over ↦ rw over (rw (← del-after k c (IsValid-IsSound v)) (del-IsValid k c v))
      | inr fits ↦
          let room = room_left c (size ent) kept (trim-fits c (size ent) others fits) in
          rw fits (
            with_entries-IsValid c (kept ++ (k, ent) ∷ [])
              (append-Distinct kept k ent (trim-Distinct c (size ent) others d)
                (get-trim c (size ent) k others (get-delete_self k c.entries v.distinct)))
              (omega (arith, room.0, length-append kept ((k, ent) ∷ [])))
              (unfold total_size in omega (arith, total_size-append kept ((k, ent) ∷ []), room.1)))
    ])
  where
    others : Entries
    others = Maps.delete k c.entries

    kept : Entries
    kept = trim c (size ent) others

    d : Distinct others
    d = Maps.delete-Distinct k c.entries v.distinct

-- The two branches of `get`.
pub get_miss :
    (k : Bytes) (c : Lru)
    → Maps.get k c.entries ≡ none
    → get k c ≡ (none, record c { misses = c.misses + 1 })
unfolding get
get_miss k c h = rw (h, get)

pub get_hit :
    (k : Bytes) (c : Lru) (ent : Entry)
    → Maps.get k c.entries ≡ some ent
    → IsValid c
    → get k c ≡ (
      some ent,
      record c { entries = Maps.delete k c.entries ++ (k, ent) ∷ []; hits = c.hits + 1 },
    )
unfolding get
get_hit k c ent h v = rw (
  h,
  get,
  Maps.set_absent k ent (Maps.delete k c.entries) (get-delete_self k c.entries v.distinct),
)

get-IsValid : (k : Bytes) (c : Lru) → IsValid c → IsValid (get k c).1
get-IsValid k c v = elim (Option-cases (Maps.get k c.entries)) [
  | inl absent ↦ rw (get_miss k c absent) (record {
    distinct = v.distinct;
    exact = v.exact;
    entries_bound = v.entries_bound;
    bytes_bound = v.bytes_bound;
  })
  | inr (ent, present) ↦ rw (get_hit k c ent present v) (record {
    distinct =
        append-Distinct (Maps.delete k c.entries) k ent
          (Maps.delete-Distinct k c.entries v.distinct) (get-delete_self k c.entries v.distinct);
    exact =
        unfold total_size in
        omega (
          arith,
          v.exact,
          total_size-delete k c.entries ent present,
          total_size-append (Maps.delete k c.entries) ((k, ent) ∷ []),
        );
    entries_bound = omega (
      arith,
      v.entries_bound,
      Maps.length-delete k c.entries ent present,
      length-append (Maps.delete k c.entries) ((k, ent) ∷ []),
    );
    bytes_bound = v.bytes_bound;
  })
]

pub step-IsValid : (x : Call) (c : Lru) → IsValid c → IsValid (step x c)
unfolding step clear total_size
step-IsValid (get_call k) c v = get-IsValid k c v
step-IsValid (set_call k ent) c v = set-IsValid k ent c v
step-IsValid (del_call k) c v = del-IsValid k c v
step-IsValid clear_call c v = record {
  distinct = tt;
  exact = refl;
  entries_bound = omega arith;
  bytes_bound = omega arith;
}

-- In the states that `calls` lead to from `c`, the limits are still those of `c`.
abbrev SameLimits : Lru → Lru → Type 0
SameLimits c d = (d.max_entries ≡ c.max_entries) × (d.max_bytes ≡ c.max_bytes)

get-SameLimits : (k : Bytes) (c : Lru) → IsValid c → SameLimits c (get k c).1
get-SameLimits k c v = elim (Option-cases (Maps.get k c.entries)) [
  | inl absent ↦ rw (get_miss k c absent) (refl, refl)
  | inr (ent, present) ↦ rw (get_hit k c ent present v) (refl, refl)
]

step-SameLimits : (x : Call) (c : Lru) → IsValid c → SameLimits c (step x c)
unfolding step clear
step-SameLimits (get_call k) c v = get-SameLimits k c v
step-SameLimits (set_call k ent) c v = rw (set-after k ent c (IsValid-IsSound v)) (refl, refl)
step-SameLimits (del_call k) c v = rw (del-after k c (IsValid-IsSound v)) (refl, refl)
step-SameLimits clear_call c v = (refl, refl)

pub run-IsValid :
    (calls : List Call) (c : Lru) → IsValid c → IsValid (run calls c) × SameLimits c (run calls c)
unfolding run
run-IsValid [] c v = (v, (refl, refl))
run-IsValid (x ∷ calls) c v =
    let (valid, (n, b)) = run-IsValid calls (step x c) (step-IsValid x c v) in
    let (n', b') = step-SameLimits x c v in (valid, (n ∙ n', b ∙ b'))

pub create_lru-IsValid : (max_entries max_bytes : ℕ) → IsValid (create_lru max_entries max_bytes)
unfolding create_lru total_size
create_lru-IsValid max_entries max_bytes = record {
  distinct = tt;
  exact = refl;
  entries_bound = omega arith;
  bytes_bound = omega arith;
}

-- After any calls on a new map with limits `max_entries` and `max_bytes`: no key occurs twice,
-- the byte total is exactly the sum of the sizes of the stored values, there are at most
-- `max_entries` entries, and they take at most `max_bytes`.
pub run-create_lru :
    (max_entries max_bytes : ℕ) (calls : List Call)
    → let c = run calls (create_lru max_entries max_bytes) in
      Distinct c.entries
      × (c.total_bytes ≡ total_size c.entries)
      × (length c.entries ≤ max_entries)
      × (c.total_bytes ≤ max_bytes)
unfolding create_lru total_size
run-create_lru max_entries max_bytes calls =
    let (v, (n, b)) =
      run-IsValid calls (create_lru max_entries max_bytes)
        (create_lru-IsValid max_entries max_bytes) in
    (v.distinct, v.exact, omega (arith, v.entries_bound, n), omega (arith, v.bytes_bound, b))
