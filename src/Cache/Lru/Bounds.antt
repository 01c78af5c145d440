-- ===== src/Cache/Lru/Bounds.antt =====
-- The accounting of the LRU map: its byte total is exact, and both limits hold after every call.
use resplite.Base.{
  ℕ, ◌+◌, ◌≤◌, ◌≡◌, refl, false, none, some, [], ◌∷◌, ◌++◌, inl, inr, arith, Bytes, ==_refl,
  if◌then◌else◌, length, Bool-cases, Option-cases, bytes_eq,
}
use resplite.Base.Maps
use resplite.Base.Maps.{Distinct}
use resplite.Cache.Lru.{
  Entry, Entries, Lru, size, drop_entry, evict_one, over_limit, make_room, del, cannot_fit, store,
  set,
}

-- The sum of the sizes of the stored values.
unfoldable pub total_size : Entries → ℕ
total_size [] = 0
total_size ((_, ent) ∷ m) = size ent + total_size m

pub record IsValid (c : Lru) : Type 0 where
  pub distinct : Distinct c.entries
  pub exact : c.total_bytes ≡ total_size c.entries
  pub entries_bound : length c.entries ≤ c.max_entries
  pub bytes_bound : c.total_bytes ≤ c.max_bytes

pub total_size-append : (m n : Entries) → total_size (m ++ n) ≡ total_size m + total_size n
unfolding total_size
total_size-append [] n = omega arith
total_size-append ((_, ent) ∷ m) n = omega (arith, total_size-append m n)

pub total_size-delete :
    (k : Bytes) (m : Entries) (v : Entry)
    → Maps.get k m ≡ some v
    → total_size (Maps.delete k m) + size v ≡ total_size m
unfolding total_size Maps.get Maps.delete
total_size-delete k [] v h = cc
total_size-delete k ((j, w) ∷ m) v h = ground (arith, total_size-delete k m v)

pub get-delete_self : (k : Bytes) (m : Entries) → Distinct m → Maps.get k (Maps.delete k m) ≡ none
get-delete_self k m d = rw (Maps.get-delete k k m d) (rw (bytes_eq.beq_iff k k).1 refl)

-- What the loop of `set` may rely on: the limits may be exceeded by one entry less than is put.
pub record IsSound (c : Lru) : Type 0 where
  pub distinct : Distinct c.entries
  pub exact : c.total_bytes ≡ total_size c.entries

pub IsValid-IsSound : {c : Lru} → IsValid c → IsSound c
IsValid-IsSound v = record { distinct = v.distinct; exact = v.exact }

-- A sound state is given by its entries.
abbrev pub with_entries : Lru → Entries → Lru
with_entries c m = record c { entries = m; total_bytes = total_size m }

same_entries :
    (c : Lru) (m : Entries) {t u : ℕ}
    → t ≡ u
    → record c { entries = m; total_bytes = t } ≡ record c { entries = m; total_bytes = u }
same_entries c m e = λ i. record c { entries = m; total_bytes = e i }

evict_one-with_entries :
    (c : Lru) (k : Bytes) (ent : Entry) (m : Entries)
    → evict_one (with_entries c ((k, ent) ∷ m)) ≡ with_entries c m
unfolding evict_one drop_entry Maps.delete total_size
evict_one-with_entries c k ent m = rw (==_refl k) (same_entries c m (omega arith))

-- What the loop of `set` leaves of the entries.
unfoldable pub trim : Lru → ℕ → Entries → Entries
trim c size [] = []
trim c size (e ∷ m) =
    let rest = trim c size m in if over_limit size (with_entries c (e ∷ m)) then rest else e ∷ m

pub make_room-trim :
    (c : Lru) (n : ℕ) (m : Entries)
    → make_room (length m) n (with_entries c m) ≡ with_entries c (trim c n m)
unfolding make_room trim
make_room-trim c n [] = refl
make_room-trim c n ((k, ent) ∷ m) =
    elim (Bool-cases (over_limit n (with_entries c ((k, ent) ∷ m)))) [
      | inl over ↦ rw (over, make_room) (rw evict_one-with_entries (make_room-trim c n m))
      | inr fits ↦ rw (fits, make_room)
    ]

pub drop_entry-IsSound :
    (k : Bytes) (ent : Entry) (c : Lru)
    → Maps.get k c.entries ≡ some ent
    → IsSound c
    → IsSound (drop_entry k ent c)
unfolding drop_entry
drop_entry-IsSound k ent c h v = record {
  distinct = Maps.delete-Distinct k c.entries v.distinct;
  exact = omega (arith, v.exact, total_size-delete k c.entries ent h);
}

pub del-IsSound : (k : Bytes) (c : Lru) → IsSound c → IsSound (del k c)
unfolding del
del-IsSound k c v = elim (Option-cases (Maps.get k c.entries)) [
  | inl absent ↦ rw (absent, del) v
  | inr (ent, present) ↦ rw (present, del) (drop_entry-IsSound k ent c present v)
]

-- The loop of `set` ends by its test: what is left has room for a value that fits at all.
pub trim-fits :
    (c : Lru) (n : ℕ) (m : Entries)
    → cannot_fit n c ≡ false
    → over_limit n (with_entries c (trim c n m)) ≡ false
unfolding trim
trim-fits c n [] h = unfold cannot_fit over_limit total_size in ground arith
trim-fits c n (e ∷ m) h = elim (Bool-cases (over_limit n (with_entries c (e ∷ m)))) [
  | inl over ↦ rw over (trim-fits c n m h)
  | inr fits ↦ rw fits fits
]

pub get-trim :
    (c : Lru) (n : ℕ) (k : Bytes) (m : Entries)
    → Maps.get k m ≡ none
    → Maps.get k (trim c n m) ≡ none
unfolding trim Maps.get
get-trim c n k [] h = refl
get-trim c n k ((j, e) ∷ m) h = ground (arith, get-trim c n k m)

pub trim-Distinct : (c : Lru) (n : ℕ) (m : Entries) → Distinct m → Distinct (trim c n m)
unfolding trim
trim-Distinct c n [] h = h
trim-Distinct c n (e ∷ m) h = elim (Bool-cases (over_limit n (with_entries c (e ∷ m)))) [
  | inl over ↦ rw over (trim-Distinct c n m h.1)
  | inr fits ↦ rw fits h
]

-- The entries after `set`: the key goes to the end, behind what the loop leaves of the others.
unfoldable pub after_set : Bytes → Entry → Lru → Entries
after_set key ent c =
    let others = Maps.delete key c.entries in
    if cannot_fit (size ent) c then others else trim c (size ent) others ++ (key, ent) ∷ []

pub del-after :
    (key : Bytes) (c : Lru) → IsSound c → del key c ≡ with_entries c (Maps.delete key c.entries)
unfolding del drop_entry
del-after key c v = elim (Option-cases (Maps.get key c.entries)) [
  | inl absent ↦
      rw (absent, del)
        (rw (Maps.delete_absent key c.entries absent) (same_entries c c.entries v.exact))
  | inr (ent, present) ↦
      rw (present, del)
        (same_entries c (Maps.delete key c.entries)
          (omega (arith, v.exact, total_size-delete key c.entries ent present)))
]

-- `set` in one step, with the loop and the running total gone.
pub set-after :
    (key : Bytes) (ent : Entry) (c : Lru)
    → IsSound c
    → set key ent c ≡ with_entries c (after_set key ent c)
unfolding set after_set store
set-after key ent c v = elim (Bool-cases (cannot_fit (size ent) c)) [
  | inl over ↦ rw over (del-after key c v)
  | inr fits ↦
      rw
        (
          fits,
          del-after key c v,
          make_room-trim c (size ent) others,
          Maps.set_absent key ent kept fresh,
        )
        (same_entries c (kept ++ (key, ent) ∷ [])
          (unfold total_size in omega (arith, total_size-append kept ((key, ent) ∷ []))))
]
  where
    others : Entries
    others = Maps.delete key c.entries

    kept : Entries
    kept = trim c (size ent) others

    fresh : Maps.get key kept ≡ none
    fresh = get-trim c (size ent) key others (get-delete_self key c.entries v.distinct)
