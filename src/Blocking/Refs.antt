-- ===== src/Blocking/Refs.antt =====
-- src/blocking/manager.js: the maps from a key, and from a connection, to the waiters under it.
use resplite.Base.{
  ℕ, ◌+◌, ◌-◌, ◌≡◌, refl, ◌∙◌, ap, List, [], ◌∷◌, ◌++◌, Bytes, if◌then◌else◌, ◌==◌, bytes_eq,
  nat_eq, arith, none, some, inl, inr, Bool-cases, Option-cases, ◌<◌, ◌≤◌, false, leb, length,
}
use resplite.Base.Counts.{
  times, remove, times-remove, times-append, length-remove, Ascending, remove-Ascending,
  append-Ascending,
}
use resplite.Base.Maps
use resplite.Base.Maps.{Distinct, get-set, get-delete, set-Distinct, delete-Distinct}
use resplite.Blocking.{
  Refs, refs_of, refs_or_none, put_refs, drop_ref, drop_refs, push_ref, push_refs, add_ref,
}

refs_of-set :
    (k j : Bytes) (rs : List ℕ) (m : Refs)
    → refs_of j (Maps.set k rs m) ≡ (if k == j then rs else refs_of j m)
unfolding refs_of
refs_of-set k j rs m = elim (Bool-cases (k == j)) [
  | inl s ↦ ap refs_or_none (get-set k j rs m) ∙ rw s refl
  | inr d ↦ ap refs_or_none (get-set k j rs m) ∙ rw d refl
]

pub refs_of-delete :
    (k j : Bytes) (m : Refs)
    → Distinct m
    → refs_of j (Maps.delete k m) ≡ (if k == j then [] else refs_of j m)
unfolding refs_of
refs_of-delete k j m d = elim (Bool-cases (k == j)) [
  | inl s ↦ ap refs_or_none (get-delete k j m d) ∙ rw s refl
  | inr e ↦ ap refs_or_none (get-delete k j m d) ∙ rw e refl
]

refs_of-put_refs :
    (k j : Bytes) (rs : List ℕ) (m : Refs)
    → Distinct m
    → refs_of j (put_refs k rs m) ≡ (if k == j then rs else refs_of j m)
unfolding put_refs
refs_of-put_refs k j (r ∷ rs) m d = refs_of-set k j (r ∷ rs) m
refs_of-put_refs k j [] m d = refs_of-delete k j m d

pub refs_of-none : (k : Bytes) (m : Refs) → Maps.get k m ≡ none → refs_of k m ≡ []
unfolding refs_of
refs_of-none k m h = rw h refl

pub refs_of-some : (k : Bytes) (m : Refs) (rs : List ℕ) → Maps.get k m ≡ some rs → refs_of k m ≡ rs
unfolding refs_of
refs_of-some k m rs h = rw h refl

pub refs_of-drop_ref :
    (i : ℕ) (k j : Bytes) (m : Refs)
    → Distinct m
    → refs_of j (drop_ref i k m) ≡ (if k == j then remove i (refs_of j m) else refs_of j m)
unfolding drop_ref remove
refs_of-drop_ref i k j m d = elim (Option-cases (Maps.get k m)) [
  | inl absent ↦
      rw (absent, drop_ref)
        (elim (Bool-cases (k == j)) [
          | inl s ↦
              let e : k ≡ j = (bytes_eq.beq_iff k j).0 s in
              rw s (rw (← e) (rw (refs_of-none k m absent) refl))
          | inr o ↦ rw o refl
        ])
  | inr (rs, there) ↦
      rw (there, drop_ref)
        (elim (Bool-cases (k == j)) [
          | inl s ↦
              let e : k ≡ j = (bytes_eq.beq_iff k j).0 s in
              refs_of-put_refs k j (remove i rs) m d
              ∙ rw s (ap (remove i) (rw (← e) (rw (refs_of-some k m rs there) refl)))
          | inr o ↦ refs_of-put_refs k j (remove i rs) m d ∙ rw o refl
        ])
]

put_refs-Distinct : (k : Bytes) (rs : List ℕ) (m : Refs) → Distinct m → Distinct (put_refs k rs m)
unfolding put_refs
put_refs-Distinct k [] m d = delete-Distinct k m d
put_refs-Distinct k (r ∷ rs) m d = set-Distinct k (r ∷ rs) m d

pub drop_ref-Distinct : (i : ℕ) (k : Bytes) (m : Refs) → Distinct m → Distinct (drop_ref i k m)
unfolding drop_ref
drop_ref-Distinct i k m d = elim (Option-cases (Maps.get k m)) [
  | inl absent ↦ rw (absent, drop_ref) d
  | inr (rs, there) ↦ rw (there, drop_ref) (put_refs-Distinct k (remove i rs) m d)
]

pub times-drop_ref :
    (i j : ℕ) (k c : Bytes) (m : Refs)
    → Distinct m
    → times j (refs_of c (drop_ref i k m))
      ≡ times j (refs_of c m) - (if i == j then times c (k ∷ []) else 0)
times-drop_ref i j k c m d =
    ap (times j) (refs_of-drop_ref i k c m d) ∙ elim (Bool-cases (k == c)) [
      | inl s ↦ rw s (ground (arith, times-remove i j (refs_of c m), s))
      | inr o ↦ rw o (ground (arith, o))
    ]

drop_ref-Ascending :
    (i : ℕ) (k : Bytes) (m : Refs)
    → Distinct m
    → ((c : Bytes) → Ascending (refs_of c m))
    → (c : Bytes) → Ascending (refs_of c (drop_ref i k m))
drop_ref-Ascending i k m d h c = rw (refs_of-drop_ref i k c m d) (elim (Bool-cases (k == c)) [
  | inl s ↦ rw s (remove-Ascending i (refs_of c m) (h c))
  | inr o ↦ rw o (h c)
])

pub drop_refs-Distinct :
    (i : ℕ) (ks : List Bytes) (m : Refs) → Distinct m → Distinct (drop_refs i ks m)
unfolding drop_refs
drop_refs-Distinct i [] m d = d
drop_refs-Distinct i (k ∷ ks) m d =
    drop_refs-Distinct i ks (drop_ref i k m) (drop_ref-Distinct i k m d)

pub drop_refs-Ascending :
    (i : ℕ) (ks : List Bytes) (m : Refs)
    → Distinct m
    → ((c : Bytes) → Ascending (refs_of c m))
    → (c : Bytes) → Ascending (refs_of c (drop_refs i ks m))
unfolding drop_refs
drop_refs-Ascending i [] m d h = h
drop_refs-Ascending i (k ∷ ks) m d h =
    drop_refs-Ascending i ks (drop_ref i k m) (drop_ref-Distinct i k m d)
      (drop_ref-Ascending i k m d h)

-- A waiter goes from a queue once for each time that it names the key.
pub times-drop_refs :
    (i j : ℕ) (ks : List Bytes) (c : Bytes) (m : Refs)
    → Distinct m
    → times j (refs_of c (drop_refs i ks m))
      ≡ times j (refs_of c m) - (if i == j then times c ks else 0)
unfolding drop_refs
times-drop_refs i j [] c m d = ground arith
times-drop_refs i j (k ∷ ks) c m d =
    let first = times-drop_ref i j k c m d in
    let rest = times-drop_refs i j ks c (drop_ref i k m) (drop_ref-Distinct i k m d) in
    elim (Bool-cases (i == j)) [
      | inl s ↦ ground (arith, first, rest, s)
      | inr o ↦ ground (arith, first, rest, o)
    ]

refs_of-push_ref :
    (i : ℕ) (k c : Bytes) (m : Refs)
    → refs_of c (push_ref i k m) ≡ (if k == c then refs_of c m ++ i ∷ [] else refs_of c m)
unfolding push_ref
refs_of-push_ref i k c m = refs_of-set k c (refs_of k m ++ i ∷ []) m ∙ elim (Bool-cases (k == c)) [
  | inl s ↦ rw s (rw ((bytes_eq.beq_iff k c).0 s) refl)
  | inr o ↦ rw o refl
]

pub push_refs-Distinct :
    (i : ℕ) (ks : List Bytes) (m : Refs) → Distinct m → Distinct (push_refs i ks m)
unfolding push_refs push_ref
push_refs-Distinct i [] m d = d
push_refs-Distinct i (k ∷ ks) m d =
    push_refs-Distinct i ks (push_ref i k m) (set-Distinct k (refs_of k m ++ i ∷ []) m d)

times-push_ref :
    (i j : ℕ) (k c : Bytes) (m : Refs)
    → times j (refs_of c (push_ref i k m))
      ≡ times j (refs_of c m) + (if i == j then times c (k ∷ []) else 0)
times-push_ref i j k c m = ap (times j) (refs_of-push_ref i k c m) ∙ elim (Bool-cases (k == c)) [
  | inl s ↦ rw s (ground (arith, times-append j (refs_of c m) (i ∷ []), s))
  | inr o ↦ rw o (ground (arith, o))
]

pub times-push_refs :
    (i j : ℕ) (ks : List Bytes) (c : Bytes) (m : Refs)
    → times j (refs_of c (push_refs i ks m))
      ≡ times j (refs_of c m) + (if i == j then times c ks else 0)
unfolding push_refs
times-push_refs i j [] c m = ground arith
times-push_refs i j (k ∷ ks) c m =
    let first = times-push_ref i j k c m in
    let rest = times-push_refs i j ks c (push_ref i k m) in
    elim (Bool-cases (i == j)) [
      | inl s ↦ ground (arith, first, rest, s)
      | inr o ↦ ground (arith, first, rest, o)
    ]

pub push_refs-Ascending :
    (i : ℕ) (ks : List Bytes) (m : Refs)
    → ((c : Bytes) (b : ℕ) → 0 < times b (refs_of c m) → b ≤ i)
    → ((c : Bytes) → Ascending (refs_of c m))
    → (c : Bytes) → Ascending (refs_of c (push_refs i ks m))
unfolding push_refs
push_refs-Ascending i [] m below h = h
push_refs-Ascending i (k ∷ ks) m below h = push_refs-Ascending i ks (push_ref i k m) still up
  where
    still : (c : Bytes) (b : ℕ) → 0 < times b (refs_of c (push_ref i k m)) → b ≤ i
    still c b p = elim (Bool-cases (i == b)) [
      | inl s ↦ ground (arith, s)
      | inr o ↦ below c b (ground (arith, times-push_ref i b k c m, o, p))
    ]

    up : (c : Bytes) → Ascending (refs_of c (push_ref i k m))
    up c = rw (refs_of-push_ref i k c m) (elim (Bool-cases (k == c)) [
      | inl s ↦ rw s (append-Ascending (refs_of c m) i (below c) (h c))
      | inr o ↦ rw o (h c)
    ])

pub times-add_ref :
    (i j : ℕ) (k c : Bytes) (m : Refs)
    → times i (refs_of k m) ≡ 0
    → times j (refs_of c (add_ref i k m))
      ≡ times j (refs_of c m) + (if i == j then times c (k ∷ []) else 0)
unfolding add_ref push_ref
times-add_ref i j k c m h =
    let new : leb 1 (times i (refs_of k m)) ≡ false = ground (arith, h) in
    rw new (times-push_ref i j k c m)

pub add_ref-Distinct : (i : ℕ) (k : Bytes) (m : Refs) → Distinct m → Distinct (add_ref i k m)
unfolding add_ref
add_ref-Distinct i k m d = set-Distinct k _ m d

length-remove_most : (i : ℕ) (xs : List ℕ) → length (remove i xs) ≤ length xs
unfolding remove
length-remove_most i [] = omega arith
length-remove_most i (x ∷ xs) = ground (arith, length-remove_most i xs)

length-drop_refs_most :
    (i : ℕ) (ks : List Bytes) (c : Bytes) (m : Refs)
    → Distinct m
    → length (refs_of c (drop_refs i ks m)) ≤ length (refs_of c m)
unfolding drop_refs
length-drop_refs_most i [] c m d = omega arith
length-drop_refs_most i (k ∷ ks) c m d =
    let rest = length-drop_refs_most i ks c (drop_ref i k m) (drop_ref-Distinct i k m d) in
    let e = ap length (refs_of-drop_ref i k c m d) in
    elim (Bool-cases (k == c)) [
      | inl s ↦ omega (arith, rest, rw s at e, length-remove_most i (refs_of c m))
      | inr o ↦ omega (arith, rest, rw o at e)
    ]

-- A waiter in a queue that names its key makes the queue shorter when it goes.
pub length-drop_refs :
    (i : ℕ) (ks : List Bytes) (c : Bytes) (m : Refs)
    → Distinct m
    → 0 < times c ks
    → 0 < times i (refs_of c m)
    → length (refs_of c (drop_refs i ks m)) < length (refs_of c m)
unfolding drop_refs
length-drop_refs i [] c m d h there = absurd (omega arith)
length-drop_refs i (k ∷ ks) c m d h there =
    let d' = drop_ref-Distinct i k m d in
    let e = refs_of-drop_ref i k c m d in
    elim (Bool-cases (k == c)) [
      | inl s ↦ omega (
        arith,
        length-drop_refs_most i ks c (drop_ref i k m) d',
        rw s at (ap length e),
        length-remove i (refs_of c m) there,
      )
      | inr o ↦ omega (
        arith,
        rw o at (ap length e),
        length-drop_refs i ks c (drop_ref i k m) d' (rw o at h)
            (omega (arith, there, rw o at (ap (times i) e))),
      )
    ]
