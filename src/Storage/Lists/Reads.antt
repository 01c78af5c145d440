-- ===== src/Storage/Lists/Reads.antt =====
-- src/storage/sqlite/lists.js: `lrange` and `lindex` read from the tables what the engine reads from
-- a cached copy of the list.
use resplite.Base.{
  ℕ, suc, ◌≤◌, ◌≡◌, refl, ◌∙◌, sym, ap, false, ◌&&◌, ◌||◌, some, List, [], ◌∷◌, map, Bytes, length,
  arith, take, drop, ltb, leb, if◌then◌else◌, bytes_eq, Bool-cases, inl, inr, take-length,
}
use resplite.Base.Int.{ℤ, pos, negsuc, pos_part, ◌+ℤ◌, ◌-ℤ◌, ltb_ℤ, leb_ℤ, +ℤ_parts}
use resplite.Storage.{Db, ListMeta}
use resplite.Storage.Lists.{get_meta, meta_length, clamp_index, lrange, lindex, range_of, index_of}
use resplite.Storage.Lists.Statements.{select_range, select_seq, between}
use resplite.Storage.Lists.Numbered.{number, where_slice, values-number, select_seq-number}
use resplite.Storage.Lists.View.{Holds, length-ends}
use resplite.Storage.Lists.Removes.Pops.{is_zero-suc}
use resplite.Engine.Cached.{slice_bound, slice, cached_list_range, cached_list_index}

-- A clamped index is a position of the list.
pub clamp_position : ℕ → ℤ → ℕ
clamp_position n i = pos_part (clamp_index (pos (suc n)) i)

pub clamp_index-position :
    (n : ℕ) (i : ℤ)
    → (clamp_index (pos (suc n)) i ≡ pos (clamp_position n i)) × (clamp_position n i ≤ n)
unfolding clamp_position clamp_index ◌+ℤ◌ ◌-ℤ◌
clamp_index-position n (pos k) = ground arith
clamp_index-position n (negsuc k) = ground arith

pub cached_clamped :
    (v : Bytes) (vs : List Bytes) (start stop : ℤ)
    → cached_list_range (v ∷ vs) start stop ≡ (
        let s = clamp_index (pos (suc (length vs))) start in
        let e = clamp_index (pos (suc (length vs))) stop in
        if ltb_ℤ e s then [] else slice s (e +ℤ pos 1) (v ∷ vs))
unfolding cached_list_range clamp_index slice
cached_clamped v vs start stop = refl

pub slice_positions :
    (s e : ℕ) (xs : List Bytes)
    → s ≤ length xs
    → suc e ≤ length xs
    → slice (pos s) (pos e +ℤ pos 1) xs ≡ drop s (take (suc e) xs)
unfolding slice slice_bound ◌+ℤ◌
slice_positions s e xs h k =
    let b₁ : slice_bound (length xs) (pos s) ≡ s = ground arith in
    let b₂ : slice_bound (length xs) (pos e +ℤ pos 1) ≡ suc e = ground arith in rw (b₁, b₂)

reads_slice :
    (h : ℤ) (a b i : ℕ) → between (h +ℤ pos a) (h +ℤ pos b) (h +ℤ pos i) ≡ leb a i && ltb i (suc b)
reads_slice h a b i = ground (arith, +ℤ_parts h (pos a), +ℤ_parts h (pos b), +ℤ_parts h (pos i))

lrange-there :
    (key : Bytes) (start stop : ℤ) (db : Db) (m : ListMeta)
    → db.list_meta key ≡ some m
    → lrange key start stop db ≡ range_of m start stop (db.list_items key)
unfolding lrange get_meta
lrange-there key start stop db m h = rw (h, lrange)

lindex-there :
    (key : Bytes) (index : ℤ) (db : Db) (m : ListMeta)
    → db.list_meta key ≡ some m
    → lindex key index db ≡ index_of m index (db.list_items key)
unfolding lindex get_meta
lindex-there key index db m h = rw (h, lindex)

range_of-number :
    (m : ListMeta) (v : Bytes) (vs : List Bytes) (start stop : ℤ)
    → meta_length m ≡ pos (suc (length vs))
    → range_of m start stop (number m.head_seq (v ∷ vs)) ≡ cached_list_range (v ∷ vs) start stop
unfolding range_of select_range
range_of-number m v vs start stop size =
    let n = length vs in
    let (s_is, s_le) = clamp_index-position n start in
    let (e_is, e_le) = clamp_index-position n stop in
    let a = clamp_position n start in
    let b = clamp_position n stop in
    rw (cached_clamped, size, is_zero-suc, s_is, e_is)
      (ap (λ xs. if ltb_ℤ (pos b) (pos a) then [] else xs)
        (ap (map (λ r. r.1)) (
            where_slice (between (m.head_seq +ℤ pos a) (m.head_seq +ℤ pos b)) m.head_seq a (suc b)
              (v ∷ vs) (λ i less. reads_slice m.head_seq a b i))
          ∙ values-number _ _
          ∙ sym (slice_positions a b (v ∷ vs) (omega arith) (omega arith))))

-- LRANGE from the tables and from a cached copy of the list give the same values, for every start
-- and stop.
pub lrange-cached :
    (key : Bytes) (vs : List Bytes) (start stop : ℤ) (db : Db)
    → Holds key vs db
    → lrange key start stop db ≡ cached_list_range vs start stop
unfolding get_meta cached_list_range
lrange-cached key [] start stop db a = unfold lrange in rw (a.no_meta, lrange)
lrange-cached key (v ∷ vs) start stop db s =
    rw (lrange-there key start stop db s.m s.meta_there, s.items)
      (range_of-number s.m v vs start stop (length-ends s.m _ s.ends))

within : (i len : ℤ) → (ltb_ℤ i (pos 0) || leb_ℤ len i) ≡ false → i ≡ pos (pos_part i)
within (pos k) len h = refl
within (negsuc k) len h = absurd (ground arith)

index_of-number :
    (m : ListMeta) (v : Bytes) (vs : List Bytes) (index : ℤ)
    → meta_length m ≡ pos (suc (length vs))
    → index_of m index (number m.head_seq (v ∷ vs)) ≡ cached_list_index (v ∷ vs) index
unfolding index_of cached_list_index
index_of-number m v vs index size =
    let len = pos (suc (length vs)) in
    let i = if ltb_ℤ index (pos 0) then len +ℤ index else index in
    rw (size, is_zero-suc)
      (elim (Bool-cases (ltb_ℤ i (pos 0) || leb_ℤ len i)) [
        | inl out ↦ rw out
        | inr inside ↦ rw inside (
            ap (λ j. select_seq (m.head_seq +ℤ j) (number m.head_seq (v ∷ vs)))
              (within i len inside)
            ∙ select_seq-number m.head_seq (pos_part i) (v ∷ vs))
      ])

-- LINDEX from the tables and from a cached copy of the list give the same value, or null, for every
-- index.
pub lindex-cached :
    (key : Bytes) (vs : List Bytes) (index : ℤ) (db : Db)
    → Holds key vs db
    → lindex key index db ≡ cached_list_index vs index
unfolding get_meta
lindex-cached key [] index db a =
    unfold lindex cached_list_index in rw (a.no_meta, lindex) (ground arith)
lindex-cached key (v ∷ vs) index db s =
    rw (lindex-there key index db s.m s.meta_there, s.items)
      (index_of-number s.m v vs index (length-ends s.m _ s.ends))

clamped_past_end : (n a : ℕ) → n ≤ a → clamp_index (pos (suc n)) (pos a) ≡ pos n
unfolding clamp_index ◌-ℤ◌
clamped_past_end n a h = ground arith

cached_past_end :
    (v : Bytes) (vs : List Bytes) (a b : ℕ)
    → length vs ≤ a
    → length vs ≤ b
    → cached_list_range (v ∷ vs) (pos a) (pos b) ≡ drop (length vs) (v ∷ vs)
cached_past_end v vs a b h k =
    let n = length vs in
    let all : ltb_ℤ (pos n) (pos n) ≡ false = ground arith in
    rw (cached_clamped, clamped_past_end n a h, clamped_past_end n b k, all)
      (slice_positions n n (v ∷ vs) (omega arith) (omega arith)
        ∙ ap (drop n) (take-length (v ∷ vs)))

-- LRANGE on a list, with a start and a stop that are both its last index or behind its end, in either
-- order, gives its last value: the start is clamped as the stop is, and a start behind the end does not
-- give the empty array.
pub lrange_past_end :
    (key v : Bytes) (vs : List Bytes) (a b : ℕ) (db : Db)
    → Holds key (v ∷ vs) db
    → length vs ≤ a
    → length vs ≤ b
    → lrange key (pos a) (pos b) db ≡ drop (length vs) (v ∷ vs)
lrange_past_end key v vs a b db s h k =
    lrange-cached key (v ∷ vs) (pos a) (pos b) db s ∙ cached_past_end v vs a b h k
