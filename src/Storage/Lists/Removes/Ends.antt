-- ===== src/Storage/Lists/Removes/Ends.antt =====
-- src/storage/sqlite/lists.js: what `lpop` and `rpop` answer, for every count.
use resplite.Base.{
  ℕ, zero, suc, ◌-◌, ◌≡◌, refl, Option, none, some, List, [], ◌∷◌, Bytes, length, arith, take, drop,
  get_elem?, bytes_eq,
}
use mathlib.Core.List.{reverse}
use resplite.Base.Int.{ℤ, pos, negsuc}
use resplite.Base.Maps.{Distinct}
use resplite.Storage.Frame.{SameElsewhere-refl}
use resplite.Storage.{Db, ListMeta}
use resplite.Storage.Lists.{get_meta, meta_length}
use resplite.Storage.Lists.View.{Holds}
use resplite.Storage.Lists.Removes.{
  Popped, null, one, many, value_or_null, positive, lpop_one, lpop_many, rpop_one, rpop_many, pop,
  lpop, rpop,
}
use resplite.Storage.Lists.Removes.Pops.{Popping, is_zero-suc}
use resplite.Storage.Lists.Removes.Answers.{
  size, lpop_one-Popping, rpop_one-Popping, lpop_many-Popping, rpop_many-Popping,
}

-- LPOP and RPOP on a list of values: the answer, and the values that stay.
unfoldable pub pop_left : Option ℤ → List Bytes → Popped × List Bytes
pop_left none [] = (null, [])
pop_left (some (pos (suc n))) [] = (many [], [])
pop_left (some (pos (suc n))) (v ∷ vs) = (many (take (suc n) (v ∷ vs)), drop (suc n) (v ∷ vs))
pop_left _ [] = (null, [])
pop_left _ (v ∷ vs) = (one v, vs)

unfoldable pub pop_right : Option ℤ → List Bytes → Popped × List Bytes
unfolding value_or_null
pop_right none [] = (null, [])
pop_right (some (pos (suc n))) [] = (many [], [])
pop_right (some (pos (suc n))) (v ∷ vs) =
    let rest = suc (length vs) - suc n in (many (reverse (drop rest (v ∷ vs))), take rest (v ∷ vs))
pop_right _ [] = (null, [])
pop_right _ (v ∷ vs) = (value_or_null (get_elem? (v ∷ vs) (length vs)), take (length vs) (v ∷ vs))

lpop-pop :
    (key : Bytes) (count : Option ℤ) (now : ℤ) (db : Db)
    → lpop key count now db
      ≡ pop (get_meta key db) count (λ m. lpop_one key m now) (λ m n. lpop_many key m n now) db
unfolding lpop
lpop-pop key count now db = refl

rpop-pop :
    (key : Bytes) (count : Option ℤ) (now : ℤ) (db : Db)
    → rpop key count now db
      ≡ pop (get_meta key db) count (λ m. rpop_one key m now) (λ m n. rpop_many key m n now) db
unfolding rpop
rpop-pop key count now db = refl

-- The frame of the pops, where the length is known.
module _ (single : ListMeta → Db → Popped × Db) (several : ListMeta → ℤ → Db → Popped × Db)
    (db : Db) where
  pop_empty : (count : Option ℤ) → pop none count single several db ≡ ((pop_left count []).0, db)
  unfolding pop pop_left positive
  pop_empty none = refl
  pop_empty (some (pos zero)) = refl
  pop_empty (some (pos (suc n))) = ground arith
  pop_empty (some (negsuc n)) = ground arith

  module _ (m : ListMeta) (n : ℕ) (size : meta_length m ≡ pos (suc n)) where
    pop_single : pop (some m) none single several db ≡ single m db
    unfolding pop
    pop_single = rw (size, is_zero-suc)

    pop_at_0 : pop (some m) (some (pos zero)) single several db ≡ single m db
    unfolding pop
    pop_at_0 = rw (size, is_zero-suc)

    pop_negative : (k : ℕ) → pop (some m) (some (negsuc k)) single several db ≡ single m db
    unfolding pop
    pop_negative k = rw (size, is_zero-suc) (ground arith)

    pop_several :
        (k : ℕ) → pop (some m) (some (pos (suc k))) single several db ≡ several m (pos (suc k)) db
    unfolding pop
    pop_several k = rw (size, is_zero-suc) (ground arith)

-- LPOP on a key that holds the list `vs`, in tables with each key once, answers and leaves what
-- `pop_left` says: with no count, or one that is not positive, the
-- first value; with a count, an array of that many from the front, or of all. The key goes with
-- its last value, and every other key is as it was.
pub lpop-Holds :
    (key : Bytes) (count : Option ℤ) (vs : List Bytes) (now : ℤ) (db : Db)
    → Holds key vs db
    → Distinct db.keys
    → Popping key (pop_left count vs).0 (pop_left count vs).1 db (lpop key count now db)
unfolding get_meta pop_left
lpop-Holds key none [] now db a d =
    rw (lpop-pop, a.no_meta, pop_empty) (refl, a, SameElsewhere-refl key db)
lpop-Holds key (some (pos zero)) [] now db a d =
    rw (lpop-pop, a.no_meta, pop_empty) (refl, a, SameElsewhere-refl key db)
lpop-Holds key (some (negsuc n)) [] now db a d =
    rw (lpop-pop, a.no_meta, pop_empty) (refl, a, SameElsewhere-refl key db)
lpop-Holds key (some (pos (suc n))) [] now db a d =
    rw (lpop-pop, a.no_meta, pop_empty) (refl, a, SameElsewhere-refl key db)
lpop-Holds key none (v ∷ vs) now db s d =
    rw (lpop-pop, s.meta_there, pop_single _ _ db s.m (length vs) (size key v vs now db s d))
      (lpop_one-Popping key v vs now db s d)
lpop-Holds key (some (pos zero)) (v ∷ vs) now db s d =
    rw (lpop-pop, s.meta_there, pop_at_0 _ _ db s.m (length vs) (size key v vs now db s d))
      (lpop_one-Popping key v vs now db s d)
lpop-Holds key (some (negsuc n)) (v ∷ vs) now db s d =
    rw (lpop-pop, s.meta_there, pop_negative _ _ db s.m (length vs) (size key v vs now db s d))
      (lpop_one-Popping key v vs now db s d)
lpop-Holds key (some (pos (suc n))) (v ∷ vs) now db s d =
    rw (lpop-pop, s.meta_there, pop_several _ _ db s.m (length vs) (size key v vs now db s d) n)
      (lpop_many-Popping key v vs now db s d n _ refl)

-- RPOP on a key that holds the list `vs`, in tables with each key once, answers and leaves what
-- `pop_right` says: with no count, or one that is not positive, the last value; with a count, an
-- array of that many from the back, or of all, the last one first. The key goes with its last
-- value, and every other key is as it was.
pub rpop-Holds :
    (key : Bytes) (count : Option ℤ) (vs : List Bytes) (now : ℤ) (db : Db)
    → Holds key vs db
    → Distinct db.keys
    → Popping key (pop_right count vs).0 (pop_right count vs).1 db (rpop key count now db)
unfolding get_meta pop_left pop_right
rpop-Holds key none [] now db a d =
    rw (rpop-pop, a.no_meta, pop_empty) (refl, a, SameElsewhere-refl key db)
rpop-Holds key (some (pos zero)) [] now db a d =
    rw (rpop-pop, a.no_meta, pop_empty) (refl, a, SameElsewhere-refl key db)
rpop-Holds key (some (negsuc n)) [] now db a d =
    rw (rpop-pop, a.no_meta, pop_empty) (refl, a, SameElsewhere-refl key db)
rpop-Holds key (some (pos (suc n))) [] now db a d =
    rw (rpop-pop, a.no_meta, pop_empty) (refl, a, SameElsewhere-refl key db)
rpop-Holds key none (v ∷ vs) now db s d =
    rw (rpop-pop, s.meta_there, pop_single _ _ db s.m (length vs) (size key v vs now db s d))
      (rpop_one-Popping key v vs now db s d)
rpop-Holds key (some (pos zero)) (v ∷ vs) now db s d =
    rw (rpop-pop, s.meta_there, pop_at_0 _ _ db s.m (length vs) (size key v vs now db s d))
      (rpop_one-Popping key v vs now db s d)
rpop-Holds key (some (negsuc n)) (v ∷ vs) now db s d =
    rw (rpop-pop, s.meta_there, pop_negative _ _ db s.m (length vs) (size key v vs now db s d))
      (rpop_one-Popping key v vs now db s d)
rpop-Holds key (some (pos (suc n))) (v ∷ vs) now db s d =
    rw (rpop-pop, s.meta_there, pop_several _ _ db s.m (length vs) (size key v vs now db s d) n)
      (rpop_many-Popping key v vs now db s d n _ refl)
