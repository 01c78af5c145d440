-- ===== src/Storage/Lists/Removes/Answers.antt =====
-- src/storage/sqlite/lists.js: the transactions of `lpop` and `rpop`, with and without a count.
use resplite.Base.{
  ℕ, zero, suc, ◌-◌, ◌≤◌, ◌<◌, ◌≡◌, refl, ◌∙◌, ap, Bool, not, List, [], ◌∷◌, map, Bytes, length,
  arith, take, drop, get_elem?, leb, bytes_eq, length-drop, length-take,
}
use Prim.Native.Nat.{min}
use mathlib.Core.List.{reverse}
use resplite.Base.Int.{ℤ, pos, pos_part, neg_part, ◌+ℤ◌, ◌-ℤ◌, min_ℤ, int_laws, beq_ℤ}
use resplite.Base.Maps.{Distinct}
use resplite.Storage.{Db, Rows, ListMeta}
use resplite.Storage.Lists.{meta_length, set_items}
use resplite.Storage.Lists.Statements.{select_range, delete_range, delete_seq, where_seq, between}
use resplite.Storage.Lists.Numbered.{
  number, at-zero, where_take, where_drop, values-number, select_seq-number,
}
use resplite.Storage.Lists.View.{Stored, length-ends}
use resplite.Storage.Lists.Removes.{
  Popped, one, many, value_or_null, settle, lpop_one, lpop_many, rpop_one, rpop_many,
}
use resplite.Storage.Lists.Removes.Pops.{
  Popping, settle-Holds, reads_head, reads_front, reads_last, reads_back,
}

min_pos : (a b : ℕ) → min_ℤ (pos a) (pos b) ≡ pos (min a b)
min_pos a b = ground arith

module _ {ℓ} {A : Type ℓ} where
  take-min : (n k : ℕ) (xs : List A) → k ≡ min n (length xs) → take k xs ≡ take n xs
  take-min zero zero xs e = refl
  take-min zero (suc k) xs e = absurd (omega arith)
  take-min (suc n) zero [] e = refl
  take-min (suc n) (suc k) [] e = refl
  take-min (suc n) zero (x ∷ xs) e = absurd (omega arith)
  take-min (suc n) (suc k) (x ∷ xs) e = ap (◌∷◌ x) (take-min n k xs (omega arith))

  drop-min : (n k : ℕ) (xs : List A) → k ≡ min n (length xs) → drop k xs ≡ drop n xs
  drop-min zero zero xs e = refl
  drop-min zero (suc k) xs e = absurd (omega arith)
  drop-min (suc n) zero [] e = refl
  drop-min (suc n) (suc k) [] e = refl
  drop-min (suc n) zero (x ∷ xs) e = absurd (omega arith)
  drop-min (suc n) (suc k) (x ∷ xs) e = drop-min n k xs (omega arith)

last_at : (t h : ℤ) (n : ℕ) → t +ℤ pos 1 ≡ h +ℤ pos (suc n) → t ≡ h +ℤ pos n
last_at t h n e = omega (int_laws, ap pos_part e, ap neg_part e)

tail_back :
    (t h : ℤ) (n k : ℕ) → t +ℤ pos 1 ≡ h +ℤ pos n → k ≤ n → t -ℤ pos k +ℤ pos 1 ≡ h +ℤ pos (n - k)
tail_back t h n k e le = omega (int_laws, ap pos_part e, ap neg_part e)

head_on :
    (t h : ℤ) (n k : ℕ) → t +ℤ pos 1 ≡ h +ℤ pos n → k ≤ n → t +ℤ pos 1 ≡ h +ℤ pos k +ℤ pos (n - k)
head_on t h n k e le = omega (int_laws, ap pos_part e, ap neg_part e)

module _ (key v : Bytes) (vs : List Bytes) (now : ℤ) (db : Db) (s : Stored key (v ∷ vs) db)
    (d : Distinct db.keys) where
  open s use {m}

  pub size : meta_length m ≡ pos (suc (length vs))
  size = length-ends m (suc (length vs)) s.ends

  settled :
      (m' : ListMeta) (us : List Bytes) (rows : Rows) (answer : Popped) (p : Popped)
      → p ≡ answer
      → rows ≡ number m'.head_seq us
      → m'.tail_seq +ℤ pos 1 ≡ m'.head_seq +ℤ pos (length us)
      → Popping key answer us db (p, settle key m' now (set_items key rows db))
  settled m' us rows answer p e r ends =
      let h = settle-Holds key m' us now db s.row m d s.row_there s.kind s.meta_there ends in
      rw r (e, h.0, h.1)

  all : List Bytes
  all = v ∷ vs

  pub lpop_one-Popping : Popping key (one v) vs db (lpop_one key m now db)
  unfolding lpop_one value_or_null delete_seq all
  lpop_one-Popping =
      settled (record m { head_seq = m.head_seq +ℤ pos 1 }) vs _ (one v) _
        (rw s.items (ap value_or_null (rw at-zero at (select_seq-number m.head_seq 0 all))))
        (rw s.items (
          where_drop (λ t. not (beq_ℤ t m.head_seq)) m.head_seq 1 all
            (λ i less. reads_head m.head_seq i)))
        (head_on m.tail_seq m.head_seq (suc (length vs)) 1 s.ends (omega arith)
          ∙ ap (λ k. m.head_seq +ℤ pos 1 +ℤ pos k) (omega arith))

  pub rpop_one-Popping :
      Popping key
        (value_or_null (get_elem? (v ∷ vs) (length vs)))
        (take (length vs) (v ∷ vs))
        db
        (rpop_one key m now db)
  unfolding rpop_one delete_seq all
  rpop_one-Popping =
      let at_last = last_at m.tail_seq m.head_seq (length vs) s.ends in
      settled (record m { tail_seq = m.tail_seq -ℤ pos 1 }) (take (length vs) all) _ _ _
        (rw (s.items, at_last) (ap value_or_null (select_seq-number m.head_seq (length vs) all)))
        (rw s.items (
          where_take (λ t. not (beq_ℤ t m.tail_seq)) m.head_seq (length vs) all
            (λ i less. reads_last m.head_seq i m.tail_seq (length vs) s.ends less)))
        (tail_back m.tail_seq m.head_seq (suc (length vs)) 1 s.ends (omega arith)
          ∙ ap (λ x. m.head_seq +ℤ pos x) (omega (arith, length-take (length vs) all)))

  selected :
      (p : ℤ → Bool) (us : List Bytes) (h : ℤ)
      → where_seq p (number m.head_seq all) ≡ number h us
      → map (λ r. r.1) (where_seq p (db.list_items key)) ≡ us
  unfolding all
  selected p us h e = rw (s.items, e) (values-number h us)

  module _ (n k : ℕ) (e : k ≡ min (suc n) (suc (length vs))) where
    pub lpop_many-Popping :
        Popping key
          (many (take (suc n) (v ∷ vs)))
          (drop (suc n) (v ∷ vs))
          db
          (lpop_many key m (pos (suc n)) now db)
    unfolding lpop_many select_range delete_range all
    lpop_many-Popping =
        let stop = m.head_seq +ℤ pos k -ℤ pos 1 in
        rw (size, min_pos, ← e, ← take-min (suc n) k all e, ← drop-min (suc n) k all e)
          (settled (record m { head_seq = m.head_seq +ℤ pos k }) (drop k all) _ _ _
            (ap many (
              selected (between m.head_seq stop) (take k all) m.head_seq (
                where_take (between m.head_seq stop) m.head_seq k all
                  (λ i less. reads_front m.head_seq i k))))
            (rw s.items (
              where_drop (λ t. not (between m.head_seq stop t)) m.head_seq k all
                (λ i less. rw (reads_front m.head_seq i k) (ground arith))))
            (head_on m.tail_seq m.head_seq (suc (length vs)) k s.ends (omega arith)
              ∙ ap (λ x. m.head_seq +ℤ pos k +ℤ pos x) (omega (arith, length-drop k all))))

    pub rpop_many-Popping :
        let rest = suc (length vs) - suc n in
        Popping key
          (many (reverse (drop rest (v ∷ vs))))
          (take rest (v ∷ vs))
          db
          (rpop_many key m (pos (suc n)) now db)
    unfolding rpop_many select_range delete_range all
    rpop_many-Popping =
        let total = suc (length vs) in
        let rest = total - suc n in
        let start = m.tail_seq -ℤ pos k +ℤ pos 1 in
        let same : total - k ≡ rest = omega arith in
        let reads : (i : ℕ)
            → i < total
            → between start m.tail_seq (m.head_seq +ℤ pos i) ≡ leb rest i =
          λ i less.
            rw same at (reads_back m.head_seq i m.tail_seq total k s.ends (omega arith) less) in
        rw (size, min_pos, ← e)
          (settled (record m { tail_seq = m.tail_seq -ℤ pos k }) (take rest all) _ _ _
            (ap (λ x. many (reverse x))
              (selected (between start m.tail_seq) (drop rest all) (m.head_seq +ℤ pos rest)
                (where_drop (between start m.tail_seq) m.head_seq rest all reads)))
            (rw s.items (
              where_take (λ t. not (between start m.tail_seq t)) m.head_seq rest all
                (λ i less. rw (reads i less) (ground arith))))
            (tail_back m.tail_seq m.head_seq total k s.ends (omega arith)
              ∙ ap (λ x. m.head_seq +ℤ pos x) (omega (arith, length-take rest all))))
