-- ===== src/Storage/Lists/Numbered.antt =====
-- Rows under consecutive numbers, and what the SQL statements make of them.
use resplite.Base.{
  ℕ, zero, suc, ◌+◌, ◌<◌, ◌≡◌, refl, ◌∙◌, sym, ap, Bool, false, ◌&&◌, List, [], ◌∷◌, ◌++◌, map,
  Bytes, length, take, drop, get_elem?, arith, bytes_eq, length-append, ltb, leb, lt→ltb,
  take-length,
}
use resplite.Base.Int.{ℤ, pos, ◌+ℤ◌, ◌≤ℤ◌, int_laws, +ℤ_parts}
use mathlib.Core.List.{append-nil, append_assoc}
use resplite.Storage.{Rows, Result, ok, ◌>>=◌}
use resplite.Storage.Lists.Statements.{insert_row, where_seq, select_seq}

-- The values `vs` under the numbers `h`, `h + 1`, ….
unfoldable pub number : ℤ → List Bytes → Rows
number h [] = []
number h (v ∷ vs) = (h, v) ∷ number (h +ℤ pos 1) vs

pub at-zero : (h : ℤ) → h +ℤ pos 0 ≡ h
at-zero h = omega int_laws

pub at-suc : (h : ℤ) (n : ℕ) → h +ℤ pos 1 +ℤ pos n ≡ h +ℤ pos (suc n)
at-suc h n = omega int_laws

pub number-append :
    (h : ℤ) (us vs : List Bytes)
    → number h (us ++ vs) ≡ number h us ++ number (h +ℤ pos (length us)) vs
unfolding number
number-append h [] vs = rw at-zero
number-append h (u ∷ us) vs = ap (◌∷◌ (h, u)) (number-append (h +ℤ pos 1) us vs ∙ (rw at-suc))

pub values-number : (h : ℤ) (vs : List Bytes) → map (λ r. r.1) (number h vs) ≡ vs
unfolding number
values-number h [] = refl
values-number h (v ∷ vs) = ap (◌∷◌ v) (values-number (h +ℤ pos 1) vs)

-- Every number of the rows is at least `t`; the rows ascend, so the first tells.
abbrev pub Above : ℤ → Rows → Type 0
Above t [] = Unit
Above t ((s, v) ∷ rows) = t ≤ℤ s

insert_row-number :
    (h q : ℤ) (v : Bytes) (us : List Bytes) (rows : Rows)
    → q ≡ h +ℤ pos (length us)
    → Above (q +ℤ pos 1) rows
    → insert_row q v (number h us ++ rows) ≡ ok (number h us ++ (q, v) ∷ rows)
unfolding number insert_row
insert_row-number h q v [] [] e a = refl
insert_row-number h q v [] ((s, w) ∷ rows) e a = ground (arith, +ℤ_parts q (pos 1))
insert_row-number h q v (u ∷ us) rows e a =
    let ih = insert_row-number (h +ℤ pos 1) q v us rows (e ∙ sym (at-suc h (length us))) a in
    ground (arith, ih, e, +ℤ_parts h (pos (suc (length us))))

-- The statements of the insertion loops, on the rows of the key.
unfoldable pub insert_rows : ℤ → List Bytes → Rows → Result Rows
insert_rows start [] rows = ok rows
insert_rows start (v ∷ vs) rows = insert_row start v rows >>= insert_rows (start +ℤ pos 1) vs

Above-weaker : (t u : ℤ) (rows : Rows) → t ≤ℤ u → Above u rows → Above t rows
Above-weaker t u [] h a = tt
Above-weaker t u (r ∷ rows) h a = omega arith

number-snoc :
    (h q : ℤ) (us : List Bytes) (v : Bytes) (rows : Rows)
    → q ≡ h +ℤ pos (length us)
    → number h us ++ (q, v) ∷ rows ≡ number h (us ++ v ∷ []) ++ rows
unfolding number
number-snoc h q us v rows e =
    rw (number-append h us (v ∷ []), append_assoc) (ap (λ x. number h us ++ (x, v) ∷ rows) e)

e_next : (h q : ℤ) (n k : ℕ) → q ≡ h +ℤ pos n → k ≡ n + 1 → q +ℤ pos 1 ≡ h +ℤ pos k
e_next h q n k e d = rw (e, d) (omega int_laws)

pub insert_rows-number :
    (h q : ℤ) (vs us : List Bytes) (rows : Rows)
    → q ≡ h +ℤ pos (length us)
    → Above (q +ℤ pos (length vs)) rows
    → insert_rows q vs (number h us ++ rows) ≡ ok (number h (us ++ vs) ++ rows)
unfolding insert_rows
insert_rows-number h q [] us rows e a = rw append-nil
insert_rows-number h q (v ∷ vs) us rows e a =
    let n = suc (length vs) in
    let a₁ =
      Above-weaker (q +ℤ pos 1) (q +ℤ pos n) rows
        (omega (arith, +ℤ_parts q (pos 1), +ℤ_parts q (pos n))) a in
    let e₂ : q +ℤ pos 1 ≡ h +ℤ pos (length (us ++ v ∷ [])) =
      e_next h q (length us) (length (us ++ v ∷ [])) e (length-append us (v ∷ [])) in
    rw (insert_row-number h q v us rows e a₁, number-snoc h q us v rows e)
      (rw (insert_rows-number h (q +ℤ pos 1) vs (us ++ v ∷ []) rows e₂ (rw at-suc a))
        (rw append_assoc))

-- A test of the numbers that is one of the positions, for every position of `vs`.
abbrev pub Reads : ℤ → List Bytes → (ℤ → Bool) → (ℕ → Bool) → Type 0
Reads h vs p q = (i : ℕ) → i < length vs → p (h +ℤ pos i) ≡ q i

Reads-head :
    (h : ℤ) (v : Bytes) (vs : List Bytes) (p : ℤ → Bool) (q : ℕ → Bool)
    → Reads h (v ∷ vs) p q
    → p h ≡ q 0
Reads-head h v vs p q r = rw at-zero at (r 0 (omega arith))

Reads-tail :
    (h : ℤ) (v : Bytes) (vs : List Bytes) (p : ℤ → Bool) (q : ℕ → Bool)
    → Reads h (v ∷ vs) p q
    → Reads (h +ℤ pos 1) vs p (λ i. q (suc i))
Reads-tail h v vs p q r i less = rw at-suc (r (suc i) (omega arith))

and_false : (a b : ℕ) → leb (suc a) 0 && ltb 0 b ≡ false
and_false a b = ground arith

module _ (p : ℤ → Bool) where
  pub where_take :
      (h : ℤ) (n : ℕ) (vs : List Bytes)
      → Reads h vs p (λ i. ltb i n)
      → where_seq p (number h vs) ≡ number h (take n vs)
  unfolding where_seq number
  where_take h zero [] r = refl
  where_take h (suc n) [] r = refl
  where_take h zero (v ∷ vs) r = rw (
    Reads-head h v vs p _ r,
    where_take (h +ℤ pos 1) zero vs (λ i less. Reads-tail h v vs p _ r i less ∙ ground arith),
  )
  where_take h (suc n) (v ∷ vs) r = rw (
    Reads-head h v vs p _ r ∙ lt→ltb 0 (suc n) (omega arith),
    where_take (h +ℤ pos 1) n vs (λ i less. Reads-tail h v vs p _ r i less ∙ ground arith),
  )

  pub where_slice :
      (h : ℤ) (a b : ℕ) (vs : List Bytes)
      → Reads h vs p (λ i. leb a i && ltb i b)
      → where_seq p (number h vs) ≡ number (h +ℤ pos a) (drop a (take b vs))
  unfolding where_seq number
  where_slice h zero b vs r = rw at-zero (where_take h b vs (λ i less. r i less ∙ ground arith))
  where_slice h (suc a) zero [] r = refl
  where_slice h (suc a) (suc b) [] r = refl
  where_slice h (suc a) zero (v ∷ vs) r =
      rw (Reads-head h v vs p _ r ∙ and_false a 0)
        (where_take (h +ℤ pos 1) zero vs (λ i less. Reads-tail h v vs p _ r i less ∙ ground arith))
  where_slice h (suc a) (suc b) (v ∷ vs) r =
      rw (Reads-head h v vs p _ r ∙ and_false a (suc b), ← at-suc h a)
        (where_slice (h +ℤ pos 1) a b vs (λ i less. Reads-tail h v vs p _ r i less ∙ ground arith))

  pub where_drop :
      (h : ℤ) (a : ℕ) (vs : List Bytes)
      → Reads h vs p (λ i. leb a i)
      → where_seq p (number h vs) ≡ number (h +ℤ pos a) (drop a vs)
  where_drop h a vs r =
      where_slice h a (length vs) vs (λ i less. r i less ∙ ground arith)
      ∙ ap (λ x. number (h +ℤ pos a) (drop a x)) (take-length vs)

pub select_seq-number :
    (h : ℤ) (i : ℕ) (vs : List Bytes) → select_seq (h +ℤ pos i) (number h vs) ≡ get_elem? vs i
unfolding select_seq number
select_seq-number h i [] = refl
select_seq-number h zero (v ∷ vs) = ground (arith, +ℤ_parts h (pos 0))
select_seq-number h (suc i) (v ∷ vs) =
    ground (arith, (rw at-suc at (select_seq-number (h +ℤ pos 1) i vs)), +ℤ_parts h (pos (suc i)))

pub where_seq-and :
    (p q : ℤ → Bool) (rows : Rows)
    → where_seq (λ s. p s && q s) rows ≡ where_seq p (where_seq q rows)
unfolding where_seq
where_seq-and p q [] = refl
where_seq-and p q ((s, v) ∷ rows) = ground (arith, where_seq-and p q rows)
