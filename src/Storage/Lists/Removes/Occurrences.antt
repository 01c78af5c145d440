-- ===== src/Storage/Lists/Removes/Occurrences.antt =====
-- src/storage/sqlite/lists.js: which values `lrem` takes away.
use resplite.Base.{
  ℕ, zero, suc, ◌+◌, ◌-◌, ◌≤◌, ◌≡◌, refl, ◌∙◌, sym, ap, true, false, List, [], ◌∷◌, map, Bytes,
  if◌then◌else◌, bytes_eq, ◌==◌, arith, inl, inr, Bool-cases, length, take, drop, length-take,
  length-drop, branches,
}
use Prim.Native.Nat.{min}
use resplite.Base.Int.{ℤ, pos, negsuc, ◌+ℤ◌, beq_ℤ, +ℤ_parts, int_laws}
use resplite.Base.Counts.{times}
use resplite.Storage.{Rows}
use resplite.Storage.Lists.Statements.{delete_seq, where_seq}
use resplite.Storage.Lists.Numbered.{number, values-number}
use resplite.Storage.Lists.Removes.{select_matches, delete_seqs, matching}

-- A list without `k` of its occurrences of a value, the first `skip` of which stay.
abbrev pub remove_some : ℕ → ℕ → Bytes → List Bytes → List Bytes
remove_some skip k e [] = []
remove_some zero zero e (v ∷ vs) = v ∷ vs
remove_some zero (suc k) e (v ∷ vs) =
    let less = remove_some zero k e vs in
    let rest = remove_some zero (suc k) e vs in if v == e then less else v ∷ rest
remove_some (suc j) k e (v ∷ vs) =
    let less = remove_some j k e vs in
    let rest = remove_some (suc j) k e vs in if v == e then v ∷ less else v ∷ rest

-- The occurrences that a count names: all, or so many from the front or from the back.
unfoldable pub removed : ℤ → Bytes → List Bytes → List Bytes
removed (pos zero) e vs = remove_some 0 (times e vs) e vs
removed (pos (suc n)) e vs = remove_some 0 (suc n) e vs
removed (negsuc n) e vs = remove_some (times e vs - suc n) (times e vs) e vs

apart :
    (h : ℤ) (n : ℕ) → (beq_ℤ h (h +ℤ pos (suc n)) ≡ false) × (beq_ℤ (h +ℤ pos (suc n)) h ≡ false)
apart h n = (ground (arith, +ℤ_parts h (pos (suc n))), ground (arith, +ℤ_parts h (pos (suc n))))

same_seq : (h : ℤ) → beq_ℤ h h ≡ true
same_seq h = ground arith

further : (h : ℤ) (n : ℕ) → h +ℤ pos (suc n) +ℤ pos 1 ≡ h +ℤ pos (suc (suc n))
further h n = omega int_laws

-- No row has the number.
abbrev Without : ℤ → Rows → Type 0
Without h [] = Unit
Without h ((s, v) ∷ rows) = (beq_ℤ h s ≡ false) × Without h rows

Without-take : (h : ℤ) (n : ℕ) (rows : Rows) → Without h rows → Without h (take n rows)
Without-take h zero rows w = tt
Without-take h (suc n) [] w = tt
Without-take h (suc n) (r ∷ rows) w = (w.0, Without-take h n rows w.1)

Without-drop : (h : ℤ) (n : ℕ) (rows : Rows) → Without h rows → Without h (drop n rows)
Without-drop h zero rows w = w
Without-drop h (suc n) [] w = tt
Without-drop h (suc n) (r ∷ rows) w = Without-drop h n rows w.1

matching-Without :
    (h : ℤ) (n : ℕ) (e : Bytes) (vs : List Bytes)
    → Without h (matching e (number (h +ℤ pos (suc n)) vs))
unfolding matching number
matching-Without h n e [] = tt
matching-Without h n e (v ∷ vs) =
    let rest : Without h (matching e (number (h +ℤ pos (suc n) +ℤ pos 1) vs)) =
      rw (further h n) (matching-Without h (suc n) e vs) in
    branches (Without h) (v == e) (λ is. ((apart h n).0, rest)) (λ other. rest)

delete_seq-fresh :
    (h : ℤ) (n : ℕ) (vs : List Bytes)
    → delete_seq h (number (h +ℤ pos (suc n)) vs) ≡ number (h +ℤ pos (suc n)) vs
unfolding delete_seq where_seq number
delete_seq-fresh h n [] = refl
delete_seq-fresh h n (v ∷ vs) =
    rw ((apart h n).1, further h n) (ap (◌∷◌ (h +ℤ pos (suc n), v)) (delete_seq-fresh h (suc n) vs))

delete_seq-head :
    (h : ℤ) (v : Bytes) (vs : List Bytes)
    → delete_seq h ((h, v) ∷ number (h +ℤ pos 1) vs) ≡ number (h +ℤ pos 1) vs
unfolding delete_seq where_seq
delete_seq-head h v vs = rw (same_seq h) (delete_seq-fresh h 0 vs)

delete_seqs-keep :
    (h : ℤ) (v : Bytes) (ds rows : Rows)
    → Without h ds
    → delete_seqs ds ((h, v) ∷ rows) ≡ (h, v) ∷ delete_seqs ds rows
unfolding delete_seqs delete_seq where_seq
delete_seqs-keep h v [] rows w = refl
delete_seqs-keep h v ((s, u) ∷ ds) rows w =
    rw (w.0) (delete_seqs-keep h v ds (delete_seq s rows) w.1)

Without-matching :
    (h : ℤ) (e : Bytes) (vs : List Bytes) → Without h (matching e (number (h +ℤ pos 1) vs))
Without-matching h e vs = matching-Without h 0 e vs

-- The rows that stay have the values that are to stay.
pub delete_seqs-values :
    (skip k : ℕ) (e : Bytes) (h : ℤ) (vs : List Bytes)
    → map (λ r. r.1) (delete_seqs (take k (drop skip (matching e (number h vs)))) (number h vs))
      ≡ remove_some skip k e vs
unfolding matching number delete_seqs
delete_seqs-values zero zero e h [] = refl
delete_seqs-values zero (suc k) e h [] = refl
delete_seqs-values (suc j) zero e h [] = refl
delete_seqs-values (suc j) (suc k) e h [] = refl
delete_seqs-values zero zero e h (v ∷ vs) = ap (◌∷◌ v) (values-number (h +ℤ pos 1) vs)
delete_seqs-values zero (suc k) e h (v ∷ vs) = elim (Bool-cases (v == e)) [
  | inl is ↦ rw is (
      ap (λ rows. map (λ r. r.1) (delete_seqs (take k (matching e (number (h +ℤ pos 1) vs))) rows))
        (delete_seq-head h v vs)
      ∙ delete_seqs-values zero k e (h +ℤ pos 1) vs)
  | inr other ↦ rw other (
      ap (map (λ r. r.1))
        (delete_seqs-keep h v _ _ (Without-take h (suc k) _ (Without-matching h e vs)))
      ∙ ap (◌∷◌ v) (delete_seqs-values zero (suc k) e (h +ℤ pos 1) vs))
]
delete_seqs-values (suc j) k e h (v ∷ vs) = elim (Bool-cases (v == e)) [
  | inl is ↦ rw is (
      ap (map (λ r. r.1)) (
        delete_seqs-keep h v _ _
          (Without-take h k _ (Without-drop h j _ (Without-matching h e vs))))
      ∙ ap (◌∷◌ v) (delete_seqs-values j k e (h +ℤ pos 1) vs))
  | inr other ↦ rw other (
      ap (map (λ r. r.1)) (
        delete_seqs-keep h v _ _
          (Without-take h k _ (Without-drop h (suc j) _ (Without-matching h e vs))))
      ∙ ap (◌∷◌ v) (delete_seqs-values (suc j) k e (h +ℤ pos 1) vs))
]

length-matching :
    (e : Bytes) (h : ℤ) (vs : List Bytes) → length (matching e (number h vs)) ≡ times e vs
unfolding matching number
length-matching e h [] = refl
length-matching e h (v ∷ vs) = elim (Bool-cases (v == e)) [
  | inl is ↦ rw is (ap suc (length-matching e (h +ℤ pos 1) vs))
  | inr other ↦ rw other (length-matching e (h +ℤ pos 1) vs)
]

length-remove_some :
    (skip k : ℕ) (e : Bytes) (vs : List Bytes)
    → length (remove_some skip k e vs) + min k (times e vs - skip) ≡ length vs
length-remove_some zero zero e [] = omega arith
length-remove_some zero (suc k) e [] = omega arith
length-remove_some (suc j) k e [] = omega arith
length-remove_some zero zero e (v ∷ vs) = omega arith
length-remove_some zero (suc k) e (v ∷ vs) =
    ground (arith, length-remove_some zero k e vs, length-remove_some zero (suc k) e vs)
length-remove_some (suc j) k e (v ∷ vs) =
    ground (arith, length-remove_some j k e vs, length-remove_some (suc j) k e vs)

remove_some-none :
    (skip k : ℕ) (e : Bytes) (vs : List Bytes) → times e vs ≡ 0 → remove_some skip k e vs ≡ vs
remove_some-none skip k e [] h = refl
remove_some-none zero zero e (v ∷ vs) h = refl
remove_some-none zero (suc k) e (v ∷ vs) h = elim (Bool-cases (v == e)) [
  | inl is ↦ absurd (omega (arith, rw is at h))
  | inr other ↦ rw other (ap (◌∷◌ v) (remove_some-none zero (suc k) e vs (rw other at h)))
]
remove_some-none (suc j) k e (v ∷ vs) h = elim (Bool-cases (v == e)) [
  | inl is ↦ absurd (omega (arith, rw is at h))
  | inr other ↦ rw other (ap (◌∷◌ v) (remove_some-none (suc j) k e vs (rw other at h)))
]

-- Without an occurrence nothing goes.
pub removed-none :
    (count : ℤ) (e : Bytes) (h : ℤ) (vs : List Bytes)
    → matching e (number h vs) ≡ []
    → removed count e vs ≡ vs
unfolding removed
removed-none count e h vs none =
    let zero_times : times e vs ≡ 0 = sym (length-matching e h vs) ∙ ap length none in
    go count zero_times
  where
    go : (c : ℤ) → times e vs ≡ 0 → removed c e vs ≡ vs
    go (pos zero) z = remove_some-none 0 (times e vs) e vs z
    go (pos (suc n)) z = remove_some-none 0 (suc n) e vs z
    go (negsuc n) z = remove_some-none (times e vs - suc n) (times e vs) e vs z

take_all : {A : Type 0} (n : ℕ) (xs : List A) → length xs ≤ n → take n xs ≡ xs
take_all zero [] h = refl
take_all zero (x ∷ xs) h = absurd (omega arith)
take_all (suc n) [] h = refl
take_all (suc n) (x ∷ xs) h = ap (◌∷◌ x) (take_all n xs (omega arith))

-- What is deleted, as a stretch of the matches, and what stays.
pub record Selected (count : ℤ) (e : Bytes) (h : ℤ) (vs : List Bytes) : Type 0 where
  pub values :
      map (λ r. r.1) (delete_seqs (select_matches count (matching e (number h vs))) (number h vs))
      ≡ removed count e vs
  pub size :
      length (select_matches count (matching e (number h vs))) + length (removed count e vs)
      ≡ length vs

selected :
    (skip k : ℕ) (e : Bytes) (h : ℤ) (vs : List Bytes) (count : ℤ)
    → select_matches count (matching e (number h vs))
      ≡ take k (drop skip (matching e (number h vs)))
    → removed count e vs ≡ remove_some skip k e vs
    → Selected count e h vs
selected skip k e h vs count s r = record {
  values = rw (s, r) (delete_seqs-values skip k e h vs);
  size =
      rw (s, r)
        (omega (
          arith,
          length-take k (drop skip (matching e (number h vs))),
          length-drop skip (matching e (number h vs)),
          length-matching e h vs,
          length-remove_some skip k e vs,
        ));
}

pub select_matches-Selected :
    (count : ℤ) (e : Bytes) (h : ℤ) (vs : List Bytes) → Selected count e h vs
unfolding select_matches removed
select_matches-Selected (pos zero) e h vs =
    selected 0 (times e vs) e h vs (pos zero)
      (sym (take_all (times e vs) _ (omega (arith, length-matching e h vs)))) refl
select_matches-Selected (pos (suc n)) e h vs = selected 0 (suc n) e h vs (pos (suc n)) refl refl
select_matches-Selected (negsuc n) e h vs =
    let ms = matching e (number h vs) in
    selected (times e vs - suc n) (times e vs) e h vs (negsuc n)
      (ap (λ c. drop (c - suc n) ms) (length-matching e h vs)
        ∙ sym (
            take_all (times e vs) _
              (omega (arith, length-drop (times e vs - suc n) ms, length-matching e h vs))))
      refl
