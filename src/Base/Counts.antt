-- ===== src/Base/Counts.antt =====
-- How often a value stands in a list, and what takes one away.
use Prim.Native.Nat.{ℕ, zero, suc, ◌+◌, ◌-◌, ◌≤◌, ◌<◌}
use mathlib.Core.Path.{◌≡◌}
use mathlib.Core.Logic.{inl, inr}
use mathlib.Core.List.{List, [], ◌∷◌, ◌++◌}
use mathlib.Core.Option.{some}
use native.Mathlib.Omega.{arith}
use resplite.Base.Tests.{Eq, ◌==◌, if◌then◌else◌, nat_eq, Bool-cases, ==_refl}
use resplite.Base.Lists.{length, get_elem?, set}

module _ {ℓ} {A : Type ℓ} ⦃e : Eq A⦄ where
  abbrev pub times : A → List A → ℕ
  times a [] = 0
  times a (b ∷ bs) = if b == a then suc (times a bs) else times a bs

  -- `findIndex` and `splice`: the first of them goes.
  unfoldable pub remove : A → List A → List A
  remove a [] = []
  remove a (b ∷ bs) = if b == a then bs else b ∷ remove a bs

  pub times-remove :
      (a b : A) (xs : List A)
      → times b (remove a xs) ≡ (if a == b then times b xs - 1 else times b xs)
  unfolding remove
  times-remove a b [] = ground arith
  times-remove a b (x ∷ xs) =
      ground (arith, times-remove a b xs, e.beq_iff x a, e.beq_iff x b, e.beq_iff a b)

  pub times-append : (a : A) (xs ys : List A) → times a (xs ++ ys) ≡ times a xs + times a ys
  times-append a [] ys = omega arith
  times-append a (x ∷ xs) ys = ground (arith, times-append a xs ys)

  pub length-remove : (a : A) (xs : List A) → 0 < times a xs → length (remove a xs) + 1 ≡ length xs
  unfolding remove
  length-remove a [] h = absurd (omega arith)
  length-remove a (x ∷ xs) h = ground (arith, length-remove a xs)

-- Never a smaller number behind a greater one.
abbrev pub Ascending : List ℕ → Type 0
Ascending [] = Unit
Ascending (a ∷ xs) = ((b : ℕ) → 0 < times b xs → a ≤ b) × Ascending xs

pub remove-Ascending : (a : ℕ) (xs : List ℕ) → Ascending xs → Ascending (remove a xs)
unfolding remove
remove-Ascending a [] h = h
remove-Ascending a (x ∷ xs) h = elim (Bool-cases (x == a)) [
  | inl s ↦ rw s (h.1)
  | inr d ↦ rw d (λ b p. h.0 b (ground (arith, times-remove a b xs)), remove-Ascending a xs h.1)
]

pub append-Ascending :
    (xs : List ℕ) (a : ℕ)
    → ((b : ℕ) → 0 < times b xs → b ≤ a)
    → Ascending xs
    → Ascending (xs ++ a ∷ [])
append-Ascending [] a below h = (λ b p. absurd (omega arith), tt)
append-Ascending (x ∷ xs) a below h =
    (λ b p. behind b p, append-Ascending xs a (λ b p. below b (ground (arith, p))) h.1)
  where
    behind : (b : ℕ) → 0 < times b (xs ++ a ∷ []) → x ≤ b
    behind b p = elim (Bool-cases (a == b)) [
      | inl s ↦ ground (arith, below x (ground (arith, ==_refl x)), s)
      | inr d ↦ h.0 b (ground (arith, times-append b xs (a ∷ []), d, p))
    ]

-- An element that is replaced, and one that is new.
module _ {ℓ} {A : Type ℓ} where
  pub get_elem?-set :
      (xs : List A) (i j : ℕ) (a b : A)
      → get_elem? xs i ≡ some a
      → get_elem? (set xs i b) j ≡ (if i == j then some b else get_elem? xs j)
  get_elem?-set [] i j a b h = cc
  get_elem?-set (x ∷ xs) zero zero a b h = ground arith
  get_elem?-set (x ∷ xs) zero (suc j) a b h = ground arith
  get_elem?-set (x ∷ xs) (suc i) zero a b h = ground arith
  get_elem?-set (x ∷ xs) (suc i) (suc j) a b h = ground (arith, get_elem?-set xs i j a b h)

  pub get_elem?-append :
      (xs : List A) (j : ℕ) (a : A)
      → get_elem? (xs ++ a ∷ []) j ≡ (if length xs == j then some a else get_elem? xs j)
  get_elem?-append [] zero a = ground arith
  get_elem?-append [] (suc j) a = ground arith
  get_elem?-append (x ∷ xs) zero a = ground arith
  get_elem?-append (x ∷ xs) (suc j) a = ground (arith, get_elem?-append xs j a)

  pub get_elem?_within : (xs : List A) (j : ℕ) (a : A) → get_elem? xs j ≡ some a → j < length xs
  get_elem?_within [] j a h = cc
  get_elem?_within (x ∷ xs) zero a h = omega arith
  get_elem?_within (x ∷ xs) (suc j) a h = omega (arith, get_elem?_within xs j a h)
