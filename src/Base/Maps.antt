-- ===== src/Base/Maps.antt =====
-- JavaScript's `Map` and `Set`: entries in insertion order, at most one for each key.
use Prim.Native.Nat.{◌+◌}
use mathlib.Core.Path.{◌≡◌, refl}
use mathlib.Core.Bool.{false}
use mathlib.Core.Logic.{inl, inr}
use mathlib.Core.List.{List, [], ◌∷◌, ◌++◌}
use mathlib.Core.Option.{Option, none, some}
use native.Mathlib.Omega.{arith}
use resplite.Base.Tests.{Eq, ◌==◌, if◌then◌else◌, Bool-cases}
use resplite.Base.Lists.{length}

module _ {ℓ} {K V : Type ℓ} ⦃e : Eq K⦄ where
  -- `map.get(key)`; `none` is `undefined`
  unfoldable pub get : K → List (K × V) → Option V
  get k [] = none
  get k ((j, v) ∷ m) = if j == k then some v else get k m

  -- `map.delete(key)`
  unfoldable pub delete : K → List (K × V) → List (K × V)
  delete k [] = []
  delete k ((j, v) ∷ m) = if j == k then m else (j, v) ∷ delete k m

  -- `map.set(key, value)`: a key that is present keeps its place
  unfoldable pub set : K → V → List (K × V) → List (K × V)
  set k v [] = (k, v) ∷ []
  set k v ((j, w) ∷ m) = if j == k then (j, v) ∷ m else (j, w) ∷ set k v m

  -- No key twice.
  abbrev pub Distinct : List (K × V) → Type ℓ
  Distinct [] = Unit
  Distinct ((k, v) ∷ m) = (get k m ≡ none) × Distinct m

  pub get-delete_ne : (k j : K) (m : List (K × V)) → (k == j) ≡ false → get j (delete k m) ≡ get j m
  unfolding get delete
  get-delete_ne k j [] h = refl
  get-delete_ne k j ((i, w) ∷ m) h =
      ground (arith, get-delete_ne k j m h, e.beq_iff i k, e.beq_iff i j, e.beq_iff k j)

  pub get-delete :
      (k j : K) (m : List (K × V))
      → Distinct m
      → get j (delete k m) ≡ (if k == j then none else get j m)
  unfolding get delete
  get-delete k j [] h = ground arith
  get-delete k j ((i, w) ∷ m) h =
      ground (arith, get-delete k j m h.1, e.beq_iff i k, e.beq_iff i j, e.beq_iff k j, h.0)

  pub get-set :
      (k j : K) (v : V) (m : List (K × V))
      → get j (set k v m) ≡ (if k == j then some v else get j m)
  unfolding get set
  get-set k j v [] = refl
  get-set k j v ((i, w) ∷ m) =
      ground (arith, get-set k j v m, e.beq_iff i k, e.beq_iff i j, e.beq_iff k j)

  pub delete-Distinct : (k : K) (m : List (K × V)) → Distinct m → Distinct (delete k m)
  unfolding get delete
  delete-Distinct k [] h = h
  delete-Distinct k ((i, w) ∷ m) h = elim (Bool-cases (i == k)) [
    | inl s ↦ rw s (h.1)
    | inr d ↦ rw d (
      ground (arith, get-delete_ne k i m, e.beq_iff i k, e.beq_iff k i, h.0),
      delete-Distinct k m h.1,
    )
  ]

  pub set-Distinct : (k : K) (v : V) (m : List (K × V)) → Distinct m → Distinct (set k v m)
  unfolding get set
  set-Distinct k v [] h = (refl, h)
  set-Distinct k v ((i, w) ∷ m) h = elim (Bool-cases (i == k)) [
    | inl s ↦ rw s h
    | inr d ↦
        rw d (
          ground (arith, get-set k i v m, e.beq_iff i k, e.beq_iff k i, h.0),
          set-Distinct k v m h.1,
        )
  ]

  -- A new key goes to the end.
  pub set_absent :
      (k : K) (v : V) (m : List (K × V)) → get k m ≡ none → set k v m ≡ m ++ (k, v) ∷ []
  unfolding get set
  set_absent k v [] h = refl
  set_absent k v ((i, w) ∷ m) h = ground (arith, set_absent k v m)

  pub delete_absent : (k : K) (m : List (K × V)) → get k m ≡ none → delete k m ≡ m
  unfolding get delete
  delete_absent k [] h = refl
  delete_absent k ((i, w) ∷ m) h = ground (arith, delete_absent k m)

  pub length-delete :
      (k : K) (m : List (K × V)) (v : V) → get k m ≡ some v → length (delete k m) + 1 ≡ length m
  unfolding get delete
  length-delete k [] v h = cc
  length-delete k ((i, w) ∷ m) v h = ground (arith, length-delete k m v)

  pub get-append :
      (k : K) (m n : List (K × V))
      → get k (m ++ n) ≡ elim (get k m) [ some v ↦ some v | none ↦ get k n ]
  unfolding get
  get-append k [] n = refl
  get-append k ((i, w) ∷ m) n = ground (arith, get-append k m n)
