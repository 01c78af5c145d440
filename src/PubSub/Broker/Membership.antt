-- ===== src/PubSub/Broker/Membership.antt =====
-- src/pubsub/broker.js: the sets that the broker keeps.
use resplite.Base.{
  ◌<◌, ◌≡◌, refl, ◌∙◌, ap, false, not, ◌&&◌, ◌||◌, List, [], ◌∷◌, nat_eq, bytes_eq, length, ◌==◌,
  Eq, arith, inl, inr, Bool-cases,
}
use resplite.Base.Maps
use resplite.Base.Maps.{Distinct, get-set, get-delete}
use resplite.PubSub.Broker.{has, is_there}

module _ {K : Type 0} ⦃e : Eq K⦄ where
  pub has-set :
      (k j : K) (m : List (K × Unit {0})) → has j (Maps.set k tt m) ≡ ((k == j) || has j m)
  unfolding has
  has-set k j m = elim (Bool-cases (k == j)) [
    | inl s ↦ ap is_there (get-set k j tt m) ∙ rw s refl
    | inr d ↦ ap is_there (get-set k j tt m) ∙ rw d refl
  ]

  pub has-delete :
      (k j : K) (m : List (K × Unit {0}))
      → Distinct m
      → has j (Maps.delete k m) ≡ (not (k == j) && has j m)
  unfolding has
  has-delete k j m h = elim (Bool-cases (k == j)) [
    | inl s ↦ ap is_there (get-delete k j m h) ∙ rw s refl
    | inr d ↦ ap is_there (get-delete k j m h) ∙ rw d refl
  ]

  pub length-set : {V : Type 0} (k : K) (v : V) (m : List (K × V)) → 0 < length (Maps.set k v m)
  unfolding Maps.set
  length-set k v [] = omega arith
  length-set k v ((j, w) ∷ m) = elim (Bool-cases (j == k)) [
    | inl s ↦ rw s (omega arith)
    | inr d ↦ rw d (omega arith)
  ]

  pub has_empty : (k : K) (m : List (K × Unit {0})) → length m ≡ 0 → has k m ≡ false
  unfolding has Maps.get
  has_empty k [] h = refl
  has_empty k (x ∷ m) h = absurd (omega arith)
