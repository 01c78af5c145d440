-- ===== src/Cache/Lru/Uses.antt =====
-- src/cache/lru.js: the order in which the keys of a map were last used, as its entries are moved and dropped.
use resplite.Base.{
  ℕ, suc, ◌<◌, ◌≡◌, refl, false, none, List, [], ◌∷◌, ◌++◌, inl, inr, arith, Bytes, Bool-cases,
  bytes_eq, ◌==◌, ==_refl, if◌then◌else◌, sym,
}
use mathlib.Core.Path.{subst}
use resplite.Base.Maps
use resplite.Cache.Lru.{
  Entry, Entries, Lru, size, over_limit, Call, get_call, set_call, del_call, clear_call,
}
use resplite.Cache.Lru.Bounds.{with_entries, trim}

-- When each key was last read or stored: the number of the call.
abbrev pub Uses : Type 0
Uses = Bytes → ℕ

unfoldable pub touch : Bytes → ℕ → Uses → Uses
touch k n f j = if j == k then n else f j

abbrev pub use_of : Call → ℕ → Uses → Uses
use_of (get_call k) n f = touch k n f
use_of (set_call k ent) n f = touch k n f
use_of (del_call k) n f = f
use_of clear_call n f = f

unfoldable pub uses : List Call → ℕ → Uses → Uses
uses [] n f = f
uses (x ∷ calls) n f = uses calls (suc n) (use_of x n f)

-- Every key was used after `n`, or before it.
unfoldable pub AllAfter : ℕ → Uses → Entries → Type 0
AllAfter n f [] = Unit
AllAfter n f ((k, _) ∷ m) = (n < f k) × AllAfter n f m

unfoldable pub AllBefore : ℕ → Uses → Entries → Type 0
AllBefore n f [] = Unit
AllBefore n f ((k, _) ∷ m) = (f k < n) × AllBefore n f m

-- The entries stand in the order of their last use.
unfoldable pub ByUse : Uses → Entries → Type 0
ByUse f [] = Unit
ByUse f ((k, _) ∷ m) = AllAfter (f k) f m × ByUse f m

pub record Recent (n : ℕ) (f : Uses) (m : Entries) : Type 0 where
  pub order : ByUse f m
  pub before : AllBefore n f m

module _ (f : Uses) where
  AllAfter-delete :
      (n : ℕ) (k : Bytes) (m : Entries) → AllAfter n f m → AllAfter n f (Maps.delete k m)
  unfolding AllAfter Maps.delete
  AllAfter-delete n k [] a = a
  AllAfter-delete n k ((j, e) ∷ m) (l, a) = elim (Bool-cases (j == k)) [
    | inl s ↦ rw s a
    | inr o ↦ rw o (l, AllAfter-delete n k m a)
  ]

  pub delete-Recent :
      (n : ℕ) (k : Bytes) (m : Entries) → Recent n f m → Recent n f (Maps.delete k m)
  unfolding ByUse AllBefore Maps.delete
  delete-Recent n k [] r = r
  delete-Recent n k ((j, e) ∷ m) r = elim (Bool-cases (j == k)) [
    | inl s ↦ rw s (record { order = r.order.1; before = r.before.1 })
    | inr o ↦
        let rest = delete-Recent n k m (record { order = r.order.1; before = r.before.1 }) in
        rw o (record {
          order = (AllAfter-delete (f j) k m r.order.0, rest.order);
          before = (r.before.0, rest.before);
        })
  ]

  pub trim-Recent : (c : Lru) (n size : ℕ) (m : Entries) → Recent n f m → Recent n f (trim c size m)
  unfolding trim ByUse AllBefore
  trim-Recent c n size [] r = r
  trim-Recent c n size (e ∷ m) r = elim (Bool-cases (over_limit size (with_entries c (e ∷ m)))) [
    | inl over ↦
        rw over (trim-Recent c n size m (record { order = r.order.1; before = r.before.1 }))
    | inr fits ↦ rw fits r
  ]

  pub later-Recent : (n : ℕ) (m : Entries) → Recent n f m → Recent (suc n) f m
  unfolding AllBefore
  later-Recent n m r = record { order = r.order; before = later m r.before }
    where
      later : (m : Entries) → AllBefore n f m → AllBefore (suc n) f m
      later [] b = tt
      later ((k, e) ∷ m) b = (omega (arith, b.0), later m b.1)

-- A call that uses the key `k`, which the entries do not have.
module _ (f : Uses) (n : ℕ) (k : Bytes) where
  touch_other : (j : Bytes) → (j == k) ≡ false → touch k n f j ≡ f j
  unfolding touch
  touch_other j o = rw o refl

  touch_self : touch k n f k ≡ n
  unfolding touch
  touch_self = rw (==_refl k) refl

  -- Where the key is not in front, it is behind.
  absent_head :
      (j : Bytes) (e : Entry) (m : Entries)
      → Maps.get k ((j, e) ∷ m) ≡ none
      → ((j == k) ≡ false) × (Maps.get k m ≡ none)
  unfolding Maps.get
  absent_head j e m h = elim (Bool-cases (j == k)) [
    | inl s ↦ absurd (cc (rw s at h))
    | inr o ↦ (o, rw o at h)
  ]

  AllAfter-touch :
      (t : ℕ) (m : Entries) → Maps.get k m ≡ none → AllAfter t f m → AllAfter t (touch k n f) m
  unfolding AllAfter
  AllAfter-touch t [] h a = tt
  AllAfter-touch t ((j, e) ∷ m) h a =
      let (o, rest) = absent_head j e m h in
      (omega (arith, a.0, touch_other j o), AllAfter-touch t m rest a.1)

  touch-Recent : (m : Entries) → Maps.get k m ≡ none → Recent n f m → Recent n (touch k n f) m
  unfolding ByUse AllBefore
  touch-Recent [] h r = record { order = tt; before = tt }
  touch-Recent ((j, e) ∷ m) h r =
      let (o, absent) = absent_head j e m h in
      let rest = touch-Recent m absent (record { order = r.order.1; before = r.before.1 }) in
      let same = touch_other j o in
      record {
        order = (rw same (AllAfter-touch (f j) m absent r.order.0), rest.order);
        before = (omega (arith, r.before.0, same), rest.before);
      }

module _ (f : Uses) where
  AllAfter-append :
      (t : ℕ) (k : Bytes) (e : Entry) (m : Entries)
      → AllAfter t f m
      → t < f k
      → AllAfter t f (m ++ (k, e) ∷ [])
  unfolding AllAfter
  AllAfter-append t k e [] a l = (l, tt)
  AllAfter-append t k e (x ∷ m) a l = (a.0, AllAfter-append t k e m a.1 l)

  append-Recent :
      (k : Bytes) (e : Entry) (m : Entries)
      → Recent (f k) f m
      → Recent (suc (f k)) f (m ++ (k, e) ∷ [])
  unfolding ByUse AllBefore AllAfter
  append-Recent k e [] r = record { order = (tt, tt); before = (omega arith, tt) }
  append-Recent k e ((j, x) ∷ m) r =
      let rest = append-Recent k e m (record { order = r.order.1; before = r.before.1 }) in
      record {
        order = (AllAfter-append (f j) k e m r.order.0 r.before.0, rest.order);
        before = (omega (arith, r.before.0), rest.before);
      }

-- An entry that is used goes behind entries that do not have its key.
pub moved-Recent :
    (f : Uses) (n : ℕ) (k : Bytes) (e : Entry) (m : Entries)
    → Maps.get k m ≡ none
    → Recent n f m
    → Recent (suc n) (touch k n f) (m ++ (k, e) ∷ [])
moved-Recent f n k e m h r =
    let g = touch k n f in
    subst (λ t. Recent (suc t) g (m ++ (k, e) ∷ [])) (touch_self f n k)
      (append-Recent g k e m
        (subst (λ t. Recent t g m) (sym (touch_self f n k)) (touch-Recent f n k m h r)))

pub unused-Recent :
    (f : Uses) (n : ℕ) (k : Bytes) (m : Entries)
    → Maps.get k m ≡ none
    → Recent n f m
    → Recent (suc n) (touch k n f) m
unused-Recent f n k m h r = later-Recent (touch k n f) n m (touch-Recent f n k m h r)

pub delete-ByUse : (f : Uses) (k : Bytes) (m : Entries) → ByUse f m → ByUse f (Maps.delete k m)
unfolding ByUse Maps.delete
delete-ByUse f k [] o = tt
delete-ByUse f k ((j, e) ∷ m) (a, o) = elim (Bool-cases (j == k)) [
  | inl s ↦ rw s o
  | inr other ↦ rw other (AllAfter-delete f (f j) k m a, delete-ByUse f k m o)
]
