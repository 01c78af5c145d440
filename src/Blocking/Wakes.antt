-- ===== src/Blocking/Wakes.antt =====
-- src/blocking/manager.js: whom `wakeup` serves, and how far `flushWakeups` goes.
use resplite.Base.{
  ℕ, ◌≡◌, refl, ◌∙◌, sym, ap, false, Option, none, some, List, [], ◌∷◌, Bytes, ◌==◌, bytes_eq,
  nat_eq, arith, inl, inr, Bool-cases, Option-cases, ◌<◌, ◌≤◌, get_elem?, ==_refl,
}
use mathlib.Core.Path.{subst}
use resplite.Base.Counts.{times, Ascending}
use resplite.Base.Maps
use resplite.Storage.{Result, ok}
use resplite.Blocking.{Manager, Waiter, Limits, Kind, element, is_done, refs_of, complete}
use resplite.Blocking.Wakeups.{
  try_next, try_keys, satisfy, try_wake, wake_waiter, wake_head, note_or_wake, wakeup,
}
use resplite.Blocking.Valid.{places, places_done, places_waiting}
use resplite.Blocking.Waits.{IsValid, complete-IsValid, defer-IsValid}

-- Whoever stands first in a queue waits, named the key, and came before all others in it.
pub record First (m : Manager) (key : Bytes) (i : ℕ) (behind : List ℕ) : Type 0 where
  pub w : Waiter
  pub there : get_elem? m.waiters i ≡ some w
  pub live : is_done w ≡ false
  pub named : 0 < times key w.keys
  pub oldest : (j : ℕ) → 0 < places key (get_elem? m.waiters j) → i ≤ j

pub first-First :
    (limits : Limits) (m : Manager) (key : Bytes) (i : ℕ) (behind : List ℕ)
    → IsValid limits m
    → refs_of key m.by_key ≡ i ∷ behind
    → First m key i behind
unfolding places
first-First limits m key i behind v h = elim (Option-cases (get_elem? m.waiters i)) [
  | inl out ↦ absurd (omega (arith, here, empty out))
  | inr (w, there) ↦
      let placed : 0 < places key (some w) = rw there at here in
      record {
        w = w;
        there = there;
        live = waits w placed;
        named = omega (arith, placed, places_waiting w key (waits w placed));
        oldest = λ j p. oldest j p;
      }
]
  where
    here : 0 < places key (get_elem? m.waiters i)
    here = omega (arith, v.placed.queues key i, ap (times i) h, rw (==_refl i) at (ap (times i) h))

    empty : get_elem? m.waiters i ≡ none → places key (get_elem? m.waiters i) ≡ 0
    empty out = rw out refl

    waits : (w : Waiter) → 0 < places key (some w) → is_done w ≡ false
    waits w p = elim (Bool-cases (is_done w)) [
      | inl done ↦ absurd (omega (arith, p, places_done w key done))
      | inr live ↦ live
    ]

    ascending : Ascending (i ∷ behind)
    ascending = subst Ascending h (v.placed.order key)

    oldest : (j : ℕ) → 0 < places key (get_elem? m.waiters j) → i ≤ j
    oldest j p = elim (Bool-cases (i == j)) [
      | inl s ↦ omega (arith, (nat_eq.beq_iff i j).0 s)
      | inr o ↦ ascending.0 j (omega (arith, p, v.placed.queues key j, rw o at (ap (times j) h)))
    ]

module _ {S : Type 0} (pop : Kind → Bytes → S → Result (Option Bytes) × S) where
  -- With no wakeups deferred, and no one in the queue of the key, `wakeup` does nothing.
  pub wakeup_empty :
      (key : Bytes) (s : S) (m : Manager)
      → m.deferred ≡ none
      → refs_of key m.by_key ≡ []
      → wakeup pop key s m ≡ (s, m)
  unfolding wakeup wake_head note_or_wake
  wakeup_empty key s m d e =
      ap (λ o. note_or_wake pop o key s m) d ∙ ap (λ q. wake_head pop q s m) e

  pub try_keys_first :
      (kind : Kind) (key : Bytes) (keys : List Bytes) (s : S) (v : Bytes)
      → (pop kind key s).0 ≡ ok (some v)
      → try_keys pop kind (key ∷ keys) s ≡ (some (key, v), (pop kind key s).1)
  unfolding try_keys try_next
  try_keys_first kind key keys s v e =
      ap (λ r. try_next pop key r (pop kind key s).1 (try_keys pop kind keys)) e

  wake_live :
      (i : ℕ) (w : Waiter) (s : S) (m : Manager)
      → is_done w ≡ false
      → wake_waiter pop i (some w) s m ≡ satisfy pop i w (try_keys pop w.kind w.keys s) m
  unfolding wake_waiter try_wake
  wake_live i w s m live = simp live refl

  pub wakeup_first :
      (key : Bytes) (i : ℕ) (behind : List ℕ) (s : S) (m : Manager)
      → m.deferred ≡ none
      → refs_of key m.by_key ≡ i ∷ behind
      → (f : First m key i behind)
      → wakeup pop key s m ≡ satisfy pop i f.w (try_keys pop f.w.kind f.w.keys s) m
  unfolding wakeup wake_head note_or_wake
  wakeup_first key i behind s m d e f =
      ap (λ o. note_or_wake pop o key s m) d
      ∙ ap (λ q. wake_head pop q s m) e
      ∙ ap (λ o. wake_waiter pop i o s m) f.there
      ∙ wake_live i f.w s m f.live

  -- What `wakeup` comes to.
  pub data WakeCases (key : Bytes) (s : S) (m : Manager) : S × Manager → Type 0 where
    noted :
        (keys : List (Bytes × Unit {0}))
        → m.deferred ≡ some keys
        → WakeCases key s m (s, record m { deferred = some (Maps.set key tt keys) })
    nobody : m.deferred ≡ none → refs_of key m.by_key ≡ [] → WakeCases key s m (s, m)
    in_vain :
        (i : ℕ) (behind : List ℕ) (s' : S)
        → m.deferred ≡ none
        → refs_of key m.by_key ≡ i ∷ behind
        → (f : First m key i behind) → try_keys pop f.w.kind f.w.keys s ≡ (none, s')
        → WakeCases key s m (s', m)
    served :
        (i : ℕ) (behind : List ℕ) (k v : Bytes) (s' : S)
        → m.deferred ≡ none
        → refs_of key m.by_key ≡ i ∷ behind
        → (f : First m key i behind) → try_keys pop f.w.kind f.w.keys s ≡ (some (k, v), s')
        → WakeCases key s m (s', complete i f.w (element k v) m)

  module _ (limits : Limits) where
    satisfied :
        (key : Bytes) (i : ℕ) (behind : List ℕ) (s : S) (m : Manager)
        → m.deferred ≡ none
        → refs_of key m.by_key ≡ i ∷ behind
        → (f : First m key i behind) → (r : Option (Bytes × Bytes) × S)
        → try_keys pop f.w.kind f.w.keys s ≡ r
        → WakeCases key s m (satisfy pop i f.w r m)
    satisfied key i behind s m d e f (none, s') h = in_vain i behind s' d e f h
    satisfied key i behind s m d e f (some (k, v), s') h = served i behind k v s' d e f h

    queue_cases :
        (key : Bytes) (q : List ℕ) (s : S) (m : Manager)
        → IsValid limits m
        → m.deferred ≡ none
        → refs_of key m.by_key ≡ q
        → WakeCases key s m (wakeup pop key s m)
    queue_cases key [] s m v d e =
        subst (WakeCases key s m) (sym (wakeup_empty key s m d e)) (nobody d e)
    queue_cases key (i ∷ behind) s m v d e =
        let f = first-First limits m key i behind v e in
        subst (WakeCases key s m) (sym (wakeup_first key i behind s m d e f))
          (satisfied key i behind s m d e f (try_keys pop f.w.kind f.w.keys s) refl)

    pub wakeup-WakeCases :
        (key : Bytes) (s : S) (m : Manager)
        → IsValid limits m
        → WakeCases key s m (wakeup pop key s m)
    unfolding wakeup note_or_wake
    wakeup-WakeCases key s m v = elim (Option-cases m.deferred) [
      | inl d ↦ queue_cases key (refs_of key m.by_key) s m v d refl
      | inr (keys, d) ↦
          subst (WakeCases key s m) (sym (ap (λ o. note_or_wake pop o key s m) d)) (noted keys d)
    ]

    WakeCases-IsValid :
        (key : Bytes) (s : S) (m : Manager) (out : S × Manager)
        → IsValid limits m
        → WakeCases key s m out
        → IsValid limits out.1
    WakeCases-IsValid key s m _ v (noted keys d) = defer-IsValid limits m _ v
    WakeCases-IsValid key s m _ v (nobody d e) = v
    WakeCases-IsValid key s m _ v (in_vain i behind s' d e f h) = v
    WakeCases-IsValid key s m _ v (served i behind k x s' d e f h) =
        complete-IsValid limits m v i f.w f.there f.live (element k x)

    pub wakeup-IsValid :
        (key : Bytes) (s : S) (m : Manager)
        → IsValid limits m
        → IsValid limits (wakeup pop key s m).1
    wakeup-IsValid key s m v = WakeCases-IsValid key s m _ v (wakeup-WakeCases key s m v)
