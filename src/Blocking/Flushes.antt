-- ===== src/Blocking/Flushes.antt =====
-- src/blocking/manager.js: how far `flushWakeups` goes.
use resplite.Base.{
  ℕ, zero, suc, ◌≡◌, refl, ◌∙◌, ap, Option, none, some, List, [], ◌∷◌, map, Bytes, if◌then◌else◌,
  bytes_eq, nat_eq, arith, inl, inr, ◌<◌, ◌≤◌, length, ==_refl, ◌⊎◌, ltb, lt→ltb, ltb_of_le,
}
use resplite.Base.Counts.{times}
use resplite.Storage.{Result}
use resplite.Blocking.{
  Manager, Waiter, Limits, Kind, Reply, element, refs_of, complete, resolve, assign,
  remove_waiter_from_queues,
}
use resplite.Blocking.Wakeups.{try_keys, wakeup, flush_key, flush_keys, flush_wakeups}
use resplite.Blocking.Refs.{length-drop_refs}
use resplite.Blocking.Wakes.{First, WakeCases, noted, nobody, in_vain, served, wakeup-WakeCases}
use resplite.Blocking.Waits.{IsValid, complete-IsValid, defer-IsValid}

module _ {S : Type 0} (pop : Kind → Bytes → S → Result (Option Bytes) × S) where
  module _ (limits : Limits) where
    -- What the `do` loop of a key comes to: it ends, with nobody left in the key's queue or with a first
    -- client whose keys have given nothing.
    pub record Flushed (key : Bytes) (out : Option (S × Manager)) : Type 0 where
      pub s : S
      pub m : Manager
      pub done : out ≡ some (s, m)
      pub valid : IsValid limits m
      pub active : m.deferred ≡ none
      pub left :
          (refs_of key m.by_key ≡ [])
          ⊎ ((i : ℕ) × (behind : List ℕ) × (before : S) × (refs_of key m.by_key ≡ i ∷ behind)
              × (f : First m key i behind) × (try_keys pop f.w.kind f.w.keys before ≡ (none, s)))

    complete-shorter :
        (key : Bytes) (m : Manager) (i : ℕ) (behind : List ℕ) (f : First m key i behind) (r : Reply)
        → IsValid limits m
        → refs_of key m.by_key ≡ i ∷ behind
        → length (refs_of key (complete i f.w r m).by_key) < length (refs_of key m.by_key)
    unfolding complete resolve remove_waiter_from_queues assign
    complete-shorter key m i behind f r v h =
        length-drop_refs i f.w.keys key m.by_key v.placed.keys f.named
          (omega (arith, rw (==_refl i) at (ap (times i) h)))

    pub complete-deferred :
        (i : ℕ) (w : Waiter) (r : Reply) (m : Manager) → (complete i w r m).deferred ≡ m.deferred
    unfolding complete resolve remove_waiter_from_queues assign
    complete-deferred i w r m = refl

    self :
        (m : Manager) (key : Bytes) → length (refs_of key m.by_key) ≤ length (refs_of key m.by_key)
    self m key = omega arith

    flush_one :
        (n : ℕ) (key : Bytes) (s : S) (m : Manager) (out : S × Manager)
        → IsValid limits m
        → m.deferred ≡ none
        → WakeCases pop key s m out
        → (length (refs_of key out.1.by_key) < length (refs_of key m.by_key)
            → IsValid limits out.1
            → out.1.deferred ≡ none
            → Flushed key (flush_key pop n key out.0 out.1))
        → Flushed key (
            if ltb (length (refs_of key out.1.by_key)) (length (refs_of key m.by_key))
            then flush_key pop n key out.0 out.1
            else some out)
    flush_one n key s m _ v d (noted keys h) again = absurd (cc (h, d))
    flush_one n key s m _ v d (nobody _ e) again =
        rw (ltb_of_le _ _ (self m key))
          (record { s = s; m = m; done = refl; valid = v; active = d; left = inl e })
    flush_one n key s m _ v d (in_vain i behind s' _ e f h) again =
        rw (ltb_of_le _ _ (self m key)) (record {
          s = s';
          m = m;
          done = refl;
          valid = v;
          active = d;
          left = inr (i, behind, s, e, f, h);
        })
    flush_one n key s m _ v d (served i behind k x s' _ e f h) again =
        let shorter = complete-shorter key m i behind f (element k x) v e in
        let good = complete-IsValid limits m v i f.w f.there f.live (element k x) in
        rw (lt→ltb _ _ shorter) (again shorter good (complete-deferred i f.w (element k x) m ∙ d))

    pub flush_key-Flushed :
        (n : ℕ) (key : Bytes) (s : S) (m : Manager)
        → length (refs_of key m.by_key) < n
        → IsValid limits m
        → m.deferred ≡ none
        → Flushed key (flush_key pop n key s m)
    unfolding flush_key
    flush_key-Flushed zero key s m h v d = absurd (omega arith)
    flush_key-Flushed (suc n) key s m h v d =
        flush_one n key s m (wakeup pop key s m) v d (wakeup-WakeCases pop limits key s m v)
          (λ shorter v' d'.
            flush_key-Flushed n key (wakeup pop key s m).0 (wakeup pop key s m).1
              (omega (arith, h, shorter)) v' d')

    keys_flushed :
        (keys : List Bytes) (s : S) (m : Manager)
        → IsValid limits m
        → m.deferred ≡ none
        → (out : S × Manager) × (flush_keys pop keys s m ≡ some out)
          × IsValid limits out.1
          × (out.1.deferred ≡ none)
    unfolding flush_keys
    keys_flushed [] s m v d = ((s, m), refl, v, d)
    keys_flushed (key ∷ keys) s m v d =
        let f = flush_key-Flushed (suc (length (refs_of key m.by_key))) key s m (omega arith) v d in
        let (out, e, v', d') = keys_flushed keys f.s f.m f.valid f.active in
        (out, rw (f.done, flush_keys) e, v', d')

    -- Where wakeups are deferred in a well-formed manager, `flushWakeups` comes to an end, and
    -- leaves a well-formed manager with wakeups no longer deferred.
    pub flush_wakeups-returns :
        (keys : List (Bytes × Unit {0})) (s : S) (m : Manager)
        → IsValid limits m
        → m.deferred ≡ some keys
        → (out : S × Manager) × (flush_wakeups pop s m ≡ some out)
          × IsValid limits out.1
          × (out.1.deferred ≡ none)
    unfolding flush_wakeups
    flush_wakeups-returns keys s m v d =
        let (out, e, v', d') =
          keys_flushed (map (λ k. k.0) keys) s (record m { deferred = none })
            (defer-IsValid limits m none v) refl in
        (
          out,
          ap
                (λ o. elim o [
                  | none ↦ none
                  | some ks ↦ flush_keys pop (map (λ k. k.0) ks) s (record m { deferred = none })
                ])
                d
              ∙ e,
          v',
          d',
        )
