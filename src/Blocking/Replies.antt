-- ===== src/Blocking/Replies.antt =====
-- src/blocking/manager.js: whom `wakeup` replies to, with which element, and what becomes of the others.
use resplite.Base.{
  ℕ, ◌≡◌, refl, true, Option, none, some, List, [], ◌∷◌, Bytes, if◌then◌else◌, ◌==◌, bytes_eq,
  nat_eq, get_elem?,
}
use mathlib.Core.Path.{subst}
use resplite.Base.Counts.{get_elem?-set}
use resplite.Base.Maps
use resplite.Storage.{Error, Result, ok, err}
use resplite.Blocking.{
  Manager, Waiter, Limits, Kind, element, refs_of, complete, resolve, remove_waiter_from_queues,
  assign,
}
use resplite.Blocking.Wakeups.{try_next, try_keys, wakeup}
use resplite.Blocking.Waits.{IsValid, complete-IsValid}
use resplite.Blocking.Wakes.{First, WakeCases, noted, nobody, in_vain, served, wakeup-WakeCases}

-- The manager once the waiter `i` has got an element: it is done, its reply has been sent, every other
-- waiter is as it was, and as the manager is well formed, `i` is in no queue and the others stand in theirs.
pub record Replied (limits : Limits) (i : ℕ) (w : Waiter) (k v : Bytes) (m m' : Manager)
    : Type 0 where
  pub waiters :
      (j : ℕ)
      → get_elem? m'.waiters j
        ≡ (if i == j then some (record w { completed = true }) else get_elem? m.waiters j)
  pub replies : m'.replies ≡ (i, element k v) ∷ m.replies
  pub deferred : m'.deferred ≡ m.deferred
  pub valid : IsValid limits m'

complete-Replied :
    (limits : Limits) (m : Manager) (key : Bytes) (i : ℕ) (behind : List ℕ)
    (f : First m key i behind) (k v : Bytes)
    → IsValid limits m
    → Replied limits i f.w k v m (complete i f.w (element k v) m)
unfolding complete resolve remove_waiter_from_queues assign
complete-Replied limits m key i behind f k v valid = record {
  waiters = λ j. get_elem?-set m.waiters i j f.w (record f.w { completed = true }) f.there;
  replies = refl;
  deferred = refl;
  valid = complete-IsValid limits m valid i f.w f.there f.live (element k v);
}

module _ {S : Type 0} (pop : Kind → Bytes → S → Result (Option Bytes) × S) where
  -- The keys in order: a pop that gives null or throws is passed over, and the first element ends it.
  pub data Scan (kind : Kind) : List Bytes → S → Option (Bytes × Bytes) → S → Type 0 where
    over : (s : S) → Scan kind [] s none s
    gives :
        (key v : Bytes) (keys : List Bytes) (s s' : S)
        → pop kind key s ≡ (ok (some v), s')
        → Scan kind (key ∷ keys) s (some (key, v)) s'
    empty :
        (key : Bytes) (keys : List Bytes) (s s' s'' : S) (found : Option (Bytes × Bytes))
        → pop kind key s ≡ (ok none, s')
        → Scan kind keys s' found s''
        → Scan kind (key ∷ keys) s found s''
    throws :
        (key : Bytes) (e : Error) (keys : List Bytes) (s s' s'' : S)
        (found : Option (Bytes × Bytes))
        → pop kind key s ≡ (err e, s')
        → Scan kind keys s' found s''
        → Scan kind (key ∷ keys) s found s''

  next_key-Scan :
      (kind : Kind) (key : Bytes) (keys : List Bytes) (s : S) (r : Result (Option Bytes) × S)
      (rest : S → Option (Bytes × Bytes) × S)
      → pop kind key s ≡ r
      → ((t : S) → Scan kind keys t (rest t).0 (rest t).1)
      → let out = try_next pop key r.0 r.1 rest in Scan kind (key ∷ keys) s out.0 out.1
  unfolding try_next
  next_key-Scan kind key keys s (ok (some v), s') rest h scan = gives key v keys s s' h
  next_key-Scan kind key keys s (ok none, s') rest h scan = empty key keys s s' _ _ h (scan s')
  next_key-Scan kind key keys s (err e, s') rest h scan = throws key e keys s s' _ _ h (scan s')

  try_keys-Scan :
      (kind : Kind) (keys : List Bytes) (s : S)
      → Scan kind keys s (try_keys pop kind keys s).0 (try_keys pop kind keys s).1
  unfolding try_keys
  try_keys-Scan kind [] s = over s
  try_keys-Scan kind (key ∷ keys) s =
      next_key-Scan kind key keys s (pop kind key s) (try_keys pop kind keys) refl
        (λ t. try_keys-Scan kind keys t)

  wake-Scan :
      (kind : Kind) (keys : List Bytes) (s : S) (found : Option (Bytes × Bytes)) (s' : S)
      → try_keys pop kind keys s ≡ (found, s')
      → Scan kind keys s found s'
  wake-Scan kind keys s found s' h =
      subst (λ r. Scan kind keys s r.0 r.1) h (try_keys-Scan kind keys s)

  module _ (limits : Limits) where
    -- What `wakeup` comes to.
    pub data Woken (key : Bytes) (s : S) (m : Manager) : S × Manager → Type 0 where
      defers :
          (keys : List (Bytes × Unit {0}))
          → m.deferred ≡ some keys
          → Woken key s m (s, record m { deferred = some (Maps.set key tt keys) })
      no_client : m.deferred ≡ none → refs_of key m.by_key ≡ [] → Woken key s m (s, m)
      gives_nothing :
          (i : ℕ) (behind : List ℕ) (s' : S)
          → m.deferred ≡ none
          → refs_of key m.by_key ≡ i ∷ behind
          → (f : First m key i behind) → Scan f.w.kind f.w.keys s none s'
          → Woken key s m (s', m)
      replies :
          (i : ℕ) (behind : List ℕ) (k v : Bytes) (s' : S) (m' : Manager)
          → m.deferred ≡ none
          → refs_of key m.by_key ≡ i ∷ behind
          → (f : First m key i behind) → Scan f.w.kind f.w.keys s (some (k, v)) s'
          → Replied limits i f.w k v m m'
          → Woken key s m (s', m')

    WakeCases-Woken :
        (key : Bytes) (s : S) (m : Manager) (out : S × Manager)
        → IsValid limits m
        → WakeCases pop key s m out
        → Woken key s m out
    WakeCases-Woken key s m _ valid (noted keys d) = defers keys d
    WakeCases-Woken key s m _ valid (nobody d e) = no_client d e
    WakeCases-Woken key s m _ valid (in_vain i behind s' d e f h) =
        gives_nothing i behind s' d e f (wake-Scan f.w.kind f.w.keys s none s' h)
    WakeCases-Woken key s m _ valid (served i behind k v s' d e f h) =
        replies i behind k v s' _ d e f (wake-Scan f.w.kind f.w.keys s (some (k, v)) s' h)
          (complete-Replied limits m key i behind f k v valid)

    -- In a well-formed manager `wakeup` notes the key if wakeups are deferred. Else it goes to the
    -- first of the key's queue, who waits and has waited longest of all that named the key, and pops from
    -- that client's keys in their order, where a key that is empty or whose pop throws is passed over. The
    -- first element is the client's reply; the client is done, every other client is as it was, and the
    -- manager is well formed. If no key gives one, or nobody stands in the queue, the manager is as it was.
    pub wakeup-Woken :
        (key : Bytes) (s : S) (m : Manager) → IsValid limits m → Woken key s m (wakeup pop key s m)
    wakeup-Woken key s m valid =
        WakeCases-Woken key s m (wakeup pop key s m) valid
          (wakeup-WakeCases pop limits key s m valid)
