-- ===== src/Blocking/Wakeups.antt =====
-- src/blocking/manager.js: `tryWake`, `wakeup` and `flushWakeups`.  `pop` is the engine's `lpop` or `rpop`
-- with no count.
use resplite.Base.{
  ℕ, zero, suc, Option, none, some, List, [], ◌∷◌, map, Bytes, if◌then◌else◌, length, ltb,
  get_elem?, bytes_eq, nat_eq,
}
use resplite.Base.Maps
use resplite.Storage.{Result, ok, err}
use resplite.Blocking.{
  Kind, Waiter, element, Manager, refs_of, remove_waiter_from_queues, is_done, complete,
}

module _ {S : Type 0} (pop : Kind → Bytes → S → Result (Option Bytes) × S) where
  -- The first key has an element, or else what the keys behind it give; what the engine throws
  -- is caught.
  unfoldable pub try_next :
      Bytes
      → Result (Option Bytes)
      → S
      → (S → Option (Bytes × Bytes) × S)
      → Option (Bytes × Bytes) × S
  try_next key (ok (some v)) s rest = (some (key, v), s)
  try_next key (ok none) s rest = rest s
  try_next key (err _) s rest = rest s

  unfoldable pub try_keys : Kind → List Bytes → S → Option (Bytes × Bytes) × S
  unfolding try_next
  try_keys kind [] s = (none, s)
  try_keys kind (key ∷ keys) s =
      let (r, s') = pop kind key s in try_next key r s' (try_keys kind keys)

  abbrev pub satisfy : ℕ → Waiter → Option (Bytes × Bytes) × S → Manager → S × Manager
  satisfy i w (none, s) m = (s, m)
  satisfy i w (some (key, v), s) m = (s, complete i w (element key v) m)

  -- No caller reads its answer.
  unfoldable pub try_wake : ℕ → Waiter → S → Manager → S × Manager
  try_wake i w s m = if is_done w then (s, m) else satisfy i w (try_keys w.kind w.keys s) m

  unfoldable pub wake_waiter : ℕ → Option Waiter → S → Manager → S × Manager
  wake_waiter i none s m = (s, m)
  wake_waiter i (some w) s m =
      if is_done w then (s, remove_waiter_from_queues i w m) else try_wake i w s m

  unfoldable pub wake_head : List ℕ → S → Manager → S × Manager
  wake_head [] s m = (s, m)
  wake_head (i ∷ _) s m = wake_waiter i (get_elem? m.waiters i) s m

  unfoldable pub note_or_wake : Option (List (Bytes × Unit {0})) → Bytes → S → Manager → S × Manager
  note_or_wake (some keys) key s m = (s, record m { deferred = some (Maps.set key tt keys) })
  note_or_wake none key s m = wake_head (refs_of key m.by_key) s m

  unfoldable pub wakeup : Bytes → S → Manager → S × Manager
  unfolding wake_waiter wake_head note_or_wake
  wakeup key s m = note_or_wake m.deferred key s m

  -- The `do` loop of a key, while its queue gets shorter; `none` is a loop that is not over.
  unfoldable pub flush_key : ℕ → Bytes → S → Manager → Option (S × Manager)
  flush_key zero key s m = none
  flush_key (suc n) key s m =
      let (s', m') = wakeup key s m in
      let rest = flush_key n key s' m' in
      if ltb (length (refs_of key m'.by_key)) (length (refs_of key m.by_key))
      then rest
      else some (s', m')

  unfoldable pub flush_keys : List Bytes → S → Manager → Option (S × Manager)
  flush_keys [] s m = some (s, m)
  flush_keys (key ∷ keys) s m = elim (flush_key (suc (length (refs_of key m.by_key))) key s m) [
    | none ↦ none
    | some r ↦ flush_keys keys r.0 r.1
  ]

  -- With no wakeups deferred there is nothing to go through, and the loop throws.
  unfoldable pub flush_wakeups : S → Manager → Option (S × Manager)
  flush_wakeups s m = elim m.deferred [
    | none ↦ none
    | some keys ↦ flush_keys (map (λ k. k.0) keys) s (record m { deferred = none })
  ]
