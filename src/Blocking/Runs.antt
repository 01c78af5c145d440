-- ===== src/Blocking/Runs.antt =====
-- src/blocking/manager.js: every manager that a run of its calls leads to.
use resplite.Base.{
  ℕ, ◌≡◌, refl, ◌∙◌, sym, Option, some, List, [], Bytes, arith, bytes_eq, nat_eq, inl, inr,
  Option-cases,
}
use mathlib.Core.Path.{subst}
use resplite.Base.Int.{ℤ}
use resplite.Base.Maps
use resplite.Storage.{Result}
use resplite.Blocking.{
  Manager, Kind, Limits, create_manager, register_waiter, cancel, time_out, defer_wakeups, refs_of,
}
use resplite.Blocking.Wakeups.{wakeup, flush_wakeups}
use resplite.Blocking.Valid.{places, memberships, waiting}
use resplite.Blocking.Waits.{
  IsValid, owed, register_waiter-IsValid, time_out-IsValid, defer-IsValid,
}
use resplite.Blocking.Cancels.{cancel-Canceled}
use resplite.Blocking.Wakes.{wakeup-IsValid}
use resplite.Blocking.Flushes.{flush_wakeups-returns}

module _ {S : Type 0} (pop : Kind → Bytes → S → Result (Option Bytes) × S) (limits : Limits) where
  -- A call of the manager, or anything that the engine does elsewhere.
  pub data Step : S × Manager → S × Manager → Type 0 where
    registered :
        (now : ℤ) (keys : List Bytes) (kind : Kind) (timeout : ℤ) (connection : Bytes) (s : S)
        (m : Manager)
        → Step (s, m) (s, (register_waiter limits now keys kind timeout connection m).1)
    woken : (key : Bytes) (s : S) (m : Manager) → Step (s, m) (wakeup pop key s m)
    canceled : (connection : Bytes) (s : S) (m : Manager) → Step (s, m) (s, cancel connection m)
    timed_out : (i : ℕ) (s : S) (m : Manager) → Step (s, m) (s, time_out i m)
    deferring : (s : S) (m m' : Manager) → defer_wakeups m ≡ some m' → Step (s, m) (s, m')
    flushed :
        (s : S) (m : Manager) (out : S × Manager)
        → flush_wakeups pop s m ≡ some out
        → Step (s, m) out
    elsewhere : (s s' : S) (m : Manager) → Step (s, m) (s', m)

  pub data Reached : S × Manager → Type 0 where
    start : (s : S) → Reached (s, create_manager)
    next : (a b : S × Manager) → Reached a → Step a b → Reached b

  create_manager-IsValid : IsValid limits create_manager
  unfolding refs_of places memberships waiting owed Maps.get
  create_manager-IsValid = record {
    placed = record {
      queues = λ key i. refl;
      sets = λ connection i. refl;
      total = refl;
      order = λ key. tt;
      keys = tt;
      connections = tt;
    };
    replied = λ i. refl;
    either = λ i w h. absurd (cc);
    within = omega arith;
  }

  defer_wakeups-IsValid :
      (m m' : Manager) → IsValid limits m → defer_wakeups m ≡ some m' → IsValid limits m'
  unfolding defer_wakeups
  defer_wakeups-IsValid m m' v e = elim (Option-cases m.deferred) [
    | inr (keys, d) ↦ absurd (cc (rw d at e))
    | inl d ↦
        let same : record m { deferred = some [] } ≡ m' = cc (rw d at e) in
        subst (IsValid limits) same (defer-IsValid limits m (some []) v)
  ]

  flushed-IsValid :
      (s : S) (m : Manager) (out : S × Manager)
      → IsValid limits m
      → flush_wakeups pop s m ≡ some out
      → IsValid limits out.1
  unfolding flush_wakeups
  flushed-IsValid s m out v e = elim (Option-cases m.deferred) [
    | inl d ↦ absurd (cc (rw d at e))
    | inr (keys, d) ↦
        let (out', e', v', d') = flush_wakeups-returns pop limits keys s m v d in
        let same : out' ≡ out = cc (sym e' ∙ e) in subst (λ o. IsValid limits o.1) same v'
  ]

  step-IsValid : (a b : S × Manager) → Step a b → IsValid limits a.1 → IsValid limits b.1
  step-IsValid _ _ (registered now keys kind timeout connection s m) v =
      register_waiter-IsValid limits now keys kind timeout connection m v
  step-IsValid _ _ (woken key s m) v = wakeup-IsValid pop limits key s m v
  step-IsValid _ _ (canceled connection s m) v = (cancel-Canceled limits connection m v).valid
  step-IsValid _ _ (timed_out i s m) v = time_out-IsValid limits i m v
  step-IsValid _ _ (deferring s m m' e) v = defer_wakeups-IsValid m m' v e
  step-IsValid _ _ (flushed s m out e) v = flushed-IsValid s m out v e
  step-IsValid _ _ (elsewhere s s' m) v = v

  -- However the calls of the manager follow each other, and whatever the engine does in between: the
  -- clients that wait, and no others, stand in the queues of the keys that they named, the oldest
  -- first, and in the set of their connection; `totalWaiters` is their number and within its limit;
  -- no client has had more than one reply, and one has had a reply just if its wait is completed.
  pub Reached-IsValid : (a : S × Manager) → Reached a → IsValid limits a.1
  Reached-IsValid _ (start s) = create_manager-IsValid
  Reached-IsValid _ (next a b r step) = step-IsValid a b step (Reached-IsValid a r)
