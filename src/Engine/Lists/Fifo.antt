-- ===== src/Engine/Lists/Fifo.antt =====
-- src/engine/engine.js with src/blocking/manager.js: pushes one after the other, and the order in which
-- the clients of a key are served.
use resplite.Base.{
  ℕ, ◌≤◌, ◌≡◌, refl, ◌∙◌, sym, ap, true, false, Option, none, some, List, [], ◌∷◌, ◌++◌, Bytes,
  bytes_eq, nat_eq, ◌==◌, ==_refl, arith, inl, inr, Bool-cases, length, get_elem?,
}
use mathlib.Core.Path.{subst}
use resplite.Base.Int.{ℤ}
use resplite.Base.Counts.{remove, get_elem?-set}
use resplite.Storage.{KeyMeta}
use resplite.Storage.Keys
use resplite.Storage.Lists.Removes.{one, value_or_null}
use resplite.Storage.Lists.Removes.Ends.{pop_left, pop_right}
use resplite.Blocking.{
  Manager, Waiter, Limits, Kind, blpop, brpop, Reply, element, complete, refs_of, is_done,
  drop_refs, remove_waiter_from_queues, assign, resolve,
}
use resplite.Blocking.Refs.{refs_of-drop_ref}
use resplite.Blocking.Waits.{IsValid, complete-IsValid}
use resplite.Blocking.Wakes.{first-First}
use resplite.Engine.Lists.Served.{Served, rpush}
use resplite.Engine.Lists.Listed.{Listed, seen}
use resplite.Engine.Lists.Serves.{Serves, pop_end, push-Serves}

-- Values that are pushed one by one, each at its time.
abbrev pub push_each : Bytes → List (ℤ × Bytes) → Served → Served
push_each key [] sv = sv
push_each key ((now, x) ∷ xs) sv = push_each key xs (rpush now key (x ∷ []) sv).1

-- The replies when the values go to the clients one to one, in their order.
abbrev pub in_order : Bytes → List (ℤ × Bytes) → List ℕ → List (ℕ × Reply) → List (ℕ × Reply)
in_order key ((now, x) ∷ xs) (i ∷ queue) replies =
    in_order key xs queue ((i, element key x) ∷ replies)
in_order key _ _ replies = replies

-- Clients that wait for this key alone.
abbrev pub AwaitOnly : Bytes → List ℕ → List Waiter → Type 0
AwaitOnly key [] ws = Unit
AwaitOnly key (i ∷ queue) ws =
    ((w : Waiter) × (get_elem? ws i ≡ some w) × (w.keys ≡ key ∷ [])) × AwaitOnly key queue ws

seen_empty : (now : ℤ) (row : Option KeyMeta) → seen now row [] ≡ []
unfolding seen
seen_empty now none = refl
seen_empty now (some row) = ground arith

pop_end-single : (kind : Kind) (x : Bytes) → pop_end kind (x ∷ []) ≡ (one x, [])
unfolding pop_end pop_left pop_right value_or_null
pop_end-single blpop x = refl
pop_end-single brpop x = refl

module _ (key : Bytes) (i : ℕ) (queue : List ℕ) (w : Waiter) (r : Reply) (m : Manager)
    (there : get_elem? m.waiters i ≡ some w) (alone : w.keys ≡ key ∷ []) where
  complete-AwaitOnly :
      (q : List ℕ) → AwaitOnly key q m.waiters → AwaitOnly key q (complete i w r m).waiters
  unfolding complete resolve remove_waiter_from_queues assign
  complete-AwaitOnly [] h = tt
  complete-AwaitOnly (j ∷ q) ((u, here, only), h) = (
    elim (Bool-cases (i == j)) [
      | inl s ↦
          (record w { completed = true }, get_elem?-set m.waiters i j w _ there ∙ rw s refl, alone)
      | inr o ↦ (u, get_elem?-set m.waiters i j w _ there ∙ rw o here, only)
    ],
    complete-AwaitOnly q h,
  )

  complete-queue :
      (limits : Limits)
      → IsValid limits m
      → refs_of key m.by_key ≡ i ∷ queue
      → refs_of key (complete i w r m).by_key ≡ queue
  unfolding complete resolve remove_waiter_from_queues assign drop_refs remove
  complete-queue limits v e =
      ap (λ ks. refs_of key (drop_refs i ks m.by_key)) alone
      ∙ (rw (refs_of-drop_ref i key key m.by_key v.placed.keys, ==_refl key, e, ==_refl i) refl)

  complete-same :
      ((complete i w r m).deferred ≡ m.deferred) × ((complete i w r m).replies ≡ (i, r) ∷ m.replies)
  unfolding complete resolve remove_waiter_from_queues assign
  complete-same = (refl, refl)

-- What the pushes leave.
pub record InOrder (limits : Limits) (key : Bytes) (replies : List (ℕ × Reply)) (sv : Served)
    : Type 0 where
  pub m : Manager
  pub managed : sv.manager ≡ some m
  pub valid : IsValid limits m
  pub replied : m.replies ≡ replies
  pub listed : Listed key [] sv.engine

module _ (limits : Limits) (key : Bytes) where
  -- One push on the empty list serves the first client with what is pushed.
  record ServedOne (x : Bytes) (i : ℕ) (w : Waiter) (m : Manager) (sv : Served) : Type 0 where
    managed : sv.manager ≡ some (complete i w (element key x) m)
    listed : Listed key [] sv.engine

  one_pushed :
      (now : ℤ) (x : Bytes) (sv : Served) (m : Manager) (i : ℕ) (queue : List ℕ) (w : Waiter)
      → Listed key [] sv.engine
      → sv.manager ≡ some m
      → IsValid limits m
      → m.deferred ≡ none
      → refs_of key m.by_key ≡ i ∷ queue
      → get_elem? m.waiters i ≡ some w
      → w.keys ≡ key ∷ []
      → ServedOne x i w m (rpush now key (x ∷ []) sv).1
  one_pushed now x sv m i queue w l managed v d e there alone =
      let (_, s) =
        push-Serves key now limits x [] [] sv m i queue w [] l managed v d e there alone in
      go (
        subst (λ us. Serves key now (us ++ x ∷ []) i w m (rpush now key (x ∷ []) sv))
          (seen_empty now (Keys.get key sv.engine.db)) s)
    where
      go :
          Serves key now (x ∷ []) i w m (rpush now key (x ∷ []) sv)
          → ServedOne x i w m (rpush now key (x ∷ []) sv).1
      go s =
          let is : (one x, []) ≡ (one s.x, s.rest) = sym (pop_end-single w.kind x) ∙ s.taken in
          let same : s.x ≡ x = cc (ap (λ p. p.0) is) in
          let nothing : s.rest ≡ [] = sym (ap (λ p. p.1) is) in
          record {
            managed =
                ap (λ o. o.1.manager) s.answer
                ∙ ap (λ y. some (complete i w (element key y) m)) same;
            listed =
                subst (λ us. Listed key us (rpush now key (x ∷ []) sv).1.engine) nothing
                  (subst (λ st. Listed key s.rest st) (sym (ap (λ o. o.1.engine) s.answer))
                    s.listed);
          }

  -- First come, first served: where a well-formed manager wakes at once, the key holds nothing and
  -- every client in its queue waits for it alone, values pushed by RPUSH one by one, at
  -- any times, at most as many as there are clients, go to the clients one to one, in the order in
  -- which they stand in the queue; nothing is left in the list, and the manager stays well formed.
  pub push_each-InOrder :
      (xs : List (ℤ × Bytes)) (queue : List ℕ) (sv : Served) (m : Manager)
      → length xs ≤ length queue
      → Listed key [] sv.engine
      → sv.manager ≡ some m
      → IsValid limits m
      → m.deferred ≡ none
      → refs_of key m.by_key ≡ queue
      → AwaitOnly key queue m.waiters
      → InOrder limits key (in_order key xs queue m.replies) (push_each key xs sv)
  push_each-InOrder [] queue sv m few l managed v d e h = record {
    m = m;
    managed = managed;
    valid = v;
    replied = refl;
    listed = l;
  }
  push_each-InOrder (x ∷ xs) [] sv m few l managed v d e h = absurd (omega arith)
  push_each-InOrder ((now, x) ∷ xs) (i ∷ queue) sv m few l managed v d e ((w, there, alone), h) =
      let f = first-First limits m key i queue v e in
      let same : f.w ≡ w = cc (f.there, there) in
      let live : is_done w ≡ false = ap (λ u. is_done u) (sym same) ∙ f.live in
      let r = element key x in
      let (active, told) = complete-same key i queue w r m there alone in
      let s = one_pushed now x sv m i queue w l managed v d e there alone in
      let done =
        push_each-InOrder xs queue (rpush now key (x ∷ []) sv).1 (complete i w r m)
          (omega (arith, few)) s.listed s.managed (complete-IsValid limits m v i w there live r)
          (active ∙ d) (complete-queue key i queue w r m there alone limits v e)
          (complete-AwaitOnly key i queue w r m there alone queue h) in
      record {
        m = done.m;
        managed = done.managed;
        valid = done.valid;
        replied = done.replied ∙ ap (in_order key xs queue) told;
        listed = done.listed;
      }
