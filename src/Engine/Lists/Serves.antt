-- ===== src/Engine/Lists/Serves.antt =====
-- src/engine/engine.js with src/blocking/manager.js: the client that LPUSH and RPUSH serve.
use resplite.Base.{
  ℕ, ◌<◌, ◌≡◌, refl, ◌∙◌, ap, none, some, List, [], ◌∷◌, ◌++◌, Bytes, bytes_eq, arith, length,
  get_elem?, length-append, length-reverse, take,
}
use mathlib.Core.Path.{subst}
use mathlib.Core.List.{reverse}
use resplite.Base.Int.{ℤ, pos}
use resplite.Storage.{Result, ok, ◌>>=◌}
use resplite.Storage.Keys
use resplite.Storage.Lists.Removes.{Popped, one, value_or_null}
use resplite.Storage.Lists.Removes.Ends.{pop_left, pop_right}
use resplite.Blocking.{Kind, blpop, brpop, Manager, Limits, Waiter, element, complete, refs_of}
use resplite.Blocking.Wakeups.{satisfy, try_keys, wakeup}
use resplite.Blocking.Waits.{IsValid}
use resplite.Blocking.Wakes.{First, first-First, wakeup_first, try_keys_first}
use resplite.Engine.Strings.{State}
use resplite.Engine.Lists.{lpop, rpop}
use resplite.Engine.Lists.Served.{first_popped, pop_for, Served, wake, lpush, rpush}
use resplite.Engine.Lists.Listed.{Listed, seen}
use resplite.Engine.Lists.Reads.{Answers}
use resplite.Engine.Lists.Writes.{lpop-Answers, rpop-Answers}
use resplite.Engine.Lists.Pushes.{Kept, lpush-Kept, rpush-Kept}

-- A pop at the end that the kind of a blocked client names.
unfoldable pub pop_end : Kind → List Bytes → Popped × List Bytes
unfolding pop_left pop_right
pop_end blpop vs = pop_left none vs
pop_end brpop vs = pop_right none vs

last_there : (v : Bytes) (vs : List Bytes) → (x : Bytes) × (get_elem? (v ∷ vs) (length vs) ≡ some x)
last_there v [] = (v, refl)
last_there v (w ∷ ws) = last_there w ws

-- From a list that is not empty a pop takes one value.
pop_end-one :
    (kind : Kind) (vs : List Bytes)
    → 0 < length vs
    → (x : Bytes) × (rest : List Bytes) × (pop_end kind vs ≡ (one x, rest))
unfolding pop_end pop_left pop_right value_or_null
pop_end-one kind [] h = absurd (omega arith)
pop_end-one blpop (v ∷ vs) h = (v, vs, refl)
pop_end-one brpop (v ∷ vs) h =
    let (x, e) = last_there v vs in
    (x, take (length vs) (v ∷ vs), ap (λ o. (value_or_null o, take (length vs) (v ∷ vs))) e)

module _ (key : Bytes) (now : ℤ) where
  pop_for-Answers :
      (kind : Kind) (vs : List Bytes) (st : State)
      → Listed key vs st
      → seen now (Keys.get key st.db) vs ≡ vs
      → Answers key (pop_end kind vs).1 (first_popped (pop_end kind vs).0) (pop_for now kind key st)
  unfolding pop_for pop_end
  pop_for-Answers blpop vs st l same =
      let (a, l') =
        subst (λ us. Answers key (pop_left none us).1 (pop_left none us).0 (lpop now key none st))
          same (lpop-Answers key now none vs st l) in
      (ap (λ r. r >>= λ p. ok (first_popped p)) a, l')
  pop_for-Answers brpop vs st l same =
      let (a, l') =
        subst (λ us. Answers key (pop_right none us).1 (pop_right none us).0 (rpop now key none st))
          same (rpop-Answers key now none vs st l) in
      (ap (λ r. r >>= λ p. ok (first_popped p)) a, l')

  -- The client that a push serves: its reply, and what is left.
  pub record Serves (vs : List Bytes) (i : ℕ) (w : Waiter) (m : Manager) (out : Result ℤ × Served)
      : Type 0 where
    pub x : Bytes
    pub rest : List Bytes
    pub taken : pop_end w.kind vs ≡ (one x, rest)
    pub st : State
    pub answer : out ≡ (
      ok (pos (length vs)),
      record { engine = st; manager = some (complete i w (element key x) m) },
    )
    pub listed : Listed key rest st

  Kept-Serves :
      (vs : List Bytes) (sv : Served) (m : Manager) (i : ℕ) (keys : List Bytes) (queue : List ℕ)
      (out : Result ℤ × Served)
      → sv.manager ≡ some m
      → m.deferred ≡ none
      → refs_of key m.by_key ≡ i ∷ queue
      → (f : First m key i queue) → f.w.keys ≡ key ∷ keys
      → 0 < length vs
      → Kept key now vs sv out
      → Serves vs i f.w m out
  unfolding wake first_popped
  Kept-Serves vs sv m i keys queue out managed d e f named some_there k =
      let (x, rest, taken) = pop_end-one f.w.kind vs some_there in
      let (a, l) = pop_for-Answers f.w.kind vs k.st k.listed k.visible in
      let got : (pop_for now f.w.kind key k.st).0 ≡ ok (some x) =
        a ∙ ap (λ p. ok (first_popped p.0)) taken in
      let tried =
        ap (λ ks. try_keys (pop_for now) f.w.kind ks k.st) named
        ∙ try_keys_first (pop_for now) f.w.kind key keys k.st x got in
      let woken =
        wakeup_first (pop_for now) key i queue k.st m d e f
        ∙ ap (λ r. satisfy (pop_for now) i f.w r m) tried in
      record {
        x = x;
        rest = rest;
        taken = taken;
        st = (pop_for now f.w.kind key k.st).1;
        answer = k.answer ∙ ap (λ s. (ok (pos (length vs)), s)) (served k.st woken);
        listed = subst (λ p. Listed key p.1 (pop_for now f.w.kind key k.st).1) taken l;
      }
    where
      both : State × Manager → Served
      both (st, m') = record { engine = st; manager = some m' }

      served :
          (st : State) {r : State × Manager}
          → wakeup (pop_for now) key st m ≡ r
          → wake now key (record sv { engine = st }) ≡ both r
      served st h = ap (λ o. wake now key (record { engine = st; manager = o })) managed ∙ ap both h

  -- Where a well-formed manager wakes at once, and the first in the queue of a key waits for that key
  -- before all others, LPUSH or RPUSH on the key, which holds a list or nothing, returns the length of
  -- the list with the new values; from that list the client gets the value at the end that its
  -- command pops, as its reply, and is done, and the key holds what is left of it.
  pub push-Serves :
      (limits : Limits) (x : Bytes) (xs vs : List Bytes) (sv : Served) (m : Manager) (i : ℕ)
      (queue : List ℕ) (w : Waiter) (keys : List Bytes)
      → Listed key vs sv.engine
      → sv.manager ≡ some m
      → IsValid limits m
      → m.deferred ≡ none
      → refs_of key m.by_key ≡ i ∷ queue
      → get_elem? m.waiters i ≡ some w
      → w.keys ≡ key ∷ keys
      → Serves
          (reverse (x ∷ xs) ++ seen now (Keys.get key sv.engine.db) vs)
          i
          w
          m
          (lpush now key (x ∷ xs) sv)
        × Serves
            (seen now (Keys.get key sv.engine.db) vs ++ x ∷ xs)
            i
            w
            m
            (rpush now key (x ∷ xs) sv)
  push-Serves limits x xs vs sv m i queue w keys l managed v d e there named =
      let f = first-First limits m key i queue v e in
      let us = seen now (Keys.get key sv.engine.db) vs in
      let same : f.w ≡ w = cc (f.there, there) in
      let named' : f.w.keys ≡ key ∷ keys = ap (λ u. u.keys) same ∙ named in
      (
        subst (λ u. Serves (reverse (x ∷ xs) ++ us) i u m (lpush now key (x ∷ xs) sv)) same
            (Kept-Serves (reverse (x ∷ xs) ++ us) sv m i keys queue _ managed d e f named'
              (omega (arith, length-append (reverse (x ∷ xs)) us, length-reverse (x ∷ xs)))
              (lpush-Kept key now x xs vs sv l)),
        subst (λ u. Serves (us ++ x ∷ xs) i u m (rpush now key (x ∷ xs) sv)) same
            (Kept-Serves (us ++ x ∷ xs) sv m i keys queue _ managed d e f named'
              (omega (arith, length-append us (x ∷ xs))) (rpush-Kept key now x xs vs sv l)),
      )
