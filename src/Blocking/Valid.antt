-- ===== src/Blocking/Valid.antt =====
-- src/blocking/manager.js: what is true of the queues, the sets and the count of waiters, and what a
-- new waiter and one that goes leave of it.
use resplite.Base.{
  ℕ, zero, suc, ◌+◌, ◌≡◌, refl, ◌∙◌, ap, Bool, true, false, not, Option, none, some, List, [], ◌∷◌,
  ◌++◌, Bytes, if◌then◌else◌, ◌==◌, bytes_eq, nat_eq, arith, inl, inr, Bool-cases, Option-cases,
  ◌<◌, ◌≤◌, length, get_elem?, set,
}
use resplite.Base.Int.{ℤ, pos, ◌+ℤ◌, ◌-ℤ◌, pos_part, neg_part, int_laws}
use resplite.Base.Counts.{times, Ascending, get_elem?-set, get_elem?-append, get_elem?_within}
use resplite.Base.Maps.{Distinct}
use resplite.Blocking.{
  Manager, Waiter, is_done, refs_of, remove_waiter_from_queues, assign, add_waiter,
}
use resplite.Blocking.Refs.{
  drop_ref-Distinct, times-drop_ref, drop_refs-Distinct, drop_refs-Ascending, times-drop_refs,
  push_refs-Distinct, push_refs-Ascending, times-push_refs, times-add_ref, add_ref-Distinct,
}

-- Does the client still wait?
unfoldable pub is_waiting : Option Waiter → Bool
is_waiting none = false
is_waiting (some w) = not (is_done w)

-- How often a waiter stands in the queue of a key, and in the set of a connection.
unfoldable pub places : Bytes → Option Waiter → ℕ
places key none = 0
places key (some w) = if is_done w then 0 else times key w.keys

unfoldable pub memberships : Bytes → Option Waiter → ℕ
memberships connection none = 0
memberships connection (some w) = if is_done w then 0 else times connection (w.connection ∷ [])

unfoldable pub waiting : List Waiter → ℕ
waiting [] = 0
waiting (w ∷ ws) = let n = waiting ws in if is_done w then n else suc n

-- The clients that wait, and no others, stand in the queue of each key that they name, the oldest
-- first, and in the set of their connection; `totalWaiters` is their number.
pub record Placed (m : Manager) : Type 0 where
  pub queues :
      (key : Bytes) (i : ℕ) → times i (refs_of key m.by_key) ≡ places key (get_elem? m.waiters i)
  pub sets :
      (connection : Bytes) (i : ℕ)
      → times i (refs_of connection m.by_connection)
        ≡ memberships connection (get_elem? m.waiters i)
  pub total : m.total ≡ pos (waiting m.waiters)
  pub order : (key : Bytes) → Ascending (refs_of key m.by_key)
  pub keys : Distinct m.by_key
  pub connections : Distinct m.by_connection

pub waiting-set :
    (ws : List Waiter) (i : ℕ) (w w' : Waiter)
    → get_elem? ws i ≡ some w
    → is_done w ≡ false
    → is_done w' ≡ true
    → waiting (set ws i w') + 1 ≡ waiting ws
unfolding waiting
waiting-set [] i w w' h live dead = absurd (cc)
waiting-set (v ∷ ws) zero w w' h live dead = let e : v ≡ w = cc in rw (dead, e, live) (omega arith)
waiting-set (v ∷ ws) (suc i) w w' h live dead = ground (arith, waiting-set ws i w w' h live dead)

pub waiting-append :
    (ws : List Waiter) (w : Waiter) → is_done w ≡ false → waiting (ws ++ w ∷ []) ≡ waiting ws + 1
unfolding waiting
waiting-append [] w h = rw h (omega arith)
waiting-append (v ∷ ws) w h = ground (arith, waiting-append ws w h)

pub one_less : (t : ℤ) (n k : ℕ) → t ≡ pos k → n + 1 ≡ k → t -ℤ pos 1 ≡ pos n
one_less t n k h e = omega (int_laws, ap pos_part h, ap neg_part h, e)

pub one_more : (t : ℤ) (n k : ℕ) → t ≡ pos k → n ≡ k + 1 → t +ℤ pos 1 ≡ pos n
one_more t n k h e = omega (int_laws, ap pos_part h, ap neg_part h, e)

-- What a waiter counts for.
module _ (w : Waiter) where
  pub places_waiting : (key : Bytes) → is_done w ≡ false → places key (some w) ≡ times key w.keys
  unfolding places
  places_waiting key h = rw h refl

  pub places_done : (key : Bytes) → is_done w ≡ true → places key (some w) ≡ 0
  unfolding places
  places_done key h = rw h refl

  pub memberships_waiting :
      (c : Bytes) → is_done w ≡ false → memberships c (some w) ≡ times c (w.connection ∷ [])
  unfolding memberships
  memberships_waiting c h = rw h refl

  pub memberships_done : (c : Bytes) → is_done w ≡ true → memberships c (some w) ≡ 0
  unfolding memberships
  memberships_done c h = rw h refl

-- A client whose wait is over leaves the queues, the set and the count, and the others stay.
pub retire-Placed :
    (i : ℕ) (w w' : Waiter) (m : Manager)
    → Placed m
    → get_elem? m.waiters i ≡ some w
    → is_done w ≡ false
    → is_done w' ≡ true
    → w'.keys ≡ w.keys
    → w'.connection ≡ w.connection
    → Placed (remove_waiter_from_queues i w' (assign i w' m))
unfolding remove_waiter_from_queues assign
retire-Placed i w w' m p there live dead same_keys same_connection = record {
  queues = λ key j.
      times-drop_refs i j w'.keys key m.by_key p.keys
      ∙ (rw (at j) (elim (Bool-cases (i == j)) [
        | inl s ↦
            let e : i ≡ j = (nat_eq.beq_iff i j).0 s in
            let before : times j (refs_of key m.by_key) ≡ times key w.keys =
              p.queues key j ∙ (rw (← e, there) (places_waiting w key live)) in
            rw s (omega (arith, before, ap (times key) same_keys, places_done w' key dead))
        | inr o ↦ rw o (omega (arith, p.queues key j))
      ]));
  sets = λ c j.
      times-drop_ref i j w'.connection c m.by_connection p.connections
      ∙ (rw (at j) (elim (Bool-cases (i == j)) [
        | inl s ↦
            let e : i ≡ j = (nat_eq.beq_iff i j).0 s in
            let before : times j (refs_of c m.by_connection) ≡ times c (w.connection ∷ []) =
              p.sets c j ∙ (rw (← e, there) (memberships_waiting w c live)) in
            let same : times c (w'.connection ∷ []) ≡ times c (w.connection ∷ []) =
              ap (λ d. times c (d ∷ [])) same_connection in
            rw s (omega (arith, before, same, memberships_done w' c dead))
        | inr o ↦ rw o (omega (arith, p.sets c j))
      ]));
  total =
      one_less m.total (waiting (set m.waiters i w')) (waiting m.waiters) p.total
        (waiting-set m.waiters i w w' there live dead);
  order = drop_refs-Ascending i w'.keys m.by_key p.keys p.order;
  keys = drop_refs-Distinct i w'.keys m.by_key p.keys;
  connections = drop_ref-Distinct i w'.connection m.by_connection p.connections;
}
  where
    at :
        (j : ℕ)
        → get_elem? (set m.waiters i w') j ≡ (if i == j then some w' else get_elem? m.waiters j)
    at j = get_elem?-set m.waiters i j w w' there

pub new_index : (ws : List Waiter) → get_elem? ws (length ws) ≡ none
new_index [] = refl
new_index (w ∷ ws) = new_index ws

places-within :
    (key : Bytes) (ws : List Waiter) (i : ℕ) → 0 < places key (get_elem? ws i) → i ≤ length ws
unfolding places
places-within key ws i h = elim (Option-cases (get_elem? ws i)) [
  | inl out ↦ absurd (omega (arith, rw out at h))
  | inr (w, there) ↦ omega (arith, get_elem?_within ws i w there)
]

-- A new client stands last in the queue of each of its keys.
pub add_waiter-Placed :
    (w : Waiter) (m : Manager) → Placed m → is_done w ≡ false → Placed (add_waiter w m)
unfolding add_waiter places memberships
add_waiter-Placed w m p live = record {
  queues = λ key j.
      times-push_refs (length m.waiters) j w.keys key m.by_key
      ∙ (rw (get_elem?-append m.waiters j w) (elim (Bool-cases (length m.waiters == j)) [
        | inl s ↦
            let e : length m.waiters ≡ j = (nat_eq.beq_iff (length m.waiters) j).0 s in
            let before : times j (refs_of key m.by_key) ≡ 0 =
              p.queues key j ∙ (rw (← e, new_index m.waiters) refl) in
            rw s (omega (arith, before, places_waiting w key live))
        | inr o ↦ rw o (omega (arith, p.queues key j))
      ]));
  sets = λ c j.
      times-add_ref (length m.waiters) j w.connection c m.by_connection absent
      ∙ (rw (get_elem?-append m.waiters j w) (elim (Bool-cases (length m.waiters == j)) [
        | inl s ↦
            let e : length m.waiters ≡ j = (nat_eq.beq_iff (length m.waiters) j).0 s in
            let before : times j (refs_of c m.by_connection) ≡ 0 =
              p.sets c j ∙ (rw (← e, new_index m.waiters) refl) in
            rw s (omega (arith, before, memberships_waiting w c live))
        | inr o ↦ rw o (omega (arith, p.sets c j))
      ]));
  total =
      one_more m.total (waiting (m.waiters ++ w ∷ [])) (waiting m.waiters) p.total
        (waiting-append m.waiters w live);
  order =
      push_refs-Ascending (length m.waiters) w.keys m.by_key
        (λ c b h. places-within c m.waiters b (rw (p.queues c b) at h)) p.order;
  keys = push_refs-Distinct (length m.waiters) w.keys m.by_key p.keys;
  connections = add_ref-Distinct (length m.waiters) w.connection m.by_connection p.connections;
}
  where
    absent : times (length m.waiters) (refs_of w.connection m.by_connection) ≡ 0
    absent = p.sets w.connection (length m.waiters) ∙ (rw new_index refl)
