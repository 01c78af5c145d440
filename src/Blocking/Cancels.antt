-- ===== src/Blocking/Cancels.antt =====
-- src/blocking/manager.js: what `cancel` does to the clients of a connection, and to no others.
use resplite.Base.{
  ℕ, ◌≡◌, refl, ◌∙◌, sym, ap, true, false, Option, none, some, List, [], ◌∷◌, Bytes, if◌then◌else◌,
  ◌==◌, bytes_eq, nat_eq, arith, inl, inr, Bool-cases, Option-cases, ◌<◌, get_elem?, set, ==_refl,
}
use mathlib.Core.Path.{subst}
use resplite.Base.Counts.{times, get_elem?-set}
use resplite.Base.Maps
use resplite.Base.Maps.{get-delete, delete-Distinct}
use resplite.Blocking.{
  Manager, Waiter, Limits, is_done, refs_of, assign, remove_waiter_from_queues, cancel,
  cancel_waiter, cancel_waiters, abandon,
}
use resplite.Blocking.Refs.{refs_of-some, refs_of-none, refs_of-delete}
use resplite.Blocking.Valid.{memberships, memberships_done}
use resplite.Blocking.Waits.{IsValid, abandon-IsValid}

-- The waiter after its connection has gone.
unfoldable pub canceled_of : Bytes → Option Waiter → Option Waiter
canceled_of connection none = none
canceled_of connection (some w) =
    if is_done w
    then some w
    else if w.connection == connection
    then some (record w { canceled = true; timer = false })
    else some w

-- What `cancel` leaves.
pub record Canceled (limits : Limits) (connection : Bytes) (m m' : Manager) : Type 0 where
  pub valid : IsValid limits m'
  pub waiters : (i : ℕ) → get_elem? m'.waiters i ≡ canceled_of connection (get_elem? m.waiters i)
  pub replies : m'.replies ≡ m.replies
  pub gone : refs_of connection m'.by_connection ≡ []

module _ (limits : Limits) (c : Bytes) where
  member_waits :
      (i : ℕ) (m : Manager)
      → 0 < memberships c (get_elem? m.waiters i)
      → (w : Waiter) × (get_elem? m.waiters i ≡ some w)
        × (is_done w ≡ false)
        × (w.connection ≡ c)
        × (memberships c (get_elem? m.waiters i) ≡ 1)
  unfolding memberships
  member_waits i m h = elim (Option-cases (get_elem? m.waiters i)) [
    | inl out ↦ absurd (omega (arith, rw out at h))
    | inr (w, there) ↦
        let h' : 0 < memberships c (some w) = rw there at h in
        (
          w,
          there,
          ground (arith, h'),
          ground (arith, h', bytes_eq.beq_iff w.connection c),
          rw there (ground (arith, h')),
        )
  ]

  -- The waiters of the connection that the loop has still to come to.
  abbrev Left : List ℕ → Manager → Type 0
  Left is m = (j : ℕ) → times j is ≡ memberships c (get_elem? m.waiters j)

  canceled_of-done : (w : Waiter) → is_done w ≡ true → canceled_of c (some w) ≡ some w
  unfolding canceled_of
  canceled_of-done w h = rw h refl

  canceled_of-mine :
      (w : Waiter)
      → is_done w ≡ false
      → w.connection ≡ c
      → canceled_of c (some w) ≡ some (record w { canceled = true; timer = false })
  unfolding canceled_of
  canceled_of-mine w l e =
      let mine : (w.connection == c) ≡ true = (bytes_eq.beq_iff w.connection c).1 e in
      simp (l, mine) refl

  cancel_waiter-abandon :
      (i : ℕ) (o : Option Waiter) (w : Waiter) (m : Manager)
      → o ≡ some w
      → is_done w ≡ false
      → cancel_waiter i o m ≡ abandon i w m
  unfolding cancel_waiter
  cancel_waiter-abandon i o w m there live =
      let unanswered : w.completed ≡ false = ground (arith, live) in
      rw (there, cancel_waiter) (ap (λ b. if b then m else abandon i w m) unanswered)

  record Loop (m m' : Manager) : Type 0 where
    valid : IsValid limits m'
    waiters :
        (i : ℕ) → canceled_of c (get_elem? m'.waiters i) ≡ canceled_of c (get_elem? m.waiters i)
    replies : m'.replies ≡ m.replies
    nobody : (i : ℕ) → memberships c (get_elem? m'.waiters i) ≡ 0

  abandoned :
      (i : ℕ) (is : List ℕ) (m : Manager) (w : Waiter)
      → Left (i ∷ is) m
      → get_elem? m.waiters i ≡ some w
      → is_done w ≡ false
      → w.connection ≡ c
      → memberships c (get_elem? m.waiters i) ≡ 1
      → Left is (abandon i w m)
        × ((j : ℕ)
            → canceled_of c (get_elem? (abandon i w m).waiters j)
              ≡ canceled_of c (get_elem? m.waiters j))
  unfolding abandon assign remove_waiter_from_queues canceled_of
  abandoned i is m w left there live mine once = (λ j. left' j, λ j. same j)
    where
      w' : Waiter
      w' = record w { canceled = true; timer = false }

      at :
          (j : ℕ)
          → get_elem? (set m.waiters i w') j ≡ (if i == j then some w' else get_elem? m.waiters j)
      at j = get_elem?-set m.waiters i j w w' there

      left' : (j : ℕ) → times j is ≡ memberships c (get_elem? (set m.waiters i w') j)
      left' j = rw (at j) (elim (Bool-cases (i == j)) [
        | inl s ↦
            let e : i ≡ j = (nat_eq.beq_iff i j).0 s in
            let h : times j (i ∷ is) ≡ 1 = left j ∙ (rw (← e) once) in
            rw s (omega (arith, rw s at h, memberships_done w' c (ground arith)))
        | inr o ↦ rw o (rw o at (left j))
      ])

      same :
          (j : ℕ)
          → canceled_of c (get_elem? (set m.waiters i w') j) ≡ canceled_of c (get_elem? m.waiters j)
      same j = rw (at j) (elim (Bool-cases (i == j)) [
        | inl s ↦
            let e : i ≡ j = (nat_eq.beq_iff i j).0 s in
            rw s (
              rw (← e, there)
                (canceled_of-done w' (ground arith) ∙ sym (canceled_of-mine w live mine)))
        | inr o ↦ rw o refl
      ])

  cancel_waiters-Loop :
      (is : List ℕ) (m : Manager) → IsValid limits m → Left is m → Loop m (cancel_waiters is m)
  unfolding cancel_waiters cancel_waiter abandon remove_waiter_from_queues assign
  cancel_waiters-Loop [] m v left = record {
    valid = v;
    waiters = λ i. refl;
    replies = refl;
    nobody = λ i. sym (left i);
  }
  cancel_waiters-Loop (i ∷ is) m v left =
      let some_left : 0 < memberships c (get_elem? m.waiters i) =
        omega (arith, left i, rw (==_refl i) at (left i)) in
      let (w, there, live, mine, once) = member_waits i m some_left in
      let (left', same) = abandoned i is m w left there live mine once in
      let rest =
        cancel_waiters-Loop is (abandon i w m) (abandon-IsValid limits m v i w there live) left' in
      subst (λ m'. Loop m (cancel_waiters is m'))
        (sym (cancel_waiter-abandon i (get_elem? m.waiters i) w m there live))
        (record {
          valid = rest.valid;
          waiters = λ j. rest.waiters j ∙ same j;
          replies = rest.replies;
          nobody = rest.nobody;
        })

  canceled_of-idle : (o : Option Waiter) → memberships c o ≡ 0 → canceled_of c o ≡ o
  unfolding canceled_of memberships
  canceled_of-idle none h = refl
  canceled_of-idle (some w) h = ground (arith, h)

  -- `cancel` ends the wait of every client of the connection, and of no other, with no reply; the
  -- manager stays well formed, and nothing is left under the connection.
  pub cancel-Canceled : (m : Manager) → IsValid limits m → Canceled limits c m (cancel c m)
  unfolding cancel
  cancel-Canceled m v = elim (Option-cases (Maps.get c m.by_connection)) [
    | inl absent ↦
        rw (absent, cancel)
          (record {
            valid = v;
            waiters = λ i. sym (
                canceled_of-idle _
                  (sym (v.placed.sets c i) ∙ (rw (refs_of-none c m.by_connection absent) refl)));
            replies = refl;
            gone = refs_of-none c m.by_connection absent;
          })
    | inr (refs, there) ↦
        let e : refs_of c m.by_connection ≡ refs = refs_of-some c m.by_connection refs there in
        let l = cancel_waiters-Loop refs m v (λ j. ap (times j) (sym e) ∙ v.placed.sets c j) in
        rw (there, cancel) (swept (cancel_waiters refs m) l)
  ]
    where
      swept :
          (m' : Manager)
          → Loop m m'
          → Canceled limits c m (record m' { by_connection = Maps.delete c m'.by_connection })
      swept m' l = record {
        valid = record {
          placed = record {
            queues = l.valid.placed.queues;
            sets = λ d i. ap (λ rs. times i rs) (left d) ∙ elim (Bool-cases (c == d)) [
              | inl s ↦
                  let same : c ≡ d = (bytes_eq.beq_iff c d).0 s in
                  rw s (rw (← same) (sym (l.nobody i)))
              | inr o ↦ rw o (l.valid.placed.sets d i)
            ];
            total = l.valid.placed.total;
            order = l.valid.placed.order;
            keys = l.valid.placed.keys;
            connections = delete-Distinct c m'.by_connection l.valid.placed.connections;
          };
          replied = l.valid.replied;
          either = l.valid.either;
          within = l.valid.within;
        };
        waiters = λ i. sym (canceled_of-idle _ (l.nobody i)) ∙ l.waiters i;
        replies = l.replies;
        gone = left c ∙ (rw (==_refl c) refl);
      }
        where
          left :
              (d : Bytes)
              → refs_of d (Maps.delete c m'.by_connection)
                ≡ (if c == d then [] else refs_of d m'.by_connection)
          left d = refs_of-delete c d m'.by_connection l.valid.placed.connections
