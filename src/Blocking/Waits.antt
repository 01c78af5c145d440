-- ===== src/Blocking/Waits.antt =====
-- src/blocking/manager.js: each call that registers a waiter or ends a wait keeps the manager well
-- formed.
use resplite.Base.{
  ℕ, ◌≡◌, refl, ◌∙◌, sym, true, false, ◌&&◌, Option, none, some, List, map, Bytes, if◌then◌else◌,
  ◌==◌, bytes_eq, nat_eq, arith, inl, inr, Bool-cases, Option-cases, branches, ◌<◌, ◌≤◌, length,
  get_elem?, set,
}
use mathlib.Core.Path.{subst}
use resplite.Base.Int.{ℤ, pos, leb_ℤ}
use resplite.Base.Counts.{times, get_elem?-set, get_elem?-append}
use resplite.Blocking.{
  Manager, Waiter, Limits, Reply, Kind, timed_out, is_done, complete, resolve, assign,
  remove_waiter_from_queues, add_waiter, register_waiter, refusal, new_waiter, time_out,
  expire_waiter, abandon,
}
use resplite.Blocking.Valid.{
  Placed, waiting, waiting-set, waiting-append, retire-Placed, add_waiter-Placed, new_index,
}

-- How many replies a waiter is to have had.
unfoldable pub owed : Option Waiter → ℕ
owed none = 0
owed (some w) = if w.completed then 1 else 0

-- The waiters stand where they belong, as many as the limit allows; a waiter has had one reply if its
-- wait is completed and none if it is not, and no wait is both completed and canceled.
pub record IsValid (limits : Limits) (m : Manager) : Type 0 where
  pub placed : Placed m
  pub replied : (i : ℕ) → times i (map (λ r. r.0) m.replies) ≡ owed (get_elem? m.waiters i)
  pub either :
      (i : ℕ) (w : Waiter) → get_elem? m.waiters i ≡ some w → (w.completed && w.canceled) ≡ false
  pub within : waiting m.waiters ≤ limits.max_total_waiters

module _ (limits : Limits) (m : Manager) (v : IsValid limits m) (i : ℕ) (w : Waiter)
    (there : get_elem? m.waiters i ≡ some w) where
  either-set :
      (w' : Waiter)
      → (w'.completed && w'.canceled) ≡ false
      → (j : ℕ) (u : Waiter) → get_elem? (set m.waiters i w') j ≡ some u
      → (u.completed && u.canceled) ≡ false
  either-set w' h j u e = elim (Bool-cases (i == j)) [
    | inl s ↦
        let same : w' ≡ u = cc (sym (get_elem?-set m.waiters i j w w' there) ∙ e, s) in
        subst (λ x. (x.completed && x.canceled) ≡ false) same h
    | inr o ↦ v.either j u (rw o at (sym (get_elem?-set m.waiters i j w w' there) ∙ e))
  ]

  module _ (live : is_done w ≡ false) where
    -- A client gets its reply.
    pub complete-IsValid : (r : Reply) → IsValid limits (complete i w r m)
    unfolding complete resolve remove_waiter_from_queues assign owed
    complete-IsValid r =
        let w' : Waiter = record w { completed = true } in
        record {
          placed =
              let p = retire-Placed i w w' m v.placed there live refl refl refl in
              record {
                queues = p.queues;
                sets = p.sets;
                total = p.total;
                order = p.order;
                keys = p.keys;
                connections = p.connections;
              };
          replied = λ j. rw (get_elem?-set m.waiters i j w w' there) (elim (Bool-cases (i == j)) [
            | inl s ↦
                let e : i ≡ j = (nat_eq.beq_iff i j).0 s in
                let before : times j (map (λ r. r.0) m.replies) ≡ 0 =
                  v.replied j ∙ (rw (← e, there) (ground (arith, live))) in
                rw s (omega (arith, before))
            | inr o ↦ rw o (v.replied j)
          ]);
          either = either-set w' (ground (arith, live));
          within = omega (arith, v.within, waiting-set m.waiters i w w' there live refl);
        }

    -- A client goes without a reply.
    pub abandon-IsValid : IsValid limits (abandon i w m)
    unfolding abandon remove_waiter_from_queues assign owed
    abandon-IsValid =
        let w' : Waiter = record w { canceled = true; timer = false } in
        let unanswered : w.completed ≡ false = ground (arith, live) in
        record {
          placed = retire-Placed i w w' m v.placed there live (ground arith) refl refl;
          replied = λ j. rw (get_elem?-set m.waiters i j w w' there) (elim (Bool-cases (i == j)) [
            | inl s ↦
                let e : i ≡ j = (nat_eq.beq_iff i j).0 s in
                rw s (v.replied j ∙ (rw (← e, there) refl))
            | inr o ↦ rw o (v.replied j)
          ]);
          either = either-set w' (ground (arith, unanswered));
          within = omega (arith, v.within, waiting-set m.waiters i w w' there live (ground arith));
        }

-- The other fields do not matter.
pub defer-IsValid :
    (limits : Limits) (m : Manager) (d : Option (List (Bytes × Unit {0})))
    → IsValid limits m
    → IsValid limits (record m { deferred = d })
defer-IsValid limits m d v = record {
  placed = record {
    queues = v.placed.queues;
    sets = v.placed.sets;
    total = v.placed.total;
    order = v.placed.order;
    keys = v.placed.keys;
    connections = v.placed.connections;
  };
  replied = v.replied;
  either = v.either;
  within = v.within;
}

pub time_out-IsValid :
    (limits : Limits) (i : ℕ) (m : Manager) → IsValid limits m → IsValid limits (time_out i m)
unfolding time_out expire_waiter
time_out-IsValid limits i m v = elim (Option-cases (get_elem? m.waiters i)) [
  | inl out ↦ rw (out, expire_waiter) v
  | inr (w, there) ↦
      rw (there, expire_waiter)
        (branches (IsValid limits) w.timer
          (λ on.
            branches (IsValid limits) (is_done w) (λ done. v)
              (λ live. complete-IsValid limits m v i w there live timed_out))
          (λ off. v))
]

refusal-within :
    (limits : Limits) (keys : List Bytes) (m : Manager)
    → refusal limits keys m ≡ none
    → leb_ℤ (pos limits.max_total_waiters) m.total ≡ false
unfolding refusal
refusal-within limits keys m h = ground (arith, h)

pub register_waiter-IsValid :
    (limits : Limits) (now : ℤ) (keys : List Bytes) (kind : Kind) (timeout : ℤ) (connection : Bytes)
    (m : Manager)
    → IsValid limits m
    → IsValid limits (register_waiter limits now keys kind timeout connection m).1
unfolding register_waiter new_waiter add_waiter owed
register_waiter-IsValid limits now keys kind timeout connection m v =
    elim (Option-cases (refusal limits keys m)) [
      | inr (e, refused) ↦ rw (refused, register_waiter) v
      | inl accepted ↦
          rw (accepted, register_waiter)
            (record {
              placed = add_waiter-Placed w m v.placed refl;
              replied = λ j.
                  rw (get_elem?-append m.waiters j w) (elim (Bool-cases (length m.waiters == j)) [
                    | inl s ↦
                        let e : length m.waiters ≡ j = (nat_eq.beq_iff (length m.waiters) j).0 s in
                        rw s (v.replied j ∙ (rw (← e, new_index m.waiters) refl))
                    | inr o ↦ rw o (v.replied j)
                  ]);
              either = λ j u e. elim (Bool-cases (length m.waiters == j)) [
                | inl s ↦
                    let same : w ≡ u = cc (sym (get_elem?-append m.waiters j w) ∙ e, s) in
                    subst (λ x. (x.completed && x.canceled) ≡ false) same refl
                | inr o ↦ v.either j u (rw o at (sym (get_elem?-append m.waiters j w) ∙ e))
              ];
              within = omega (arith, waiting-append m.waiters w refl, room accepted);
            })
    ]
  where
    w : Waiter
    w = new_waiter now keys kind timeout connection

    room : refusal limits keys m ≡ none → waiting m.waiters < limits.max_total_waiters
    room h = ground (arith, rw v.placed.total at (refusal-within limits keys m h))
