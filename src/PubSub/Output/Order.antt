-- ===== src/PubSub/Output/Order.antt =====
-- src/pubsub/output.js: `drain` sends what waits, in order.
use resplite.Base.{
  ℕ, zero, suc, ◌+◌, ◌-◌, ◌*◌, ◌≤◌, ◌≡◌, refl, ◌∙◌, sym, ap, Bool, true, false, not, ◌||◌, List, [],
  ◌∷◌, ◌++◌, Bytes, nat_eq, length, drop, leb, arith, inl, inr, ◌⊎◌, Bool-cases, nat_beq,
  nat_beq_iff,
}
use mathlib.Core.List.{append_assoc, append-nil}
use resplite.PubSub.Output.{
  Effect, wrote, ended, destroyed_socket, Socket, Output, send, drain_loop, compact, drain,
}

-- The buffers that were given to the socket, in order.
unfoldable pub sent : List Effect → List Bytes
sent [] = []
sent (wrote b ∷ log) = b ∷ sent log
sent (_ ∷ log) = sent log

pub sent-append : (l m : List Effect) → sent (l ++ m) ≡ sent l ++ sent m
unfolding sent
sent-append [] m = refl
sent-append (wrote b ∷ l) m = ap (◌∷◌ b) (sent-append l m)
sent-append (ended ∷ l) m = sent-append l m
sent-append (destroyed_socket ∷ l) m = sent-append l m

pub sent-wrote :
    (log : List Effect) (b : Bytes) (rest : List Bytes)
    → sent (log ++ wrote b ∷ []) ++ rest ≡ sent log ++ b ∷ rest
unfolding sent
sent-wrote log b rest = rw (sent-append, append_assoc)

abbrev pub pending : Output → List Bytes
pending o = drop o.head o.queue

unfoldable pub total_length : List Bytes → ℕ
total_length [] = 0
total_length (b ∷ q) = length b + total_length q

-- The count of queued bytes is exact, and while a buffer waits nothing is written past it.
pub record IsValid (o : Output) : Type 0 where
  pub head_bound : o.head ≤ length o.queue
  pub exact : o.queued_bytes ≡ total_length (pending o)
  pub waits : (pending o ≡ []) ⊎ (o.blocked ≡ true)

drop-suc :
    (h : ℕ) (q : List Bytes) (b : Bytes) (rest : List Bytes)
    → drop h q ≡ b ∷ rest
    → (drop (suc h) q ≡ rest) × (suc h ≤ length q)
drop-suc zero [] b rest e = cc
drop-suc zero (x ∷ q) b rest e = ground arith
drop-suc (suc h) [] b rest e = cc
drop-suc (suc h) (x ∷ q) b rest e =
    let (same, bound) = drop-suc h q b rest e in (same, omega (arith, bound))

-- What the loop of `drain` keeps, from an output whose queue goes on with `rest`.
record Drained (o : Output) (rest : List Bytes) (r : Output) : Type 0 where
  same_queue : r.queue ≡ o.queue
  in_order : sent r.log ++ pending r ≡ sent o.log ++ rest
  valid : IsValid r

drain_loop-Drained :
    (takes : ℕ → Bool) (n : ℕ) (rest : List Bytes) (o : Output)
    → o.head ≤ length o.queue
    → pending o ≡ rest
    → o.queued_bytes ≡ total_length rest
    → Drained o rest (drain_loop takes n rest o)
unfolding drain_loop total_length sent
drain_loop-Drained takes n [] o h e q = record {
  same_queue = refl;
  in_order = rw e;
  valid = record { head_bound = h; exact = q ∙ ap total_length (sym e); waits = inl e };
}
drain_loop-Drained takes n (b ∷ rest) o h e q =
    let (tail, bound) = drop-suc o.head o.queue b rest e in
    let one : o.head + 1 ≡ suc o.head = omega arith in
    let next : drop (o.head + 1) o.queue ≡ rest = ap (λ i. drop i o.queue) one ∙ tail in
    let within : o.head + 1 ≤ length o.queue = omega (arith, bound) in
    let count : o.queued_bytes - length b ≡ total_length rest = omega (arith, q) in
    elim (Bool-cases (takes n)) [
      | inl more ↦
          let d = drain_loop-Drained takes (suc n) rest (send b true o) within next count in
          rw (more, drain_loop)
            (record {
              same_queue = d.same_queue;
              in_order = d.in_order ∙ sent-wrote o.log b rest;
              valid = d.valid;
            })
      | inr full ↦
          rw (full, drain_loop)
            (record {
              same_queue = refl;
              in_order = ap (λ q. sent (o.log ++ wrote b ∷ []) ++ q) next ∙ sent-wrote o.log b rest;
              valid = record {
                head_bound = within;
                exact = count ∙ ap total_length (sym next);
                waits = inr refl;
              };
            })
    ]

drop_all : (q : List Bytes) → drop (length q) q ≡ []
drop_all [] = refl
drop_all (b ∷ q) = drop_all q

-- Nothing is sent or dropped, and the order is kept.
Kept : Output → Output → Type 0
Kept o r = (sent r.log ≡ sent o.log) × (pending r ≡ pending o) × IsValid r

pub sent-ended : (log : List Effect) → sent (log ++ ended ∷ []) ≡ sent log
unfolding sent
sent-ended log = rw (sent-append, append-nil)

-- With the head at the end, nothing waits.
at_end : (o : Output) → nat_beq o.head (length o.queue) ≡ true → pending o ≡ []
at_end o h = ap (λ i. drop i o.queue) ((nat_beq_iff _ _).0 h) ∙ drop_all o.queue

compact-Kept : (o : Output) → IsValid o → Kept o (compact o)
unfolding compact total_length Kept
compact-Kept o v = elim (Bool-cases (nat_beq o.head (length o.queue))) [
  | inl all ↦
      let none = at_end o all in
      let count = v.exact ∙ ap total_length none in
      elim (Bool-cases o.ending) [
        | inl ends ↦
            rw (all, ends)
              (
                sent-ended o.log,
                sym none,
                record { head_bound = omega arith; exact = count; waits = inl refl },
              )
        | inr stays ↦
            rw (all, stays)
              (refl, sym none, record { head_bound = omega arith; exact = count; waits = inl refl })
      ]
  | inr more ↦ elim (Bool-cases (leb (length o.queue) (2 * o.head))) [
    | inl half ↦
        rw (more, half)
          (refl, refl, record { head_bound = omega arith; exact = v.exact; waits = v.waits })
    | inr early ↦ rw (more, early) (refl, refl, v)
  ]
]

pub drain-order :
    (s : Socket) (o : Output)
    → IsValid o
    → (sent (drain s o).log ++ pending (drain s o) ≡ sent o.log ++ pending o) × IsValid (drain s o)
unfolding drain Kept
drain-order s o v = elim (Bool-cases (s.destroyed || not s.writable)) [
  | inl shut ↦ rw shut (refl, v)
  | inr live ↦
      let d =
        drain_loop-Drained s.takes 0 (pending o) (record o { blocked = false }) v.head_bound refl
          v.exact in
      let (same, waits, valid) = compact-Kept _ d.valid in
      rw (live, same, waits) (d.in_order, valid)
]
