-- ===== src/PubSub/Output/Promises.antt =====
-- src/pubsub/output.js: over any run, messages leave in the order in which they were accepted.
use resplite.Base.{
  ℕ, zero, suc, ◌+◌, ◌≤◌, ◌≡◌, refl, ◌∙◌, sym, ap, Bool, true, false, not, ◌&&◌, List, [], ◌∷◌,
  ◌++◌, Bytes, nat_eq, ◌==◌, if◌then◌else◌, length, drop, arith, inl, inr, Bool-cases,
  length-append,
}
use mathlib.Core.List.{append_assoc, append-nil}
use resplite.PubSub.Output.{
  Effect, wrote, destroyed_socket, Socket, Output, clear, is_closed, exceeds, enqueue,
  write_through, destroy, write, end, Event, write_call, drain_event, close_event, end_call, step,
  run,
}
use resplite.PubSub.Output.Order.{
  sent, sent-append, sent-ended, drain-order, pending, total_length, IsValid,
}

-- The buffers that are sent or wait: a write that answers true appends its buffer, and where the
-- queue is given up, at the limit or when the socket closes, what was sent is left.
unfoldable pub promised : ℕ → Event → Output → List Bytes → List Bytes
promised max (write_call s b) o kept =
    if is_closed s o then kept else if exceeds max s b o then sent o.log else kept ++ b ∷ []
promised max (drain_event s) o kept = kept
promised max close_event o kept = sent o.log
promised max (end_call s) o kept = kept

unfoldable pub promised_by : ℕ → List Event → Output → List Bytes → List Bytes
promised_by max [] o kept = kept
promised_by max (e ∷ events) o kept = promised_by max events (step max e o) (promised max e o kept)

-- Everything promised is sent or waits, in order, and the state is well formed.
abbrev pub Keeps : Output → List Bytes → Type 0
Keeps o kept = (sent o.log ++ pending o ≡ kept) × IsValid o

clear-Keeps : (o : Output) → Keeps (clear o) (sent o.log)
unfolding clear total_length
clear-Keeps o = (append-nil _, record { head_bound = omega arith; exact = refl; waits = inl refl })

sent-destroyed : (log : List Effect) → sent (log ++ destroyed_socket ∷ []) ≡ sent log
unfolding sent
sent-destroyed log = rw (sent-append, append-nil)

destroy-Keeps : (o : Output) → Keeps (destroy (clear o)) (sent o.log)
unfolding clear total_length
destroy-Keeps o = (
  append-nil _ ∙ sent-destroyed o.log,
  record { head_bound = omega arith; exact = refl; waits = inl refl },
)

drop-append : (h : ℕ) (q r : List Bytes) → h ≤ length q → drop h (q ++ r) ≡ drop h q ++ r
drop-append zero q r h = refl
drop-append (suc n) [] r h = absurd (omega arith)
drop-append (suc n) (b ∷ q) r h = drop-append n q r (omega arith)

total_length-append :
    (q : List Bytes) (b : Bytes) → total_length (q ++ b ∷ []) ≡ total_length q + length b
unfolding total_length
total_length-append [] b = omega arith
total_length-append (c ∷ q) b = omega (arith, total_length-append q b)

enqueue-Keeps :
    (b : Bytes) (o : Output) (kept : List Bytes)
    → Keeps o kept
    → o.blocked ≡ true
    → Keeps (enqueue b o) (kept ++ b ∷ [])
enqueue-Keeps b o kept (k, v) full =
    let later = drop-append o.head o.queue (b ∷ []) v.head_bound in
    (
      ap (λ q. sent o.log ++ q) later
          ∙ sym (append_assoc (sent o.log) (pending o) (b ∷ []))
          ∙ ap (λ q. q ++ b ∷ []) k,
      record {
        head_bound = omega (arith, v.head_bound, length-append o.queue (b ∷ []));
        exact =
            ap (λ n. n + length b) v.exact
            ∙ sym (total_length-append (pending o) b)
            ∙ ap total_length (sym later);
        waits = inr full;
      },
    )

sent-wrote_last : (log : List Effect) (b : Bytes) → sent (log ++ wrote b ∷ []) ≡ sent log ++ b ∷ []
unfolding sent
sent-wrote_last log b = sent-append log (wrote b ∷ [])

write_through-Keeps :
    (b : Bytes) (taken : Bool) (o : Output) (kept : List Bytes)
    → Keeps o kept
    → o.blocked ≡ false
    → Keeps (write_through b taken o) (kept ++ b ∷ [])
write_through-Keeps b taken o kept (k, v) free = elim v.waits [
  | inl none ↦ (
    ap (λ q. sent (o.log ++ wrote b ∷ []) ++ q) none
        ∙ append-nil _
        ∙ sent-wrote_last o.log b
        ∙ ap (λ q. q ++ b ∷ []) (sym (append-nil _) ∙ ap (λ q. sent o.log ++ q) (sym none) ∙ k),
    record { head_bound = v.head_bound; exact = v.exact; waits = inl none },
  )
  | inr full ↦ absurd cc
]

place-Keeps :
    (b : Bytes) (taken : Bool) (o : Output) (kept : List Bytes) (waiting : Bool)
    → o.blocked ≡ waiting
    → Keeps o kept
    → let answer : Bool × Output =
        if waiting then (true, enqueue b o) else (true, write_through b taken o) in
      Keeps answer.1 (kept ++ b ∷ [])
place-Keeps b taken o kept true full k = enqueue-Keeps b o kept k full
place-Keeps b taken o kept false free k = write_through-Keeps b taken o kept k free

write-Keeps :
    (max : ℕ) (s : Socket) (b : Bytes) (o : Output) (kept : List Bytes)
    → Keeps o kept
    → Keeps (write max s b o).1 (promised max (write_call s b) o kept)
unfolding write promised
write-Keeps max s b o kept (k, v) = elim (Bool-cases (is_closed s o)) [
  | inl shut ↦ rw shut (k, v)
  | inr alive ↦ elim (Bool-cases (exceeds max s b o)) [
    | inl over ↦ rw (alive, over) (destroy-Keeps o)
    | inr fits ↦ rw (alive, fits) (place-Keeps b (s.takes 0) o kept o.blocked refl (k, v))
  ]
]

end-Keeps : (s : Socket) (o : Output) (kept : List Bytes) → Keeps o kept → Keeps (end s o) kept
unfolding end
end-Keeps s o kept (k, v) = elim (Bool-cases ((o.head == length o.queue) && not s.destroyed)) [
  | inl last ↦ rw last (
    ap (λ l. l ++ pending o) (sent-ended o.log) ∙ k,
    record { head_bound = v.head_bound; exact = v.exact; waits = v.waits },
  )
  | inr later ↦ rw later (k, record { head_bound = v.head_bound; exact = v.exact; waits = v.waits })
]

Keeps-if :
    {a b : Output} (c : Bool) (kept : List Bytes)
    → Keeps a kept
    → Keeps b kept
    → Keeps (if c then a else b) kept
Keeps-if true kept k l = k
Keeps-if false kept k l = l

step-Keeps :
    (max : ℕ) (e : Event) (o : Output) (kept : List Bytes)
    → Keeps o kept
    → Keeps (step max e o) (promised max e o kept)
unfolding step promised
step-Keeps max (write_call s b) o kept k = write-Keeps max s b o kept k
step-Keeps max (drain_event s) o kept (k, v) =
    let (same, valid) = drain-order s o v in Keeps-if o.listening kept (same ∙ k, valid) (k, v)
step-Keeps max close_event o kept k = clear-Keeps o
step-Keeps max (end_call s) o kept k = end-Keeps s o kept k

-- From an output that keeps what it promised, whatever the writes, drains, ends and closes, and whatever the socket answers: the buffers given to
-- the socket, followed by those that wait, are the ones promised, in the order of the calls of
-- `write`. The count of queued bytes is exact, and a buffer is written at once only if none waits.
pub run-Keeps :
    (max : ℕ) (events : List Event) (o : Output) (kept : List Bytes)
    → Keeps o kept
    → Keeps (run max events o) (promised_by max events o kept)
unfolding run promised_by
run-Keeps max [] o kept k = k
run-Keeps max (e ∷ events) o kept k =
    run-Keeps max events (step max e o) (promised max e o kept) (step-Keeps max e o kept k)

-- For a write that a well-formed output accepts, the bytes that wait here and in the socket and the
-- new ones are together at most `max`.
pub write-bound :
    (max : ℕ) (s : Socket) (b : Bytes) (o : Output)
    → IsValid o
    → (write max s b o).0 ≡ true
    → total_length (pending o) + s.writable_length + length b ≤ max
unfolding write exceeds
write-bound max s b o v h = ground (arith, v.exact, h)
