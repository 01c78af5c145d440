-- ===== src/PubSub/Output.antt =====
-- src/pubsub/output.js, `createPubSubOutput`: the queue between the broker and one socket.
-- The socket is Node's: what it shows and answers during a call is an argument of the call, and what
-- the code does to it is appended to `log`.  A slot in front of `head` is never read again, so that
-- setting it to `null` is left out.
pub mod Order
pub mod Promises
use resplite.Base.{
  ℕ, suc, ◌+◌, ◌-◌, ◌*◌, Bool, true, false, not, ◌&&◌, ◌||◌, List, [], ◌∷◌, ◌++◌, Bytes, nat_eq,
  ◌==◌, if◌then◌else◌, length, drop, ltb, leb,
}

pub data Effect : Type 0 where
  wrote : Bytes → Effect
  ended destroyed_socket : Effect

-- `takes n`: what the call's write number `n` returns.
pub record Socket : Type 0 where
  pub destroyed : Bool
  pub writable : Bool
  pub writable_length : ℕ
  pub takes : ℕ → Bool

-- `listening`: `drain` is a listener of the socket's.
pub record Output : Type 0 where
  pub queue : List Bytes
  pub head : ℕ
  pub queued_bytes : ℕ
  pub blocked : Bool
  pub ending : Bool
  pub listening : Bool
  pub log : List Effect

abbrev pub create_output : Output
create_output = record {
  queue = [];
  head = 0;
  queued_bytes = 0;
  blocked = false;
  ending = false;
  listening = true;
  log = [];
}

unfoldable pub clear : Output → Output
clear o = record o { queue = []; head = 0; queued_bytes = 0; listening = false }

-- The body of the loop of `drain`, whose write returns `taken`.
abbrev pub send : Bytes → Bool → Output → Output
send buffer taken o = record o {
  head = o.head + 1;
  queued_bytes = o.queued_bytes - length buffer;
  blocked = not taken;
  log = o.log ++ wrote buffer ∷ [];
}

-- The loop, over the queue from `head` on.
unfoldable pub drain_loop : (ℕ → Bool) → ℕ → List Bytes → Output → Output
drain_loop takes n [] o = o
drain_loop takes n (buffer ∷ rest) o = elim (takes n) [
  | true ↦ drain_loop takes (suc n) rest (send buffer true o)
  | false ↦ send buffer false o
]

abbrev pub end_socket : Output → Output
end_socket o = record o { log = o.log ++ ended ∷ [] }

-- What `drain` does behind the loop.
unfoldable pub compact : Output → Output
compact o =
    let emptied = record o { queue = []; head = 0 } in
    if o.head == length o.queue
    then if o.ending then end_socket emptied else emptied
    else if leb (length o.queue) (2 * o.head)
    then record o { queue = drop o.head o.queue; head = 0 }
    else o

unfoldable pub drain : Socket → Output → Output
drain s o =
    if s.destroyed || not s.writable
    then o
    else compact (drain_loop s.takes 0 (drop o.head o.queue) (record o { blocked = false }))

-- The two guards of `write`.
unfoldable pub is_closed : Socket → Output → Bool
is_closed s o = o.ending || (s.destroyed || not s.writable)

unfoldable pub exceeds : ℕ → Socket → Bytes → Output → Bool
exceeds max_pending_bytes s buffer o =
    ltb max_pending_bytes (o.queued_bytes + s.writable_length + length buffer)

abbrev pub enqueue : Bytes → Output → Output
enqueue buffer o = record o {
  queue = o.queue ++ buffer ∷ [];
  queued_bytes = o.queued_bytes + length buffer;
}

abbrev pub write_through : Bytes → Bool → Output → Output
write_through buffer taken o = record o { blocked = not taken; log = o.log ++ wrote buffer ∷ [] }

abbrev pub destroy : Output → Output
destroy o = record o { log = o.log ++ destroyed_socket ∷ [] }

unfoldable pub write : ℕ → Socket → Bytes → Output → Bool × Output
unfolding clear
write max_pending_bytes s buffer o =
    if is_closed s o
    then (false, o)
    else if exceeds max_pending_bytes s buffer o
    then (false, destroy (clear o))
    else if o.blocked
    then (true, enqueue buffer o)
    else (true, write_through buffer (s.takes 0) o)

unfoldable pub end : Socket → Output → Output
end s o =
    let o' = record o { ending = true } in
    if (o.head == length o.queue) && not s.destroyed then end_socket o' else o'

-- What can happen to an output: the broker's calls, and the events of the socket.
pub data Event : Type 0 where
  write_call : Socket → Bytes → Event
  drain_event : Socket → Event
  close_event : Event
  end_call : Socket → Event

unfoldable pub step : ℕ → Event → Output → Output
step max (write_call s buffer) o = (write max s buffer o).1
step max (drain_event s) o = if o.listening then drain s o else o
step max close_event o = clear o
step max (end_call s) o = end s o

unfoldable pub run : ℕ → List Event → Output → Output
run max [] o = o
run max (e ∷ events) o = run max events (step max e o)
