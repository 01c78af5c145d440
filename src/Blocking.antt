-- ===== src/Blocking.antt =====
-- src/blocking/manager.js: the clients that wait in BLPOP and BRPOP.
-- A waiter is an object that the queues refer to: its number is its place in `waiters`, and what the
-- code assigns to it is assigned there.  `resolve` adds to `replies`, the newest first; the timer is
-- Node's: `timer` says whether it is set, and `time_out` is its callback.  The map key of a buffer,
-- its binary text, is the buffer itself.
pub mod Wakeups
pub mod Refs
pub mod Valid
pub mod Waits
pub mod Cancels
pub mod Wakes
pub mod Replies
pub mod Flushes
pub mod Runs
use resplite.Base.{
  ℕ, zero, suc, ◌*◌, Bool, true, false, ◌||◌, Option, none, some, List, [], ◌∷◌, ◌++◌, Bytes,
  if◌then◌else◌, length, ltb, leb, get_elem?, set, bytes_eq, nat_eq,
}
use resplite.Base.Counts.{times, remove}
use resplite.Base.Int.{ℤ, pos, negsuc, ◌+ℤ◌, ◌-ℤ◌, leb_ℤ}
use resplite.Base.Maps

pub data Kind : Type 0 where
  blpop brpop : Kind

pub record Waiter : Type 0 where
  pub connection : Bytes
  pub kind : Kind
  pub keys : List Bytes
  pub deadline : Option ℤ
  pub timer : Bool
  pub completed : Bool
  pub canceled : Bool

-- What `resolve` is called with: null, or a key and an element.
pub data Reply : Type 0 where
  timed_out : Reply
  element : Bytes → Bytes → Reply

pub record Limits : Type 0 where
  pub max_waiters_per_key : ℕ
  pub max_total_waiters : ℕ
  pub max_keys_per_wait : ℕ

-- The waiters that a map holds under each of its keys.
abbrev pub Refs : Type 0
Refs = List (Bytes × List ℕ)

pub record Manager : Type 0 where
  pub waiters : List Waiter
  pub by_key : Refs
  pub by_connection : Refs
  pub total : ℤ
  pub deferred : Option (List (Bytes × Unit {0}))
  pub replies : List (ℕ × Reply)

abbrev pub create_manager : Manager
create_manager = record {
  waiters = [];
  by_key = [];
  by_connection = [];
  total = pos 0;
  deferred = none;
  replies = [];
}

abbrev pub refs_or_none : Option (List ℕ) → List ℕ
refs_or_none none = []
refs_or_none (some refs) = refs

-- `map.get(key) ?? []`
unfoldable pub refs_of : Bytes → Refs → List ℕ
refs_of key m = refs_or_none (Maps.get key m)

-- A queue or a set that has become empty goes from its map.
unfoldable pub put_refs : Bytes → List ℕ → Refs → Refs
put_refs key [] m = Maps.delete key m
put_refs key (r ∷ rs) m = Maps.set key (r ∷ rs) m

unfoldable pub drop_ref : ℕ → Bytes → Refs → Refs
drop_ref i key m = elim (Maps.get key m) [ none ↦ m | some refs ↦ put_refs key (remove i refs) m ]

unfoldable pub drop_refs : ℕ → List Bytes → Refs → Refs
drop_refs i [] m = m
drop_refs i (key ∷ keys) m = drop_refs i keys (drop_ref i key m)

unfoldable pub remove_waiter_from_queues : ℕ → Waiter → Manager → Manager
remove_waiter_from_queues i w m = record m {
  by_key = drop_refs i w.keys m.by_key;
  by_connection = drop_ref i w.connection m.by_connection;
  total = m.total -ℤ pos 1;
}

-- An assignment to the waiter's fields.
unfoldable pub assign : ℕ → Waiter → Manager → Manager
assign i w m = record m { waiters = set m.waiters i w }

unfoldable pub resolve : ℕ → Reply → Manager → Manager
resolve i r m = record m { replies = (i, r) ∷ m.replies }

-- `q.push`
unfoldable pub push_ref : ℕ → Bytes → Refs → Refs
push_ref i key m = Maps.set key (refs_of key m ++ i ∷ []) m

unfoldable pub push_refs : ℕ → List Bytes → Refs → Refs
push_refs i [] m = m
push_refs i (key ∷ keys) m = push_refs i keys (push_ref i key m)

-- `connSet.add`
unfoldable pub add_ref : ℕ → Bytes → Refs → Refs
add_ref i key m =
    Maps.set key
      (if leb 1 (times i (refs_of key m)) then refs_of key m else refs_of key m ++ i ∷ []) m

pub data Refusal : Type 0 where
  too_many_keys too_many_clients : Refusal

-- Is a queue full?
unfoldable pub any_full : Limits → List Bytes → Refs → Bool
any_full limits [] m = false
any_full limits (key ∷ keys) m =
    leb limits.max_waiters_per_key (length (refs_of key m)) || any_full limits keys m

-- A number of seconds that is positive, in milliseconds from now.
unfoldable pub deadline_of : ℤ → ℤ → Option ℤ
deadline_of now (pos zero) = none
deadline_of now (pos (suc n)) = some (now +ℤ pos (suc n * 1000))
deadline_of now (negsuc n) = none

abbrev is_some : Option ℤ → Bool
is_some none = false
is_some (some t) = true

unfoldable pub add_waiter : Waiter → Manager → Manager
add_waiter w m =
    let i = length m.waiters in
    record m {
      waiters = m.waiters ++ w ∷ [];
      by_key = push_refs i w.keys m.by_key;
      by_connection = add_ref i w.connection m.by_connection;
      total = m.total +ℤ pos 1;
    }

-- Is the request beyond a limit?
unfoldable pub refusal : Limits → List Bytes → Manager → Option Refusal
refusal limits keys m =
    if ltb limits.max_keys_per_wait (length keys)
    then some too_many_keys
    else if leb_ℤ (pos limits.max_total_waiters) m.total
    then some too_many_clients
    else if any_full limits keys m.by_key
    then some too_many_clients
    else none

unfoldable pub new_waiter : ℤ → List Bytes → Kind → ℤ → Bytes → Waiter
new_waiter now keys kind timeout connection = record {
  connection = connection;
  kind = kind;
  keys = keys;
  deadline = deadline_of now timeout;
  timer = is_some (deadline_of now timeout);
  completed = false;
  canceled = false;
}

unfoldable pub register_waiter :
    Limits → ℤ → List Bytes → Kind → ℤ → Bytes → Manager → Option Refusal × Manager
register_waiter limits now keys kind timeout connection m = elim (refusal limits keys m) [
  | some e ↦ (some e, m)
  | none ↦ (none, add_waiter (new_waiter now keys kind timeout connection) m)
]

abbrev pub is_done : Waiter → Bool
is_done w = w.completed || w.canceled

unfoldable pub complete : ℕ → Waiter → Reply → Manager → Manager
complete i w r m =
    let w' = record w { completed = true } in
    resolve i r (remove_waiter_from_queues i w' (assign i w' m))

-- The callback of the timer, and what becomes of a waiter whose connection goes.
expire_waiter : ℕ → Option Waiter → Manager → Manager
expire_waiter i none m = m
expire_waiter i (some w) m =
    if w.timer then (if is_done w then m else complete i w timed_out m) else m

unfoldable pub time_out : ℕ → Manager → Manager
unfolding expire_waiter
time_out i m = expire_waiter i (get_elem? m.waiters i) m

unfoldable pub abandon : ℕ → Waiter → Manager → Manager
abandon i w m =
    let w' = record w { canceled = true; timer = false } in
    remove_waiter_from_queues i w' (assign i w' m)

unfoldable pub cancel_waiter : ℕ → Option Waiter → Manager → Manager
cancel_waiter i none m = m
cancel_waiter i (some w) m = if w.completed then m else abandon i w m

unfoldable pub cancel_waiters : List ℕ → Manager → Manager
cancel_waiters [] m = m
cancel_waiters (i ∷ is) m = cancel_waiters is (cancel_waiter i (get_elem? m.waiters i) m)

unfoldable pub cancel : Bytes → Manager → Manager
cancel connection m = elim (Maps.get connection m.by_connection) [
  | none ↦ m
  | some refs ↦
      let m' = cancel_waiters refs m in
      record m' { by_connection = Maps.delete connection m'.by_connection }
]

-- `none` is the exception.
unfoldable pub defer_wakeups : Manager → Option Manager
defer_wakeups m = elim m.deferred [ some _ ↦ none | none ↦ some (record m { deferred = some [] }) ]
