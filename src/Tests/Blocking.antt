-- ===== src/Tests/Blocking.antt =====
-- Runs of src/blocking/manager.js and of the engine's pushes on small inputs, and inputs for their theorems.
use resplite.Base.{
  ◌≡◌, refl, true, none, some, List, [], ◌∷◌, ◌++◌, Bytes, arith, length, bytes_eq, bytes_beq, ap,
  get_elem?, nat_eq,
}
use mathlib.Core.List.{reverse}
use resplite.Base.Int.{pos, negsuc, ◌+ℤ◌}
use resplite.Base.Maps
use resplite.Cache.{create_cache}
use resplite.Cache.Lru.{create_lru}
use resplite.Cache.Lru.Bounds.{total_size}
use resplite.Storage.{empty_db}
use resplite.Storage.Keys
use resplite.Storage.Lists.Removes.Ends.{pop_left}
use resplite.Engine.Cached.{cached_list_range}
use resplite.Engine.Strings.{State}
use resplite.Engine.Lists.{lrange, lpop, default_limits}
use resplite.Engine.Lists.Served.{Served, pop_for, lpush, rpush}
use resplite.Engine.Lists.Listed.{Listed, seen}
use resplite.Engine.Lists.Ranges.{lrange-Answers}
use resplite.Engine.Lists.Reads.{Answers}
use resplite.Engine.Lists.Writes.{lpop-Answers}
use resplite.Engine.Lists.Fifo.{InOrder, AwaitOnly, in_order, push_each, push_each-InOrder}
use resplite.Engine.Lists.Serves.{Serves, push-Serves}
use resplite.Engine.Lists.Pushes.{Kept, lpush-Kept}
use resplite.Blocking.{
  Manager, Limits, blpop, brpop, create_manager, register_waiter, cancel, time_out, refs_of,
  refusal, any_full, new_waiter, deadline_of, add_waiter, push_refs, push_ref, add_ref,
}
use resplite.Blocking.Wakeups.{wakeup, flush_wakeups, flush_key}
use resplite.Blocking.Waits.{IsValid, defer-IsValid}
use resplite.Blocking.Cancels.{Canceled, cancel-Canceled}
use resplite.Blocking.Replies.{Woken, wakeup-Woken}
use resplite.Blocking.Flushes.{Flushed, flush_key-Flushed, flush_wakeups-returns}
use resplite.Blocking.Runs.{registered, timed_out, Reached, start, next, Reached-IsValid}

abbrev a_key : Bytes
a_key = b'a' ∷ []

abbrev b_key : Bytes
b_key = b'b' ∷ []

abbrev one : Bytes
one = b'1' ∷ []

abbrev two : Bytes
two = b'2' ∷ []

-- The connections.
abbrev client : Bytes
client = b'c' ∷ []

abbrev other_client : Bytes
other_client = b'd' ∷ []

abbrev limits : Limits
limits = record { max_waiters_per_key = 2; max_total_waiters = 3; max_keys_per_wait = 2 }

abbrev fresh : State
fresh = record { db = empty_db; cache = create_cache true 2 100 }

-- The first client waits for one key, the second for two.
abbrev with_one : Manager
with_one = (register_waiter limits (pos 0) (a_key ∷ []) blpop (pos 0) client create_manager).1

abbrev with_two : Manager
with_two =
    (register_waiter limits (pos 1) (b_key ∷ a_key ∷ []) brpop (pos 5) other_client with_one).1

two-Reached : Reached (pop_for (pos 2)) limits (fresh, with_two)
two-Reached =
    next (fresh, with_one) (fresh, with_two)
      (next (fresh, create_manager) (fresh, with_one) (start fresh)
        (registered (pos 0) (a_key ∷ []) blpop (pos 0) client fresh create_manager))
      (registered (pos 1) (b_key ∷ a_key ∷ []) brpop (pos 5) other_client fresh with_one)

two-IsValid : IsValid limits with_two
two-IsValid = Reached-IsValid (pop_for (pos 2)) limits (fresh, with_two) two-Reached

-- One more step: the timer of the second client.
Reached-IsValid_example : IsValid limits (time_out 1 with_two)
Reached-IsValid_example =
    Reached-IsValid (pop_for (pos 2)) limits (fresh, time_out 1 with_two)
      (next (fresh, with_two) (fresh, time_out 1 with_two) two-Reached (timed_out 1 fresh with_two))

cancel-Canceled_example : Canceled limits client with_two (cancel client with_two)
cancel-Canceled_example = cancel-Canceled limits client with_two two-IsValid

fresh-Listed : Listed a_key [] fresh
unfolding create_cache create_lru Maps.get Keys.get total_size
fresh-Listed = record {
  cache = record {
    distinct = tt;
    exact = refl;
    entries_bound = omega arith;
    bytes_bound = omega arith;
  };
  distinct = tt;
  holds = record { no_row = refl; no_meta = refl; no_items = refl };
  copy = λ on entry there kind. absurd (cc);
}

-- Two values, of which no client waits for any.
abbrev unserved : Served
unserved = record { engine = fresh; manager = none }

abbrev two_values :
    Kept a_key
      (pos 2)
      (reverse (one ∷ two ∷ []) ++ seen (pos 2) (Keys.get a_key fresh.db) [])
      unserved
      (lpush (pos 2) a_key (one ∷ two ∷ []) unserved)
two_values = lpush-Kept a_key (pos 2) one (two ∷ []) [] unserved fresh-Listed

-- What the registrations leave.
two_waiting :
    (with_two.deferred ≡ none)
    × (refs_of a_key with_two.by_key ≡ 0 ∷ 1 ∷ [])
    × (get_elem? with_two.waiters 0 ≡ some (new_waiter (pos 0) (a_key ∷ []) blpop (pos 0) client))
unfolding register_waiter refusal any_full new_waiter deadline_of add_waiter push_refs push_ref
    add_ref refs_of Maps.get Maps.set ◌+ℤ◌ bytes_beq
two_waiting = (refl, refl, refl)

wakeup-Woken_example :
    Woken
      (pop_for (pos 2))
      limits
      a_key
      two_values.st
      with_two
      (wakeup (pop_for (pos 2)) a_key two_values.st with_two)
wakeup-Woken_example =
    wakeup-Woken (pop_for (pos 2)) limits a_key two_values.st with_two two-IsValid

flush_key-Flushed_example :
    Flushed
      (pop_for (pos 2))
      limits
      a_key
      (flush_key (pop_for (pos 2)) 3 a_key two_values.st with_two)
flush_key-Flushed_example =
    flush_key-Flushed (pop_for (pos 2)) limits 3 a_key two_values.st with_two
      (omega (arith, ap length two_waiting.1)) two-IsValid two_waiting.0

-- Wakeups are deferred, and the key has been noted.
abbrev noted : Manager
noted = record with_two { deferred = some ((a_key, tt) ∷ []) }

flush_wakeups-returns_example :
    (out : State × Manager) × (flush_wakeups (pop_for (pos 2)) two_values.st noted ≡ some out)
    × IsValid limits out.1
    × (out.1.deferred ≡ none)
flush_wakeups-returns_example =
    flush_wakeups-returns (pop_for (pos 2)) limits ((a_key, tt) ∷ []) two_values.st noted
      (defer-IsValid limits with_two (some ((a_key, tt) ∷ [])) two-IsValid) refl

abbrev served : Served
served = record { engine = fresh; manager = some with_two }

push-Serves_example :
    Serves a_key
      (pos 2)
      (reverse (one ∷ two ∷ []) ++ seen (pos 2) (Keys.get a_key fresh.db) [])
      0
      (new_waiter (pos 0) (a_key ∷ []) blpop (pos 0) client)
      with_two
      (lpush (pos 2) a_key (one ∷ two ∷ []) served)
    × Serves a_key
        (pos 2)
        (seen (pos 2) (Keys.get a_key fresh.db) [] ++ one ∷ two ∷ [])
        0
        (new_waiter (pos 0) (a_key ∷ []) blpop (pos 0) client)
        with_two
        (rpush (pos 2) a_key (one ∷ two ∷ []) served)
unfolding new_waiter
push-Serves_example =
    push-Serves a_key (pos 2) limits one (two ∷ []) [] served with_two 0 (1 ∷ [])
      (new_waiter (pos 0) (a_key ∷ []) blpop (pos 0) client) [] fresh-Listed refl two-IsValid
      two_waiting.0 two_waiting.1 two_waiting.2 refl

abbrev both_values : List Bytes
both_values = reverse (one ∷ two ∷ []) ++ seen (pos 2) (Keys.get a_key fresh.db) []

lrange-Answers_example :
    Answers a_key
      (seen (pos 3) (Keys.get a_key two_values.st.db) both_values)
      (cached_list_range
        (seen (pos 3) (Keys.get a_key two_values.st.db) both_values)
        (pos 0)
        (negsuc 0))
      (lrange default_limits (pos 3) a_key (some (pos 0)) (some (negsuc 0)) two_values.st)
lrange-Answers_example =
    lrange-Answers a_key default_limits (pos 3) (pos 0) (negsuc 0) both_values two_values.st
      two_values.listed

lpop-Answers_example :
    Answers a_key
      (pop_left (some (pos 1)) (seen (pos 3) (Keys.get a_key two_values.st.db) both_values)).1
      (pop_left (some (pos 1)) (seen (pos 3) (Keys.get a_key two_values.st.db) both_values)).0
      (lpop (pos 3) a_key (some (pos 1)) two_values.st)
lpop-Answers_example =
    lpop-Answers a_key (pos 3) (some (pos 1)) both_values two_values.st two_values.listed

-- Two clients that wait for one key alone, at its two ends.
abbrev with_pair : Manager
with_pair = (register_waiter limits (pos 1) (a_key ∷ []) brpop (pos 5) other_client with_one).1

pair_waiting :
    (with_pair.deferred ≡ none)
    × (refs_of a_key with_pair.by_key ≡ 0 ∷ 1 ∷ [])
    × (get_elem? with_pair.waiters 0 ≡ some (new_waiter (pos 0) (a_key ∷ []) blpop (pos 0) client))
    × (get_elem? with_pair.waiters 1
        ≡ some (new_waiter (pos 1) (a_key ∷ []) brpop (pos 5) other_client))
unfolding register_waiter refusal any_full new_waiter deadline_of add_waiter push_refs push_ref
    add_ref refs_of Maps.get Maps.set ◌+ℤ◌ bytes_beq
pair_waiting = (refl, refl, refl, refl)

pair-IsValid : IsValid limits with_pair
pair-IsValid =
    Reached-IsValid (pop_for (pos 2)) limits (fresh, with_pair)
      (next (fresh, with_one) (fresh, with_pair)
        (next (fresh, create_manager) (fresh, with_one) (start fresh)
          (registered (pos 0) (a_key ∷ []) blpop (pos 0) client fresh create_manager))
        (registered (pos 1) (a_key ∷ []) brpop (pos 5) other_client fresh with_one))

pair-AwaitOnly : AwaitOnly a_key (0 ∷ 1 ∷ []) with_pair.waiters
unfolding new_waiter
pair-AwaitOnly = (
  (new_waiter (pos 0) (a_key ∷ []) blpop (pos 0) client, pair_waiting.2, refl),
  ((new_waiter (pos 1) (a_key ∷ []) brpop (pos 5) other_client, pair_waiting.3, refl), tt),
)

abbrev pair : Served
pair = record { engine = fresh; manager = some with_pair }

push_each-InOrder_example :
    InOrder limits a_key
      (in_order a_key ((pos 2, one) ∷ (pos 4, two) ∷ []) (0 ∷ 1 ∷ []) with_pair.replies)
      (push_each a_key ((pos 2, one) ∷ (pos 4, two) ∷ []) pair)
push_each-InOrder_example =
    push_each-InOrder limits a_key ((pos 2, one) ∷ (pos 4, two) ∷ []) (0 ∷ 1 ∷ []) pair with_pair
      (omega arith) fresh-Listed refl pair-IsValid pair_waiting.0 pair_waiting.1 pair-AwaitOnly
