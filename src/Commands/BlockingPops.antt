-- ===== src/Commands/BlockingPops.antt =====
-- src/commands/blpop.js and brpop.js, and what the handler of `data` in src/server/connection.js does
-- with the block that they ask for.  The arguments are ASCII text where they are parsed.
use resplite.Base.{
  Bool, true, false, Option, none, some, List, [], ◌∷◌, Bytes, if◌then◌else◌, bytes_eq, ◌==◌,
}
use mathlib.Core.List.{reverse}
use resplite.Base.Int.{ℤ, pos, negsuc}
use resplite.Storage.{Error, Result, ok, err}
use resplite.Storage.{KeyMeta, wrong_type}
use resplite.Storage.Lists.{is_list}
use resplite.Resp.Decimal.{parse_int, print_int, is_space}
use resplite.Resp.Value
use resplite.Resp.Value.{Value}
use resplite.Engine.Strings.{State, get_key_meta}
use resplite.Engine.Lists.Served.{Served, pop_for}
use resplite.Blocking.{Kind, Limits, Manager, Refusal, register_waiter}

-- `trim()`
abbrev drop_spaces : Bytes → Bytes
drop_spaces [] = []
drop_spaces (c ∷ s) = let rest = drop_spaces s in if is_space c then rest else c ∷ s

abbrev trim : Bytes → Bytes
trim s = reverse (drop_spaces (reverse (drop_spaces s)))

-- `String(n) !== s.trim()`
abbrev printed_alike : Bytes → Option ℤ → Option ℤ
printed_alike s none = none
printed_alike s (some n) = if print_int n == trim s then some n else none

unfoldable pub parse_timeout : Bytes → Option ℤ
unfolding is_space
parse_timeout s = printed_alike s (parse_int s)

pub data Outcome : Type 0 where
  wrong_arguments bad_timeout no_context : Outcome
  thrown : Error → Outcome
  reply : Value → Outcome
  block : List Bytes → Kind → ℤ → Outcome

-- The arguments but the last, and the last.
abbrev pub split_last : Bytes → List Bytes → List Bytes × Bytes
split_last a [] = ([], a)
split_last a (b ∷ bs) = let (init, last) = split_last b bs in (a ∷ init, last)

-- Whether `type(key)` is neither "none" nor "list".
abbrev other_type : Option KeyMeta → Bool
other_type none = false
other_type (some m) = if is_list m.kind then false else true

unfoldable pub any_other_type : ℤ → List Bytes → State → Bool × State
any_other_type now [] st = (false, st)
any_other_type now (key ∷ keys) st =
    let (meta, st') = get_key_meta now key st in
    let rest = any_other_type now keys st' in if other_type meta then (true, st') else rest

-- The first pop that gives an element, or the answer where there is none.
popped_or : Bytes → Result (Option Bytes) → State → (State → Outcome × State) → Outcome × State
popped_or key (ok (some v)) st rest = (
  reply (Value.array (Value.cons (Value.buffer key) (Value.cons (Value.buffer v) Value.nil))),
  st,
)
popped_or key (ok none) st rest = rest st
popped_or key (err e) st rest = (thrown e, st)

unfoldable pub pop_keys : Outcome → ℤ → Kind → List Bytes → State → Outcome × State
unfolding popped_or
pop_keys otherwise now kind [] st = (otherwise, st)
pop_keys otherwise now kind (key ∷ keys) st =
    let (r, st') = pop_for now kind key st in popped_or key r st' (pop_keys otherwise now kind keys)

-- `context` says whether the handler is given one.
pop_or_block : Bool → ℤ → Kind → ℤ → List Bytes → State → Outcome × State
pop_or_block context now kind timeout keys st =
    let (refused, st') = any_other_type now keys st in
    let waits = if context then block keys kind timeout else no_context in
    let popped = pop_keys waits now kind keys st' in
    if refused then (thrown wrong_type, st') else popped

with_timeout : Bool → ℤ → Kind → List Bytes → Option ℤ → State → Outcome × State
with_timeout context now kind keys none st = (bad_timeout, st)
with_timeout context now kind keys (some (negsuc n)) st = (bad_timeout, st)
with_timeout context now kind keys (some (pos n)) st = pop_or_block context now kind (pos n) keys st

-- `handleBlpop` and `handleBrpop` differ in the kind.
unfoldable pub handle_blocking_pop : Kind → Bool → ℤ → List Bytes → State → Outcome × State
unfolding parse_timeout pop_or_block with_timeout
handle_blocking_pop kind context now (a ∷ b ∷ args) st =
    let (keys, last) = split_last a (b ∷ args) in
    with_timeout context now kind keys (parse_timeout last) st
handle_blocking_pop kind context now _ st = (wrong_arguments, st)

-- What the connection does with `{ block }`: it answers with an error, or it pauses until `resolve`.
pub data Blocked : Type 0 where
  not_available paused : Blocked
  refused : Refusal → Blocked

registered : Served → Option Refusal × Manager → Blocked × Served
registered sv (none, m) = (paused, record sv { manager = some m })
registered sv (some e, m) = (refused e, record sv { manager = some m })

unfoldable pub block_client : Limits → ℤ → Bytes → List Bytes → Kind → ℤ → Served → Blocked × Served
unfolding registered
block_client limits now connection keys kind timeout sv = elim sv.manager [
  | none ↦ (not_available, sv)
  | some m ↦ registered sv (register_waiter limits now keys kind timeout connection m)
]
