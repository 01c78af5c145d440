-- ===== src/Commands/Lists.antt =====
-- src/commands: lpush.js, rpush.js, llen.js, lrange.js, lindex.js, lpop.js, rpop.js, lrem.js, lset.js,
-- ltrim.js and lmpop.js.  `parse` is what `parseInt` makes of an argument, `none` is NaN; the
-- message of an exception is the exception.
use resplite.Base.{suc, Option, none, some, List, [], ◌∷◌, Bytes}
use resplite.Base.Int.{ℤ, pos}
use resplite.Storage.{Error, Result, ok, err}
use resplite.Storage.Lists.Removes.{Popped, null, one, many}
use resplite.Resp.Value
use resplite.Resp.Value.{Value, Items}
use resplite.Engine.Strings.{State}
use resplite.Engine.Lists
use resplite.Engine.Lists.Served
use resplite.Engine.Lists.{ListLimits, Taken}
use resplite.Engine.Lists.Served.{Served}
use resplite.Commands.MultiPop.{refused, accepted, ArgumentError, parse_multi_pop_arguments}

-- What a handler returns: an object `{ error }`, or a value.
pub data Answer : Type 0 where
  wrong_arguments : Answer
  bad_arguments : ArgumentError → Answer
  thrown : Error → Answer
  value : Value → Answer

abbrev pub buffers : List Bytes → Items
buffers [] = Value.nil
buffers (v ∷ vs) = Value.cons (Value.buffer v) (buffers vs)

abbrev pub nullable : Option Bytes → Value
nullable none = Value.null
nullable (some v) = Value.buffer v

abbrev pub popped_value : Popped → Value
popped_value null = Value.null
popped_value (one v) = Value.buffer v
popped_value (many vs) = Value.array (buffers vs)

abbrev pub taken_value : Taken → Value
taken_value none = Value.null
taken_value (some (key, vs)) =
    Value.array (Value.cons (Value.buffer key) (Value.cons (Value.array (buffers vs)) Value.nil))

-- "OK"
abbrev pub done : Unit {0} → Value
done _ = Value.simple (b'O' ∷ b'K' ∷ [])

abbrev pub integer : ℤ → Value
integer n = Value.number (some n)

-- `try { return … } catch`
abbrev pub answered : {A S : Type 0} → (A → Value) → Result A × S → Answer × S
answered shape (ok a, st) = (value (shape a), st)
answered shape (err e, st) = (thrown e, st)

unfoldable pub handle_lpush : ℤ → List Bytes → Served → Answer × Served
handle_lpush now (key ∷ v ∷ vs) sv = answered integer (Served.lpush now key (v ∷ vs) sv)
handle_lpush now _ sv = (wrong_arguments, sv)

unfoldable pub handle_rpush : ℤ → List Bytes → Served → Answer × Served
handle_rpush now (key ∷ v ∷ vs) sv = answered integer (Served.rpush now key (v ∷ vs) sv)
handle_rpush now _ sv = (wrong_arguments, sv)

unfoldable pub handle_llen : ℤ → List Bytes → State → Answer × State
handle_llen now [] st = (wrong_arguments, st)
handle_llen now (key ∷ _) st = answered integer (Lists.llen now key st)

-- A count that is not a positive number is none.
abbrev pub positive_count : Option ℤ → Option ℤ
positive_count (some (pos (suc n))) = some (pos (suc n))
positive_count _ = none

module _ (parse : Bytes → Option ℤ) where
  abbrev pub count_argument : List Bytes → Option ℤ
  count_argument [] = none
  count_argument (arg ∷ _) = positive_count (parse arg)

  unfoldable pub handle_lrange : ListLimits → ℤ → List Bytes → State → Answer × State
  handle_lrange limits now (key ∷ start ∷ stop ∷ _) st =
      answered (λ vs. Value.array (buffers vs))
        (Lists.lrange limits now key (parse start) (parse stop) st)
  handle_lrange limits now _ st = (wrong_arguments, st)

  unfoldable pub handle_lindex : ℤ → List Bytes → State → Answer × State
  handle_lindex now (key ∷ index ∷ _) st = answered nullable (Lists.lindex now key (parse index) st)
  handle_lindex now _ st = (wrong_arguments, st)

  unfoldable pub handle_lpop : ℤ → List Bytes → State → Answer × State
  handle_lpop now [] st = (wrong_arguments, st)
  handle_lpop now (key ∷ args) st =
      answered popped_value (Lists.lpop now key (count_argument args) st)

  unfoldable pub handle_rpop : ℤ → List Bytes → State → Answer × State
  handle_rpop now [] st = (wrong_arguments, st)
  handle_rpop now (key ∷ args) st =
      answered popped_value (Lists.rpop now key (count_argument args) st)

  unfoldable pub handle_lrem : ℤ → List Bytes → State → Answer × State
  handle_lrem now (key ∷ count ∷ element ∷ _) st =
      answered (λ n. integer (pos n)) (Lists.lrem now key (parse count) element st)
  handle_lrem now _ st = (wrong_arguments, st)

  unfoldable pub handle_lset : ℤ → List Bytes → State → Answer × State
  handle_lset now (key ∷ index ∷ v ∷ _) st = answered done (Lists.lset now key (parse index) v st)
  handle_lset now _ st = (wrong_arguments, st)

  unfoldable pub handle_ltrim : ℤ → List Bytes → State → Answer × State
  handle_ltrim now (key ∷ start ∷ stop ∷ _) st =
      answered done (Lists.ltrim now key (parse start) (parse stop) st)
  handle_ltrim now _ st = (wrong_arguments, st)

-- "RIGHT"
abbrev right_word : Bytes
right_word = b'R' ∷ b'I' ∷ b'G' ∷ b'H' ∷ b'T' ∷ []

unfoldable pub handle_lmpop :
    (Bytes → Bytes) → (Bytes → Bytes) → ℤ → List Bytes → State → Answer × State
handle_lmpop text upper now args st =
    elim (parse_multi_pop_arguments text upper (Lists.left_word ∷ right_word ∷ []) args) [
      | refused e ↦ (bad_arguments e, st)
      | accepted p ↦ answered taken_value (Lists.lmpop now p.keys p.direction (pos p.count) st)
    ]
