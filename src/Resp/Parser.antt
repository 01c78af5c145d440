-- ===== src/Resp/Parser.antt =====
-- src/resp/parser.js: `tryParseValue` and the class `RESPReader`.
-- `utf8` is what `toString('utf8')` makes of a line: its UTF-8 bytes, U+FFFD put for malformed ones.
-- An offset is an integer or NaN, `none`.
use resplite.Base.{
  ℕ, zero, suc, ◌+◌, ◌-◌, Bool, true, false, ◌&&◌, List, [], ◌∷◌, ◌++◌, Option, none, some, Bytes,
  length, take, drop, nat_eq, ◌==◌, if◌then◌else◌,
}
use resplite.Base.Int.{ℤ, pos, negsuc, ◌+ℤ◌, ltb_ℤ}
use resplite.Resp.Decimal.{parse_int, ascii}
use resplite.Resp.Value.{
  Value, Items, null, number, string, buffer, simple, error, array, nil, cons, number_text,
}

-- `parsed value end`; `incomplete` is the answer `null`; the model ran out of fuel in `unfinished`.
pub data Parsed : Type 0 where
  unfinished incomplete : Parsed
  parsed : Value → Option ℤ → Parsed

unfoldable pub starts_lf : Bytes → Bool
starts_lf [] = false
starts_lf (b ∷ s) = b == 10

abbrev pub map_suc : Option ℕ → Option ℕ
map_suc none = none
map_suc (some n) = some (suc n)

-- The place of the first CRLF.
unfoldable pub find_crlf : Bytes → Option ℕ
unfolding starts_lf
find_crlf [] = none
find_crlf (a ∷ s) = elim (a == 13 && starts_lf s) [ true ↦ some 0 | false ↦ map_suc (find_crlf s) ]

-- `buf.subarray(start, end)`: a negative end counts from the end of the buffer.
unfoldable pub subarray : Bytes → ℕ → ℤ → Bytes
subarray buf start (pos end_) = take (end_ - start) (drop start buf)
subarray buf start (negsuc n) = take (length buf - suc n - start) (drop start buf)

-- A bulk string whose length line reads `len`.
unfoldable pub parse_bulk : Bytes → ℕ → Option ℤ → Parsed
unfolding subarray ◌+ℤ◌
parse_bulk buf start none = parsed (buffer []) none
parse_bulk buf start (some (negsuc zero)) = parsed null (some (pos start))
parse_bulk buf start (some len) =
    if ltb_ℤ (pos (length buf)) (pos start +ℤ len +ℤ pos 2)
    then incomplete
    else parsed (buffer (subarray buf start (pos start +ℤ len))) (some (pos start +ℤ len +ℤ pos 2))

-- `arr.push`
unfoldable pub push : Items → Value → Items
push nil v = cons v nil
push (cons u vs) v = cons u (push vs v)

-- Nothing starts at an offset that is negative or NaN.
unfoldable pub parse_at : (ℕ → Parsed) → Option ℤ → Parsed
parse_at parse (some (pos i)) = parse i
parse_at parse _ = incomplete

-- The loop over the items, of which `n` are left.
unfoldable pub parse_items : (ℕ → Parsed) → ℕ → Items → Option ℤ → Parsed
parse_items parse zero arr i = parsed (array arr) i
parse_items parse (suc n) arr i = elim (parse_at parse i) [
  | unfinished ↦ unfinished
  | incomplete ↦ incomplete
  | parsed v end_ ↦ parse_items parse n (push arr v) end_
]

-- The rounds of `for (let k = 0; k < count; k++)`.
unfoldable pub rounds : Option ℤ → ℕ
rounds (some (pos n)) = n
rounds _ = 0

unfoldable pub parse_array : (ℕ → Parsed) → Option ℤ → ℕ → Parsed
parse_array parse (some (negsuc zero)) i = parsed null (some (pos i))
parse_array parse n i = parse_items parse (rounds n) nil (some (pos i))

-- A value of the type `c`, whose first line is `line`; `i` is the offset behind that line.
unfoldable pub parse_typed : (Bytes → Bytes) → (ℕ → Parsed) → Bytes → ℕ → Bytes → ℕ → Parsed
unfolding parse_bulk parse_array
parse_typed utf8 parse buf c line i =
    if c == b'+'
    then parsed (string (utf8 line)) (some (pos i))
    else if c == b'-'
    then parsed (error (utf8 line)) (some (pos i))
    else if c == b':'
    then parsed (number (parse_int (ascii line))) (some (pos i))
    else if c == b'$'
    then parse_bulk buf i (parse_int (ascii line))
    else if c == b'*'
    then parse_array parse (parse_int (ascii line)) i
    else incomplete

-- The same, of a line that ends at the place `n` of `s`, when it does.
unfoldable pub parse_behind :
    (Bytes → Bytes) → (ℕ → Parsed) → Bytes → ℕ → ℕ → Bytes → Option ℕ → Parsed
unfolding parse_typed
parse_behind utf8 parse buf i c s none = incomplete
parse_behind utf8 parse buf i c s (some n) = parse_typed utf8 parse buf c (take n s) (i + 1 + n + 2)

-- `tryParseValue`, to a depth of `fuel`, of a buffer that shows `c ∷ s` from the offset `i` on.
unfoldable pub parse_line : (Bytes → Bytes) → (ℕ → Parsed) → Bytes → ℕ → Bytes → Parsed
unfolding find_crlf parse_behind
parse_line utf8 parse buf i [] = incomplete
parse_line utf8 parse buf i (c ∷ s) = parse_behind utf8 parse buf i c s (find_crlf s)

unfoldable pub try_parse_value : (Bytes → Bytes) → ℕ → Bytes → ℕ → Parsed
try_parse_value utf8 zero buf i = unfinished
try_parse_value utf8 (suc fuel) buf i =
    parse_line utf8 (try_parse_value utf8 fuel buf) buf i (drop i buf)

-- `RESPReader`: its buffer.
unfoldable pub feed : Bytes → Bytes → Bytes
feed buf chunk = buf ++ chunk

-- `this.buffer.subarray(end)`
unfoldable pub subarray_from : Bytes → Option ℤ → Bytes
subarray_from buf none = buf
subarray_from buf (some (pos n)) = drop n buf
subarray_from buf (some (negsuc n)) = drop (length buf - suc n) buf

-- `parseOne`: the value, when there is one, and the buffer left; `none` when the fuel ran out.
unfoldable pub parse_one : (Bytes → Bytes) → ℕ → Bytes → Option (Option Value × Bytes)
parse_one utf8 fuel buf = elim (try_parse_value utf8 fuel buf 0) [
  | unfinished ↦ none
  | incomplete ↦ some (none, buf)
  | parsed v end_ ↦ some (some v, subarray_from buf end_)
]

abbrev pub object_text : Bytes
object_text =
    b'[' ∷ b'o' ∷ b'b' ∷ b'j' ∷ b'e' ∷ b'c' ∷ b't' ∷ b' ' ∷ b'O' ∷ b'b' ∷ b'j' ∷ b'e' ∷ b'c' ∷ b't'
    ∷ b']' ∷ []

-- `String(v)`: an error object prints as `[object Object]`, an array as its items between commas, null as
-- nothing.
unfoldable mutual
  pub string_of : (Bytes → Bytes) → Value → Bytes
  string_of utf8 null = []
  string_of utf8 (number n) = number_text n
  string_of utf8 (string s) = s
  string_of utf8 (buffer b) = utf8 b
  string_of utf8 (simple s) = object_text
  string_of utf8 (error s) = object_text
  string_of utf8 (array vs) = join utf8 vs

  pub join : (Bytes → Bytes) → Items → Bytes
  join utf8 nil = []
  join utf8 (cons v nil) = string_of utf8 v
  join utf8 (cons v (cons u vs)) = string_of utf8 v ++ b',' ∷ join utf8 (cons u vs)

-- An argument of a command: a buffer as it is, else the bytes of `String(v)`, and nothing for null.
unfoldable pub arg_of : (Bytes → Bytes) → Value → Bytes
unfolding string_of
arg_of utf8 (buffer b) = b
arg_of utf8 v = string_of utf8 v

unfoldable pub args_of : (Bytes → Bytes) → Items → List Bytes
args_of utf8 nil = []
args_of utf8 (cons v vs) = arg_of utf8 v ∷ args_of utf8 vs

-- `parseCommands`, in `n` rounds at most; `none` when they or the fuel ran out.
unfoldable pub parse_commands :
    (Bytes → Bytes) → ℕ → ℕ → List (List Bytes) → Bytes → Option (List (List Bytes) × Bytes)
parse_commands utf8 fuel zero commands buf = none
parse_commands utf8 fuel (suc n) commands buf = elim (try_parse_value utf8 fuel buf 0) [
  | unfinished ↦ none
  | incomplete ↦ some (commands, buf)
  | parsed (array vs) end_ ↦
      parse_commands utf8 fuel n (commands ++ args_of utf8 vs ∷ []) (subarray_from buf end_)
  | parsed _ end_ ↦ parse_commands utf8 fuel n commands (subarray_from buf end_)
]
