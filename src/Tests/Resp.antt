-- ===== src/Tests/Resp.antt =====
-- Runs of src/resp on small inputs, and inputs for its theorems.
use resplite.Base.{
  ◌+◌, ◌≡◌, refl, some, List, [], ◌∷◌, ◌++◌, Bytes, length, arith, take, drop, take-append-drop, ap,
  ◌∙◌,
}
use mathlib.Core.List.{append-nil}
use resplite.Base.Int.{pos, negsuc, ◌+ℤ◌}
use resplite.Resp.Decimal.{parse_int, ascii, read_signed, read_nat, read_digits}
use resplite.Resp.Value.{
  Value, null, number, string, simple, error, array, buffer, nil, cons, encode, encode_error,
}
use resplite.Resp.Parser.{
  parsed, incomplete, try_parse_value, parse_line, find_crlf, parse_typed, parse_bulk, subarray,
  parse_behind, starts_lf,
}
use resplite.Resp.RoundTrip.{decoded, IsPlain, HasSafeNumbers, try_parse_value-encode}
use resplite.Resp.Prefixes.{try_parse_value_prefix}
use resplite.Resp.Requests.{requests}
use resplite.Resp.Chunks.{receive, receive-requests}

parse_int_spaces : parse_int (32 ∷ b'+' ∷ b'4' ∷ b'2' ∷ b'x' ∷ []) ≡ some (pos 42)
unfolding parse_int read_signed read_nat read_digits
parse_int_spaces = refl

-- Every text is well formed.
abbrev same : Bytes → Bytes
same s = s

abbrev nested : Value
nested = array (
    cons (simple (b'O' ∷ b'K' ∷ [])) (
      cons (array (cons (number (some (negsuc 4))) nil))
        (cons (string (13 ∷ 10 ∷ [])) (cons null nil))))

nested-IsPlain : IsPlain same nested
unfolding IsPlain
nested-IsPlain = (((refl, (refl, tt)), refl), ((tt, tt), (tt, (tt, tt))))

nested-HasSafeNumbers : HasSafeNumbers nested
unfolding HasSafeNumbers
nested-HasSafeNumbers = (tt, (((omega arith, omega arith), tt), (tt, (tt, tt))))

try_parse_value-encode_example :
    try_parse_value same 4 ((b':' ∷ []) ++ (encode nested ++ (b'$' ∷ []))) 1
    ≡ parsed (decoded nested) (some (pos (1 + length (encode nested))))
try_parse_value-encode_example =
    try_parse_value-encode same 4 nested (b':' ∷ []) (b'$' ∷ []) (omega arith) nested-IsPlain
      nested-HasSafeNumbers

-- `-OK` and a carriage return.
try_parse_value_prefix_example :
    try_parse_value same 1 (b'-' ∷ b'O' ∷ b'K' ∷ 13 ∷ []) 0 ≡ incomplete
unfolding IsPlain encode encode_error
try_parse_value_prefix_example =
    try_parse_value_prefix same 1 (error (b'O' ∷ b'K' ∷ [])) (b'-' ∷ b'O' ∷ b'K' ∷ 13 ∷ [])
      (10 ∷ []) (omega arith) ((refl, (refl, tt)), refl) refl (omega arith)

abbrev ping_get : List (List Bytes)
ping_get =
    ((b'P' ∷ b'I' ∷ b'N' ∷ b'G' ∷ []) ∷ []) ∷ ((b'G' ∷ b'E' ∷ b'T' ∷ []) ∷ (13 ∷ 10 ∷ []) ∷ []) ∷ []

-- Cut behind `*1`, before the end of the line.
abbrev cut : List Bytes
cut = take 2 (requests ping_get) ∷ drop 2 (requests ping_get) ∷ []

receive-requests_example : receive same 2 3 cut [] ≡ some (ping_get, [])
unfolding try_parse_value parse_line
receive-requests_example =
    receive-requests same 2 3 cut ping_get [] (omega arith) (omega arith) refl (
      ap (◌++◌ (take 2 (requests ping_get))) (append-nil (drop 2 (requests ping_get)))
      ∙ take-append-drop 2 (requests ping_get))

-- A bulk length below -1 is taken; the value ends where it began, so that nothing is consumed.
negative_length :
    try_parse_value same 1 (b'$' ∷ b'-' ∷ b'7' ∷ 13 ∷ 10 ∷ []) 0 ≡ parsed (buffer []) (some (pos 0))
unfolding try_parse_value parse_line parse_behind starts_lf find_crlf parse_typed parse_bulk
    subarray ◌+ℤ◌ ascii parse_int read_signed read_nat read_digits
negative_length = refl
