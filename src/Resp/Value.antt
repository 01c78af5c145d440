-- ===== src/Resp/Value.antt =====
-- src/resp/encoder.js: the values of the protocol and their encodings.  A JavaScript string stands as
-- its UTF-8 bytes, a number is an integer or NaN; a value that `encode` throws on is not a `Value`.
use resplite.Base.{ℕ, suc, [], ◌∷◌, ◌++◌, Option, none, some, Bytes, length}
use resplite.Base.Int.{ℤ, pos}
use resplite.Resp.Decimal.{print_int}

-- `simple` and `error` are the objects `{ simple }` and `{ error }`; `number none` is NaN.
mutual
  pub data Value : Type 0 where
    null : Value
    number : Option ℤ → Value
    string : Bytes → Value
    buffer : Bytes → Value
    simple : Bytes → Value
    error : Bytes → Value
    array : Items → Value

  pub data Items : Type 0 where
    nil : Items
    cons : Value → Items → Items

unfoldable pub count : Items → ℕ
count nil = 0
count (cons v vs) = suc (count vs)

abbrev pub crlf : Bytes
crlf = 13 ∷ 10 ∷ []

-- The line of a length or a count, and what follows it.
abbrev pub header : ℕ → ℕ → Bytes → Bytes
header c n s = c ∷ (print_int (pos n) ++ (crlf ++ s))

-- `String(value)` of NaN or of a safe integer, which prints all its digits.  The numbers that the program
-- encodes are counts, lengths, times and sums; of one beyond 2^53 `String` prints a rounded decimal, or an
-- exponent, which is not modelled.
unfoldable pub number_text : Option ℤ → Bytes
number_text none = b'N' ∷ b'a' ∷ b'N' ∷ []
number_text (some z) = print_int z

unfoldable pub encode_simple_string : Bytes → Bytes
encode_simple_string s = b'+' ∷ s ++ crlf

unfoldable pub encode_error : Bytes → Bytes
encode_error message = b'-' ∷ message ++ crlf

unfoldable pub encode_integer : Option ℤ → Bytes
encode_integer n = b':' ∷ number_text n ++ crlf

abbrev pub null_bulk : Bytes
null_bulk = b'$' ∷ b'-' ∷ b'1' ∷ crlf

-- `none` is null and undefined.
unfoldable pub encode_bulk : Option Bytes → Bytes
encode_bulk none = null_bulk
encode_bulk (some buf) = header b'$' (length buf) (buf ++ crlf)

unfoldable mutual
  pub encode : Value → Bytes
  encode null = null_bulk
  encode (number n) = encode_integer n
  encode (string s) = encode_bulk (some s)
  encode (buffer b) = encode_bulk (some b)
  encode (simple s) = encode_simple_string s
  encode (error s) = encode_error s
  encode (array vs) = header b'*' (count vs) (encode_items vs)

  pub encode_items : Items → Bytes
  encode_items nil = []
  encode_items (cons v vs) = encode v ++ encode_items vs

unfoldable pub encode_array : Items → Bytes
encode_array vs = header b'*' (count vs) (encode_items vs)
