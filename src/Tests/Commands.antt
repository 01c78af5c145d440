-- ===== src/Tests/Commands.antt =====
-- Runs of src/commands on small inputs, and inputs for its theorems.
use resplite.Base.{
  ◌-◌, ◌≡◌, refl, ◌&&◌, List, [], ◌∷◌, map, Bytes, arith, leb, if◌then◌else◌, bytes_beq,
}
use resplite.Resp.Decimal.{read_digits, is_digit}
use resplite.Commands.MultiPop.{
  MultiPop, accepted, parse_multi_pop_arguments, with_direction, includes, parse_count,
  parse_positive_integer, unsigned,
}
use resplite.Commands.MultiPop.Accepted.{
  arguments_of, parse_multi_pop_arguments-arguments_of, Taken, parse_multi_pop_arguments-Taken,
}

abbrev same : Bytes → Bytes
same s = s

-- `toUpperCase` on ASCII
abbrev upper : Bytes → Bytes
upper s = map (λ c. if leb b'a' c && leb c b'z' then c - 32 else c) s

abbrev left_word : Bytes
left_word = b'L' ∷ b'E' ∷ b'F' ∷ b'T' ∷ []

abbrev directions : List Bytes
directions = left_word ∷ (b'R' ∷ b'I' ∷ b'G' ∷ b'H' ∷ b'T' ∷ []) ∷ []

abbrev two_keys : MultiPop
two_keys = record { keys = (b'a' ∷ []) ∷ (b'b' ∷ []) ∷ []; direction = left_word; count = 12 }

parse_multi_pop_arguments-arguments_of_example :
    parse_multi_pop_arguments same upper directions (arguments_of same upper two_keys)
    ≡ accepted two_keys
unfolding includes bytes_beq
parse_multi_pop_arguments-arguments_of_example =
    parse_multi_pop_arguments-arguments_of same upper directions two_keys (λ n. refl) refl refl refl
      (omega arith) (omega arith) (omega arith) (omega arith)

-- `+1 a left`
abbrev small_letters : List Bytes
small_letters = (b'+' ∷ b'1' ∷ []) ∷ (b'a' ∷ []) ∷ (b'l' ∷ b'e' ∷ b'f' ∷ b't' ∷ []) ∷ []

abbrev one_key : MultiPop
one_key = record { keys = (b'a' ∷ []) ∷ []; direction = left_word; count = 1 }

small_letters_accepted :
    parse_multi_pop_arguments same upper directions small_letters ≡ accepted one_key
unfolding parse_multi_pop_arguments with_direction includes bytes_beq parse_count
    parse_positive_integer unsigned read_digits is_digit
small_letters_accepted = refl

parse_multi_pop_arguments-Taken_example : Taken same upper directions small_letters one_key
parse_multi_pop_arguments-Taken_example =
    parse_multi_pop_arguments-Taken same upper directions small_letters one_key
      small_letters_accepted
