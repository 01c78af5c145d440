-- ===== src/Commands/MultiPop.antt =====
-- src/commands/multi-pop-arguments.js: the arguments of LMPOP and ZMPOP and their blocking forms.
-- `text` is what `toString('utf8')` makes of a buffer and `upper` is `toUpperCase`; a text is its bytes.
pub mod Accepted
use resplite.Base.{
  ℕ, ◌+◌, ◌-◌, refl, Bool, true, false, ◌&&◌, ◌||◌, List, [], ◌∷◌, Bytes, if◌then◌else◌, bytes_eq,
  nat_eq, ◌==◌, length, take, drop, ltb, leb,
}
use resplite.Resp.Decimal.{is_digit, read_digits}

pub data ArgumentError : Type 0 where
  wrong_number_of_arguments numkeys_not_positive count_not_positive syntax_error : ArgumentError

pub record MultiPop : Type 0 where
  pub keys : List Bytes
  pub direction : Bytes
  pub count : ℕ

pub data Parse {ℓ} (A : Type ℓ) : Type ℓ where
  refused : ArgumentError → Parse A
  accepted : A → Parse A

abbrev max_safe_integer : ℕ
max_safe_integer = 9007199254740991

abbrev digits_only : Bytes → Bool
digits_only [] = true
digits_only (c ∷ s) = is_digit c && digits_only s

-- `\d+` up to the end
abbrev is_number : Bytes → Bool
is_number [] = false
is_number (c ∷ s) = digits_only (c ∷ s)

unfoldable pub unsigned : ArgumentError → Bytes → Parse ℕ
unfolding is_digit read_digits
unsigned e raw =
    let value = read_digits 0 raw in
    if is_number raw && leb 1 value && leb value max_safe_integer then accepted value else refused e

-- `parsePositiveInteger`; what has a minus is an integer of 0 at most, or none at all.
unfoldable pub parse_positive_integer : ArgumentError → Bytes → Parse ℕ
unfolding unsigned
parse_positive_integer e [] = refused e
parse_positive_integer e (c ∷ s) =
    if c == b'-' then refused e else if c == b'+' then unsigned e s else unsigned e (c ∷ s)

abbrev count_word : Bytes
count_word = b'C' ∷ b'O' ∷ b'U' ∷ b'N' ∷ b'T' ∷ []

-- `directions.includes(direction)`
unfoldable pub includes : Bytes → List Bytes → Bool
includes d [] = false
includes d (x ∷ xs) = x == d || includes d xs

module _ (text upper : Bytes → Bytes) where
  -- What stands behind the direction.
  unfoldable pub parse_count : List Bytes → Parse ℕ
  unfolding parse_positive_integer
  parse_count [] = accepted 1
  parse_count (word ∷ n ∷ []) =
      if upper (text word) == count_word
      then parse_positive_integer count_not_positive (text n)
      else refused syntax_error
  parse_count _ = refused syntax_error

  abbrev pub with_count : List Bytes → Bytes → Parse ℕ → Parse MultiPop
  with_count keys direction (refused e) = refused e
  with_count keys direction (accepted n) =
      accepted (record { keys = keys; direction = direction; count = n })

  -- The arguments from the direction on.
  unfoldable pub with_direction : List Bytes → List Bytes → List Bytes → Parse MultiPop
  unfolding includes parse_count
  with_direction directions keys [] = refused syntax_error
  with_direction directions keys (direction ∷ behind) =
      if includes (upper (text direction)) directions
      then with_count keys (upper (text direction)) (parse_count behind)
      else refused syntax_error

  abbrev pub with_numkeys : List Bytes → List Bytes → Parse ℕ → Parse MultiPop
  with_numkeys directions rest (refused e) = refused e
  with_numkeys directions rest (accepted n) = with_direction directions (take n rest) (drop n rest)

  unfoldable pub parse_multi_pop_arguments : List Bytes → List Bytes → Parse MultiPop
  unfolding with_direction parse_positive_integer
  parse_multi_pop_arguments directions [] = refused wrong_number_of_arguments
  parse_multi_pop_arguments directions (numkeys ∷ rest) =
      if ltb (length rest) 2
      then refused wrong_number_of_arguments
      else with_numkeys directions rest (parse_positive_integer numkeys_not_positive (text numkeys))
