-- ===== src/PubSub/Glob.antt =====
-- src/pubsub/match.js: binary glob patterns, compiled to tokens and matched with star backtracking.
-- An index into the pattern, the tokens or the value is what is left from it on.
pub mod Tokens
pub mod Decides
pub mod Escaped
use resplite.Base.{
  ℕ, zero, suc, ◌+◌, ◌*◌, Bool, true, false, not, ◌&&◌, ◌||◌, Option, none, some, List, [], ◌∷◌,
  ◌++◌, Bytes, if◌then◌else◌, ◌==◌, nat_eq, leb, length,
}
use Prim.Native.Nat.{min, max}

pub data Token : Type 0 where
  star any invalid : Token
  literal : ℕ → Token
  class : Bool → List (ℕ × ℕ) → Token

-- `readClassByte` at a byte and what follows it: the byte read, and what is left.
read_class_byte : ℕ → Bytes → ℕ × Bytes
read_class_byte b [] = (b, [])
read_class_byte b (c ∷ rest) = if b == 0x5c then (c, rest) else (b, c ∷ rest)

-- The `if` in the loop of `parseCharacterClass`: a range, or the byte alone.
class_range : ℕ → Bytes → (ℕ × ℕ) × Bytes
class_range first (d ∷ c ∷ rest) =
    let (last, rest') = read_class_byte c rest in
    if (d == 0x2d) && not (c == 0x5d)
    then ((min first last, max first last), rest')
    else ((first, first), d ∷ c ∷ rest)
class_range first rest = ((first, first), rest)

-- The loop of `parseCharacterClass`, up to the closing bracket or the end; `none`: out of fuel.
class_ranges : ℕ → Bytes → List (ℕ × ℕ) → Option (List (ℕ × ℕ) × Bytes)
class_ranges fuel [] ranges = some (ranges, [])
class_ranges zero (b ∷ rest) ranges = none
class_ranges (suc fuel) (b ∷ rest) ranges =
    let (first, after) = read_class_byte b rest in
    let (range, left) = class_range first after in
    let more = class_ranges fuel left (ranges ++ range ∷ []) in
    if b == 0x5d then some (ranges, b ∷ rest) else more

class_token : Bool → List (ℕ × ℕ) × Bytes → Token × Bytes
class_token negate (ranges, []) = (invalid, [])
class_token negate (ranges, b ∷ rest) = (class negate ranges, rest)

class_body : Bool → ℕ → Bytes → Option (Token × Bytes)
class_body negate fuel rest = elim (class_ranges fuel rest []) [
  | none ↦ none
  | some r ↦ some (class_token negate r)
]

parse_character_class : ℕ → Bytes → Option (Token × Bytes)
parse_character_class fuel [] = class_body false fuel []
parse_character_class fuel (b ∷ rest) =
    if b == 0x5e then class_body true fuel rest else class_body false fuel (b ∷ rest)

ends_in_star : List Token → Bool
ends_in_star [] = false
ends_in_star (star ∷ []) = true
ends_in_star (_ ∷ []) = false
ends_in_star (_ ∷ t ∷ ts) = ends_in_star (t ∷ ts)

-- The last two statements of the loop of `tokenize`.
literal_token : ℕ → Bytes → Token × Bytes
literal_token b [] = (literal b, [])
literal_token b (c ∷ rest) = if b == 0x5c then (literal c, rest) else (literal b, c ∷ rest)

-- The loop of `tokenize`; `none`: out of fuel.
tokenize_from : ℕ → Bytes → List Token → Option (List Token)
tokenize_from fuel [] tokens = some tokens
tokenize_from zero (b ∷ rest) tokens = none
tokenize_from (suc fuel) (b ∷ rest) tokens =
    let starred =
      tokenize_from fuel rest (if ends_in_star tokens then tokens else tokens ++ star ∷ []) in
    let any_byte = tokenize_from fuel rest (tokens ++ any ∷ []) in
    let class_then : Option (List Token) = elim (parse_character_class fuel rest) [
      | none ↦ none
      | some r ↦ tokenize_from fuel r.1 (tokens ++ r.0 ∷ [])
    ] in
    let (token, left) = literal_token b rest in
    let plain = tokenize_from fuel left (tokens ++ token ∷ []) in
    if b == 0x2a
    then starred
    else if b == 0x3f
    then any_byte
    else if b == 0x5b
    then class_then
    else plain

unfoldable pub tokenize : Bytes → Option (List Token)
unfolding tokenize_from literal_token ends_in_star parse_character_class class_body class_token
    class_ranges class_range read_class_byte
tokenize pattern = tokenize_from (length pattern) pattern []

in_ranges : List (ℕ × ℕ) → ℕ → Bool
in_ranges [] byte = false
in_ranges ((start, end) ∷ ranges) byte = (leb start byte && leb byte end) || in_ranges ranges byte

unfoldable pub token_matches : Token → ℕ → Bool
unfolding in_ranges
token_matches any byte = true
token_matches (literal b) byte = b == byte
token_matches (class negate ranges) byte =
    if negate then not (in_ranges ranges byte) else in_ranges ranges byte
token_matches _ byte = false

-- The last loop, and the final test.
unfoldable pub only_stars : List Token → Bool
only_stars [] = true
only_stars (star ∷ ts) = only_stars ts
only_stars (_ ∷ ts) = false

-- `starIndex` and `starValueIndex`: the tokens after the star, and the value from it on.
abbrev pub Star : Type 0
Star = Option (List Token × Bytes)

-- The third branch of the loop, and `return false`. A star is only met within the value, and so
-- its text is never empty here; `none` otherwise.
back_to_star : Star → (List Token → Bytes → Star → Option Bool) → Option Bool
back_to_star none next = some false
back_to_star (some (after, [])) next = none
back_to_star (some (after, _ ∷ value)) next = next after value (some (after, value))

-- The loop of the compiled matcher; `none`: out of fuel.
match_loop : ℕ → List Token → Bytes → Star → Option Bool
match_loop zero tokens value saved = none
match_loop (suc fuel) tokens [] saved = some (only_stars tokens)
match_loop (suc fuel) [] (b ∷ value) saved = back_to_star saved (match_loop fuel)
match_loop (suc fuel) (star ∷ ts) (b ∷ value) saved =
    match_loop fuel ts (b ∷ value) (some (ts, b ∷ value))
match_loop (suc fuel) (t ∷ ts) (b ∷ value) saved =
    let onward = match_loop fuel ts value saved in
    if token_matches t b then onward else back_to_star saved (match_loop fuel)

unfoldable pub match_tokens : List Token → Bytes → Option Bool
unfolding match_loop back_to_star only_stars token_matches
match_tokens tokens value = match_loop ((length value + 1) * (length tokens + 1)) tokens value none

unfoldable pub match_pub_sub_pattern : Bytes → Bytes → Option Bool
unfolding tokenize match_tokens
match_pub_sub_pattern pattern value = elim (tokenize pattern) [
  | none ↦ none
  | some tokens ↦ match_tokens tokens value
]
