-- ===== src/PubSub/Glob/Tokens.antt =====
-- src/pubsub/match.js: every pattern compiles, and a pattern whose bytes are all escaped is literal.
use resplite.Base.{
  ℕ, zero, suc, ◌≤◌, ◌≡◌, refl, Bool, true, false, Option, none, some, List, [], ◌∷◌, ◌++◌, Bytes,
  if◌then◌else◌, length, arith, inl, inr, Bool-cases, ◌==◌, nat_eq, bytes_eq,
}
use resplite.PubSub.Glob.{
  Token, read_class_byte, class_range, class_ranges, class_token, class_body, parse_character_class,
  literal_token, tokenize_from, tokenize, match_pub_sub_pattern,
}
use resplite.PubSub.Glob.Decides.{glob_spec, match_tokens-glob_spec}

-- Compiled, with no more than `n` bytes left.
abbrev Leaves {ℓ} : {A : Type ℓ} → ℕ → Option (A × Bytes) → Type 0
Leaves n none = ⊥
Leaves n (some (_, rest)) = length rest ≤ n

read_class_byte-le : (b : ℕ) (rest : Bytes) → length (read_class_byte b rest).1 ≤ length rest
unfolding read_class_byte
read_class_byte-le b [] = omega arith
read_class_byte-le b (c ∷ rest) = ground arith

class_range-le : (first : ℕ) (rest : Bytes) → length (class_range first rest).1 ≤ length rest
unfolding class_range
class_range-le first [] = omega arith
class_range-le first (d ∷ []) = omega arith
class_range-le first (d ∷ c ∷ rest) = ground (arith, read_class_byte-le c rest)

class_ranges-Leaves :
    (n fuel : ℕ) (rest : Bytes) (ranges : List (ℕ × ℕ))
    → length rest ≤ fuel
    → length rest ≤ n
    → Leaves n (class_ranges fuel rest ranges)
unfolding class_ranges
class_ranges-Leaves n fuel [] ranges h k = omega arith
class_ranges-Leaves n zero (b ∷ rest) ranges h k = absurd (omega arith)
class_ranges-Leaves n (suc fuel) (b ∷ rest) ranges h k =
    let (first, after) = read_class_byte b rest in
    let (range, left) = class_range first after in
    let fewer : length left ≤ length rest =
      omega (arith, read_class_byte-le b rest, class_range-le first after) in
    let more = class_ranges-Leaves n fuel left (ranges ++ range ∷ []) (omega arith) (omega arith) in
    elim (Bool-cases (b == 0x5d)) [ inl e ↦ rw e k | inr e ↦ rw e more ]

class_token-le :
    (n : ℕ) (negate : Bool) (ranges : List (ℕ × ℕ)) (rest : Bytes)
    → length rest ≤ n
    → length (class_token negate (ranges, rest)).1 ≤ n
unfolding class_token
class_token-le n negate ranges [] h = omega arith
class_token-le n negate ranges (b ∷ rest) h = omega arith

class_body-Leaves :
    (n : ℕ) (negate : Bool) (fuel : ℕ) (rest : Bytes)
    → length rest ≤ fuel
    → length rest ≤ n
    → Leaves n (class_body negate fuel rest)
unfolding class_body
class_body-Leaves n negate fuel rest h k =
    go (class_ranges fuel rest []) (class_ranges-Leaves n fuel rest [] h k)
  where
    go :
        (o : Option (List (ℕ × ℕ) × Bytes))
        → Leaves n o
        → Leaves n (elim o [ none ↦ none | some r ↦ some (class_token negate r) ])
    go none l = l
    go (some (ranges, left)) l = class_token-le n negate ranges left l

parse_character_class-Leaves :
    (fuel : ℕ) (rest : Bytes)
    → length rest ≤ fuel
    → Leaves (length rest) (parse_character_class fuel rest)
unfolding parse_character_class
parse_character_class-Leaves fuel [] h = class_body-Leaves 0 false fuel [] h (omega arith)
parse_character_class-Leaves fuel (b ∷ rest) h = elim (Bool-cases (b == 0x5e)) [
  | inl e ↦ rw e (class_body-Leaves _ true fuel rest (omega arith) (omega arith))
  | inr e ↦ rw e (class_body-Leaves _ false fuel (b ∷ rest) h (omega arith))
]

literal_token-le : (b : ℕ) (rest : Bytes) → length (literal_token b rest).1 ≤ length rest
unfolding literal_token
literal_token-le b [] = omega arith
literal_token-le b (c ∷ rest) = ground arith

abbrev Compiles : Option (List Token) → Type 0
Compiles o = (tokens : List Token) × (o ≡ some tokens)

if-Compiles :
    (c : Bool) (x y : Option (List Token)) → Compiles x → Compiles y → Compiles (if c then x else y)
if-Compiles true x y hx hy = hx
if-Compiles false x y hx hy = hy

tokenize_from-Compiles :
    (fuel : ℕ) (rest : Bytes) (tokens : List Token)
    → length rest ≤ fuel
    → Compiles (tokenize_from fuel rest tokens)
unfolding tokenize_from
tokenize_from-Compiles fuel [] tokens h = (tokens, refl)
tokenize_from-Compiles zero (b ∷ rest) tokens h = absurd (omega arith)
tokenize_from-Compiles (suc fuel) (b ∷ rest) tokens h =
    if-Compiles (b == 0x2a) _ _ (tokenize_from-Compiles fuel rest _ (omega arith)) (
      if-Compiles (b == 0x3f) _ _ (tokenize_from-Compiles fuel rest _ (omega arith)) (
        if-Compiles (b == 0x5b) _ _
          (go (parse_character_class fuel rest)
            (parse_character_class-Leaves fuel rest (omega arith))
            (λ t left le. tokenize_from-Compiles fuel left (tokens ++ t ∷ []) (omega arith)))
          (tokenize_from-Compiles fuel (literal_token b rest).1 _
            (omega (arith, literal_token-le b rest)))))
  where
    go :
        (o : Option (Token × Bytes))
        → Leaves (length rest) o
        → ((t : Token) (left : Bytes)
            → length left ≤ length rest
            → Compiles (tokenize_from fuel left (tokens ++ t ∷ [])))
        → Compiles (elim o [ none ↦ none | some r ↦ tokenize_from fuel r.1 (tokens ++ r.0 ∷ []) ])
    go none l k = absurd l
    go (some (t, left)) l k = k t left l

tokenize-Compiles : (pattern : Bytes) → Compiles (tokenize pattern)
unfolding tokenize
tokenize-Compiles pattern = tokenize_from-Compiles (length pattern) pattern [] (omega arith)

-- Every pattern compiles, and the compiled matcher answers as the specification of its tokens does.
pub match_pub_sub_pattern-total :
    (pattern : Bytes)
    → (tokens : List Token) × (tokenize pattern ≡ some tokens)
      × ((value : Bytes) → match_pub_sub_pattern pattern value ≡ some (glob_spec tokens value))
unfolding match_pub_sub_pattern
match_pub_sub_pattern-total pattern =
    let (tokens, e) = tokenize-Compiles pattern in
    (tokens, e, λ value. rw (e, match_pub_sub_pattern) (match_tokens-glob_spec tokens value))
