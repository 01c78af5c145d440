-- ===== src/PubSub/Glob/Decides.antt =====
-- src/pubsub/match.js: the backtracking loop finds a match whenever there is one.
use resplite.Base.{
  ℕ, zero, suc, ◌+◌, ◌*◌, ◌≤◌, ◌<◌, ◌≡◌, refl, ◌∙◌, sym, ap, Bool, true, false, ◌&&◌, ◌||◌, none,
  some, List, [], ◌∷◌, Bytes, if◌then◌else◌, length, arith, inl, inr, Bool-cases,
}
use resplite.PubSub.Glob.{
  Token, star, any, invalid, literal, class, token_matches, only_stars, Star, back_to_star,
  match_loop, match_tokens,
}

-- What it means for a value to match, with no search order: a star stands for any run of bytes,
-- every other token for one byte that it accepts.
unfoldable pub glob_spec : List Token → Bytes → Bool
glob_spec [] [] = true
glob_spec [] (b ∷ v) = false
glob_spec (star ∷ ts) [] = glob_spec ts []
glob_spec (star ∷ ts) (b ∷ v) = glob_spec ts (b ∷ v) || glob_spec (star ∷ ts) v
glob_spec (t ∷ ts) [] = false
glob_spec (t ∷ ts) (b ∷ v) = token_matches t b && glob_spec ts v

only_stars-spec : (ts : List Token) → only_stars ts ≡ glob_spec ts []
unfolding only_stars glob_spec
only_stars-spec [] = refl
only_stars-spec (star ∷ ts) = only_stars-spec ts
only_stars-spec (_ ∷ ts) = refl

star_skips : (ts : List Token) (v : Bytes) → glob_spec ts v ≡ true → glob_spec (star ∷ ts) v ≡ true
unfolding glob_spec
star_skips ts [] h = h
star_skips ts (b ∷ v) h = rw h

two_stars : (ts : List Token) (v : Bytes) → glob_spec (star ∷ star ∷ ts) v ≡ glob_spec (star ∷ ts) v
unfolding glob_spec
two_stars ts [] = refl
two_stars ts (b ∷ v) = ground (arith, two_stars ts v)

-- Where a token other than a star stands behind a star, the rest matches after the first byte.
Drops : Token → Type 0
Drops t =
    (ts : List Token) (b : ℕ) (v : Bytes)
    → glob_spec (star ∷ t ∷ ts) (b ∷ v) ≡ true
    → glob_spec (star ∷ ts) v ≡ true

-- One token other than a star, as the specification reads it.
record IsByte (t : Token) : Type 0 where
  empty : (ts : List Token) → glob_spec (t ∷ ts) [] ≡ false
  byte :
      (ts : List Token) (b : ℕ) (v : Bytes)
      → glob_spec (t ∷ ts) (b ∷ v) ≡ token_matches t b && glob_spec ts v

step-star :
    (ts : List Token) (b : ℕ) (v : Bytes)
    → glob_spec (star ∷ ts) (b ∷ v) ≡ glob_spec ts (b ∷ v) || glob_spec (star ∷ ts) v
unfolding glob_spec
step-star ts b v = refl

end-star : (ts : List Token) → glob_spec (star ∷ ts) [] ≡ glob_spec ts []
unfolding glob_spec
end-star ts = refl

module _ (t : Token) (o : IsByte t) where
  byte_drops :
      (ts : List Token) (b : ℕ) (v : Bytes)
      → glob_spec (star ∷ t ∷ ts) (b ∷ v) ≡ true
      → glob_spec (star ∷ ts) v ≡ true
  byte_drops ts b [] =
      ground
        (arith, step-star (t ∷ ts) b [], end-star (t ∷ ts), o.empty ts, o.byte ts b [], end-star ts)
  byte_drops ts b (c ∷ v) = ground (
    arith,
    step-star (t ∷ ts) b (c ∷ v),
    o.byte ts b (c ∷ v),
    star_skips ts (c ∷ v),
    byte_drops ts c v,
    step-star ts c v,
  )

-- The answer that the loop owes: to the question at the last star, or to the one at hand.
answer : List Token → Bytes → Star → Bool
answer ts v none = glob_spec ts v
answer ts v (some (sts, sv)) = glob_spec (star ∷ sts) sv

-- Since the last star only tokens for one byte were passed: the text behind the star matches
-- exactly if what is left does, and a match with the star is one from here with a star in front.
abbrev Passed : List Token → Bytes → Star → Type 0
Passed ts v none = Unit
Passed ts v (some (sts, sv)) =
    (glob_spec sts sv ≡ glob_spec ts v)
    × (glob_spec (star ∷ sts) sv ≡ true → glob_spec (star ∷ ts) v ≡ true)

-- `k` is above the number of tokens. A round shortens the tokens, or the text at the star.
abbrev Fuel : ℕ → ℕ → List Token → Bytes → Star → Type 0
Fuel k f ts v none = (length ts < k) × (length v * k + length ts < f)
Fuel k f ts v (some (sts, sv)) =
    (length ts < k) × (length sv * k + length ts < f) × (length v ≤ length sv) × (length sts < k)

Loops : ℕ → ℕ → Type 0
Loops k f =
    (ts : List Token) (v : Bytes) (saved : Star)
    → Passed ts v saved
    → Fuel k f ts v saved
    → match_loop f ts v saved ≡ some (answer ts v saved)

-- A mismatch: back to the star, which takes one byte more.
back :
    (k f : ℕ) (ts : List Token) (b : ℕ) (v : Bytes) (saved : Star)
    → Loops k f
    → glob_spec ts (b ∷ v) ≡ false
    → Passed ts (b ∷ v) saved
    → Fuel k (suc f) ts (b ∷ v) saved
    → back_to_star saved (match_loop f) ≡ some (answer ts (b ∷ v) saved)
unfolding back_to_star answer Loops
back k f ts b v none loop miss p fuel = rw miss
back k f ts b v (some (sts, [])) loop miss p fuel = absurd (omega arith)
back k f ts b v (some (sts, c ∷ sv)) loop miss p fuel =
    let fuel' : Fuel k f sts sv (some (sts, sv)) = (fuel.3, omega arith, omega arith, fuel.3) in
    rw (step-star sts c sv, p.0, miss) (loop sts sv (some (sts, sv)) (refl, λ h. h) fuel')

answer-none : (ts : List Token) (v : Bytes) → answer ts v none ≡ glob_spec ts v
unfolding answer
answer-none ts v = refl

Passed-byte :
    (t : Token) (ts : List Token) (b : ℕ) (v : Bytes) (saved : Star)
    → IsByte t
    → token_matches t b ≡ true
    → Passed (t ∷ ts) (b ∷ v) saved
    → Passed ts v saved × (answer ts v saved ≡ answer (t ∷ ts) (b ∷ v) saved)
unfolding answer
Passed-byte t ts b v none o hit p = (tt, (rw (o.byte ts b v, hit)))
Passed-byte t ts b v (some (sts, sv)) o hit p =
    ((p.0 ∙ (rw (o.byte ts b v, hit)), λ h. byte_drops t o ts b v (p.1 h)), refl)

Fuel-byte :
    (k f : ℕ) (t : Token) (ts : List Token) (b : ℕ) (v : Bytes) (saved : Star)
    → Fuel k (suc f) (t ∷ ts) (b ∷ v) saved
    → Fuel k f ts v saved
Fuel-byte k f t ts b v none h = (omega arith, omega arith)
Fuel-byte k f t ts b v (some (sts, sv)) h = (omega arith, omega arith, omega arith, h.3)

-- A star: what is left behind it is now the question.
Passed-star :
    (ts : List Token) (v : Bytes) (saved : Star)
    → Passed (star ∷ ts) v saved
    → answer (star ∷ ts) v saved ≡ glob_spec (star ∷ ts) v
unfolding answer
Passed-star ts v none p = refl
Passed-star ts v (some (sts, sv)) p = ground (arith, p.0, p.1, two_stars ts v, star_skips sts sv)

Fuel-star :
    (k f : ℕ) (ts : List Token) (v : Bytes) (saved : Star)
    → Fuel k (suc f) (star ∷ ts) v saved
    → Fuel k f ts v (some (ts, v))
Fuel-star k f ts v none h = (omega arith, omega arith, omega arith, omega arith)
Fuel-star k f ts v (some (sts, sv)) h = (omega arith, grind arith, omega arith, omega arith)

end-answer :
    (ts : List Token) (saved : Star) → Passed ts [] saved → glob_spec ts [] ≡ answer ts [] saved
unfolding answer
end-answer ts none p = refl
end-answer ts (some (sts, sv)) p = ground (arith, p.0, p.1, end-star ts, star_skips sts sv)

round-byte :
    (k f : ℕ) (t : Token) (ts : List Token) (b : ℕ) (v : Bytes) (saved : Star)
    → Loops k f
    → IsByte t
    → Passed (t ∷ ts) (b ∷ v) saved
    → Fuel k (suc f) (t ∷ ts) (b ∷ v) saved
    → (if token_matches t b then match_loop f ts v saved else back_to_star saved (match_loop f))
      ≡ some (answer (t ∷ ts) (b ∷ v) saved)
unfolding Loops
round-byte k f t ts b v saved loop o p fuel = elim (Bool-cases (token_matches t b)) [
  | inl hit ↦
      let (p', same) = Passed-byte t ts b v saved o hit p in
      rw hit (loop ts v saved p' (Fuel-byte k f t ts b v saved fuel) ∙ ap some same)
  | inr miss ↦ rw miss (back k f (t ∷ ts) b v saved loop (rw (o.byte ts b v, miss)) p fuel)
]

any-IsByte : IsByte any
unfolding glob_spec
any-IsByte = record { empty = λ ts. refl; byte = λ ts b v. refl }

invalid-IsByte : IsByte invalid
unfolding glob_spec
invalid-IsByte = record { empty = λ ts. refl; byte = λ ts b v. refl }

literal-IsByte : (c : ℕ) → IsByte (literal c)
unfolding glob_spec
literal-IsByte c = record { empty = λ ts. refl; byte = λ ts b v. refl }

class-IsByte : (negate : Bool) (ranges : List (ℕ × ℕ)) → IsByte (class negate ranges)
unfolding glob_spec
class-IsByte negate ranges = record { empty = λ ts. refl; byte = λ ts b v. refl }

loops : (k f : ℕ) → Loops k f
unfolding match_loop Loops answer glob_spec
loops k zero ts v none p fuel = absurd (omega arith)
loops k zero ts v (some (sts, sv)) p fuel = absurd (omega arith)
loops k (suc f) ts [] saved p fuel = rw only_stars-spec (ap some (end-answer ts saved p))
loops k (suc f) [] (b ∷ v) saved p fuel = back k f [] b v saved (loops k f) refl p fuel
loops k (suc f) (star ∷ ts) (b ∷ v) saved p fuel =
    loops k f ts (b ∷ v) (some (ts, b ∷ v)) (refl, λ h. h) (Fuel-star k f ts (b ∷ v) saved fuel)
    ∙ ap some (sym (Passed-star ts (b ∷ v) saved p))
loops k (suc f) (any ∷ ts) (b ∷ v) saved p fuel =
    round-byte k f any ts b v saved (loops k f) any-IsByte p fuel
loops k (suc f) (invalid ∷ ts) (b ∷ v) saved p fuel =
    round-byte k f invalid ts b v saved (loops k f) invalid-IsByte p fuel
loops k (suc f) (literal c ∷ ts) (b ∷ v) saved p fuel =
    round-byte k f (literal c) ts b v saved (loops k f) (literal-IsByte c) p fuel
loops k (suc f) (class n r ∷ ts) (b ∷ v) saved p fuel =
    round-byte k f (class n r) ts b v saved (loops k f) (class-IsByte n r) p fuel

-- The compiled matcher ends within its fuel, and answers true exactly if the value matches: going
-- back to the last star alone misses no match.
pub match_tokens-glob_spec :
    (tokens : List Token) (value : Bytes)
    → match_tokens tokens value ≡ some (glob_spec tokens value)
unfolding match_tokens Loops glob_spec answer
match_tokens-glob_spec tokens value =
    loops (length tokens + 1) _ tokens value none tt (omega arith, grind arith)
