-- ===== src/PubSub/Glob/Escaped.antt =====
-- src/pubsub/match.js: a pattern whose bytes are all escaped stands for its text alone.
use resplite.Base.{
  ℕ, zero, suc, ◌≤◌, ◌≡◌, refl, ◌∙◌, ap, ◌&&◌, some, List, [], ◌∷◌, ◌++◌, Bytes, length, arith, map,
  ◌==◌, nat_eq, bytes_eq, bytes_beq, nat_beq,
}
use mathlib.Core.List.{append_assoc, append-nil}
use resplite.PubSub.Glob.{
  Token, literal, literal_token, tokenize_from, tokenize, token_matches, match_pub_sub_pattern,
}
use resplite.PubSub.Glob.Decides.{glob_spec, match_tokens-glob_spec}

-- `\\` before every byte.
unfoldable pub escape : Bytes → Bytes
escape [] = []
escape (b ∷ v) = 0x5c ∷ b ∷ escape v

tokenize_from-escape :
    (fuel : ℕ) (v : Bytes) (tokens : List Token)
    → length (escape v) ≤ fuel
    → tokenize_from fuel (escape v) tokens ≡ some (tokens ++ map literal v)
unfolding tokenize_from literal_token escape
tokenize_from-escape fuel [] tokens h = rw append-nil
tokenize_from-escape zero (b ∷ v) tokens h = absurd (omega arith)
tokenize_from-escape (suc fuel) (b ∷ v) tokens h =
    tokenize_from-escape fuel v (tokens ++ literal b ∷ []) (omega arith) ∙ (rw append_assoc)

glob_spec-literals : (v w : Bytes) → glob_spec (map literal v) w ≡ (v == w)
unfolding glob_spec token_matches bytes_beq
glob_spec-literals [] [] = refl
glob_spec-literals [] (c ∷ w) = refl
glob_spec-literals (b ∷ v) [] = refl
glob_spec-literals (b ∷ v) (c ∷ w) = ap (λ x. nat_beq b c && x) (glob_spec-literals v w)

-- With every byte escaped, a pattern matches the text that was escaped, and nothing else.
pub match_pub_sub_pattern-escape :
    (v w : Bytes) → match_pub_sub_pattern (escape v) w ≡ some (v == w)
unfolding match_pub_sub_pattern tokenize
match_pub_sub_pattern-escape v w =
    rw (tokenize_from-escape (length (escape v)) v [] (omega arith), match_pub_sub_pattern)
      (match_tokens-glob_spec (map literal v) w ∙ ap some (glob_spec-literals v w))
