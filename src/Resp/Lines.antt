-- ===== src/Resp/Lines.antt =====
-- Of src/resp/parser.js: the first line of a value, and what the buffer shows behind it.
use resplite.Base.{
  ℕ, zero, suc, ◌+◌, ◌-◌, ◌≡◌, refl, ◌∙◌, sym, ap, false, List, [], ◌∷◌, ◌++◌, some, Bytes, length,
  take, drop, ltb, arith, length-append, length-drop, drop-append, take-append, ltb_of_le,
}
use mathlib.Core.List.{append_assoc}
use resplite.Base.Int.{pos, ◌+ℤ◌}
use resplite.Resp.Decimal.{NoCr}
use resplite.Resp.Value.{buffer, crlf}
use resplite.Resp.Parser.{
  parsed, find_crlf, map_suc, subarray, parse_bulk, parse_typed, parse_line, parse_behind,
  try_parse_value,
}

find_crlf-append :
    (line s : Bytes) → NoCr line → find_crlf (line ++ (crlf ++ s)) ≡ some (length line)
unfolding find_crlf
find_crlf-append [] s h = refl
find_crlf-append (a ∷ line) s h = rw (h.0, find_crlf) (ap map_suc (find_crlf-append line s h.1))

drop-nil {ℓ} : {A : Type ℓ} (n : ℕ) → drop {A = A} n [] ≡ []
drop-nil zero = refl
drop-nil (suc n) = refl

pub drop-add {ℓ} : {A : Type ℓ} (i n : ℕ) (xs : List A) → drop (i + n) xs ≡ drop n (drop i xs)
drop-add zero n xs = ap (λ k. drop k xs) (omega arith)
drop-add (suc i) n [] = drop-nil (suc i + n) ∙ sym (drop-nil n)
drop-add (suc i) n (x ∷ xs) =
    let e : suc i + n ≡ suc (i + n) = omega arith in ap (λ k. drop k (x ∷ xs)) e ∙ drop-add i n xs

-- What stands behind a part of the buffer.
pub drop-behind {ℓ} :
    {A : Type ℓ} (i n : ℕ) (xs ys zs : List A)
    → length ys ≡ n
    → drop i xs ≡ ys ++ zs
    → drop (i + n) xs ≡ zs
drop-behind i n xs ys zs l h =
    drop-add i n xs ∙ ap (drop n) h ∙ ap (λ k. drop k (ys ++ zs)) (sym l) ∙ drop-append ys zs

module _ (utf8 : Bytes → Bytes) where
  pub try_parse_value-line :
      (fuel : ℕ) (buf : Bytes) (i c : ℕ) (line s : Bytes)
      → NoCr line
      → drop i buf ≡ c ∷ line ++ (crlf ++ s)
      → try_parse_value utf8 (suc fuel) buf i
        ≡ parse_typed utf8 (try_parse_value utf8 fuel buf) buf c line (i + 1 + length line + 2)
  unfolding try_parse_value parse_line parse_behind
  try_parse_value-line fuel buf i c line s n h = rw h (
      ap (parse_behind utf8 (try_parse_value utf8 fuel buf) buf i c (line ++ (crlf ++ s)))
        (find_crlf-append line s n)
      ∙ ap (λ l. parse_typed utf8 (try_parse_value utf8 fuel buf) buf c l (i + 1 + length line + 2))
          (take-append line (crlf ++ s)))

pub drop-line :
    (i c : ℕ) (buf line s : Bytes)
    → drop i buf ≡ c ∷ line ++ (crlf ++ s)
    → drop (i + 1 + length line + 2) buf ≡ s
drop-line i c buf line s h =
    let e : drop (i + (1 + length line + 2)) buf ≡ s =
      drop-behind i (1 + length line + 2) buf (c ∷ line ++ crlf) s
        (ap suc (length-append line crlf) ∙ omega arith)
        (h ∙ ap (◌∷◌ c) (sym (append_assoc line crlf s))) in
    ap (λ k. drop k buf) (omega arith) ∙ e

pub pos-pos : (a b : ℕ) → pos a +ℤ pos b ≡ pos (a + b)
unfolding ◌+ℤ◌
pos-pos a b = ground arith

-- A bulk string that is there whole.
pub parse_bulk_there :
    (buf : Bytes) (i : ℕ) (b s : Bytes)
    → drop i buf ≡ b ++ (crlf ++ s)
    → parse_bulk buf i (some (pos (length b))) ≡ parsed (buffer b) (some (pos (i + length b + 2)))
unfolding parse_bulk
parse_bulk_there buf i b s h =
    let e : length (b ++ (crlf ++ s)) ≡ length b + length (crlf ++ s) =
      length-append b (crlf ++ s) in
    let l : length buf - i ≡ length (drop i buf) = sym (length-drop i buf) in
    let there : ltb (length buf + 0) (i + length b + 2 + 0) ≡ false =
      ltb_of_le (length buf + 0) (i + length b + 2 + 0) (omega (arith, e, l, ap length h)) in
    let n : i + length b - i ≡ length b = omega arith in
    let body : subarray buf i (pos (i + length b)) ≡ b =
      ap (λ k. take k (drop i buf)) n ∙ ap (take (length b)) h ∙ take-append b (crlf ++ s) in
    rw (pos-pos i (length b), pos-pos (i + length b) 2) (rw there (rw body refl))
