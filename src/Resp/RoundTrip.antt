-- ===== src/Resp/RoundTrip.antt =====
-- src/resp/: what the encoder writes, the parser reads back.
use resplite.Base.{
  ℕ, zero, suc, ◌+◌, ◌<◌, ◌≡◌, refl, ◌∙◌, sym, ap, [], ◌∷◌, ◌++◌, Option, none, some, Bytes, length,
  drop, arith, length-append, drop-append,
}
use Prim.Native.Nat.{max}
use mathlib.Core.List.{append_assoc}
use resplite.Base.Int.{ℤ, pos, negsuc, IsSafe}
use resplite.Resp.Decimal.{
  NoCr, ascii, parse_int, read_signed, read_nat, read_digits, print_int, parse_int-print_int,
  ascii-print_int, print_int-NoCr,
}
use resplite.Resp.Value.{
  Value, Items, null, number, string, buffer, simple, error, array, nil, cons, count, crlf, header,
  number_text, encode, encode_items, encode_bulk, encode_integer, encode_simple_string,
  encode_error,
}
use resplite.Resp.Parser.{
  Parsed, parsed, parse_bulk, parse_array, parse_items, parse_at, rounds, push, parse_typed,
  try_parse_value,
}
use resplite.Resp.Lines.{try_parse_value-line, drop-line, drop-behind, parse_bulk_there}

minus_one : parse_int (ascii (b'-' ∷ b'1' ∷ [])) ≡ some (negsuc 0)
unfolding parse_int ascii read_signed read_nat read_digits
minus_one = refl

-- How deep the arrays nest.
abbrev mutual
  pub depth : Value → ℕ
  depth (array vs) = suc (items_depth vs)
  depth _ = 0

  pub items_depth : Items → ℕ
  items_depth nil = 0
  items_depth (cons v vs) = max (depth v) (items_depth vs)

-- A string goes out as a buffer; a `{ simple }` comes back as a string.
abbrev mutual
  pub decoded : Value → Value
  decoded (string s) = buffer s
  decoded (simple s) = string s
  decoded (array vs) = array (decoded_items vs)
  decoded v = v

  pub decoded_items : Items → Items
  decoded_items nil = nil
  decoded_items (cons v vs) = cons (decoded v) (decoded_items vs)

-- Beyond the safe integers `String` rounds, or prints an exponent, and `encode` is no model of it.
unfoldable mutual
  pub HasSafeNumbers : Value → Type 0
  HasSafeNumbers (number (some z)) = IsSafe z
  HasSafeNumbers (array vs) = HaveSafeNumbers vs
  HasSafeNumbers _ = Unit

  HaveSafeNumbers : Items → Type 0
  HaveSafeNumbers nil = Unit
  HaveSafeNumbers (cons v vs) = HasSafeNumbers v × HaveSafeNumbers vs

abbrev append_items : Items → Items → Items
append_items nil us = us
append_items (cons v vs) us = cons v (append_items vs us)

push-append_items :
    (vs us : Items) (v : Value) → append_items (push vs v) us ≡ append_items vs (cons v us)
unfolding push
push-append_items nil us v = refl
push-append_items (cons w vs) us v = ap (cons w) (push-append_items vs us v)

append_items-nil : (vs : Items) → append_items vs nil ≡ vs
append_items-nil nil = refl
append_items-nil (cons v vs) = ap (cons v) (append_items-nil vs)

array_at :
    {vs us : Items} {i j : ℕ}
    → vs ≡ us
    → i ≡ j
    → parsed (array vs) (some (pos i)) ≡ parsed (array us) (some (pos j))
array_at e d = λ k. parsed (array (e k)) (some (pos (d k)))

pub parse_items-suc :
    (parse : ℕ → Parsed) (n : ℕ) (arr : Items) (i : ℕ) (v : Value) (end_ : Option ℤ)
    → parse i ≡ parsed v end_
    → parse_items parse (suc n) arr (some (pos i)) ≡ parse_items parse n (push arr v) end_
unfolding parse_at parse_items
parse_items-suc parse n arr i v end_ e = rw (e, parse_items) refl

module _ (utf8 : Bytes → Bytes) where
  -- The lines of strings and errors hold well-formed text in one line.
  unfoldable mutual
    pub IsPlain : Value → Type 0
    IsPlain (simple s) = NoCr s × (utf8 s ≡ s)
    IsPlain (error s) = NoCr s × (utf8 s ≡ s)
    IsPlain (array vs) = ArePlain vs
    IsPlain _ = Unit

    pub ArePlain : Items → Type 0
    ArePlain nil = Unit
    ArePlain (cons v vs) = IsPlain v × ArePlain vs

  -- A value that is one line.
  pub read_line :
      (fuel : ℕ) (buf : Bytes) (i c : ℕ) (line rest : Bytes)
      → NoCr line
      → drop i buf ≡ (c ∷ line ++ crlf) ++ rest
      → try_parse_value utf8 (suc fuel) buf i
        ≡ parse_typed utf8
            (try_parse_value utf8 fuel buf)
            buf
            c
            line
            (i + length (c ∷ line ++ crlf))
  read_line fuel buf i c line rest n h =
      let e : i + 1 + length line + 2 ≡ i + length (c ∷ line ++ crlf) =
        omega (arith, length-append line crlf) in
      try_parse_value-line utf8 fuel buf i c line rest n
        (h ∙ ap (◌∷◌ c) (append_assoc line crlf rest))
      ∙ ap (parse_typed utf8 (try_parse_value utf8 fuel buf) buf c line) e

  -- A value whose first line is a length or a count.
  read_header :
      (fuel : ℕ) (buf : Bytes) (i c n : ℕ) (s rest : Bytes)
      → drop i buf ≡ header c n s ++ rest
      → (j : ℕ) × (try_parse_value utf8 (suc fuel) buf i
          ≡ parse_typed utf8 (try_parse_value utf8 fuel buf) buf c (print_int (pos n)) j)
        × (drop j buf ≡ s ++ rest)
        × (j + length s ≡ i + length (header c n s))
  read_header fuel buf i c n s rest h =
      let line : Bytes = print_int (pos n) in
      let split : drop i buf ≡ c ∷ line ++ (crlf ++ (s ++ rest)) =
        h ∙ ap (◌∷◌ c) (append_assoc line (crlf ++ s) rest) in
      (
        i + 1 + length line + 2,
        try_parse_value-line utf8 fuel buf i c line (s ++ rest) (print_int-NoCr (pos n)) split,
        drop-line i c buf line (s ++ rest) split,
        omega (arith, length-append line (crlf ++ s)),
      )

  -- A number in a line is read as it was.
  pub read_number : (z : ℤ) → parse_int (ascii (print_int z)) ≡ some z
  read_number z = ap parse_int (ascii-print_int z) ∙ parse_int-print_int z

  pub number_text-NoCr : (n : Option ℤ) → NoCr (number_text n)
  unfolding number_text
  number_text-NoCr none = (refl, (refl, (refl, tt)))
  number_text-NoCr (some z) = print_int-NoCr z

  read_number_text : (n : Option ℤ) → parse_int (ascii (number_text n)) ≡ n
  unfolding number_text ascii parse_int read_signed read_nat
  read_number_text none = refl
  read_number_text (some z) = read_number z

  read_bulk :
      (fuel : ℕ) (b buf : Bytes) (i : ℕ) (rest : Bytes)
      → drop i buf ≡ encode_bulk (some b) ++ rest
      → try_parse_value utf8 (suc fuel) buf i
        ≡ parsed (buffer b) (some (pos (i + length (encode_bulk (some b)))))
  unfolding encode_bulk parse_typed
  read_bulk fuel b buf i rest h =
      let (j, e, d, l) = read_header fuel buf i b'$' (length b) (b ++ crlf) rest h in
      let there : drop j buf ≡ b ++ (crlf ++ rest) = d ∙ append_assoc b crlf rest in
      let end_ : j + length b + 2 ≡ i + length (header b'$' (length b) (b ++ crlf)) =
        omega (arith, l, length-append b crlf) in
      e
      ∙ ap (parse_bulk buf j) (read_number (pos (length b)))
      ∙ parse_bulk_there buf j b rest there
      ∙ ap (λ k. parsed (buffer b) (some (pos k))) end_

  mutual
    unfolding IsPlain encode parse_typed encode_integer encode_simple_string encode_error
        parse_items parse_at parse_array parse_bulk rounds count

    pub read_value :
        (fuel : ℕ) (v : Value) (buf : Bytes) (i : ℕ) (rest : Bytes)
        → depth v < fuel
        → IsPlain v
        → drop i buf ≡ encode v ++ rest
        → try_parse_value utf8 fuel buf i ≡ parsed (decoded v) (some (pos (i + length (encode v))))
    read_value zero v buf i rest f p h = absurd (omega arith)
    read_value (suc fuel) null buf i rest f p h =
        read_line fuel buf i b'$' (b'-' ∷ b'1' ∷ []) rest (refl, (refl, tt)) h
        ∙ ap (parse_bulk buf (i + length (encode null))) minus_one
    read_value (suc fuel) (number n) buf i rest f p h =
        read_line fuel buf i b':' (number_text n) rest (number_text-NoCr n) h
        ∙ ap (λ m. parsed (number m) (some (pos (i + length (encode (number n))))))
            (read_number_text n)
    read_value (suc fuel) (string s) buf i rest f p h = read_bulk fuel s buf i rest h
    read_value (suc fuel) (buffer b) buf i rest f p h = read_bulk fuel b buf i rest h
    read_value (suc fuel) (simple s) buf i rest f p h =
        read_line fuel buf i b'+' s rest p.0 h
        ∙ ap (λ t. parsed (string t) (some (pos (i + length (encode (simple s)))))) p.1
    read_value (suc fuel) (error s) buf i rest f p h =
        read_line fuel buf i b'-' s rest p.0 h
        ∙ ap (λ t. parsed (error t) (some (pos (i + length (encode (error s)))))) p.1
    read_value (suc fuel) (array vs) buf i rest f p h =
        let (j, e, d, l) = read_header fuel buf i b'*' (count vs) (encode_items vs) rest h in
        e
        ∙ ap (λ n. parse_array (try_parse_value utf8 fuel buf) n j) (read_number (pos (count vs)))
        ∙ read_items fuel vs nil buf j rest (omega arith) p d
        ∙ ap (λ k. parsed (array (decoded_items vs)) (some (pos k))) l

    read_items :
        (fuel : ℕ) (vs arr : Items) (buf : Bytes) (i : ℕ) (rest : Bytes)
        → items_depth vs < fuel
        → ArePlain vs
        → drop i buf ≡ encode_items vs ++ rest
        → parse_items (try_parse_value utf8 fuel buf) (count vs) arr (some (pos i))
          ≡ parsed
              (array (append_items arr (decoded_items vs)))
              (some (pos (i + length (encode_items vs))))
    read_items fuel nil arr buf i rest f p h = array_at (sym (append_items-nil arr)) (omega arith)
    read_items fuel (cons v vs) arr buf i rest f p h =
        let split : drop i buf ≡ encode v ++ (encode_items vs ++ rest) =
          h ∙ append_assoc (encode v) (encode_items vs) rest in
        let one = read_value fuel v buf i (encode_items vs ++ rest) (omega arith) p.0 split in
        let next : ℕ = i + length (encode v) in
        let behind : drop next buf ≡ encode_items vs ++ rest =
          drop-behind i (length (encode v)) buf (encode v) (encode_items vs ++ rest) refl split in
        parse_items-suc (try_parse_value utf8 fuel buf) (count vs) arr i (decoded v)
          (some (pos next)) one
        ∙ read_items fuel vs (push arr (decoded v)) buf next rest (omega arith) p.1 behind
        ∙ array_at (push-append_items arr (decoded_items vs) (decoded v))
            (omega (arith, length-append (encode v) (encode_items vs)))

  -- A value whose numbers are NaN or safe integers, encoded, is read back from any offset at which it
  -- stands and whatever follows it, and the offset behind it is returned: a string as a buffer and a
  -- `{ simple }` as a string, when the lines of `{ simple }` and `{ error }` texts have no carriage return
  -- and are well-formed, and the fuel exceeds the nesting of the arrays.
  pub try_parse_value-encode :
      (fuel : ℕ) (v : Value) (before after : Bytes)
      → depth v < fuel
      → IsPlain v
      → HasSafeNumbers v
      → try_parse_value utf8 fuel (before ++ (encode v ++ after)) (length before)
        ≡ parsed (decoded v) (some (pos (length before + length (encode v))))
  try_parse_value-encode fuel v before after f p safe =
      read_value fuel v (before ++ (encode v ++ after)) (length before) after f p
        (drop-append before (encode v ++ after))
