-- ===== src/Resp/Prefixes.antt =====
-- src/resp/parser.js: a value that has not come whole.
use resplite.Base.{
  ℕ, zero, suc, ◌+◌, ◌-◌, ◌<◌, ◌≡◌, refl, ◌∙◌, ap, true, List, [], ◌∷◌, ◌++◌, none, some, ◌⊎◌, inl,
  inr, Bytes, length, drop, arith, length-append, length-drop, ltb, lt→ltb,
}
use resplite.Base.Int.{pos}
use resplite.Resp.Decimal.{NoCr, print_int, print_int-NoCr}
use resplite.Resp.Value.{
  Value, Items, null, number, string, buffer, simple, error, array, nil, cons, count, crlf,
  number_text, encode, encode_items, encode_bulk, encode_integer, encode_simple_string,
  encode_error,
}
use resplite.Resp.Parser.{
  Parsed, incomplete, find_crlf, map_suc, parse_bulk, parse_array, parse_items, parse_at, rounds,
  push, parse_typed, parse_line, parse_behind, try_parse_value,
}
use resplite.Resp.Lines.{try_parse_value-line, drop-line, drop-behind, pos-pos}
use resplite.Resp.RoundTrip.{
  depth, items_depth, decoded, IsPlain, ArePlain, read_value, read_number, number_text-NoCr,
  parse_items-suc,
}

-- Two ways to cut a list in two: the first cut is behind the second, or before it.
pub append_split {ℓ} :
    {A : Type ℓ} (p q a b : List A)
    → p ++ q ≡ a ++ b
    → ((r : List A) × (p ≡ a ++ r) × (r ++ q ≡ b)) ⊎ ((r : List A) × (p ++ r ≡ a) × (0 < length r))
append_split p q [] b e = inl (p, refl, e)
append_split [] q (x ∷ a) b e = inr (x ∷ a, refl, omega arith)
append_split (y ∷ p) q (x ∷ a) b e =
    let same : y ≡ x = cc in
    let rest : p ++ q ≡ a ++ b = cc in
    elim (append_split p q a b rest) [
      | inl (r, f, g) ↦ inl (r, (λ i. same i ∷ f i), g)
      | inr (r, f, g) ↦ inr (r, (λ i. same i ∷ f i), g)
    ]

-- A line of which a part has come shows no CRLF, or has come whole.
find_crlf_cut :
    (line s p q : Bytes)
    → NoCr line
    → p ++ q ≡ line ++ (crlf ++ s)
    → (find_crlf p ≡ none) ⊎ ((r : Bytes) × (p ≡ line ++ (crlf ++ r)) × (r ++ q ≡ s))
unfolding find_crlf
find_crlf_cut line s [] q n e = inl refl
find_crlf_cut [] s (a ∷ []) q n e = let cr : a ≡ 13 = cc in inl (rw cr refl)
find_crlf_cut [] s (a ∷ b ∷ p) q n e =
    let cr : a ≡ 13 = cc in let lf : b ≡ 10 = cc in inr (p, (λ i. cr i ∷ lf i ∷ p), cc)
find_crlf_cut (c ∷ line) s (a ∷ p) q n e =
    let same : a ≡ c = cc in
    elim (find_crlf_cut line s p q n.1 cc) [
      | inl none_there ↦ inl (rw (same, n.0, find_crlf) (ap map_suc none_there))
      | inr (r, f, g) ↦ inr (r, (λ i. same i ∷ f i), g)
    ]

module _ (utf8 : Bytes → Bytes) where
  -- The buffer stops within a value's first line, or behind it.
  line_cut :
      (fuel : ℕ) (buf : Bytes) (i c : ℕ) (line s p q : Bytes)
      → NoCr line
      → drop i buf ≡ p
      → p ++ q ≡ c ∷ line ++ (crlf ++ s)
      → (try_parse_value utf8 (suc fuel) buf i ≡ incomplete)
        ⊎ ((r : Bytes) × (drop i buf ≡ c ∷ line ++ (crlf ++ r)) × (r ++ q ≡ s))
  unfolding try_parse_value parse_line parse_behind
  line_cut fuel buf i c line s [] q n d e = inl (rw d refl)
  line_cut fuel buf i c line s (a ∷ p) q n d e =
      let same : a ≡ c = cc in
      elim (find_crlf_cut line s p q n cc) [
        | inl none_there ↦
            inl (rw d (ap (parse_behind utf8 (try_parse_value utf8 fuel buf) buf i a p) none_there))
        | inr (r, f, g) ↦ inr (r, d ∙ (λ k. same k ∷ f k), g)
      ]

  -- A value that is one line.
  line_incomplete :
      (fuel : ℕ) (buf : Bytes) (i c : ℕ) (line p q : Bytes)
      → NoCr line
      → drop i buf ≡ p
      → p ++ q ≡ c ∷ line ++ crlf
      → 0 < length q
      → try_parse_value utf8 (suc fuel) buf i ≡ incomplete
  line_incomplete fuel buf i c line p q n d e l = elim (line_cut fuel buf i c line [] p q n d e) [
    | inl done ↦ done
    | inr (r, f, g) ↦ absurd (omega (arith, ap length g, length-append r q))
  ]

  parse_bulk-incomplete :
      (buf : Bytes) (i n : ℕ)
      → length buf - i < n + 2
      → parse_bulk buf i (some (pos n)) ≡ incomplete
  unfolding parse_bulk
  parse_bulk-incomplete buf i n h =
      let short : ltb (length buf + 0) (i + n + 2 + 0) ≡ true =
        lt→ltb (length buf + 0) (i + n + 2 + 0) (omega (arith, h)) in
      rw (pos-pos i n, pos-pos (i + n) 2) (rw short refl)

  bulk_incomplete :
      (fuel : ℕ) (b buf : Bytes) (i : ℕ) (p q : Bytes)
      → drop i buf ≡ p
      → p ++ q ≡ encode_bulk (some b)
      → 0 < length q
      → try_parse_value utf8 (suc fuel) buf i ≡ incomplete
  unfolding encode_bulk parse_typed
  bulk_incomplete fuel b buf i p q d e l =
      let line : Bytes = print_int (pos (length b)) in
      elim (line_cut fuel buf i b'$' line (b ++ crlf) p q (print_int-NoCr (pos (length b))) d e) [
        | inl done ↦ done
        | inr (r, f, g) ↦
            let j : ℕ = i + 1 + length line + 2 in
            let behind : drop j buf ≡ r = drop-line i b'$' buf line r f in
            let short : length buf - j < length b + 2 = omega (
              arith,
              ap length g,
              ap length behind,
              length-drop j buf,
              length-append r q,
              length-append b crlf,
              l,
            ) in
            try_parse_value-line utf8 fuel buf i b'$' line r (print_int-NoCr (pos (length b))) f
            ∙ ap (parse_bulk buf j) (read_number utf8 (pos (length b)))
            ∙ parse_bulk-incomplete buf j (length b) short
      ]

  parse_items_stops :
      (parse : ℕ → Parsed) (n : ℕ) (arr : Items) (i : ℕ)
      → parse i ≡ incomplete
      → parse_items parse (suc n) arr (some (pos i)) ≡ incomplete
  unfolding parse_at parse_items
  parse_items_stops parse n arr i e = rw (e, parse_items) refl

  mutual
    unfolding IsPlain encode parse_typed encode_integer encode_simple_string encode_error
        parse_array rounds count

    value_incomplete :
        (fuel : ℕ) (v : Value) (buf : Bytes) (i : ℕ) (p q : Bytes)
        → depth v < fuel
        → IsPlain utf8 v
        → drop i buf ≡ p
        → p ++ q ≡ encode v
        → 0 < length q
        → try_parse_value utf8 fuel buf i ≡ incomplete
    value_incomplete zero v buf i p q f h d e l = absurd (omega arith)
    value_incomplete (suc fuel) null buf i p q f h d e l =
        line_incomplete fuel buf i b'$' (b'-' ∷ b'1' ∷ []) p q (refl, (refl, tt)) d e l
    value_incomplete (suc fuel) (number n) buf i p q f h d e l =
        line_incomplete fuel buf i b':' (number_text n) p q (number_text-NoCr utf8 n) d e l
    value_incomplete (suc fuel) (string s) buf i p q f h d e l =
        bulk_incomplete fuel s buf i p q d e l
    value_incomplete (suc fuel) (buffer b) buf i p q f h d e l =
        bulk_incomplete fuel b buf i p q d e l
    value_incomplete (suc fuel) (simple s) buf i p q f h d e l =
        line_incomplete fuel buf i b'+' s p q h.0 d e l
    value_incomplete (suc fuel) (error s) buf i p q f h d e l =
        line_incomplete fuel buf i b'-' s p q h.0 d e l
    value_incomplete (suc fuel) (array vs) buf i p q f h d e l =
        let line : Bytes = print_int (pos (count vs)) in
        elim (line_cut fuel buf i b'*' line (encode_items vs) p q (print_int-NoCr (pos (count vs)))
          d e) [
            | inl done ↦ done
            | inr (r, u, g) ↦
                let j : ℕ = i + 1 + length line + 2 in
                try_parse_value-line utf8 fuel buf i b'*' line r (print_int-NoCr (pos (count vs))) u
                ∙ ap (λ n. parse_array (try_parse_value utf8 fuel buf) n j)
                    (read_number utf8 (pos (count vs)))
                ∙ items_incomplete fuel vs nil buf j r q (omega arith) h
                    (drop-line i b'*' buf line r u) g l
          ]

    items_incomplete :
        (fuel : ℕ) (vs arr : Items) (buf : Bytes) (i : ℕ) (p q : Bytes)
        → items_depth vs < fuel
        → ArePlain utf8 vs
        → drop i buf ≡ p
        → p ++ q ≡ encode_items vs
        → 0 < length q
        → parse_items (try_parse_value utf8 fuel buf) (count vs) arr (some (pos i)) ≡ incomplete
    items_incomplete fuel nil arr buf i p q f h d e l =
        absurd (omega (arith, ap length e, length-append p q))
    items_incomplete fuel (cons v vs) arr buf i p q f h d e l =
        elim (append_split p q (encode v) (encode_items vs) e) [
          | inl (r, u, g) ↦
              let there : drop i buf ≡ encode v ++ r = d ∙ u in
              let next : ℕ = i + length (encode v) in
              parse_items-suc (try_parse_value utf8 fuel buf) (count vs) arr i (decoded v)
                (some (pos next)) (read_value utf8 fuel v buf i r (omega arith) h.0 there)
              ∙ items_incomplete fuel vs (push arr (decoded v)) buf next r q (omega arith) h.1
                  (drop-behind i (length (encode v)) buf (encode v) r refl there) g l
          | inr (r, u, g) ↦
              parse_items_stops (try_parse_value utf8 fuel buf) (count vs) arr i
                (value_incomplete fuel v buf i p r (omega arith) h.0 d u g)
        ]

  -- While the last bytes of an encoded value have not come, nothing is read and nothing consumed; when
  -- the lines of `{ simple }` and `{ error }` texts have no carriage return and are well-formed, and the
  -- fuel exceeds the nesting of the arrays.
  pub try_parse_value_prefix :
      (fuel : ℕ) (v : Value) (p q : Bytes)
      → depth v < fuel
      → IsPlain utf8 v
      → p ++ q ≡ encode v
      → 0 < length q
      → try_parse_value utf8 fuel p 0 ≡ incomplete
  try_parse_value_prefix fuel v p q f h e l = value_incomplete fuel v p 0 p q f h refl e l
