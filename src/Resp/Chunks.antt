-- ===== src/Resp/Chunks.antt =====
-- src/resp/parser.js and the handler of `data` in src/server/connection.js: a stream of requests in
-- chunks that are cut anywhere.
use resplite.Base.{
  ℕ, zero, suc, ◌<◌, ◌≡◌, refl, ◌∙◌, sym, ap, List, [], ◌∷◌, ◌++◌, Option, none, some, inl, inr,
  Bytes, length, arith, length-append,
}
use mathlib.Core.List.{append_assoc, append-nil}
use resplite.Resp.Value.{Value, array}
use resplite.Base.Int.{ℤ}
use resplite.Resp.Parser.{
  Parsed, parsed, incomplete, try_parse_value, parse_line, parse_commands, feed,
}
use resplite.Resp.Requests.{
  items_of, request, requests, parse_commands-requests, request-IsPlain, read_request,
  items_depth_flat,
}
use resplite.Resp.Prefixes.{append_split, try_parse_value_prefix}

infixl 55 ◌>>=◌
abbrev ◌>>=◌ {ℓ κ} : {A : Type ℓ} {B : Type κ} → Option A → (A → Option B) → Option B
none >>= f = none
some a >>= f = f a

-- `reader.feed(chunk)`, then `reader.parseCommands()`
unfoldable pub on_data :
    (Bytes → Bytes) → ℕ → ℕ → Bytes → Bytes → Option (List (List Bytes) × Bytes)
unfolding parse_commands feed
on_data utf8 fuel n chunk buf = parse_commands utf8 fuel n [] (feed buf chunk)

-- The commands of one chunk after another, and what is left in the buffer.
unfoldable pub receive :
    (Bytes → Bytes) → ℕ → ℕ → List Bytes → Bytes → Option (List (List Bytes) × Bytes)
unfolding on_data
receive utf8 fuel n [] buf = some ([], buf)
receive utf8 fuel n (chunk ∷ chunks) buf = on_data utf8 fuel n chunk buf >>= λ now.
    (receive utf8 fuel n chunks now.1 >>= λ later. some (now.0 ++ later.0, later.1))

abbrev pub concat : List Bytes → Bytes
concat [] = []
concat (chunk ∷ chunks) = chunk ++ concat chunks

-- What has come of the requests `cs`, when the bytes `q` of them are still to come.
record Come (utf8 : Bytes → Bytes) (fuel : ℕ) (cs : List (List Bytes)) (p q : Bytes) : Type 0 where
  whole : List (List Bytes)
  left : List (List Bytes)
  rest : Bytes
  all : cs ≡ whole ++ left
  here : p ≡ requests whole ++ rest
  there : rest ++ q ≡ requests left
  stops : try_parse_value utf8 fuel rest 0 ≡ incomplete

module _ (utf8 : Bytes → Bytes) where
  empty_incomplete : (fuel : ℕ) → try_parse_value utf8 (suc fuel) [] 0 ≡ incomplete
  unfolding try_parse_value parse_line
  empty_incomplete fuel = refl

  split_arrived :
      (fuel : ℕ) (cs : List (List Bytes)) (p q : Bytes)
      → 1 < fuel
      → p ++ q ≡ requests cs
      → Come utf8 fuel cs p q
  split_arrived zero cs p q f e = absurd (omega arith)
  split_arrived (suc fuel) cs [] q f e = record {
    whole = [];
    left = cs;
    rest = [];
    all = refl;
    here = refl;
    there = e;
    stops = empty_incomplete fuel;
  }
  split_arrived (suc fuel) [] (a ∷ p) q f e = absurd (omega (arith, ap length e))
  split_arrived (suc fuel) (c ∷ cs) (a ∷ p) q f e =
      elim (append_split (a ∷ p) q (request c) (requests cs) e) [
        | inl (r, u, g) ↦
            let h = split_arrived (suc fuel) cs r q f g in
            record {
              whole = c ∷ h.whole;
              left = h.left;
              rest = h.rest;
              all = ap (◌∷◌ c) h.all;
              here =
                  u
                  ∙ ap (◌++◌ (request c)) h.here
                  ∙ sym (append_assoc (request c) (requests h.whole) h.rest);
              there = h.there;
              stops = h.stops;
            }
        | inr (r, u, l) ↦ record {
          whole = [];
          left = c ∷ cs;
          rest = a ∷ p;
          all = refl;
          here = refl;
          there = e;
          stops =
              try_parse_value_prefix utf8 (suc fuel) (array (items_of c)) (a ∷ p) r
                (omega (arith, items_depth_flat c)) (request-IsPlain utf8 c) u l;
        }
      ]

  stops_not : {t : Parsed} {v : Value} {end_ : Option ℤ} → t ≡ incomplete → t ≡ parsed v end_ → ⊥
  stops_not s e = cc

  -- One chunk: its whole commands come out, the rest stays.
  on_data-Come :
      (fuel n : ℕ) (cs : List (List Bytes)) (chunk buf q : Bytes)
      → 1 < fuel
      → length cs < n
      → (h : Come utf8 fuel cs (buf ++ chunk) q)
      → on_data utf8 fuel n chunk buf ≡ some (h.whole, h.rest)
  unfolding on_data feed
  on_data-Come fuel n cs chunk buf q f l h =
      ap (parse_commands utf8 fuel n []) h.here
      ∙ parse_commands-requests utf8 fuel n h.whole [] h.rest f
          (omega (arith, l, ap length h.all, length-append h.whole h.left)) h.stops

  -- However the bytes of the requests are cut into chunks, the commands that come out, taken together,
  -- are the requests, in order, and the buffer is empty at the end; when the parser may go two levels
  -- deep and has one more round than there are requests. Bytes that wait in the buffer at first, in which
  -- no value is whole, count as the first bytes of the requests.
  pub receive-requests :
      (fuel n : ℕ) (chunks : List Bytes) (cs : List (List Bytes)) (buf : Bytes)
      → 1 < fuel
      → length cs < n
      → try_parse_value utf8 fuel buf 0 ≡ incomplete
      → buf ++ concat chunks ≡ requests cs
      → receive utf8 fuel n chunks buf ≡ some (cs, [])
  unfolding receive
  receive-requests fuel n [] [] buf f l s e = ap (λ b. some ([], b)) (sym (append-nil buf) ∙ e)
  receive-requests fuel n [] (c ∷ cs) buf f l s e =
      let whole : buf ≡ request c ++ requests cs = sym (append-nil buf) ∙ e in
      absurd (
        stops_not s (
          ap (λ b. try_parse_value utf8 fuel b 0) whole ∙ read_request utf8 fuel c (requests cs) f))
  receive-requests fuel n (chunk ∷ chunks) cs buf f l s e =
      let h =
        split_arrived fuel cs (buf ++ chunk) (concat chunks) f
          (append_assoc buf chunk (concat chunks) ∙ e) in
      let rest =
        receive-requests fuel n chunks h.left h.rest f
          (omega (arith, ap length h.all, length-append h.whole h.left)) h.stops h.there in
      ap
        (λ o. o >>= λ now.
          (receive utf8 fuel n chunks now.1 >>= λ later. some (now.0 ++ later.0, later.1)))
        (on_data-Come fuel n cs chunk buf (concat chunks) f l h)
      ∙ ap (λ o. o >>= λ later. some (h.whole ++ later.0, later.1)) rest
      ∙ ap (λ x. some (x, [])) (sym h.all)
