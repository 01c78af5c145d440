-- ===== src/Resp/Requests.antt =====
-- src/resp/parser.js: the commands that `parseCommands` finds in what clients have sent.
use resplite.Base.{
  ℕ, zero, suc, ◌<◌, ◌≤◌, ◌≡◌, refl, ◌∙◌, sym, ap, List, [], ◌∷◌, ◌++◌, some, Bytes, length, drop,
  arith, drop-append,
}
use mathlib.Core.List.{append_assoc, append-nil}
use resplite.Base.Int.{pos}
use resplite.Resp.Value.{Items, buffer, array, nil, cons, encode}
use resplite.Resp.Parser.{
  parsed, incomplete, try_parse_value, parse_commands, subarray_from, args_of, arg_of,
}
use resplite.Resp.RoundTrip.{items_depth, decoded_items, IsPlain, read_value}

-- A command as a client sends it: an array of bulk strings.
abbrev pub items_of : List Bytes → Items
items_of [] = nil
items_of (arg ∷ args) = cons (buffer arg) (items_of args)

abbrev pub request : List Bytes → Bytes
request args = encode (array (items_of args))

abbrev pub requests : List (List Bytes) → Bytes
requests [] = []
requests (c ∷ cs) = request c ++ requests cs

pub items_depth_flat : (args : List Bytes) → items_depth (items_of args) ≤ 0
items_depth_flat [] = omega arith
items_depth_flat (arg ∷ args) = omega (arith, items_depth_flat args)

module _ (utf8 : Bytes → Bytes) where
  pub request-IsPlain : (args : List Bytes) → IsPlain utf8 (array (items_of args))
  unfolding IsPlain
  request-IsPlain [] = tt
  request-IsPlain (arg ∷ args) = (tt, request-IsPlain args)

  args_of-items_of : (args : List Bytes) → args_of utf8 (decoded_items (items_of args)) ≡ args
  unfolding args_of arg_of
  args_of-items_of [] = refl
  args_of-items_of (arg ∷ args) = ap (◌∷◌ arg) (args_of-items_of args)

  pub read_request :
      (fuel : ℕ) (args : List Bytes) (rest : Bytes)
      → 1 < fuel
      → try_parse_value utf8 fuel (request args ++ rest) 0
        ≡ parsed (array (decoded_items (items_of args))) (some (pos (length (request args))))
  read_request fuel args rest f =
      read_value utf8 fuel (array (items_of args)) (request args ++ rest) 0 rest
        (omega (arith, items_depth_flat args)) (request-IsPlain args) refl
      ∙ ap (λ k. parsed (array (decoded_items (items_of args))) (some (pos k))) (omega arith)

  parse_commands-array :
      (fuel n : ℕ) (found : List (List Bytes)) (vs : Items) (buf s : Bytes)
      → try_parse_value utf8 fuel (buf ++ s) 0 ≡ parsed (array vs) (some (pos (length buf)))
      → parse_commands utf8 fuel (suc n) found (buf ++ s)
        ≡ parse_commands utf8 fuel n (found ++ args_of utf8 vs ∷ []) s
  unfolding parse_commands subarray_from
  parse_commands-array fuel n found vs buf s e =
      let opened : parse_commands utf8 fuel (suc n) found (buf ++ s)
          ≡ parse_commands utf8 fuel n (found ++ args_of utf8 vs ∷ [])
              (drop (length buf) (buf ++ s)) =
        rw (e, parse_commands) refl in
      opened ∙ ap (parse_commands utf8 fuel n (found ++ args_of utf8 vs ∷ [])) (drop-append buf s)

  parse_commands-incomplete :
      (fuel n : ℕ) (found : List (List Bytes)) (buf : Bytes)
      → try_parse_value utf8 fuel buf 0 ≡ incomplete
      → parse_commands utf8 fuel (suc n) found buf ≡ some (found, buf)
  unfolding parse_commands
  parse_commands-incomplete fuel n found buf e = rw (e, parse_commands) refl

  -- `parseCommands` finds the commands that clients have sent one after another, in order and with
  -- every byte of every argument, in front of a rest that it keeps when no value is whole in it yet;
  -- when it may go two levels deep and has one more round than there are commands.
  pub parse_commands-requests :
      (fuel n : ℕ) (cs found : List (List Bytes)) (rest : Bytes)
      → 1 < fuel
      → length cs < n
      → try_parse_value utf8 fuel rest 0 ≡ incomplete
      → parse_commands utf8 fuel n found (requests cs ++ rest) ≡ some (found ++ cs, rest)
  parse_commands-requests fuel zero cs found rest f l h = absurd (omega arith)
  parse_commands-requests fuel (suc n) [] found rest f l h =
      parse_commands-incomplete fuel n found rest h
      ∙ ap (λ x. some (x, rest)) (sym (append-nil found))
  parse_commands-requests fuel (suc n) (c ∷ cs) found rest f l h =
      let behind : Bytes = requests cs ++ rest in
      ap (parse_commands utf8 fuel (suc n) found) (append_assoc (request c) (requests cs) rest)
      ∙ parse_commands-array fuel n found (decoded_items (items_of c)) (request c) behind
          (read_request fuel c behind f)
      ∙ ap (λ args. parse_commands utf8 fuel n (found ++ args ∷ []) behind) (args_of-items_of c)
      ∙ parse_commands-requests fuel n cs (found ++ c ∷ []) rest f (omega arith) h
      ∙ ap (λ x. some (x, rest)) (append_assoc found (c ∷ []) cs)
