-- ===== src/Engine/Increments.antt =====
-- src/engine/engine.js, `_incrBy`: INCR, DECR, INCRBY and DECRBY.
-- `parse` is what `parseInt(text.toString('utf8'), 10)` makes of a value, which reads the digits in front
-- and leaves what follows them; `none` is NaN.  `plus` is `+` on JavaScript's numbers, which rounds, and
-- `show` is `String`, which may print an exponent: both are exact on safe integers only.  Infinity, for which
-- a text needs more than 300 digits, is left out.
use resplite.Base.{
  ◌≡◌, refl, ◌∙◌, ap, Bool, true, false, Option, none, some, Bytes, if◌then◌else◌, bytes_eq, ◌==◌,
  inl, inr, Bool-cases,
}
use resplite.Base.Int.{ℤ, pos, negsuc, ◌+ℤ◌, IsSafe}
use resplite.Resp.Decimal.{print_int}
use resplite.Storage.{KeyMeta, Result, ok, err, wrong_type, not_an_integer, Db}
use resplite.Storage.Keys
use resplite.Storage.Strings
use resplite.Storage.Strings.{is_string}
use resplite.Engine.Strings.{
  State, Cached, miss, hit, read_cached_string, get_key_meta, store_string,
}
use resplite.Engine.Strings.Coherent.{IsGood}
use resplite.Engine.Strings.Reads.{Item, item_of, view, SameView, past_row, get_key_meta-Looked}
use resplite.Engine.Strings.Gets.{answer, Answers, read_cached-Peeked}
use resplite.Engine.Strings.Sets.{
  Writes, same-Writes, Writes-before, set_leaves, set_answer, stored_item, store_string-Writes,
}

abbrev pub takes_string : Option KeyMeta → Bool
takes_string none = true
takes_string (some m) = is_string m.kind

-- `cur`
abbrev pub current : Bytes → Option KeyMeta → Cached → Db → Option Bytes
current key none cached db = none
current key (some m) (hit value) db = value
current key (some m) miss db = Strings.get key db

abbrev pub number_in : (Bytes → Option ℤ) → Option Bytes → Option ℤ
number_in parse none = some (pos 0)
number_in parse (some text) = parse text

abbrev pub answer_number : ℤ → Result (Unit {0}) × State → Result ℤ × State
answer_number next (ok _, st) = (ok next, st)
answer_number next (err e, st) = (err e, st)

module _ (parse : Bytes → Option ℤ) (plus : ℤ → ℤ → ℤ) (show : ℤ → Bytes) where
  abbrev pub add_to : ℤ → Bytes → ℤ → Option KeyMeta → State → Option ℤ → Result ℤ × State
  add_to now key delta m st none = (err not_an_integer, st)
  add_to now key delta m st (some num) =
      let next = plus num delta in answer_number next (store_string now key (show next) none m st)

  unfoldable pub incr_with : ℤ → Bytes → ℤ → Option KeyMeta → Cached → State → Result ℤ × State
  incr_with now key delta m cached st =
      if takes_string m
      then add_to now key delta m st (number_in parse (current key m cached st.db))
      else (err wrong_type, st)

  unfoldable pub incr_by : ℤ → Bytes → ℤ → State → Result ℤ × State
  incr_by now key delta st =
      let (cached, st₁) = read_cached_string now key st in
      let (meta, st₂) = get_key_meta now key st₁ in incr_with now key delta meta cached st₂

  unfoldable pub incr : ℤ → Bytes → State → Result ℤ × State
  incr now key st = incr_by now key (pos 1) st

  unfoldable pub decr : ℤ → Bytes → State → Result ℤ × State
  decr now key st = incr_by now key (negsuc 0) st

-- What a client sees of it.
abbrev pub text_of : Option Item → Option Bytes
text_of none = none
text_of (some item) = item.text

abbrev pub is_text : Option Item → Bool
is_text none = true
is_text (some item) = is_string item.kind

abbrev pub add_seen : ℤ → ℤ → Option Item → Option ℤ → Result ℤ × Option Item
add_seen now delta seen none = (err not_an_integer, seen)
add_seen now delta seen (some num) =
    (ok (num +ℤ delta), stored_item now (print_int (num +ℤ delta)) none)

unfoldable pub incr_seen : (Bytes → Option ℤ) → ℤ → ℤ → Option Item → Result ℤ × Option Item
incr_seen parse now delta seen =
    if is_text seen
    then add_seen now delta seen (number_in parse (text_of seen))
    else (err wrong_type, seen)

answer_number_ok :
    (next : ℤ) (out : Result (Unit {0}) × State)
    → out.0 ≡ ok tt
    → answer_number next out ≡ (ok next, out.1)
answer_number_ok next (ok _, st) h = refl
answer_number_ok next (err e, st) h = absurd cc

set_answer_text : (seen : Option Item) → is_text seen ≡ true → set_answer seen ≡ ok tt
unfolding set_answer
set_answer_text none h = refl
set_answer_text (some item) h = rw h refl

set_leaves_text : (seen new : Option Item) → is_text seen ≡ true → set_leaves seen new ≡ new
unfolding set_leaves
set_leaves_text none new h = refl
set_leaves_text (some item) new h = rw h refl

answer_text : (seen : Option Item) → is_text seen ≡ true → answer false seen ≡ ok (text_of seen)
unfolding answer
answer_text none h = refl
answer_text (some item) h = rw h refl

-- The row that is there, and what is seen.
seen_row :
    (now : ℤ) (key : Bytes) (m : Option KeyMeta) (db : Db)
    → Keys.get key db ≡ m
    → past_row now m ≡ false
    → is_text (view now db key) ≡ takes_string m
seen_row now key none db there live = unfold view item_of in rw there refl
seen_row now key (some m) db there live = unfold view item_of past_row in rw there (rw live refl)

current_text :
    (now : ℤ) (key : Bytes) (m : Option KeyMeta) (cached : Cached) (db : Db)
    → Keys.get key db ≡ m
    → past_row now m ≡ false
    → is_text (view now db key) ≡ true
    → Answers (view now db key) cached
    → current key m cached db ≡ text_of (view now db key)
current_text now key none cached db there live t says = unfold view item_of in rw there refl
current_text now key (some m) miss db there live t says =
    unfold view item_of past_row Strings.get in rw there (rw live refl)
current_text now key (some m) (hit value) db there live t says =
    let e : ok value ≡ ok (text_of (view now db key)) =
      says false ∙ answer_text (view now db key) t in
    cc

module _ (parse : Bytes → Option ℤ) (plus : ℤ → ℤ → ℤ) (show : ℤ → Bytes)
    (exact : (a b : ℤ) → IsSafe a → IsSafe b → IsSafe (a +ℤ b) → plus a b ≡ a +ℤ b)
    (prints : (z : ℤ) → IsSafe z → show z ≡ print_int z) where
  -- The number that is there, and the sum, are safe.
  abbrev Fits : ℤ → Option ℤ → Type 0
  Fits delta num = (n : ℤ) → num ≡ some n → IsSafe n × IsSafe (n +ℤ delta)

  -- The sum goes to the tables as it would with exact numbers.
  stored_sum :
      (now : ℤ) (key : Bytes) (delta : ℤ) (m : Option KeyMeta) (st : State) (num : ℤ)
      → IsSafe delta
      → IsSafe num × IsSafe (num +ℤ delta)
      → add_to parse plus show now key delta m st (some num)
        ≡ answer_number (num +ℤ delta) (store_string now key (print_int (num +ℤ delta)) none m st)
  stored_sum now key delta m st num d (n, s) =
      ap (λ z. answer_number z (store_string now key (show z) none m st)) (exact num delta n d s)
      ∙ ap (λ t. answer_number (num +ℤ delta) (store_string now key t none m st))
          (prints (num +ℤ delta) s)

  add_to-Writes :
      (now : ℤ) (key : Bytes) (delta : ℤ) (m : Option KeyMeta) (st : State) (num : Option ℤ)
      → IsGood st
      → Keys.get key st.db ≡ m
      → past_row now m ≡ false
      → is_text (view now st.db key) ≡ true
      → IsSafe delta
      → Fits delta num
      → let s = add_seen now delta (view now st.db key) num in
        Writes now key s.1 st s.0 (add_to parse plus show now key delta m st num)
  add_to-Writes now key delta m st none g there live t d fits =
      same-Writes now key _ st _ _ g (λ j. refl) refl refl
  add_to-Writes now key delta m st (some num) g there live t d fits =
      let next = num +ℤ delta in
      let seen = view now st.db key in
      let out = store_string now key (print_int next) none m st in
      let w = store_string-Writes now key (print_int next) none m st g there live in
      let done : answer_number next out ≡ (ok next, out.1) =
        answer_number_ok next out (w.answers ∙ set_answer_text seen t) in
      rw (stored_sum now key delta m st num d (fits num refl) ∙ done) (record {
        good = w.good;
        seen = λ j.
            w.seen j
            ∙ ap (λ v. if key == j then v else view now st.db j)
                (set_leaves_text seen (stored_item now (print_int next) none) t);
        answers = refl;
      })

  incr_with-Writes :
      (now : ℤ) (key : Bytes) (delta : ℤ) (m : Option KeyMeta) (cached : Cached) (st : State)
      → IsGood st
      → Keys.get key st.db ≡ m
      → past_row now m ≡ false
      → Answers (view now st.db key) cached
      → IsSafe delta
      → Fits delta (number_in parse (text_of (view now st.db key)))
      → let s = incr_seen parse now delta (view now st.db key) in
        Writes now key s.1 st s.0 (incr_with parse plus show now key delta m cached st)
  unfolding incr_seen incr_with
  incr_with-Writes now key delta m cached st g there live says d safe =
      let e = seen_row now key m st.db there live in
      elim (Bool-cases (takes_string m)) [
        | inl fits ↦
            let t : is_text (view now st.db key) ≡ true = e ∙ fits in
            let text = current_text now key m cached st.db there live t says in
            rw (t, fits)
              (rw (ap (number_in parse) text) (
                add_to-Writes now key delta m st (number_in parse (text_of (view now st.db key))) g
                  there live t d safe))
        | inr other ↦ rw (e ∙ other, other) (same-Writes now key _ st _ _ g (λ j. refl) refl refl)
      ]

  -- INCRBY on a well-formed state, where `plus` is exact on safe integers with a safe sum and `show` prints
  -- safe integers, and the increment, the number under the key and their sum are safe integers: what
  -- `parseInt` reads from the string that is seen under the key (of '12abc' it reads 12), or 0 if no key is
  -- seen, and the increment are added; the sum is answered and seen under the key, without any expiry. On a
  -- string that `parseInt` makes NaN of, or a key of another type, it raises an error and nothing changes
  -- that can be seen. Every other key is as it was.
  pub incr_by-Writes :
      (now : ℤ) (key : Bytes) (delta : ℤ) (st : State)
      → IsGood st
      → IsSafe delta
      → ((n : ℤ)
          → number_in parse (text_of (view now st.db key)) ≡ some n
          → IsSafe n × IsSafe (n +ℤ delta))
      → let s = incr_seen parse now delta (view now st.db key) in
        Writes now key s.1 st s.0 (incr_by parse plus show now key delta st)
  unfolding incr_by
  incr_by-Writes now key delta st g d fits =
      let p = read_cached-Peeked now key st g in
      let st₁ = (read_cached_string now key st).1 in
      let l = get_key_meta-Looked now key st₁ p.good in
      let st₂ = (get_key_meta now key st₁).1 in
      let m = (get_key_meta now key st₁).0 in
      let same : SameView now st.db st₂.db = λ j. l.same j ∙ p.same j in
      rw (← same key) (
        Writes-before now key _ st st₂ _ _ same (
          incr_with-Writes now key delta m (read_cached_string now key st).0 st₂ l.good l.row l.live
            (rw (same key) p.says) d (rw (same key) fits)))
