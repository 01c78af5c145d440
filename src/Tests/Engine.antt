-- ===== src/Tests/Engine.antt =====
-- Runs of src/engine/engine.js on small inputs, and inputs for its theorems.
use resplite.Base.{
  sym, ◌∙◌, ap, bytes_beq, map, leb, ◌&&◌, ◌-◌, if◌then◌else◌, ◌≡◌, refl, true, false, none, some,
  List, [], ◌∷◌, Bytes, arith, bytes_eq,
}
use resplite.Base.Int.{ℤ, pos, ◌+ℤ◌, IsSafe}
use resplite.Base.Maps
use resplite.Cache.{create_cache}
use resplite.Cache.Lru.{create_lru}
use resplite.Cache.Lru.Bounds.{total_size}
use resplite.Storage.{empty_db}
use resplite.Engine.Strings.{State, Expiry, is_past, set_string, set_expiry, read_string, expiry_at}
use resplite.Resp.Decimal.{parse_int}
use mathlib.Core.Path.{subst}
use resplite.Resp.Decimal.{print_int, read_signed, read_nat, read_digits}
use resplite.Storage.Keys
use resplite.Engine.Increments.{number_in, text_of, incr_by, incr_seen, incr_by-Writes}
use resplite.Resp.Decimal.{parse_int-print_int}
use resplite.Commands.Set.{handle_set}
use resplite.Commands.Set.Settings.{
  Setting, seconds, ms, arguments, ends_at, answer_on, handle_set-Writes,
}
use resplite.Engine.Strings.Coherent.{IsGood}
use resplite.Engine.Strings.Reads.{view, item_of}
use resplite.Engine.Strings.Gets.{Reads, answer, read_string-Reads}
use resplite.Engine.Strings.Sets.{Writes, set_leaves, set_answer, stored_item, set_string-Writes}
use resplite.Engine.Strings.Expiries.{with_expiry, is_seen, set_expiry-Writes}
use resplite.Engine.Strings.Refines.{
  Command, get_cmd, set_cmd, del_cmd, exists_cmd, pttl_cmd, pexpire_cmd, run, run_spec,
  run-run_spec,
}

abbrev a_key : Bytes
a_key = b'a' ∷ []

abbrev b_key : Bytes
b_key = b'b' ∷ []

abbrev word : Bytes
word = b'x' ∷ b'y' ∷ []

abbrev fresh : State
fresh = record { db = empty_db; cache = create_cache true 2 100 }

fresh-IsGood : IsGood fresh
unfolding create_cache create_lru Maps.get Keys.get total_size
fresh-IsGood = record {
  cache = record {
    distinct = tt;
    exact = refl;
    entries_bound = omega arith;
    bytes_bound = omega arith;
  };
  distinct = tt;
  texts = λ j. refl;
  coherent = λ on j entry skip there kind. absurd (cc);
}

-- The key is to go at the time 50.
abbrev until_50 : Expiry
until_50 = record { expires_at = none; ex = none; px = some (pos 50) }

abbrev one_string : State
one_string = (set_string (pos 0) a_key word until_50 fresh).1

one_string-IsGood : IsGood one_string
one_string-IsGood = (set_string-Writes (pos 0) a_key word until_50 fresh fresh-IsGood).good

abbrev calls : List (ℤ × Command)
calls =
    (pos 1, get_cmd a_key)
    ∷ (pos 2, set_cmd b_key word until_50)
    ∷ (pos 49, exists_cmd (a_key ∷ b_key ∷ []))
    ∷ (pos 50, get_cmd a_key)
    ∷ (pos 51, pexpire_cmd b_key (pos 5))
    ∷ (pos 51, pttl_cmd b_key)
    ∷ (pos 52, del_cmd (a_key ∷ b_key ∷ []))
    ∷ (pos 52, get_cmd b_key)
    ∷ []

run-run_spec_example : run calls one_string ≡ run_spec calls (view (pos 0) one_string.db)
run-run_spec_example = run-run_spec (pos 0) calls one_string one_string-IsGood (
  omega arith,
  (
    omega arith,
    (omega arith, (omega arith, (omega arith, (omega arith, (omega arith, (omega arith, tt)))))),
  ),
)

read_string-Reads_example :
    Reads
      (pos 7)
      one_string
      (answer false (view (pos 7) one_string.db a_key))
      (read_string (pos 7) a_key false one_string)
read_string-Reads_example = read_string-Reads (pos 7) a_key false one_string one_string-IsGood

set_string-Writes_example :
    Writes
      (pos 60)
      a_key
      (set_leaves
        (view (pos 60) one_string.db a_key)
        (stored_item (pos 60) word (expiry_at (pos 60) until_50)))
      one_string
      (set_answer (view (pos 60) one_string.db a_key))
      (set_string (pos 60) a_key word until_50 one_string)
set_string-Writes_example =
    set_string-Writes (pos 60) a_key word until_50 one_string one_string-IsGood

set_expiry-Writes_example :
    Writes
      (pos 7)
      a_key
      (with_expiry (pos 7) none (view (pos 7) one_string.db a_key))
      one_string
      (is_seen (view (pos 7) one_string.db a_key))
      (set_expiry (pos 7) a_key none one_string)
set_expiry-Writes_example = set_expiry-Writes (pos 7) a_key none one_string one_string-IsGood

abbrev number_text : Bytes
number_text = b'4' ∷ b'1' ∷ []

abbrev one_number : State
one_number = (set_string (pos 0) a_key number_text until_50 fresh).1

one_number-IsGood : IsGood one_number
one_number-IsGood = (set_string-Writes (pos 0) a_key number_text until_50 fresh fresh-IsGood).good

one_number_text : text_of (view (pos 0) one_number.db a_key) ≡ some number_text
unfolding view item_of Keys.get Maps.get set_leaves stored_item is_past bytes_beq expiry_at ◌+ℤ◌
one_number_text =
    ap text_of
      ((set_string-Writes (pos 0) a_key number_text until_50 fresh fresh-IsGood).seen a_key)

one_number-IsSafe :
    (n : ℤ)
    → number_in parse_int (text_of (view (pos 0) one_number.db a_key)) ≡ some n
    → IsSafe n × IsSafe (n +ℤ pos 1)
unfolding parse_int read_signed read_nat read_digits ◌+ℤ◌
one_number-IsSafe n h =
    let e : pos 41 ≡ n = cc (sym (ap (number_in parse_int) one_number_text) ∙ h) in
    subst (λ z. IsSafe z × IsSafe (z +ℤ pos 1)) e
      ((omega arith, omega arith), (omega arith, omega arith))

-- The sum is 42, and nothing is left of the time at which the key was to go.
incr_by-Writes_example :
    Writes
      (pos 0)
      a_key
      (incr_seen parse_int (pos 0) (pos 1) (view (pos 0) one_number.db a_key)).1
      one_number
      (incr_seen parse_int (pos 0) (pos 1) (view (pos 0) one_number.db a_key)).0
      (incr_by parse_int (λ a b. a +ℤ b) print_int (pos 0) a_key (pos 1) one_number)
incr_by-Writes_example =
    incr_by-Writes parse_int (λ a b. a +ℤ b) print_int (λ a b _ _ _. refl) (λ z _. refl) (pos 0)
      a_key (pos 1) one_number one_number-IsGood (omega arith, omega arith) one_number-IsSafe

-- `toString` and `toUpperCase` on ASCII
abbrev same : Bytes → Bytes
same s = s

abbrev upper : Bytes → Bytes
upper s = map (λ c. if leb b'a' c && leb c b'z' then c - 32 else c) s

-- `ex 9 PX 30 ex 4`
abbrev three_settings : List Setting
three_settings = seconds 8 ∷ ms 29 ∷ seconds 3 ∷ []

handle_set-Writes_example :
    Writes
      (pos 60)
      a_key
      (set_leaves
        (view (pos 60) one_string.db a_key)
        (stored_item (pos 60) word (ends_at (pos 60) three_settings)))
      one_string
      (answer_on (view (pos 60) one_string.db a_key))
      (handle_set same upper parse_int
        (pos 60)
        (a_key ∷ word ∷ arguments (b'e' ∷ b'x' ∷ []) (b'P' ∷ b'X' ∷ []) three_settings)
        one_string)
handle_set-Writes_example =
    handle_set-Writes same upper parse_int (b'e' ∷ b'x' ∷ []) (b'P' ∷ b'X' ∷ []) refl refl
      (λ n _. parse_int-print_int (pos n)) (pos 60) a_key word three_settings one_string
      (
        (omega arith, omega arith),
        unfold ◌+ℤ◌ in (omega arith, omega arith),
        (
          (omega arith, omega arith),
          unfold ◌+ℤ◌ in (omega arith, omega arith),
          ((omega arith, omega arith), unfold ◌+ℤ◌ in (omega arith, omega arith), tt),
        ),
      )
      one_string-IsGood
