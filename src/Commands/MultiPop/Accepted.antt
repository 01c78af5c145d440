-- ===== src/Commands/MultiPop/Accepted.antt =====
-- src/commands/multi-pop-arguments.js: which arguments are accepted, and as what.
use resplite.Base.{
  ℕ, suc, ◌≤◌, ◌<◌, ◌≡◌, refl, ◌∙◌, sym, ap, true, false, ◌&&◌, List, [], ◌∷◌, ◌++◌, Bytes,
  bytes_eq, nat_eq, ◌==◌, length, take, drop, ltb, leb, arith, inl, inr, Bool-cases,
  take-append-drop, drop-append, take-append, length-append, length-take, length-drop, ltb_of_le,
  le→leb, leb→le, nat_beq, ==_refl,
}
use mathlib.Core.Path.{subst}
use resplite.Resp.Decimal.{
  is_digit, read_digits, print_nat, AllDigits, print_nat-AllDigits, print_nat_some,
  read_digits-print_nat,
}
use resplite.Commands.MultiPop.{
  ArgumentError, MultiPop, Parse, refused, accepted, max_safe_integer, digits_only, is_number,
  unsigned, parse_positive_integer, count_word, includes, parse_count, with_count, with_direction,
  with_numkeys, parse_multi_pop_arguments, numkeys_not_positive, count_not_positive,
}

AllDigits-number : (s : Bytes) → AllDigits s → 0 < length s → is_number s ≡ true
AllDigits-number [] a l = absurd (omega arith)
AllDigits-number (c ∷ s) a l = only (c ∷ s) a
  where
    only : (s : Bytes) → AllDigits s → digits_only s ≡ true
    only [] a = refl
    only (c ∷ s) a = rw a.0 (only s a.1)

unsigned-print_nat :
    (e : ArgumentError) (n : ℕ)
    → 1 ≤ n
    → n ≤ max_safe_integer
    → unsigned e (print_nat n) ≡ accepted n
unfolding unsigned
unsigned-print_nat e n l h =
    rw (AllDigits-number (print_nat n) (print_nat-AllDigits n) (print_nat_some n))
      (rw (read_digits-print_nat n) (rw (le→leb 1 n l) (rw (le→leb n max_safe_integer h) refl)))

unsigned_digits :
    (e : ArgumentError) (s : Bytes)
    → AllDigits s
    → 0 < length s
    → parse_positive_integer e s ≡ unsigned e s
unfolding parse_positive_integer is_digit
unsigned_digits e [] a l = absurd (omega arith)
unsigned_digits e (c ∷ s) a l =
    let no_minus : nat_beq c b'-' ≡ false = ground (arith, a.0) in
    let no_plus : nat_beq c b'+' ≡ false = ground (arith, a.0) in rw (no_minus, no_plus) refl

parse_positive_integer-print_nat :
    (e : ArgumentError) (n : ℕ)
    → 1 ≤ n
    → n ≤ max_safe_integer
    → parse_positive_integer e (print_nat n) ≡ accepted n
parse_positive_integer-print_nat e n l h =
    unsigned_digits e (print_nat n) (print_nat-AllDigits n) (print_nat_some n)
    ∙ unsigned-print_nat e n l h

unsigned_positive : (e : ArgumentError) (s : Bytes) (n : ℕ) → unsigned e s ≡ accepted n → 1 ≤ n
unfolding unsigned
unsigned_positive e s n h =
    elim (Bool-cases
      (is_number s && leb 1 (read_digits 0 s) && leb (read_digits 0 s) max_safe_integer)) [
        | inl good ↦
            let same : read_digits 0 s ≡ n = cc (rw good at h) in
            let least : leb 1 (read_digits 0 s) ≡ true = ground (arith, good) in
            omega (arith, leb→le 1 (read_digits 0 s) least, same)
        | inr bad ↦ absurd (cc (rw bad at h))
      ]

parse_positive_integer_positive :
    (e : ArgumentError) (s : Bytes) (n : ℕ) → parse_positive_integer e s ≡ accepted n → 1 ≤ n
unfolding parse_positive_integer
parse_positive_integer_positive e [] n h = absurd cc
parse_positive_integer_positive e (c ∷ s) n h = elim (Bool-cases (c == b'-')) [
  | inl minus ↦ absurd (cc (rw minus at h))
  | inr not_minus ↦ elim (Bool-cases (c == b'+')) [
    | inl plus ↦ unsigned_positive e s n (rw plus at (rw not_minus at h))
    | inr no_sign ↦ unsigned_positive e (c ∷ s) n (rw no_sign at (rw not_minus at h))
  ]
]

module _ (text upper : Bytes → Bytes) where
  -- The arguments that a client sends for `m`.
  abbrev pub arguments_of : MultiPop → List Bytes
  arguments_of m =
      print_nat (length m.keys) ∷ (m.keys ++ (m.direction ∷ count_word ∷ print_nat m.count ∷ []))

  -- Keys, a direction and a count, written out as arguments, are read back, when the direction is one of the
  -- command's, there is a key, the count is positive, both are safe integers, and texts of ASCII are their bytes.
  pub parse_multi_pop_arguments-arguments_of :
      (directions : List Bytes) (m : MultiPop)
      → ((n : ℕ) → text (print_nat n) ≡ print_nat n)
      → upper (text count_word) ≡ count_word
      → upper (text m.direction) ≡ m.direction
      → includes m.direction directions ≡ true
      → 1 ≤ length m.keys
      → length m.keys ≤ max_safe_integer
      → 1 ≤ m.count
      → m.count ≤ max_safe_integer
      → parse_multi_pop_arguments text upper directions (arguments_of m) ≡ accepted m
  unfolding parse_multi_pop_arguments with_direction parse_count
  parse_multi_pop_arguments-arguments_of directions m number word direction known k k' c c' =
      let behind : List Bytes = m.direction ∷ count_word ∷ print_nat m.count ∷ [] in
      let enough : ltb (length (m.keys ++ behind)) 2 ≡ false =
        ltb_of_le (length (m.keys ++ behind)) 2 (omega (arith, length-append m.keys behind)) in
      rw enough (
        ap
          (λ t.
            with_numkeys text upper directions (m.keys ++ behind)
              (parse_positive_integer numkeys_not_positive t))
          (number (length m.keys))
        ∙ ap (with_numkeys text upper directions (m.keys ++ behind))
            (parse_positive_integer-print_nat numkeys_not_positive (length m.keys) k k')
        ∙ (λ i.
            with_direction text upper directions (take-append m.keys behind i)
              (drop-append m.keys behind i))
        ∙ rw direction (
            rw known (
              rw word (
                rw (==_refl count_word) (
                  ap
                    (λ t.
                      with_count text upper m.keys m.direction
                        (parse_positive_integer count_not_positive t))
                    (number m.count)
                  ∙ ap (with_count text upper m.keys m.direction)
                      (parse_positive_integer-print_nat count_not_positive m.count c c'))))))

  -- What stands behind the direction: nothing for the count 1, or the word COUNT and a positive number.
  pub data Counted : List Bytes → ℕ → Type 0 where
    one : Counted [] 1
    named_count :
        (word a : Bytes) (n : ℕ)
        → upper (text word) ≡ count_word
        → parse_positive_integer count_not_positive (text a) ≡ accepted n
        → Counted (word ∷ a ∷ []) n

  -- How accepted arguments read.
  pub record Taken (directions args : List Bytes) (m : MultiPop) : Type 0 where
    pub numkeys : Bytes
    pub direction : Bytes
    pub behind : List Bytes
    pub shape : args ≡ numkeys ∷ (m.keys ++ direction ∷ behind)
    pub counted :
        parse_positive_integer numkeys_not_positive (text numkeys) ≡ accepted (length m.keys)
    pub some_key : 1 ≤ length m.keys
    pub named : upper (text direction) ≡ m.direction
    pub known : includes m.direction directions ≡ true
    pub counted_behind : Counted behind m.count
    pub positive : 1 ≤ m.count

  Counted_positive : (behind : List Bytes) (n : ℕ) → Counted behind n → 1 ≤ n
  Counted_positive _ _ one = omega arith
  Counted_positive _ _ (named_count word a n w p) =
      parse_positive_integer_positive count_not_positive (text a) n p

  parse_count-Counted :
      (behind : List Bytes) (n : ℕ) → parse_count text upper behind ≡ accepted n → Counted behind n
  unfolding parse_count
  parse_count-Counted [] n h = let e : 1 ≡ n = cc in subst (Counted []) e one
  parse_count-Counted (word ∷ []) n h = absurd cc
  parse_count-Counted (word ∷ a ∷ []) n h = elim (Bool-cases (upper (text word) == count_word)) [
    | inl same ↦
        named_count word a n ((bytes_eq.beq_iff (upper (text word)) count_word).0 same)
          (rw same at h)
    | inr other ↦ absurd (cc (rw other at h))
  ]
  parse_count-Counted (word ∷ a ∷ b ∷ more) n h = absurd cc

  -- What `with_direction` accepts.
  record Chosen (directions keys from : List Bytes) (m : MultiPop) : Type 0 where
    direction : Bytes
    behind : List Bytes
    split : from ≡ direction ∷ behind
    keys_same : keys ≡ m.keys
    named : upper (text direction) ≡ m.direction
    known : includes m.direction directions ≡ true
    counted_behind : Counted behind m.count

  with_count_accepted :
      (keys : List Bytes) (d : Bytes) (o : Parse ℕ) (m : MultiPop)
      → with_count text upper keys d o ≡ accepted m
      → (o ≡ accepted m.count) × (keys ≡ m.keys) × (d ≡ m.direction)
  with_count_accepted keys d (refused e) m h = absurd cc
  with_count_accepted keys d (accepted n) m h =
      let e : record { keys = keys; direction = d; count = n } ≡ m = cc in
      (ap (λ x. accepted x.count) e, ap (λ x. x.keys) e, ap (λ x. x.direction) e)

  with_direction_accepted :
      (directions keys from : List Bytes) (m : MultiPop)
      → with_direction text upper directions keys from ≡ accepted m
      → Chosen directions keys from m
  unfolding with_direction
  with_direction_accepted directions keys [] m h = absurd cc
  with_direction_accepted directions keys (d ∷ behind) m h =
      elim (Bool-cases (includes (upper (text d)) directions)) [
        | inl known ↦
            let (counted, ks, named) =
              with_count_accepted keys (upper (text d)) (parse_count text upper behind) m
                (rw known at h) in
            record {
              direction = d;
              behind = behind;
              split = refl;
              keys_same = ks;
              named = named;
              known = ap (λ x. includes x directions) (sym named) ∙ known;
              counted_behind = parse_count-Counted behind m.count counted;
            }
        | inr unknown ↦ absurd (cc (rw unknown at h))
      ]

  taken :
      (directions rest : List Bytes) (numkeys : Bytes) (o : Parse ℕ) (m : MultiPop)
      → parse_positive_integer numkeys_not_positive (text numkeys) ≡ o
      → with_numkeys text upper directions rest o ≡ accepted m
      → Taken directions (numkeys ∷ rest) m
  taken directions rest numkeys (refused e) m p h = absurd cc
  taken directions rest numkeys (accepted n) m p h =
      let c = with_direction_accepted directions (take n rest) (drop n rest) m h in
      let there : length (drop n rest) ≡ suc (length c.behind) = ap length c.split in
      let all : n ≡ length m.keys =
        omega (arith, there, length-drop n rest, length-take n rest, ap length c.keys_same) in
      record {
        numkeys = numkeys;
        direction = c.direction;
        behind = c.behind;
        shape =
            ap (◌∷◌ numkeys) (sym (take-append-drop n rest) ∙ (λ i. c.keys_same i ++ c.split i));
        counted = p ∙ ap accepted all;
        some_key =
            omega
              (arith, parse_positive_integer_positive numkeys_not_positive (text numkeys) n p, all);
        named = c.named;
        known = c.known;
        counted_behind = c.counted_behind;
        positive = Counted_positive c.behind m.count c.counted_behind;
      }

  -- Arguments that are accepted are a count of keys, that many keys and at least one, a direction of the command's,
  -- and behind it either nothing, for the count 1, or the word COUNT and the positive count, and no more.
  pub parse_multi_pop_arguments-Taken :
      (directions args : List Bytes) (m : MultiPop)
      → parse_multi_pop_arguments text upper directions args ≡ accepted m
      → Taken directions args m
  unfolding parse_multi_pop_arguments
  parse_multi_pop_arguments-Taken directions [] m h = absurd cc
  parse_multi_pop_arguments-Taken directions (numkeys ∷ rest) m h =
      elim (Bool-cases (ltb (length rest) 2)) [
        | inl few ↦ absurd (cc (rw few at h))
        | inr enough ↦
            taken directions rest numkeys
              (parse_positive_integer numkeys_not_positive (text numkeys)) m refl (rw enough at h)
      ]
