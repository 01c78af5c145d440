-- ===== src/Resp/Decimal.antt =====
-- `parseInt(s, 10)` and `String(n)` of JavaScript, on ASCII text.  Numbers beyond 2^53, which JavaScript
-- rounds, are kept exact.
use resplite.Base.{
  ℕ, zero, suc, ◌+◌, ◌-◌, ◌*◌, ◌/◌, ◌%◌, ◌≤◌, ◌<◌, ◌≡◌, refl, ◌∙◌, sym, ap, Bool, true, false, ◌&&◌,
  ◌||◌, Option, none, some, [], ◌∷◌, map, Bytes, if◌then◌else◌, nat_eq, ◌==◌, leb, arith,
  nat_beq_iff, nat_beq, length, inl, inr, Bool-cases,
}
use resplite.Base.Int.{ℤ, pos, negsuc}

unfoldable pub is_digit : ℕ → Bool
is_digit c = leb b'0' c && leb c b'9'

unfoldable pub is_space : ℕ → Bool
is_space c = (c == 32) || (leb 9 c && leb c 13)

-- The digits at the front, read behind `acc`.
unfoldable pub read_digits : ℕ → Bytes → ℕ
unfolding is_digit
read_digits acc [] = acc
read_digits acc (c ∷ s) = elim (is_digit c) [
  | true ↦ read_digits (acc * 10 + (c - b'0')) s
  | false ↦ acc
]

-- A number wants a digit; `none` is NaN.
unfoldable pub read_nat : Bytes → Option ℕ
unfolding is_digit
read_nat [] = none
read_nat (c ∷ s) = if is_digit c then some (read_digits 0 (c ∷ s)) else none

abbrev pub negate : ℕ → ℤ
negate zero = pos 0
negate (suc n) = negsuc n

abbrev map_option {ℓ κ} : {A : Type ℓ} {B : Type κ} → (A → B) → Option A → Option B
map_option f none = none
map_option f (some a) = some (f a)

unfoldable pub read_signed : Bytes → Option ℤ
read_signed [] = none
read_signed (c ∷ s) =
    if c == b'-'
    then map_option negate (read_nat s)
    else map_option pos (read_nat (if c == b'+' then s else c ∷ s))

unfoldable pub parse_int : Bytes → Option ℤ
unfolding is_space
parse_int [] = none
parse_int (c ∷ s) = let rest = parse_int s in if is_space c then rest else read_signed (c ∷ s)

-- `toString('ascii')` drops the highest bit of each byte.
unfoldable pub ascii : Bytes → Bytes
ascii s = map (λ b. b % 128) s

-- The digits of `n`, in front of `out`; one round for each digit, and `n` rounds are enough.
unfoldable pub digits : ℕ → ℕ → Bytes → Bytes
digits zero n out = out
digits (suc fuel) n out =
    let more = digits fuel (n / 10) ((b'0' + n % 10) ∷ out) in if n == 0 then out else more

unfoldable pub print_nat : ℕ → Bytes
unfolding digits
print_nat n = if n == 0 then b'0' ∷ [] else digits n n []

unfoldable pub print_int : ℤ → Bytes
unfolding print_nat
print_int (pos n) = print_nat n
print_int (negsuc n) = b'-' ∷ print_nat (suc n)

-- Digits only, from which no other reader of a line can stray.
abbrev pub AllDigits : Bytes → Type 0
AllDigits [] = Unit
AllDigits (c ∷ s) = (is_digit c ≡ true) × AllDigits s

digit_of : (n : ℕ) → is_digit (b'0' + n % 10) ≡ true
unfolding is_digit
digit_of n = ground arith

digits-AllDigits : (fuel n : ℕ) (out : Bytes) → AllDigits out → AllDigits (digits fuel n out)
unfolding digits
digits-AllDigits zero n out a = a
digits-AllDigits (suc fuel) n out a = elim (Bool-cases (n == 0)) [
  | inl done ↦ rw done a
  | inr more ↦ rw more (digits-AllDigits fuel (n / 10) ((b'0' + n % 10) ∷ out) (digit_of n, a))
]

read_digits-cons :
    (acc c : ℕ) (s : Bytes)
    → is_digit c ≡ true
    → read_digits acc (c ∷ s) ≡ read_digits (acc * 10 + (c - b'0')) s
unfolding read_digits
read_digits-cons acc c s h = rw (h, read_digits)

-- Reading the digits of `n` and then `out` is reading `out` behind `n`.
read_digits-digits :
    (fuel n : ℕ) (out : Bytes) → n ≤ fuel → read_digits 0 (digits fuel n out) ≡ read_digits n out
unfolding digits
read_digits-digits zero n out h = ap (λ k. read_digits k out) (omega arith)
read_digits-digits (suc fuel) n out h = elim (Bool-cases (n == 0)) [
  | inl done ↦ rw done (ap (λ k. read_digits k out) (sym ((nat_beq_iff n 0).0 done)))
  | inr more ↦ rw more (
      read_digits-digits fuel (n / 10) ((b'0' + n % 10) ∷ out) (ground arith)
      ∙ read_digits-cons (n / 10) (b'0' + n % 10) out (digit_of n)
      ∙ ap (λ k. read_digits k out) (omega arith))
]

length-digits : (fuel n : ℕ) (out : Bytes) → length out ≤ length (digits fuel n out)
unfolding digits
length-digits zero n out = omega arith
length-digits (suc fuel) n out = elim (Bool-cases (n == 0)) [
  | inl done ↦ rw done (omega arith)
  | inr more ↦ rw more (omega (arith, length-digits fuel (n / 10) ((b'0' + n % 10) ∷ out)))
]

pub print_nat-AllDigits : (n : ℕ) → AllDigits (print_nat n)
unfolding print_nat is_digit
print_nat-AllDigits n = elim (Bool-cases (n == 0)) [
  | inl z ↦ rw z (refl, tt)
  | inr p ↦ rw p (digits-AllDigits n n [] tt)
]

pub print_nat_some : (n : ℕ) → 0 < length (print_nat n)
unfolding print_nat digits
print_nat_some zero = omega arith
print_nat_some (suc n) =
    let p : nat_beq (suc n) 0 ≡ false = ground arith in
    rw (p, digits) (omega (arith, length-digits n (suc n / 10) ((b'0' + suc n % 10) ∷ [])))

read_nat-AllDigits : (s : Bytes) → AllDigits s → 0 < length s → read_nat s ≡ some (read_digits 0 s)
unfolding read_nat
read_nat-AllDigits [] a h = absurd (omega arith)
read_nat-AllDigits (c ∷ s) a h = rw a.0

pub read_digits-print_nat : (n : ℕ) → read_digits 0 (print_nat n) ≡ n
unfolding print_nat read_digits
read_digits-print_nat n = elim (Bool-cases (n == 0)) [
  | inl z ↦ rw z (sym ((nat_beq_iff n 0).0 z))
  | inr p ↦ rw p (read_digits-digits n n [] (omega arith))
]

read_nat-print_nat : (n : ℕ) → read_nat (print_nat n) ≡ some n
read_nat-print_nat n =
    read_nat-AllDigits (print_nat n) (print_nat-AllDigits n) (print_nat_some n)
    ∙ ap some (read_digits-print_nat n)

-- Digits are read as they stand: no space, no sign.
parse_int-AllDigits :
    (s : Bytes) → AllDigits s → 0 < length s → parse_int s ≡ map_option pos (read_nat s)
unfolding parse_int read_signed is_digit
parse_int-AllDigits [] a h = absurd (omega arith)
parse_int-AllDigits (c ∷ s) a h =
    let no_space : is_space c ≡ false = unfold is_space in ground (arith, a.0) in
    let no_minus : nat_beq c b'-' ≡ false = ground (arith, a.0) in
    let no_plus : nat_beq c b'+' ≡ false = ground (arith, a.0) in rw (no_space, no_minus, no_plus)

-- Every integer is read back from its print.
pub parse_int-print_int : (z : ℤ) → parse_int (print_int z) ≡ some z
unfolding print_int parse_int read_signed is_space
parse_int-print_int (pos n) =
    parse_int-AllDigits (print_nat n) (print_nat-AllDigits n) (print_nat_some n)
    ∙ ap (map_option pos) (read_nat-print_nat n)
parse_int-print_int (negsuc n) = ap (map_option negate) (read_nat-print_nat (suc n))

ascii-AllDigits : (s : Bytes) → AllDigits s → ascii s ≡ s
unfolding ascii is_digit
ascii-AllDigits [] a = refl
ascii-AllDigits (c ∷ s) a =
    let small : c % 128 ≡ c = ground (arith, a.0) in λ i. small i ∷ ascii-AllDigits s a.1 i

pub ascii-print_int : (z : ℤ) → ascii (print_int z) ≡ print_int z
unfolding ascii print_int
ascii-print_int (pos n) = ascii-AllDigits (print_nat n) (print_nat-AllDigits n)
ascii-print_int (negsuc n) =
    ap (◌∷◌ b'-') (ascii-AllDigits (print_nat (suc n)) (print_nat-AllDigits (suc n)))

-- A line that has no carriage return.
abbrev pub NoCr : Bytes → Type 0
NoCr [] = Unit
NoCr (c ∷ s) = (nat_beq c 13 ≡ false) × NoCr s

AllDigits-NoCr : (s : Bytes) → AllDigits s → NoCr s
unfolding is_digit
AllDigits-NoCr [] a = tt
AllDigits-NoCr (c ∷ s) a = (ground (arith, a.0), AllDigits-NoCr s a.1)

pub print_int-NoCr : (z : ℤ) → NoCr (print_int z)
unfolding print_int
print_int-NoCr (pos n) = AllDigits-NoCr (print_nat n) (print_nat-AllDigits n)
print_int-NoCr (negsuc n) = (refl, AllDigits-NoCr (print_nat (suc n)) (print_nat-AllDigits (suc n)))
