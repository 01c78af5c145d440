-- ===== src/Commands/Set/Settings.antt =====
-- src/commands/set.js: SET with settings of a time, from its arguments to what is seen of the key.
-- spec/02-protocol-and-commands.md lists one EX or one PX; the loop takes any number of both.
use resplite.Base.{
  ℕ, suc, ◌*◌, ◌≡◌, refl, ap, true, false, Option, none, some, List, [], ◌∷◌, Bytes, bytes_eq, ◌==◌,
  arith, bytes_beq, if◌then◌else◌, inl, inr, Bool-cases, ◌∙◌,
}
use resplite.Base.Int.{ℤ, pos, ◌+ℤ◌, ltb_ℤ, IsSafe}
use resplite.Storage.{Result, ok, err, wrong_type}
use resplite.Storage.Strings.{is_string}
use resplite.Resp.Decimal.{print_int}
use resplite.Engine.Strings.{State, Expiry, expiry_at, set_string, milliseconds}
use resplite.Engine.Strings.Coherent.{IsGood}
use resplite.Engine.Strings.Reads.{view, Item}
use resplite.Engine.Strings.Sets.{Writes, stored_item, set_answer, set_leaves, set_string-Writes}
use resplite.Commands.Set.{
  SetAnswer, thrown, done, accepted, ex_word, px_word, set_answered, read_options, handle_set,
}

-- A time of `n + 1` seconds or milliseconds.
pub data Setting : Type 0 where
  seconds ms : ℕ → Setting

-- The settings as arguments, with `ex` and `px` for the way their names are spelled.
abbrev pub arguments : Bytes → Bytes → List Setting → List Bytes
arguments ex px [] = []
arguments ex px (seconds n ∷ ss) = ex ∷ print_int (pos (suc n)) ∷ arguments ex px ss
arguments ex px (ms n ∷ ss) = px ∷ print_int (pos (suc n)) ∷ arguments ex px ss

-- Every time, and the time at which it is over, is an integer that a JavaScript number is exact about.
abbrev pub AreSafe : ℤ → List Setting → Type 0
AreSafe now [] = Unit
AreSafe now (seconds n ∷ ss) =
    IsSafe (pos (suc n)) × IsSafe (now +ℤ pos (suc n * 1000)) × AreSafe now ss
AreSafe now (ms n ∷ ss) = IsSafe (pos (suc n)) × IsSafe (now +ℤ pos (suc n)) × AreSafe now ss

-- The last time in each unit, or what was set before.
abbrev pub last_seconds : Option ℕ → List Setting → Option ℕ
last_seconds before [] = before
last_seconds before (seconds n ∷ ss) = last_seconds (some (suc n)) ss
last_seconds before (ms n ∷ ss) = last_seconds before ss

abbrev pub last_ms : Option ℕ → List Setting → Option ℕ
last_ms before [] = before
last_ms before (seconds n ∷ ss) = last_ms before ss
last_ms before (ms n ∷ ss) = last_ms (some (suc n)) ss

-- When the key goes: a time in milliseconds counts before one in seconds, wherever they stand.
abbrev ends : ℤ → Option ℕ → Option ℕ → Option ℤ
ends now s (some m) = some (now +ℤ pos m)
ends now (some s) none = some (now +ℤ pos (s * 1000))
ends now none none = none

abbrev pub ends_at : ℤ → List Setting → Option ℤ
ends_at now ss = ends now (last_seconds none ss) (last_ms none ss)

abbrev number : Option ℕ → Option ℤ
number none = none
number (some n) = some (pos n)

abbrev expiry : Option ℕ → Option ℕ → Expiry
expiry s m = record { expires_at = none; ex = number s; px = number m }

expiry_at-ends : (now : ℤ) (s m : Option ℕ) → expiry_at now (expiry s m) ≡ ends now s m
unfolding expiry_at milliseconds
expiry_at-ends now s (some m) = refl
expiry_at-ends now (some s) none = refl
expiry_at-ends now none none = refl

ex_is_ex : (ex_word == ex_word) ≡ true
unfolding bytes_beq
ex_is_ex = refl

px_is_px : (px_word == px_word) ≡ true
unfolding bytes_beq
px_is_px = refl

px_is_not_ex : (px_word == ex_word) ≡ false
unfolding bytes_beq
px_is_not_ex = refl

suc_not_less : (n : ℕ) → ltb_ℤ (pos (suc n)) (pos 1) ≡ false
suc_not_less n = ground arith

-- What SET is to answer, of what is seen under the key: OK if that is nothing or a string.
abbrev pub answer_on : Option Item → SetAnswer
answer_on none = done
answer_on (some item) = if is_string item.kind then done else thrown wrong_type

answered-answer_on :
    (seen : Option Item) (st : State) → (set_answered (set_answer seen, st)).0 ≡ answer_on seen
unfolding set_answer
answered-answer_on none st = refl
answered-answer_on (some item) st = elim (Bool-cases (is_string item.kind)) [
  | inl text ↦ rw text refl
  | inr other ↦ rw other refl
]

set_answered-state :
    (out : Result (Unit {0}) × State) → set_answered out ≡ ((set_answered (out.0, out.1)).0, out.1)
set_answered-state (ok _, st) = refl
set_answered-state (err e, st) = refl

set_answered-Writes :
    (now : ℤ) (key : Bytes) (new seen : Option Item) (st : State) (out : Result (Unit {0}) × State)
    → Writes now key new st (set_answer seen) out
    → Writes now key new st (answer_on seen) (set_answered out)
set_answered-Writes now key new seen st out w = rw (set_answered-state out) (record {
  good = w.good;
  seen = w.seen;
  answers = ap (λ r. (set_answered (r, out.1)).0) w.answers ∙ answered-answer_on seen out.1;
})

module _ (text upper : Bytes → Bytes) (parse : Bytes → Option ℤ) (ex px : Bytes)
    (ex_spelled : upper (text ex) ≡ ex_word) (px_spelled : upper (text px) ≡ px_word)
    (parsed : (n : ℕ) → IsSafe (pos n) → parse (text (print_int (pos n))) ≡ some (pos n)) where
  read_options-arguments :
      (now : ℤ) (s m : Option ℕ) (ss : List Setting)
      → AreSafe now ss
      → read_options text upper parse (expiry s m) (arguments ex px ss)
        ≡ accepted (expiry (last_seconds s ss) (last_ms m ss))
  unfolding read_options
  read_options-arguments now s m [] safe = refl
  read_options-arguments now s m (seconds n ∷ ss) safe =
      rw (ex_spelled, parsed (suc n) (safe.0), suc_not_less n, ex_is_ex)
        (read_options-arguments now (some (suc n)) m ss safe.2)
  read_options-arguments now s m (ms n ∷ ss) safe =
      rw (px_spelled, parsed (suc n) (safe.0), suc_not_less n, px_is_not_ex, px_is_px)
        (read_options-arguments now s (some (suc n)) ss safe.2)

  -- SET with any number of settings EX and PX, mixed and repeated as its loop allows, where `ex` and `px`
  -- spell their names, `parse` reads back the prints of safe integers, and every time is positive and, like
  -- the moment at which it is over, a safe integer, on a well-formed state: on a key of another type it
  -- answers WRONGTYPE and nothing changes that can be seen; else it answers OK and the value is seen under
  -- the key, to go when the last PX says, without one when the last EX says, without either never; and
  -- every other key is as it was.
  pub handle_set-Writes :
      (now : ℤ) (key value : Bytes) (ss : List Setting) (st : State)
      → AreSafe now ss
      → IsGood st
      → let seen = view now st.db key in
        Writes now key
          (set_leaves seen (stored_item now value (ends_at now ss)))
          st
          (answer_on seen)
          (handle_set text upper parse now (key ∷ value ∷ arguments ex px ss) st)
  unfolding handle_set
  handle_set-Writes now key value ss st safe g =
      let o = expiry (last_seconds none ss) (last_ms none ss) in
      rw
        (
          read_options-arguments now none none ss safe,
          ← expiry_at-ends now (last_seconds none ss) (last_ms none ss),
        )
        (set_answered-Writes now key _ (view now st.db key) st (set_string now key value o st)
          (set_string-Writes now key value o st g))
