-- ===== src/Commands/Set.antt =====
-- src/commands/set.js: the options of SET, and its handler.  `text` is what `toString()` makes of an
-- argument, `upper` is `toUpperCase`, and `parse` is `parseInt` to the base 10, with `none` for NaN.
pub mod Settings
use resplite.Base.{suc, Option, none, some, List, [], ◌∷◌, Bytes, if◌then◌else◌, bytes_eq, ◌==◌}
use resplite.Base.Int.{ℤ, pos, ltb_ℤ}
use resplite.Storage.{Error, Result, ok, err}
use resplite.Engine.Strings.{State, Expiry, set_string}

pub data SetError : Type 0 where
  wrong_number_of_arguments invalid_expire_time syntax_error : SetError

-- What the handler returns.
pub data SetAnswer : Type 0 where
  bad_arguments : SetError → SetAnswer
  thrown : Error → SetAnswer
  done : SetAnswer

-- What the loop over the options makes of them.
pub data SetOptions : Type 0 where
  refused : SetError → SetOptions
  accepted : Expiry → SetOptions

abbrev pub ex_word : Bytes
ex_word = b'E' ∷ b'X' ∷ []

abbrev pub px_word : Bytes
px_word = b'P' ∷ b'X' ∷ []

abbrev pub no_expiry : Expiry
no_expiry = record { expires_at = none; ex = none; px = none }

-- `Number.isNaN(sec) || sec < 1`
abbrev pub expire_time : Option ℤ → Option ℤ
expire_time none = none
expire_time (some n) = if ltb_ℤ n (pos 1) then none else some n

-- The rest of the loop, behind a time that is right.
abbrev pub behind_time : Option ℤ → SetOptions → SetOptions
behind_time none rest = refused invalid_expire_time
behind_time (some _) rest = rest

abbrev pub set_answered : Result (Unit {0}) × State → SetAnswer × State
set_answered (ok _, st) = (done, st)
set_answered (err e, st) = (thrown e, st)

module _ (text upper : Bytes → Bytes) (parse : Bytes → Option ℤ) where
  unfoldable pub read_options : Expiry → List Bytes → SetOptions
  read_options o [] = accepted o
  read_options o (arg ∷ []) = refused syntax_error
  read_options o (arg ∷ n ∷ args) =
      let word = upper (text arg) in
      let time = expire_time (parse (text n)) in
      let with_ex = read_options (record o { ex = time }) args in
      let with_px = read_options (record o { px = time }) args in
      if word == ex_word
      then behind_time time with_ex
      else if word == px_word
      then behind_time time with_px
      else refused syntax_error

  abbrev pub set_with : ℤ → Bytes → Bytes → SetOptions → State → SetAnswer × State
  set_with now key value (refused e) st = (bad_arguments e, st)
  set_with now key value (accepted o) st = set_answered (set_string now key value o st)

  unfoldable pub handle_set : ℤ → List Bytes → State → SetAnswer × State
  unfolding read_options
  handle_set now (key ∷ value ∷ args) st = set_with now key value (read_options no_expiry args) st
  handle_set now _ st = (bad_arguments wrong_number_of_arguments, st)
