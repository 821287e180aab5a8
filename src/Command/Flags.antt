-- ===== src/Command/Flags.antt =====
-- `Parse` of package flag, for a set whose flags are all strings and whose errors are returned.
pub mod Help
use fizzled_go.Prelude.{
  ℕ, Bytes, codes, ◌||◌, Option, none, some, List, [], ◌∷◌, ◌==◌, if◌then◌else◌, text_eq,
}
use fizzled_go.Prelude.Assoc.{Assoc, lookup}
use fizzled_go.Errors.{Result, ok, err, GoError, help, foreign, error_is, usage}

-- What an argument is to the parser: the first that is no flag, the end of the flags, no flag's
-- syntax, or a flag with the value behind its `=`.
pub data Token : Type 0 where
  positional terminator malformed : Token
  named : Bytes → Option Bytes → Token

abbrev with_first : ℕ → Bytes × Option Bytes → Bytes × Option Bytes
with_first c (name, value) = (c ∷ name, value)

-- A name and the value behind its first `=`.
unfoldable pub cut : Bytes → Bytes × Option Bytes
cut [] = ([], none)
cut (c ∷ s) = if c == b'=' then ([], some s) else with_first c (cut s)

abbrev named_by : Bytes × Option Bytes → Token
named_by (name, value) = named name value

-- The name behind the dashes; its first byte is not an `=`.
unfoldable pub flag_name : Bytes → Token
flag_name [] = malformed
flag_name (c ∷ s) = if c == b'-' || c == b'=' then malformed else named_by (with_first c (cut s))

abbrev after_two : Bytes → Token
after_two [] = terminator
after_two (c ∷ s) = flag_name (c ∷ s)

abbrev after_one : Bytes → Token
after_one [] = positional
after_one (c ∷ s) = if c == b'-' then after_two s else flag_name (c ∷ s)

unfoldable pub token : Bytes → Token
token [] = positional
token (c ∷ s) = if c == b'-' then after_one s else positional

-- The errors of the package, but for ErrHelp.
abbrev pub flag_error : GoError
flag_error = foreign 1 ∷ []

-- A flag by its name, with what its value sets.
abbrev pub Formal : Type 0 → Type 0
Formal C = Assoc (Bytes → C → C)

-- What an argument leads to: the flags end before it or behind it, an error, or a flag that sets
-- its value or takes the next argument for it.
pub data Effect (C : Type 0) : Type 0 where
  ends_before ends_behind : Effect C
  fails : GoError → Effect C
  sets : (C → C) → Effect C
  takes : (Bytes → C → C) → Effect C

abbrev effect_of : {C : Type 0} → Bytes → Option Bytes → Option (Bytes → C → C) → Effect C
effect_of name value none =
    fails
      (if text_eq name (codes "help") || text_eq name (codes "h") then help ∷ [] else flag_error)
effect_of name (some value) (some setter) = sets (setter value)
effect_of name none (some setter) = takes setter

abbrev effect_of_token : {C : Type 0} → Formal C → Token → Effect C
effect_of_token formal positional = ends_before
effect_of_token formal terminator = ends_behind
effect_of_token formal malformed = fails flag_error
effect_of_token formal (named name value) = effect_of name value (lookup name formal)

unfoldable pub effect : {C : Type 0} → Formal C → Bytes → Effect C
effect formal argument = effect_of_token formal (token argument)

-- The loop; `waiting` is the flag that takes the next argument. The result has the arguments that
-- are left.
unfoldable pub parse_flags :
    {C : Type 0} → Formal C → Option (Bytes → C → C) → List Bytes → C → Result (C × List Bytes)
parse_flags formal none [] c = ok (c, [])
parse_flags formal (some setter) [] c = err flag_error
parse_flags formal (some setter) (value ∷ args) c = parse_flags formal none args (setter value c)
parse_flags formal none (s ∷ args) c = elim (effect formal s) [
  | ends_before ↦ ok (c, s ∷ args)
  | ends_behind ↦ ok (c, args)
  | fails e ↦ err e
  | sets f ↦ parse_flags formal none args (f c)
  | takes setter ↦ parse_flags formal (some setter) args c
]

-- An error of `Parse`: a request for help keeps its error, another is a usage error as well.
abbrev pub usage_unless_help : {A : Type 0} → Result A → Result A
usage_unless_help (ok a) = ok a
usage_unless_help (err e) = if error_is e help then err e else err (usage ∷ e)
