-- ===== src/Command/Atoi.antt =====
-- `Atoi` of package strconv, on an int of 64 bits.
use fizzled_go.Prelude.{
  ℕ, zero, suc, ◌^◌, ◌<◌, ◌≤◌, ◌≡◌, ap, ◌∙◌, Bytes, Bool, true, false, [], ◌∷◌, ◌==◌, arith,
  if◌then◌else◌, ltb, leb,
}
use fizzled_go.Prelude.Int.{ℤ, pos, negsuc}
use fizzled_go.Prelude.Decimal.{format_int, value, is_digit, value-format_int, format_int-digits}
use fizzled_go.Prelude.Strings.{all_in, matches_class}
use fizzled_go.Errors.{Result, ok, err, GoError, foreign}

-- ErrSyntax and ErrRange.
abbrev pub syntax_error : GoError
syntax_error = foreign 2 ∷ []

abbrev pub range_error : GoError
range_error = foreign 3 ∷ []

abbrev pub negated : ℕ → ℤ
negated zero = pos 0
negated (suc n) = negsuc n

abbrev pub in_range : Bool → ℕ → Result ℤ
in_range false n = if ltb n (2 ^ 63) then ok (pos n) else err range_error
in_range true n = if leb n (2 ^ 63) then ok (negated n) else err range_error

-- The digits behind a sign. Of a text that is too long and has another character behind, only that
-- it is an error is modelled: both errors are usage errors to the caller.
unfoldable pub unsigned : Bool → Bytes → Result ℤ
unsigned negative s =
    if matches_class is_digit s then in_range negative (value 0 s) else err syntax_error

unfoldable pub atoi : Bytes → Result ℤ
atoi [] = err syntax_error
atoi (c ∷ s) =
    if c == b'-'
    then unsigned true s
    else if c == b'+'
    then unsigned false s
    else unsigned false (c ∷ s)

atoi-digits :
    (s : Bytes)
    → matches_class is_digit s ≡ true
    → value 0 s < 2 ^ 63
    → atoi s ≡ ok (pos (value 0 s))
unfolding atoi unsigned matches_class all_in
atoi-digits [] h k = absurd (cc)
atoi-digits (c ∷ s) h k = ground arith

-- The text of a number that fits is read as that number.
pub atoi-format_int : (n : ℕ) → n < 2 ^ 63 → atoi (format_int n) ≡ ok (pos n)
atoi-format_int n h =
    atoi-digits (format_int n) (format_int-digits n) (omega (arith, value-format_int n))
    ∙ ap (λ m. ok (pos m)) (value-format_int n)

-- So is the text of a negative number, behind its sign.
pub atoi-negative : (n : ℕ) → suc n ≤ 2 ^ 63 → atoi (b'-' ∷ format_int (suc n)) ≡ ok (negsuc n)
unfolding atoi unsigned
atoi-negative n h = rw (format_int-digits (suc n), value-format_int (suc n)) (ground arith)
