-- ===== src/Prelude/Decimal.antt =====
-- `%d` of package fmt at a number that is not negative, and that it determines the number.
use fizzled_go.Prelude.Tests.{ltb, leb}
use fizzled_go.Prelude.Strings.{all_in, matches_class}
use fizzled_go.Prelude.Text.{Bytes, codes}
use Prim.Native.Nat.{ℕ, zero, suc, ◌+◌, ◌-◌, ◌*◌, ◌/◌, ◌%◌, ◌<◌}
use mathlib.Core.Bool.{Bool, true, false, ◌&&◌}
use mathlib.Core.Path.{◌≡◌, refl, ap}
use mathlib.Core.List.{[], ◌∷◌}
use native.Mathlib.Omega.{arith}

-- The digits of `n` in front of `out`; `n` rounds of fuel are enough, since each divides by ten.
digits : ℕ → ℕ → Bytes → Bytes
digits zero n out = out
digits (suc fuel) n out =
    let more = digits fuel (n / 10) ((b'0' + n % 10) ∷ out) in
    elim (ltb n 10) [ true ↦ (b'0' + n) ∷ out | false ↦ more ]

unfoldable pub format_int : ℕ → Bytes
unfolding digits
format_int n = digits (suc n) n []

-- The number that digits spell behind `n`.
unfoldable pub value : ℕ → Bytes → ℕ
value n [] = n
value n (c ∷ s) = value (n * 10 + (c - b'0')) s

value-digits : (fuel n : ℕ) (out : Bytes) → n < fuel → value 0 (digits fuel n out) ≡ value n out
unfolding digits value
value-digits zero n out h = elim h [ ]
value-digits (suc fuel) n out h = ground (arith, value-digits fuel (n / 10) ((b'0' + n % 10) ∷ out))

pub value-format_int : (n : ℕ) → value 0 (format_int n) ≡ n
unfolding format_int value
value-format_int n = value-digits (suc n) n [] (omega arith)

abbrev pub is_digit : ℕ → Bool
is_digit c = leb b'0' c && leb c b'9'

digits-matches :
    (fuel n : ℕ) (out : Bytes)
    → n < fuel
    → all_in is_digit out ≡ true
    → matches_class is_digit (digits fuel n out) ≡ true
unfolding digits all_in matches_class
digits-matches zero n out h k = elim h [ ]
digits-matches (suc fuel) n out h k =
    ground (arith, digits-matches fuel (n / 10) ((b'0' + n % 10) ∷ out))

-- The text of a number is digits, and at least one.
pub format_int-digits : (n : ℕ) → matches_class is_digit (format_int n) ≡ true
unfolding format_int all_in
format_int-digits n = digits-matches (suc n) n [] (omega arith) refl

-- Two numbers that print alike are equal.
pub format_int-injective : (n m : ℕ) → format_int n ≡ format_int m → n ≡ m
format_int-injective n m h = omega (arith, value-format_int n, value-format_int m, ap (value 0) h)

format_int_test : format_int 1203 ≡ codes "1203"
unfolding format_int
format_int_test = refl
