-- ===== src/Authn/TrustBundle/Space.antt =====
-- bytes.TrimSpace, as internal/authn/trustbundle.go uses it: white space is unicode.IsSpace, in the
-- UTF-8 encodings of its code points.
use fizzled_go.Prelude.{
  ℕ, zero, suc, ◌+◌, ◌≤◌, ◌≡◌, refl, Bytes, codes, List, [], ◌∷◌, ◌++◌, length, arith,
  if◌then◌else◌,
}
use mathlib.Core.List.{reverse, reverse_aux}
use fizzled_go.Prelude.Strings.{has_prefix}

abbrev last_bytes : Bytes → Bytes → List Bytes
last_bytes lead [] = []
last_bytes lead (c ∷ cs) = (lead ++ (c ∷ [])) ∷ last_bytes lead cs

-- The code points 9 to 13, 32, 133, 160, 5760, 8192 to 8202, 8232, 8233, 8239, 8287 and 12288.
abbrev white_space : List Bytes
white_space =
    last_bytes [] (9 ∷ 10 ∷ 11 ∷ 12 ∷ 13 ∷ 32 ∷ [])
    ++ last_bytes (194 ∷ []) (133 ∷ 160 ∷ [])
    ++ last_bytes (225 ∷ 154 ∷ []) (128 ∷ [])
    ++ last_bytes (226 ∷ 128 ∷ [])
        (128 ∷ 129 ∷ 130 ∷ 131 ∷ 132 ∷ 133 ∷ 134 ∷ 135 ∷ 136 ∷ 137 ∷ 138 ∷ 168 ∷ 169 ∷ 175 ∷ [])
    ++ last_bytes (226 ∷ 129 ∷ []) (159 ∷ [])
    ++ last_bytes (227 ∷ 128 ∷ []) (128 ∷ [])

abbrev all_reversed : List Bytes → List Bytes
all_reversed [] = []
all_reversed (s ∷ ss) = reverse s ∷ all_reversed ss

-- The bytes of the space at the head of a text, none when another character stands there.
space_width : List Bytes → Bytes → ℕ
space_width [] s = 0
space_width (w ∷ ws) s = if has_prefix s w then length w else space_width ws s

-- What follows a space of `width` bytes whose first byte is gone, or the text that does not begin
-- with a space.
abbrev behind : ℕ → Bytes → (ℕ → Bytes) → Bytes
behind zero text rest = text
behind (suc n) text rest = rest n

-- Drops `n` bytes, and then the spaces that follow.
drop_spaces : List Bytes → ℕ → Bytes → Bytes
drop_spaces ws n [] = []
drop_spaces ws (suc n) (c ∷ s) = drop_spaces ws n s
drop_spaces ws zero (c ∷ s) =
    behind (space_width ws (c ∷ s)) (c ∷ s) (λ (n : ℕ). drop_spaces ws n s)

unfoldable pub trim_space : Bytes → Bytes
unfolding drop_spaces space_width
trim_space s =
    reverse (drop_spaces (all_reversed white_space) 0 (reverse (drop_spaces white_space 0 s)))

length-behind :
    (width : ℕ) (text : Bytes) (rest : ℕ → Bytes)
    → ((n : ℕ) → length (rest n) ≤ length text)
    → length (behind width text rest) ≤ length text
length-behind zero text rest h = omega arith
length-behind (suc n) text rest h = h n

length-drop_spaces : (ws : List Bytes) (n : ℕ) (s : Bytes) → length (drop_spaces ws n s) ≤ length s
unfolding drop_spaces
length-drop_spaces ws n [] = omega arith
length-drop_spaces ws (suc n) (c ∷ s) = omega (arith, length-drop_spaces ws n s)
length-drop_spaces ws zero (c ∷ s) =
    length-behind (space_width ws (c ∷ s)) (c ∷ s) _ (λ n. omega (arith, length-drop_spaces ws n s))

length-reverse_aux : (s out : Bytes) → length (reverse_aux s out) ≡ length s + length out
length-reverse_aux [] out = omega arith
length-reverse_aux (c ∷ s) out = omega (arith, length-reverse_aux s (c ∷ out))

-- Trimming never lengthens a text.
pub length-trim_space : (s : Bytes) → length (trim_space s) ≤ length s
unfolding trim_space
length-trim_space s =
    let front = drop_spaces white_space 0 s in
    let back = drop_spaces (all_reversed white_space) 0 (reverse front) in
    omega (
      arith,
      length-reverse_aux back [],
      length-reverse_aux front [],
      length-drop_spaces (all_reversed white_space) 0 (reverse front),
      length-drop_spaces white_space 0 s,
    )

trim_space_test : trim_space (codes " \n\t a b \n" ++ (194 ∷ 160 ∷ 32 ∷ [])) ≡ codes "a b"
unfolding trim_space has_prefix
trim_space_test = refl
