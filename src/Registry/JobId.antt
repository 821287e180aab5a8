-- ===== src/Registry/JobId.antt =====
-- A job id names its agent and its number.
use fizzled_go.Prelude.{ℕ, ◌≡◌, ◌≢◌, refl, Bytes, [], ◌∷◌, ◌++◌, All}
use fizzled_go.Prelude.Decimal.{format_int, format_int-injective}
use fizzled_go.Registry.{job_id}

abbrev pub NoSlash : Bytes → Type 0
NoSlash = All (λ c. c ≢ b'/')

split_at_slash :
    (a b s t : Bytes)
    → NoSlash a
    → NoSlash b
    → a ++ (b'/' ∷ s) ≡ b ++ (b'/' ∷ t)
    → (a ≡ b) × (s ≡ t)
split_at_slash [] [] s t h k e = (refl, cc)
split_at_slash [] (y ∷ b) s t h (k, _) e = absurd (k (cc))
split_at_slash (x ∷ a) [] s t (h, _) k e = absurd (h (cc))
split_at_slash (x ∷ a) (y ∷ b) s t (_, h) (_, k) e =
    let (p, q) = split_at_slash a b s t h k (cc) in (cc, q)

-- Two ids minted for agents whose identifiers hold no slash are equal only for the same agent and
-- the same number.
pub job_id-injective :
    (a b : Bytes) (n m : ℕ) → NoSlash a → NoSlash b → job_id a n ≡ job_id b m → (a ≡ b) × (n ≡ m)
unfolding job_id
job_id-injective a b n m h k e =
    let (p, q) = split_at_slash a b (format_int n) (format_int m) h k e in
    (p, format_int-injective n m q)
