-- ===== src/Command/Failures.antt =====
-- Which errors the parts of the two programs report: predicates on the error of a result.
use fizzled_go.Prelude.{
  ◌≡◌, ◌↔◌, refl, subst, inl, inr, ◌^◌, Bool, true, false, Bytes, [], ◌∷◌, ◌==◌, Bool-cases, ℕ,
  if◌then◌else◌, ltb, leb,
}
use fizzled_go.Prelude.Strings.{matches_class}
use fizzled_go.Prelude.Decimal.{is_digit, value}
use fizzled_go.Errors.{Result, ok, err, ◌>>=◌, GoError, error_is, help, usage}
use fizzled_go.Client.Connection.{wrapped}
use fizzled_go.Command.Flags.{usage_unless_help}
use fizzled_go.Command.Atoi.{atoi, unsigned, in_range, syntax_error, range_error}

-- The error, if there is one, is of this kind.
abbrev pub Errs : (GoError → Type 0) → {A : Type 0} → Result A → Type 0
Errs P r = (e : GoError) → r ≡ err e → P e

module _ (P : GoError → Type 0) where
  pub bind-Errs :
      {A B : Type 0} (m : Result A) (f : A → Result B)
      → Errs P m
      → ((a : A) → Errs P (f a))
      → Errs P (m >>= f)
  bind-Errs (ok a) f h k = k a
  bind-Errs (err e) f h k = λ g p. h g (cc)

  pub ok-Errs : {A : Type 0} (a : A) → Errs P {A = A} (ok a)
  ok-Errs a e h = absurd (cc)

  pub err-Errs : {A : Type 0} (e : GoError) → P e → Errs P {A = A} (err e)
  err-Errs e p f h = let same : e ≡ f = cc in subst P same p

  pub if-Errs :
      {A : Type 0} (b : Bool) (r t : Result A) → Errs P r → Errs P t → Errs P (if b then r else t)
  if-Errs true r t h k = h
  if-Errs false r t h k = k

abbrev pub NotHelp : GoError → Type 0
NotHelp e = error_is e help ≡ false

-- The error is there, and is ErrHelp.
abbrev pub HasHelp : {A : Type 0} → Result A → Type 0
HasHelp r = (e : GoError) × (r ≡ err e) × (error_is e help ≡ true)

pub NotHelp-HasHelp : {A : Type 0} {r : Result A} → Errs NotHelp r → HasHelp r → ⊥
NotHelp-HasHelp f (e, h, t) = let k = f e h in cc

-- An error in a chain is ErrHelp exactly when that of the first call is, if no later one is.
pub bind-HasHelp :
    {A B : Type 0} (m : Result A) (f : A → Result B)
    → ((a : A) → Errs NotHelp (f a))
    → HasHelp (m >>= f) ↔ HasHelp m
bind-HasHelp (ok a) f n = (λ h. absurd (NotHelp-HasHelp (n a) h), λ (e, h, t). absurd (cc))
bind-HasHelp (err e) f n = (λ (g, h, t). (g, cc, t), λ (g, h, t). (g, cc, t))

pub usage_unless_help-HasHelp :
    {A : Type 0} (r : Result A) → HasHelp (usage_unless_help r) ↔ HasHelp r
usage_unless_help-HasHelp (ok a) = (λ (e, h, t). absurd (cc), λ (e, h, t). absurd (cc))
usage_unless_help-HasHelp (err e) = elim (Bool-cases (error_is e help)) [
  | inl t ↦ (λ h. (e, refl, t), λ h. (e, rw t refl, t))
  | inr n ↦ (
    λ h.
        absurd (
          NotHelp-HasHelp {r = usage_unless_help (err e)} (rw n (err-Errs NotHelp (usage ∷ e) n))
            h),
    λ (g, h, t). absurd (cc),
  )
]

in_range-NotHelp : (negative : Bool) (n : ℕ) → Errs NotHelp (in_range negative n)
in_range-NotHelp false n =
    if-Errs NotHelp (ltb n (2 ^ 63)) _ _ (ok-Errs NotHelp _) (err-Errs NotHelp range_error refl)
in_range-NotHelp true n =
    if-Errs NotHelp (leb n (2 ^ 63)) _ _ (ok-Errs NotHelp _) (err-Errs NotHelp range_error refl)

unsigned-NotHelp : (negative : Bool) (s : Bytes) → Errs NotHelp (unsigned negative s)
unfolding unsigned
unsigned-NotHelp negative s =
    if-Errs NotHelp (matches_class is_digit s) _ _ (in_range-NotHelp negative (value 0 s))
      (err-Errs NotHelp syntax_error refl)

atoi-NotHelp : (s : Bytes) → Errs NotHelp (atoi s)
unfolding atoi
atoi-NotHelp [] = err-Errs NotHelp syntax_error refl
atoi-NotHelp (c ∷ s) =
    if-Errs NotHelp (c == b'-') _ _ (unsigned-NotHelp true s)
      (if-Errs NotHelp (c == b'+') _ _ (unsigned-NotHelp false s) (unsigned-NotHelp false (c ∷ s)))

usage-NotHelp : {A : Type 0} (r : Result A) → Errs NotHelp r → Errs NotHelp (wrapped usage r)
usage-NotHelp (ok a) n = ok-Errs NotHelp a
usage-NotHelp (err e) n = err-Errs NotHelp (usage ∷ e) (n e refl)

pub usage_atoi-NotHelp : (s : Bytes) → Errs NotHelp (wrapped usage (atoi s))
usage_atoi-NotHelp s = usage-NotHelp (atoi s) (atoi-NotHelp s)
