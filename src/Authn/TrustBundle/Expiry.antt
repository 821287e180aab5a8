-- ===== src/Authn/TrustBundle/Expiry.antt =====
-- The expiry that internal/authn/trustbundle.go reports for a bundle.
use mathlib.Core.List.{Mem, mem-cons_self, mem-cons_of_mem}
use fizzled_go.Prelude.{
  ℕ, zero, suc, ◌≤◌, ◌<◌, ◌≡◌, refl, sym, ap, ◌∙◌, subst, inl, inr, ◌⊎◌, ◌==◌, Bytes, List, [], ◌∷◌,
  ◌++◌, length, All, arith, Bool-cases, ltb, false,
}
use fizzled_go.Errors.{ok, ◌>>=◌, bind-eq-ok, eq_of_ok_eq, ok_of_required, ok_of_refused}
use fizzled_go.Authn.Certificate.{Certificate}
use fizzled_go.Authn.TrustBundle.Space.{trim_space}
use fizzled_go.Authn.Loader.{Loader}
use fizzled_go.Authn.TrustBundle.{
  LoadedBundle, Reading, add_root, bundle_of, decode_block, read_blocks, is_seen, sooner,
  no_reading, parse_trimmed, parse_trust_bundle, begin_markers,
}

-- The variable of the loop behind these certificates.
unfoldable pub expiry_from : ℕ → List Certificate → ℕ
expiry_from t [] = t
expiry_from t (c ∷ cs) = expiry_from (sooner t c.not_after) cs

expiry_from-append :
    (t : ℕ) (cs : List Certificate) (c : Certificate)
    → expiry_from t (cs ++ (c ∷ [])) ≡ sooner (expiry_from t cs) c.not_after
unfolding expiry_from
expiry_from-append t [] c = refl
expiry_from-append t (d ∷ cs) c = expiry_from-append (sooner t d.not_after) cs c

abbrev Expires : ℕ → List Certificate → Type 0
Expires t cs = (c : Certificate) × Mem c cs × (c.not_after ≡ t)

sooner-cases : (t x : ℕ) → 0 < t → ((sooner t x ≡ t) × (t ≤ x)) ⊎ ((sooner t x ≡ x) × (x < t))
unfolding sooner
sooner-cases t x h = elim (Bool-cases (ltb x t)) [
  | inl e ↦ inr (ground arith, ground arith)
  | inr e ↦ inl (ground arith, ground arith)
]

-- Behind a time that is not zero the variable only falls, to a time of one of the certificates.
expiry_from-least :
    (t : ℕ) (cs : List Certificate)
    → 0 < t
    → All (λ c. 0 < c.not_after) cs
    → (expiry_from t cs ≤ t)
      × All (λ c. expiry_from t cs ≤ c.not_after) cs
      × ((expiry_from t cs ≡ t) ⊎ Expires (expiry_from t cs) cs)
unfolding expiry_from sooner
expiry_from-least t [] h k = (omega arith, tt, inl refl)
expiry_from-least t (c ∷ cs) h (k, ks) = elim (sooner-cases t c.not_after h) [
  | inl (e, low) ↦
      let (below, each, met) = expiry_from-least (sooner t c.not_after) cs (omega arith) ks in
      (
        omega arith,
        (omega arith, each),
        elim met [
          | inl m ↦ inl (m ∙ e)
          | inr (d, member, is) ↦ inr (d, mem-cons_of_mem c member, is)
        ],
      )
  | inr (e, low) ↦
      let (below, each, met) = expiry_from-least (sooner t c.not_after) cs (omega arith) ks in
      (
        omega arith,
        (omega arith, each),
        inr (elim met [
          | inl m ↦ (c, mem-cons_self, sym (m ∙ e))
          | inr (d, member, is) ↦ (d, mem-cons_of_mem c member, is)
        ]),
      )
]

expiry_of_roots :
    (cs : List Certificate) {t : ℕ}
    → (length cs == 0) ≡ false
    → t ≡ expiry_from 0 cs
    → All (λ c. 0 < c.not_after) cs
    → All (λ c. t ≤ c.not_after) cs × Expires t cs
unfolding expiry_from sooner
expiry_of_roots [] h e late = absurd (cc)
expiry_of_roots (c ∷ cs) {t} h e (k, ks) =
    let (below, each, met) = expiry_from-least c.not_after cs k ks in
    subst (λ t. All (λ d. t ≤ d.not_after) (c ∷ cs) × Expires t (c ∷ cs)) (sym e)
      (
        (below, each),
        elim met [
          | inl m ↦ (c, mem-cons_self, sym m)
          | inr (d, member, is) ↦ (d, mem-cons_of_mem c member, is)
        ],
      )

-- What the loop keeps of the expiry.
abbrev IsKept : Reading → Type 0
IsKept r = r.earliest_expiry ≡ expiry_from 0 r.roots

add_root-IsKept :
    (c : Certificate) (r : Reading) {next : Reading}
    → IsKept r
    → add_root c r ≡ ok next
    → IsKept next
unfolding add_root
add_root-IsKept c r k h =
    let (_, e) = ok_of_refused (is_seen c.raw r.seen) _ h in
    subst IsKept (eq_of_ok_eq e)
      (ap (λ t. sooner t c.not_after) k ∙ sym (expiry_from-append 0 r.roots c))

read_blocks-IsKept :
    (l : Loader) (fuel : ℕ) (rest : Bytes) (r : Reading) {final : Reading}
    → IsKept r
    → read_blocks l fuel rest r ≡ ok final
    → IsKept final
unfolding read_blocks
read_blocks-IsKept l zero rest r k h = subst IsKept (eq_of_ok_eq h) k
read_blocks-IsKept l (suc fuel) [] r k h = subst IsKept (eq_of_ok_eq h) k
read_blocks-IsKept l (suc fuel) (b ∷ rest) r k h =
    let ((c, remainder), p, h) =
      bind-eq-ok (decode_block l (b ∷ rest))
        (λ (c, remainder). add_root c r >>= read_blocks l fuel (trim_space remainder)) h in
    let (next, q, h) =
      bind-eq-ok (add_root c r) (λ next. read_blocks l fuel (trim_space remainder) next) h in
    read_blocks-IsKept l fuel (trim_space remainder) next (add_root-IsKept c r k q) h

-- When no root of a loaded bundle expires at the zero time, the expiry of the bundle is the least of
-- its roots': no root expires before it, and one expires at it.
pub earliest_expiry-least :
    (l : Loader) (raw : Bytes) {loaded : LoadedBundle}
    → parse_trust_bundle l raw ≡ ok loaded
    → All (λ c. 0 < c.not_after) loaded.roots
    → All (λ c. loaded.earliest_expiry ≤ c.not_after) loaded.roots
      × ((c : Certificate) × Mem c loaded.roots × (c.not_after ≡ loaded.earliest_expiry))
unfolding parse_trust_bundle parse_trimmed bundle_of expiry_from
earliest_expiry-least l raw {loaded} h late =
    let trimmed = trim_space raw in
    let (r, p, h) =
      bind-eq-ok (read_blocks l (length trimmed) trimmed no_reading) (bundle_of trimmed) h in
    let (filled, h) = ok_of_refused (length r.roots == 0) _ h in
    let (_, h) = ok_of_required (length r.roots == begin_markers trimmed) _ h in
    let kept = read_blocks-IsKept l (length trimmed) trimmed no_reading refl p in
    let e = eq_of_ok_eq h in
    let roots : r.roots ≡ loaded.roots = ap (λ b. b.roots) e in
    let expiry : r.earliest_expiry ≡ loaded.earliest_expiry = ap (λ b. b.earliest_expiry) e in
    expiry_of_roots loaded.roots (subst (λ cs. (length cs == 0) ≡ false) roots filled)
      (sym expiry ∙ kept ∙ ap (expiry_from 0) roots) late
