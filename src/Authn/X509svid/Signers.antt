-- ===== src/Authn/X509svid/Signers.antt =====
-- Which certificates internal/authn/x509svid takes for a leaf, and which for a signer.
use fizzled_go.Prelude.{
  ◌≡◌, ◌≢◌, ◌↔◌, ◌⊎◌, inl, inr, refl, sym, ap, ◌∙◌, Bytes, true, false, Option, some, List, [], ◌∷◌,
  All, arith, text_eq-cases, Bool-cases,
}
use fizzled_go.Errors.{ok, ◌>>=◌, bind_iff, eq_of_ok_eq}
use fizzled_go.Authn.Certificate.{
  Certificate, has_bit, digital_signature_bit, cert_sign_bit, crl_sign_bit,
}
use fizzled_go.Authn.SpiffeId.{SpiffeId, parse}
use fizzled_go.Authn.X509svid.{
  validate_leaf_certificate, new_spiffe_id, require_path, refuse_path, leaf_spiffe_id,
  signing_spiffe_id, validate_signing_certificate, same_domain,
  validate_signing_certificate_for_leaf, validate_signers,
}

-- A certificate that may not sign others, and may sign messages.
abbrev pub IsEndEntity : Certificate → Type 0
IsEndEntity c =
    (c.is_ca ≡ false)
    × (has_bit cert_sign_bit c.key_usage ≡ false)
    × (has_bit crl_sign_bit c.key_usage ≡ false)
    × (has_bit digital_signature_bit c.key_usage ≡ true)

-- The certificate's one URI is this SPIFFE ID.
abbrev pub Carries : Certificate → SpiffeId → Type 0
Carries c i = (uri : Bytes) × (c.uris ≡ uri ∷ []) × (parse uri ≡ ok i)

-- A signing certificate that carries no URI, or a SPIFFE ID without a path in the leaf's domain.
abbrev pub IsSigner : SpiffeId → Certificate → Type 0
IsSigner leaf c =
    (c.is_ca ≡ true)
    × (has_bit cert_sign_bit c.key_usage ≡ true)
    × ((c.uris ≡ [])
        ⊎ ((i : SpiffeId) × Carries c i × (i.path ≡ []) × (leaf.trust_domain ≡ i.trust_domain)))

pub validate_leaf_certificate_iff :
    (c : Certificate) → (validate_leaf_certificate c ≡ ok tt) ↔ IsEndEntity c
unfolding validate_leaf_certificate
validate_leaf_certificate_iff c =
    (λ h. (ground arith, ground arith, ground arith, ground arith), λ h. ground arith)

new_spiffe_id_iff :
    (uris : List Bytes) (i : SpiffeId)
    → (new_spiffe_id uris ≡ ok i) ↔ ((uri : Bytes) × (uris ≡ uri ∷ []) × (parse uri ≡ ok i))
unfolding new_spiffe_id
new_spiffe_id_iff [] i = (λ h. cc, λ (u, e, h). cc)
new_spiffe_id_iff (u ∷ []) i = (λ h. (u, refl, h), λ (v, e, h). cc)
new_spiffe_id_iff (u ∷ v ∷ us) i = (λ h. cc, λ (w, e, h). cc)

require_path_iff : (j i : SpiffeId) → (require_path j ≡ ok i) ↔ ((j ≡ i) × (j.path ≢ []))
require_path_iff j i = elim (text_eq-cases j.path []) [
  | inl (e, t) ↦ (λ h. absurd (ground arith), λ (_, n). absurd (n e))
  | inr (n, f) ↦ rw f (λ h. (eq_of_ok_eq h, n), λ (e, _). ap ok e)
]

pub leaf_spiffe_id_iff :
    (c : Certificate) (i : SpiffeId) → (leaf_spiffe_id c ≡ ok i) ↔ (Carries c i × (i.path ≢ []))
unfolding leaf_spiffe_id
leaf_spiffe_id_iff c i =
    let chain = bind_iff (new_spiffe_id c.uris) require_path i in
    (
      λ h.
          let (j, p, q) = chain.0 h in
          let (e, n) = (require_path_iff j i).0 q in
          ((new_spiffe_id_iff c.uris i).0 (p ∙ ap ok e), rw (← e) n),
      λ (p, n). chain.1 (i, (new_spiffe_id_iff c.uris i).1 p, (require_path_iff i i).1 (refl, n)),
    )

refuse_path_iff :
    (j : SpiffeId) (o : Option SpiffeId) → (refuse_path j ≡ ok o) ↔ ((o ≡ some j) × (j.path ≡ []))
refuse_path_iff j o = elim (text_eq-cases j.path []) [
  | inl (e, t) ↦ rw t (λ h. (sym (eq_of_ok_eq h), e), λ (p, _). ap ok (sym p))
  | inr (n, f) ↦ (λ h. absurd (ground arith), λ (_, e). absurd (n e))
]

pub same_domain_iff :
    (leaf i : SpiffeId) → (same_domain leaf (some i) ≡ ok tt) ↔ (leaf.trust_domain ≡ i.trust_domain)
same_domain_iff leaf i = elim (text_eq-cases leaf.trust_domain i.trust_domain) [
  | inl (e, t) ↦ rw t (λ h. e, λ h. refl)
  | inr (n, f) ↦ (λ h. absurd (ground arith), λ e. absurd (n e))
]

IsSignerId : SpiffeId → List Bytes → Type 0
IsSignerId leaf uris =
    (uris ≡ [])
    ⊎ ((i : SpiffeId) × ((uri : Bytes) × (uris ≡ uri ∷ []) × (parse uri ≡ ok i))
        × (i.path ≡ [])
        × (leaf.trust_domain ≡ i.trust_domain))

signing_spiffe_id_iff :
    (uris : List Bytes) (leaf : SpiffeId)
    → ((signing_spiffe_id uris >>= same_domain leaf) ≡ ok tt) ↔ IsSignerId leaf uris
unfolding signing_spiffe_id IsSignerId
signing_spiffe_id_iff [] leaf = (λ h. inl refl, λ h. refl)
signing_spiffe_id_iff (u ∷ us) leaf =
    let outer = bind_iff (new_spiffe_id (u ∷ us) >>= refuse_path) (same_domain leaf) tt in
    let inner = bind_iff (new_spiffe_id (u ∷ us)) refuse_path in
    let found = new_spiffe_id_iff (u ∷ us) in
    (
      λ h.
          let (o, p, q) = outer.0 h in
          let (i, r, t) = (inner o).0 p in
          let (e, none_left) = (refuse_path_iff i o).0 t in
          inr (
            i,
            (found i).0 r,
            none_left,
            (same_domain_iff leaf i).0 (ap (same_domain leaf) (sym e) ∙ q),
          ),
      λ h. elim h [
        | inl e ↦ cc
        | inr (i, r, none_left, d) ↦ outer.1 (
          some i,
          (inner (some i)).1 (i, (found i).1 r, (refuse_path_iff i (some i)).1 (refl, none_left)),
          (same_domain_iff leaf i).1 d,
        )
      ],
    )

pub validate_signing_iff :
    (c : Certificate) (leaf : SpiffeId)
    → (validate_signing_certificate_for_leaf c leaf ≡ ok tt) ↔ IsSigner leaf c
unfolding validate_signing_certificate_for_leaf validate_signing_certificate IsSignerId
validate_signing_iff c leaf = elim (Bool-cases c.is_ca) [
  | inr f ↦ (λ h. absurd (ground arith), λ (t, _, _). absurd (cc))
  | inl t ↦ elim (Bool-cases (has_bit cert_sign_bit c.key_usage)) [
    | inr f ↦ (λ h. absurd (ground arith), λ (_, u, _). absurd (cc))
    | inl u ↦
        let (to, from) = signing_spiffe_id_iff c.uris leaf in
        rw (t, u) (λ h. (refl, refl, to h), λ (_, _, h). from h)
  ]
]

pub validate_signers_iff :
    (cs : List Certificate) (leaf : SpiffeId)
    → (validate_signers cs leaf ≡ ok tt) ↔ All (IsSigner leaf) cs
unfolding validate_signers
validate_signers_iff [] leaf = (λ h. tt, λ h. refl)
validate_signers_iff (c ∷ cs) leaf =
    let (to, from) = validate_signing_iff c leaf in
    let (rest_to, rest_from) = validate_signers_iff cs leaf in
    let chain =
      bind_iff (validate_signing_certificate_for_leaf c leaf) (λ _. validate_signers cs leaf) tt in
    (
      λ h. let (u, p, q) = chain.0 h in (to p, rest_to q),
      λ (p, q). chain.1 (tt, from p, rest_from q),
    )
