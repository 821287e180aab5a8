-- ===== src/Authn/X509svid/Standard.antt =====
-- What `Verify` of internal/authn/x509svid accepts: exactly the chains that anchor to the bundle and
-- keep the X509-SVID standard.
use fizzled_go.Prelude.{
  ℕ, ◌+◌, ◌≤◌, ◌≡◌, ◌≢◌, ◌↔◌, inl, inr, refl, sym, ap, subst, Option, none, some, List, [], ◌∷◌,
  All, arith, Option-cases, eq_of_some_eq,
}
use fizzled_go.Errors.{ok, ◌>>=◌, ◌>>◌, bind_iff, GoError, eq_of_ok_eq}
use fizzled_go.Authn.Certificate.{Certificate}
use fizzled_go.Authn.SpiffeId.{SpiffeId}
use fizzled_go.Authn.X509svid.{
  ChainCheck, Verifier, Leaf, no_nil, clamp_to_validity, checked, verify_chain,
  validate_leaf_certificate, leaf_spiffe_id, validate_signers, validate_chain, verify_present,
  verify,
}
use fizzled_go.Authn.X509svid.Signers.{
  IsEndEntity, Carries, IsSigner, validate_leaf_certificate_iff, leaf_spiffe_id_iff,
  validate_signers_iff,
}

-- A chain without a nil, leaf first, that anchors to the bundle at the clamped instant and keeps
-- the standard.
abbrev pub Accepts : ChainCheck → ℕ → Verifier → Option (List Certificate) → Leaf → Type 0
Accepts chain_error now v certificates leaf =
    let c = leaf.certificate in
    (rest roots : List Certificate) × (certificates ≡ some (c ∷ rest))
    × (v.bundle ≡ some roots)
    × (chain_error roots c rest (clamp_to_validity now c.not_before c.not_after v.skew) ≡ none)
    × IsEndEntity c
    × Carries c leaf.spiffe_id
    × (leaf.spiffe_id.path ≢ [])
    × All (IsSigner leaf.spiffe_id) rest

abbrev pub IsSvid : ChainCheck → ℕ → Verifier → List (Option Certificate) → Leaf → Type 0
IsSvid chain_error now v certificates = Accepts chain_error now v (no_nil certificates)

abbrev leaf_of : Certificate → SpiffeId → Leaf
leaf_of c i = record { spiffe_id = i; certificate = c }

checked_iff : (o : Option GoError) → (checked o ≡ ok tt) ↔ (o ≡ none)
checked_iff none = (λ h. refl, λ h. refl)
checked_iff (some e) = (λ h. cc, λ h. cc)

module _ (chain_error : ChainCheck) (now : ℕ) (v : Verifier) where
  verify_chain_iff :
      (c : Certificate) (rest : List Certificate)
      → (verify_chain chain_error now v.bundle v.skew c rest ≡ ok tt) ↔ (
          (roots : List Certificate) × (v.bundle ≡ some roots)
          × (chain_error roots c rest (clamp_to_validity now c.not_before c.not_after v.skew)
              ≡ none))
  unfolding verify_chain
  verify_chain_iff c rest = elim (Option-cases v.bundle) [
    | inl e ↦ rw e (λ h. cc, λ (r, k, _). cc)
    | inr (roots, e) ↦
        let chk =
          checked_iff
            (chain_error roots c rest (clamp_to_validity now c.not_before c.not_after v.skew)) in
        rw e (λ h. (roots, refl, chk.0 h), λ (r, k, h). chk.1 (rw (eq_of_some_eq k) h))
  ]

  validate_chain_iff :
      (c : Certificate) (rest : List Certificate) (leaf : Leaf)
      → (validate_chain c rest ≡ ok leaf) ↔ (
          (leaf.certificate ≡ c)
          × IsEndEntity c
          × Carries c leaf.spiffe_id
          × (leaf.spiffe_id.path ≢ [])
          × All (IsSigner leaf.spiffe_id) rest)
  unfolding validate_chain
  validate_chain_iff c rest leaf =
      let last =
        λ (i : SpiffeId). bind_iff (validate_signers rest i) (λ _. ok (leaf_of c i)) leaf in
      let id =
        bind_iff (leaf_spiffe_id c) (λ i. validate_signers rest i >> ok (leaf_of c i)) leaf in
      let first =
        bind_iff (validate_leaf_certificate c)
          (λ _. leaf_spiffe_id c >>= λ i. validate_signers rest i >> ok (leaf_of c i)) leaf in
      (
        λ h.
            let (u, p, q) = first.0 h in
            let (i, r, t) = id.0 q in
            let (w, x, y) = (last i).0 t in
            let e : leaf_of c i ≡ leaf = eq_of_ok_eq y in
            let (carries, path) = (leaf_spiffe_id_iff c i).0 r in
            rw (← e) (
              refl,
              (validate_leaf_certificate_iff c).0 p,
              carries,
              path,
              (validate_signers_iff rest i).0 x,
            ),
        λ (k, entity, carries, path, signers).
            let i = leaf.spiffe_id in
            first.1 (
              tt,
              (validate_leaf_certificate_iff c).1 entity,
              id.1 (
                i,
                (leaf_spiffe_id_iff c i).1 (carries, path),
                (last i).1 (
                  tt,
                  (validate_signers_iff rest i).1 signers,
                  ap (λ d. ok (leaf_of d i)) (sym k),
                ),
              ),
            ),
      )

  abbrev Anchors : Certificate → List Certificate → List Certificate → Type 0
  Anchors c rest roots =
      chain_error roots c rest (clamp_to_validity now c.not_before c.not_after v.skew) ≡ none

  verify_present_iff :
      (o : Option (List Certificate)) (leaf : Leaf)
      → (verify_present chain_error now v o ≡ ok leaf) ↔ Accepts chain_error now v o leaf
  verify_present_iff none leaf = (λ h. cc, λ h. absurd (let e = h.2 in cc))
  verify_present_iff (some []) leaf = (λ h. cc, λ h. absurd (let e = h.2 in cc))
  verify_present_iff (some (c ∷ rest)) leaf =
      let chain =
        bind_iff (verify_chain chain_error now v.bundle v.skew c rest) (λ _. validate_chain c rest)
          leaf in
      (
        λ h.
            let (u, p, q) = chain.0 h in
            let (roots, b, anchored) = (verify_chain_iff c rest).0 p in
            let (k, entity, carries, path, signers) = (validate_chain_iff c rest leaf).0 q in
            rw k (rest, roots, refl, b, anchored, entity, carries, path, signers),
        λ (more, roots, e, b, anchored, entity, carries, path, signers).
            let same : leaf.certificate ≡ c = cc in
            let rest_same : more ≡ rest = cc in
            chain.1 (
              tt,
              (verify_chain_iff c rest).1 (
                roots,
                b,
                subst (λ d. Anchors d rest roots) same
                    (subst (λ r. Anchors leaf.certificate r roots) rest_same anchored),
              ),
              (validate_chain_iff c rest leaf).1 (
                same,
                subst IsEndEntity same entity,
                subst (λ d. Carries d leaf.spiffe_id) same carries,
                path,
                rw (← rest_same) signers,
              ),
            ),
      )

  -- A chain is accepted exactly when its leaf is the first certificate, the chain anchors to the
  -- bundle, and leaf and signers keep the standard.
  pub verify_iff :
      (certificates : List (Option Certificate)) (leaf : Leaf)
      → (verify chain_error now v certificates ≡ ok leaf)
        ↔ IsSvid chain_error now v certificates leaf
  unfolding verify
  verify_iff certificates leaf = verify_present_iff (no_nil certificates) leaf

-- For a validity window that does not end before it begins, the clamped instant is no further than
-- the skew from now, and it lies in the window exactly when now is in the window widened by the skew
-- at both ends.
pub clamp_within :
    (now not_before not_after skew : ℕ)
    → not_before ≤ not_after
    → let t = clamp_to_validity now not_before not_after skew in
      (t ≤ now + skew)
      × (now ≤ t + skew)
      × (((not_before ≤ t) × (t ≤ not_after))
          ↔ ((not_before ≤ now + skew) × (now ≤ not_after + skew)))
unfolding clamp_to_validity
clamp_within now not_before not_after skew h = (
  ground arith,
  ground arith,
  (λ (p, q). (ground arith, ground arith), λ (p, q). (ground arith, ground arith)),
)
