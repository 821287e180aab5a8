-- ===== src/Authn/X509svid.antt =====
-- Package internal/authn/x509svid: verifier.go and leaf.go. Building and checking a chain is
-- crypto/x509's `Verify`: the parameter `chain_error`.
pub mod Signers
pub mod Standard
use fizzled_go.Prelude.{
  ℕ, ◌+◌, Bytes, Bool, true, false, not, ◌&&◌, Option, none, some, List, [], ◌∷◌, ltb,
  if◌then◌else◌, text_eq,
}
use fizzled_go.Prelude.Int.{ℤ, pos, negsuc}
use fizzled_go.Errors.{
  Result, ok, err, ◌>>=◌, ◌>>◌, GoError, no_certificate, no_trust_bundle, leaf_cert_is_ca,
  leaf_cert_has_key_cert_sign, leaf_cert_has_crl_sign, leaf_cert_missing_digital_signature,
  leaf_spiffe_missing_path, cert_has_no_uri, cert_has_multiple_uris, signing_cert_is_not_ca,
  signing_cert_missing_key_cert_sign, signing_spiffe_has_path,
  signing_spiffe_in_different_trust_domain, negative_skew,
}
use fizzled_go.Authn.Certificate.{
  Certificate, has_bit, digital_signature_bit, cert_sign_bit, crl_sign_bit,
}
use fizzled_go.Authn.SpiffeId.{SpiffeId, parse}

-- The error of (*x509.Certificate).Verify, for the roots, the leaf, the intermediates and the
-- instant, with every extended key usage allowed and no host name: `none` when a chain from the
-- leaf to a root is found.
abbrev pub ChainCheck : Type 0
ChainCheck = List Certificate → Certificate → List Certificate → ℕ → Option GoError

-- A nil bundle is `none`.
pub record Verifier : Type 0 where
  pub bundle : Option (List Certificate)
  pub skew : ℕ

pub record Leaf : Type 0 where
  pub spiffe_id : SpiffeId
  pub certificate : Certificate

abbrev pub put_first : Certificate → Option (List Certificate) → Option (List Certificate)
put_first c none = none
put_first c (some cs) = some (c ∷ cs)

-- A slice of pointers without a nil.
abbrev pub no_nil : List (Option Certificate) → Option (List Certificate)
no_nil [] = some []
no_nil (none ∷ cs) = none
no_nil (some c ∷ cs) = put_first c (no_nil cs)

abbrev pub verifier_of : Option (List Certificate) → ℕ → Result Verifier
verifier_of none skew = err (no_certificate ∷ [])
verifier_of (some roots) skew = ok (record { bundle = some roots; skew = skew })

-- `NewVerifier`
unfoldable pub new_verifier : List (Option Certificate) → ℤ → Result Verifier
new_verifier roots (negsuc n) = err (negative_skew ∷ [])
new_verifier roots (pos skew) = verifier_of (no_nil roots) skew

-- `clampToValidity`. The source compares `now` with `notBefore - skew`, which is here `now + skew`
-- with `notBefore`.
unfoldable pub clamp_to_validity : ℕ → ℕ → ℕ → ℕ → ℕ
clamp_to_validity now not_before not_after skew =
    if ltb now not_before && not (ltb (now + skew) not_before)
    then not_before
    else if ltb not_after now && not (ltb (not_after + skew) now)
    then not_after
    else now

-- The error of a check, or its success.
abbrev pub checked : Option GoError → Result (Unit {0})
checked none = ok tt
checked (some e) = err e

-- `verifyChain`; the certificates are the leaf and the rest.
unfoldable pub verify_chain :
    ChainCheck
    → ℕ
    → Option (List Certificate)
    → ℕ
    → Certificate
    → List Certificate
    → Result (Unit {0})
verify_chain chain_error now none skew leaf rest = err (no_trust_bundle ∷ [])
verify_chain chain_error now (some roots) skew leaf rest =
    checked
      (chain_error roots leaf rest (clamp_to_validity now leaf.not_before leaf.not_after skew))

-- `validateLeafCertificate`
unfoldable pub validate_leaf_certificate : Certificate → Result (Unit {0})
validate_leaf_certificate c =
    if c.is_ca
    then err (leaf_cert_is_ca ∷ [])
    else if has_bit cert_sign_bit c.key_usage
    then err (leaf_cert_has_key_cert_sign ∷ [])
    else if has_bit crl_sign_bit c.key_usage
    then err (leaf_cert_has_crl_sign ∷ [])
    else if not (has_bit digital_signature_bit c.key_usage)
    then err (leaf_cert_missing_digital_signature ∷ [])
    else ok tt

-- `newSPIFFEID`, on the certificate's URIs.
unfoldable pub new_spiffe_id : List Bytes → Result SpiffeId
new_spiffe_id [] = err (cert_has_no_uri ∷ [])
new_spiffe_id (uri ∷ []) = parse uri
new_spiffe_id (uri ∷ other ∷ uris) = err (cert_has_multiple_uris ∷ [])

abbrev pub require_path : SpiffeId → Result SpiffeId
require_path i = if text_eq i.path [] then err (leaf_spiffe_missing_path ∷ []) else ok i

-- `leafSPIFFEID`
unfoldable pub leaf_spiffe_id : Certificate → Result SpiffeId
leaf_spiffe_id c = new_spiffe_id c.uris >>= require_path

abbrev pub refuse_path : SpiffeId → Result (Option SpiffeId)
refuse_path i = if not (text_eq i.path []) then err (signing_spiffe_has_path ∷ []) else ok (some i)

-- The end of `ValidateSigningCertificate`; no URI is no SPIFFE ID, and no error.
unfoldable pub signing_spiffe_id : List Bytes → Result (Option SpiffeId)
signing_spiffe_id [] = ok none
signing_spiffe_id (uri ∷ uris) = new_spiffe_id (uri ∷ uris) >>= refuse_path

-- `ValidateSigningCertificate`, for a certificate that is not nil: `Verify` has refused those.
unfoldable pub validate_signing_certificate : Certificate → Result (Option SpiffeId)
validate_signing_certificate c =
    if not c.is_ca
    then err (signing_cert_is_not_ca ∷ [])
    else if not (has_bit cert_sign_bit c.key_usage)
    then err (signing_cert_missing_key_cert_sign ∷ [])
    else signing_spiffe_id c.uris

abbrev pub same_domain : SpiffeId → Option SpiffeId → Result (Unit {0})
same_domain leaf none = ok tt
same_domain leaf (some i) =
    if not (text_eq leaf.trust_domain i.trust_domain)
    then err (signing_spiffe_in_different_trust_domain ∷ [])
    else ok tt

-- `validateSigningCertificateForLeaf`
unfoldable pub validate_signing_certificate_for_leaf : Certificate → SpiffeId → Result (Unit {0})
validate_signing_certificate_for_leaf c leaf = do
  found ← validate_signing_certificate c
  same_domain leaf found

-- The loop of `validateChain`.
unfoldable pub validate_signers : List Certificate → SpiffeId → Result (Unit {0})
validate_signers [] leaf = ok tt
validate_signers (c ∷ cs) leaf =
    let rest = validate_signers cs leaf in validate_signing_certificate_for_leaf c leaf >> rest

-- `validateChain`
unfoldable pub validate_chain : Certificate → List Certificate → Result Leaf
validate_chain leaf rest = do
  validate_leaf_certificate leaf
  i ← leaf_spiffe_id leaf
  validate_signers rest i
  ok (record { spiffe_id = i; certificate = leaf })

abbrev pub verify_present : ChainCheck → ℕ → Verifier → Option (List Certificate) → Result Leaf
verify_present chain_error now v none = err (no_certificate ∷ [])
verify_present chain_error now v (some []) = err (no_certificate ∷ [])
verify_present chain_error now v (some (leaf ∷ rest)) = do
  verify_chain chain_error now v.bundle v.skew leaf rest
  validate_chain leaf rest

-- `Verify`, at the instant `now`.
unfoldable pub verify : ChainCheck → ℕ → Verifier → List (Option Certificate) → Result Leaf
verify chain_error now v certificates = verify_present chain_error now v (no_nil certificates)
