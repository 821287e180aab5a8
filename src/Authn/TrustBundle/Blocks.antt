-- ===== src/Authn/TrustBundle/Blocks.antt =====
-- Which text internal/authn/trustbundle.go takes a block from, and which certificate it is.
use fizzled_go.Prelude.{
  ◌≡◌, ◌↔◌, refl, sym, ap, subst, ◌∙◌, Bytes, true, false, Option, none, some, [], ◌∷◌, text_eq,
  text_eq_iff, eq_of_some_eq,
}
use fizzled_go.Prelude.Assoc.{Assoc}
use fizzled_go.Prelude.Strings.{has_prefix}
use fizzled_go.Errors.{ok, ◌>>=◌, ◌>>◌, bind_iff, eq_of_ok_eq, ok_of_required, ok_of_refused}
use fizzled_go.Authn.Certificate.{Certificate}
use fizzled_go.Authn.SpiffeId.{SpiffeId}
use fizzled_go.Authn.X509svid.{
  validate_signing_certificate, validate_signing_certificate_for_leaf, same_domain,
}
use fizzled_go.Authn.X509svid.Signers.{IsSigner, validate_signing_iff, same_domain_iff}
use fizzled_go.Authn.Identity.{trust_domain}
use fizzled_go.Authn.Loader.{Block, Loader}
use fizzled_go.Authn.TrustBundle.{
  bundle_certificate, certificate_of, certificate_pem_type, decode_block, has_headers, home_domain,
  pem_begin_marker,
}

-- The trust domain of the program, as a SPIFFE ID without a path.
abbrev pub home : SpiffeId
home = record { uri = []; trust_domain = trust_domain; path = [] }

-- A certificate that may sign the leaves of the program's trust domain.
abbrev pub IsAnchor : Certificate → Type 0
IsAnchor = IsSigner home

home_domain_iff : (o : Option SpiffeId) → (home_domain o ≡ ok tt) ↔ (same_domain home o ≡ ok tt)
home_domain_iff none = (λ h. refl, λ h. refl)
home_domain_iff (some i) = (
  λ h.
      let (t, _) = ok_of_required (text_eq i.trust_domain trust_domain) _ h in
      (same_domain_iff home i).1 (sym ((text_eq_iff i.trust_domain trust_domain).0 t)),
  λ h.
      let same = (same_domain_iff home i).0 h in
      rw ((text_eq_iff i.trust_domain trust_domain).1 (sym same)) refl,
)

-- The two checks behind parsing a certificate, and what they come to.
checked_iff :
    (c d : Certificate)
    → ((validate_signing_certificate c >>= λ found. home_domain found >> ok c) ≡ ok d)
      ↔ ((c ≡ d) × IsAnchor c)
unfolding validate_signing_certificate_for_leaf
checked_iff c d =
    let checks = bind_iff (validate_signing_certificate c) (λ found. home_domain found >> ok c) d in
    let leaf = bind_iff (validate_signing_certificate c) (same_domain home) tt in
    let signer = validate_signing_iff c home in
    (
      λ h.
          let (found, p, q) = checks.0 h in
          let (_, u, e) = (bind_iff (home_domain found) (λ _. ok c) d).0 q in
          (eq_of_ok_eq e, signer.0 (leaf.1 (found, p, (home_domain_iff found).0 u))),
      λ (e, anchor).
          let (found, p, q) = leaf.0 (signer.1 anchor) in
          checks.1 (found, p, rw ((home_domain_iff found).1 q) (ap ok e)),
    )

has_headers_iff : (hs : Assoc Bytes) → (has_headers hs ≡ false) ↔ (hs ≡ [])
has_headers_iff [] = (λ h. refl, λ h. refl)
has_headers_iff (h ∷ hs) = (λ e. absurd (cc), λ e. absurd (cc))

-- A PEM block without headers that encodes a certificate of a trust anchor.
abbrev pub Encodes : Loader → Block → Certificate → Type 0
Encodes l block c =
    (block.block_type ≡ certificate_pem_type)
    × (block.headers ≡ [])
    × (l.parse_certificate block.bytes ≡ ok c)
    × IsAnchor c

pub bundle_certificate_iff :
    (l : Loader) (block : Block) (c : Certificate)
    → (bundle_certificate l block ≡ ok c) ↔ Encodes l block c
unfolding bundle_certificate
bundle_certificate_iff l block c =
    let kind = text_eq_iff block.block_type certificate_pem_type in
    let plain = has_headers_iff block.headers in
    let parse =
      bind_iff (l.parse_certificate block.bytes)
        (λ d. validate_signing_certificate d >>= λ found. home_domain found >> ok d) c in
    (
      λ h.
          let (t, h) = ok_of_required (text_eq block.block_type certificate_pem_type) _ h in
          let (n, h) = ok_of_refused (has_headers block.headers) _ h in
          let (d, p, q) = parse.0 h in
          let (same, anchor) = (checked_iff d c).0 q in
          (kind.0 t, plain.0 n, p ∙ ap ok same, subst IsAnchor same anchor),
      λ (t, n, p, anchor).
          rw (kind.1 t, plain.1 n) (parse.1 (c, p, (checked_iff c c).1 (refl, anchor))),
    )

-- The text starts with a block of the certificate, and the remainder is behind it.
abbrev pub Starts : Loader → Bytes → Certificate → Bytes → Type 0
Starts l text c remainder =
    (has_prefix text pem_begin_marker ≡ true)
    × ((block : Block) × (l.decode text ≡ some (block, remainder)) × Encodes l block c)

certificate_of_iff :
    (l : Loader) (decoded : Option (Block × Bytes)) (c : Certificate) (remainder : Bytes)
    → (certificate_of l decoded ≡ ok (c, remainder))
      ↔ ((block : Block) × (decoded ≡ some (block, remainder)) × Encodes l block c)
certificate_of_iff l none c remainder = (λ h. absurd (cc), λ (block, e, _). absurd (cc))
certificate_of_iff l (some (block, r)) c remainder =
    let bound = bind_iff (bundle_certificate l block) (λ d. ok (d, r)) (c, remainder) in
    (
      λ h.
          let (d, p, e) = bound.0 h in
          let same = eq_of_ok_eq e in
          (
            block,
            ap (λ z. some (block, z)) (ap (λ z. z.1) same),
            (bundle_certificate_iff l block c).0 (p ∙ ap (λ z. ok z.0) same),
          ),
      λ (other, e, encodes).
          let same = eq_of_some_eq e in
          bound.1 (
            c,
            (bundle_certificate_iff l block c).1
                (subst (λ z. Encodes l z c) (sym (ap (λ z. z.0) same)) encodes),
            ap (λ z. ok (c, z)) (ap (λ z. z.1) same),
          ),
    )

pub decode_block_iff :
    (l : Loader) (text : Bytes) (c : Certificate) (remainder : Bytes)
    → (decode_block l text ≡ ok (c, remainder)) ↔ Starts l text c remainder
unfolding decode_block
decode_block_iff l text c remainder =
    let (to, from) = certificate_of_iff l (l.decode text) c remainder in
    (
      λ h. let (t, h) = ok_of_required (has_prefix text pem_begin_marker) _ h in (t, to h),
      λ (t, found). rw t (from found),
    )
