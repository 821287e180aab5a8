-- ===== src/TestPki/Roots.antt =====
-- Which authorities of internal/testpki internal/authn loads from the file that they are written to.
use fizzled_go.Prelude.{
  ◌≡◌, ◌↔◌, ◌⊎◌, refl, sym, ap, subst, ◌∙◌, ℕ, Bytes, true, Option, List, [], ◌∷◌, ◌≢◌, length,
  eq_of_some_eq,
}
use fizzled_go.Prelude.Strings.{has_prefix}
use fizzled_go.Errors.{ok, bind-eq-ok, eq_of_ok_eq}
use fizzled_go.Authn.Certificate.{Certificate, has_bit, cert_sign_bit}
use fizzled_go.Authn.SpiffeId.{SpiffeId, parse}
use fizzled_go.Authn.Identity.{trust_domain}
use fizzled_go.Authn.TrustBundle.{LoadedBundle, pem_begin_marker, load_trust_bundle, sooner}
use fizzled_go.Authn.TrustBundle.Space.{trim_space}
use fizzled_go.Authn.TrustBundle.Blocks.{IsAnchor}
use fizzled_go.Authn.TrustBundle.Expiry.{expiry_from}
use fizzled_go.Authn.TrustBundle.Reads.{
  Reads, ends, reads, Reads-nil, Reads-cons, parse_trust_bundle_iff,
}
use fizzled_go.TestPki.Documented.{
  whole_seconds, Describes, certificate_block, IsOneBlock, IsFaithful, IsShorter, IsPem, IsKept,
}
use fizzled_go.TestPki.Issued.{sign_authority-IssuedAuthority}
use fizzled_go.TestPki.{
  Tools, Template, Authority, AuthorityOptions, authority_template, certificate_pem, loader_at,
  parse_uris, sign_authority, write_file, write_certificate,
}

filled : (text : Bytes) → has_prefix text pem_begin_marker ≡ true → text ≢ []
unfolding has_prefix
filled text h e = let k = ap (λ z. has_prefix z pem_begin_marker) (sym e) ∙ h in cc

-- The bundle of one certificate.
abbrev pub bundle_of_one : Certificate → LoadedBundle
bundle_of_one c = record { roots = c ∷ []; earliest_expiry = c.not_after }

abbrev bundle_from : List Certificate → ℕ → LoadedBundle
bundle_from roots earliest_expiry = record { roots = roots; earliest_expiry = earliest_expiry }

expiry_of_one : (c : Certificate) → expiry_from 0 (c ∷ []) ≡ c.not_after
unfolding expiry_from sooner
expiry_of_one c = refl

-- The URIs, parsed, of a certificate that may be a root: none, or the trust domain's SPIFFE ID.
abbrev pub IsHome : List Bytes → Type 0
IsHome uris =
    (uris ≡ [])
    ⊎ ((i : SpiffeId) × ((uri : Bytes) × (uris ≡ uri ∷ []) × (parse uri ≡ ok i))
        × (i.path ≡ [])
        × (trust_domain ≡ i.trust_domain))

module _ {S Key : Type 0} (tools : Tools S Key) where
  abbrev ReadsFrom : S → Bytes → List Certificate → Type 0
  ReadsFrom s text cs = Reads (loader_at tools s) text cs

  one_block-Reads :
      (s : S) (c : Certificate) (text : Bytes) (cs : List Certificate)
      → IsOneBlock tools.decode c.raw text
      → tools.parse_certificate c.raw ≡ ok c
      → ReadsFrom s text cs ↔ (IsAnchor c × (cs ≡ c ∷ []))
  unfolding trim_space loader_at
  one_block-Reads s c [] cs (begins, _, _) parsed = absurd (filled [] begins refl)
  one_block-Reads s c (b ∷ rest) cs (begins, decoded, _) parsed = (
    λ read.
        let (d, remainder, more, e, (_, (block, decoded', (_, _, parsed', anchor))), read') =
          Reads-cons read in
        let same = eq_of_some_eq (sym decoded ∙ decoded') in
        let is : c ≡ d =
          eq_of_ok_eq (sym parsed ∙ ap (λ z. tools.parse_certificate z.0.bytes) same ∙ parsed') in
        let none_left =
          Reads-nil
            (subst (λ z. ReadsFrom s (trim_space z) more) (sym (ap (λ z. z.1) same)) read') in
        (subst IsAnchor (sym is) anchor, e ∙ cc),
    λ (anchor, e).
        subst (ReadsFrom s (b ∷ rest)) (sym e)
          (reads (begins, (certificate_block c.raw, decoded, (refl, refl, parsed, anchor))) ends),
  )

  -- What a certificate's file loads as.
  written-load :
      (dir name path : Bytes) (c : Certificate) (s s' : S) (loaded : LoadedBundle)
      → IsShorter tools
      → IsPem tools c.raw
      → IsKept tools
      → tools.parse_certificate c.raw ≡ ok c
      → write_certificate tools dir name c s ≡ ok (path, s')
      → (load_trust_bundle (loader_at tools s') path ≡ ok loaded)
        ↔ (IsAnchor c × (loaded ≡ bundle_of_one c))
  unfolding load_trust_bundle loader_at write_certificate write_file certificate_pem
  written-load dir name path c s s' loaded shrinks pem kept parsed h =
      let raw = certificate_pem tools c in
      let (s1, wrote, e) =
        bind-eq-ok (tools.write (tools.join dir name) raw 384 s) (λ s. ok (tools.join dir name, s))
          h in
      let content : tools.read_file s' path ≡ ok raw =
        subst (λ z. tools.read_file z.1 z.0 ≡ ok raw) (eq_of_ok_eq e)
          (kept (tools.join dir name) raw 384 s s1 wrote) in
      let bundle = parse_trust_bundle_iff (loader_at tools s') raw loaded shrinks in
      let read = one_block-Reads s' c (trim_space raw) loaded.roots pem parsed in
      rw content (
        λ k.
            let (r, _, _, _, expiry) = bundle.0 k in
            let (anchor, one) = read.0 r in
            (
              anchor,
              ap (λ z. bundle_from z loaded.earliest_expiry) one
                  ∙ ap (bundle_from (c ∷ [])) (expiry ∙ ap (expiry_from 0) one ∙ expiry_of_one c),
            ),
        λ (anchor, k).
            let one : loaded.roots ≡ c ∷ [] = ap (λ z. z.roots) k in
            bundle.1 (
              read.1 (anchor, one),
              rw one (tt, tt),
              λ n. cc,
              ap length one ∙ sym (pem.2),
              ap (λ z. z.earliest_expiry) k ∙ sym (ap (expiry_from 0) one ∙ expiry_of_one c),
            ),
      )

  IsAnchor-of_options :
      (t : Template) (opts : AuthorityOptions) (uris : List Bytes) (der : Bytes) (c : Certificate)
      → Describes (authority_template t opts uris) der c
      → IsAnchor c
        ↔ ((opts.is_ca ≡ true) × (has_bit cert_sign_bit opts.key_usage ≡ true) × IsHome uris)
  unfolding authority_template
  IsAnchor-of_options t opts uris der c (_, ca, usage, _, carried, _, _) =
      rw (ca, usage, carried) (λ h. h, λ h. h)

  -- When a certificate parses as what its template says, a decoder uses some of a text up, the PEM
  -- encoding of the authority's certificate is its one block, and a file has what was written: an
  -- authority that was issued, by itself or by another, and written to a file is loaded from there as
  -- a bundle exactly when its options make it a CA that may sign certificates and its URIs, parsed,
  -- are none or a SPIFFE ID of the trust domain without a path; the bundle is then that one root,
  -- which expires when the options say, in whole seconds.
  pub authority_file-load :
      (parent : Option (Authority Key)) (opts : AuthorityOptions) (dir name path : Bytes)
      (s s1 s2 s3 : S) (a : Authority Key) (loaded : LoadedBundle)
      → IsFaithful tools
      → IsShorter tools
      → IsPem tools a.certificate.raw
      → IsKept tools
      → sign_authority tools parent opts s ≡ ok (a, s1)
      → write_certificate tools dir name a.certificate s2 ≡ ok (path, s3)
      → (uris : List Bytes) × (parse_uris tools opts.uris ≡ ok uris)
        × ((load_trust_bundle (loader_at tools s3) path ≡ ok loaded) ↔ (
            (opts.is_ca ≡ true)
            × (has_bit cert_sign_bit opts.key_usage ≡ true)
            × IsHome uris
            × (loaded.roots ≡ a.certificate ∷ [])
            × (loaded.earliest_expiry ≡ whole_seconds opts.not_after)))
  unfolding authority_template
  authority_file-load parent opts dir name path s s1 s2 s3 a loaded faithful shrinks pem kept made
        wrote =
      let c = a.certificate in
      let (t, uris, issuer, key, signer, parsed, (u, v, der, created, read)) =
        sign_authority-IssuedAuthority tools parent opts s s1 a made in
      let (describes, _) =
        faithful (authority_template t opts uris) issuer key signer u v der c created read in
      let (raw, _, _, _, _, _, not_after) = describes in
      let again : tools.parse_certificate c.raw ≡ ok c = ap tools.parse_certificate raw ∙ read in
      let file = written-load dir name path c s2 s3 loaded shrinks pem kept again wrote in
      let anchor = IsAnchor-of_options t opts uris der c describes in
      (
        uris,
        parsed,
        (
          λ h.
              let (k, same) = file.0 h in
              let (ca, usage, home) = anchor.0 k in
              (
                ca,
                usage,
                home,
                ap (λ z. z.roots) same,
                ap (λ z. z.earliest_expiry) same ∙ not_after,
              ),
          λ (ca, usage, home, roots, expiry). file.1 (
            anchor.1 (ca, usage, home),
            ap (λ z. bundle_from z loaded.earliest_expiry) roots
                ∙ ap (bundle_from (c ∷ [])) (expiry ∙ sym not_after),
          ),
        ),
      )
