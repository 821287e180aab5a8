-- ===== src/TestPki/Admitted.antt =====
-- A leaf of internal/testpki before an authenticator that stands on the file of its authority.
use mathlib.Core.List.{mem-cons_self}
use fizzled_go.Prelude.{
  ℕ, ◌+◌, ◌≤◌, ◌≡◌, refl, sym, ap, ◌∙◌, Bytes, Option, none, some, [], ◌∷◌, arith, inl,
}
use fizzled_go.Errors.{ok, eq_of_ok_eq}
use fizzled_go.Authn.Certificate.{Certificate, has_bit, cert_sign_bit}
use fizzled_go.Authn.AgentId.{IsAgentId}
use fizzled_go.Authn.Identity.Uris.{client_uri}
use fizzled_go.Authn.X509svid.{ChainCheck}
use fizzled_go.Authn.TrustBundle.{load_trust_bundle}
use fizzled_go.Authn.Authenticator.{Authenticator, authenticate}
use fizzled_go.Authn.Authenticator.Anchored.{new_verifier-pointers}
use fizzled_go.Authn.Authenticator.Audit.{AuditLine}
use fizzled_go.Authn.Authenticator.Setup.{new_authenticator, anchored, skew}
use fizzled_go.TestPki.Documented.{
  whole_seconds, Within, IsFaithful, IsOnCurve, IsShorter, IsPem, IsKept, Vouches,
}
use fizzled_go.TestPki.Issued.{sign_authority-IssuedAuthority, new_leaf-IssuedLeaf}
use fizzled_go.TestPki.Roots.{bundle_of_one, authority_file-load}
use fizzled_go.TestPki.{
  Tools, Authority, AuthorityOptions, authority_validity, leaf_validity, new_authority_options,
  new_leaf_options, authority_template, leaf_template, loader_at, new_authority, new_leaf,
  parse_uris, sign_authority, write_certificate,
}
use fizzled_go.TestPki.Leaves.{
  clamp_inside, issued-IsDefaultLeaf, default_leaf-authenticate, default_leaf-Within,
}

module _ {S Key : Type 0} (tools : Tools S Key) where
  -- The window of an authority holds an instant that is neither earlier than the first reading of
  -- the clock, nor later than a day, less a second, after the second.
  default_authority-Within :
      (c : Certificate) (first second now : ℕ)
      → c.not_before ≡ whole_seconds (new_authority_options first second).not_before
      → c.not_after ≡ whole_seconds (new_authority_options first second).not_after
      → first ≤ now
      → now + 1_000_000_000 ≤ second + authority_validity
      → Within now c
  unfolding new_authority_options
  default_authority-Within c first second now before after h k =
      (omega (arith, before), omega (arith, after))

  -- What an authority carries of its options.
  abbrev CarriesOptions : AuthorityOptions → Certificate → Type 0
  CarriesOptions opts c =
      (c.is_ca ≡ opts.is_ca)
      × (c.key_usage ≡ opts.key_usage)
      × (c.not_before ≡ whole_seconds opts.not_before)
      × (c.not_after ≡ whole_seconds opts.not_after)

  authority-CarriesOptions :
      (parent : Option (Authority Key)) (opts : AuthorityOptions) (s s' : S) (a : Authority Key)
      → IsFaithful tools
      → sign_authority tools parent opts s ≡ ok (a, s')
      → CarriesOptions opts a.certificate
  unfolding authority_template
  authority-CarriesOptions parent opts s s' a faithful h =
      let (t, uris, issuer, key, signer, _, (u, v, der, created, read)) =
        sign_authority-IssuedAuthority tools parent opts s s' a h in
      let ((_, ca, usage, _, _, before, after), _) =
        faithful (authority_template t opts uris) issuer key signer u v der a.certificate created
          read in
      (ca, usage, before, after)

  default_file-load :
      (first second : ℕ) (dir name path : Bytes) (s s1 s2 s3 : S) (a : Authority Key)
      → IsFaithful tools
      → IsShorter tools
      → IsPem tools a.certificate.raw
      → IsKept tools
      → new_authority tools (new_authority_options first second) s ≡ ok (a, s1)
      → write_certificate tools dir name a.certificate s2 ≡ ok (path, s3)
      → load_trust_bundle (loader_at tools s3) path ≡ ok (bundle_of_one a.certificate)
  unfolding new_authority new_authority_options parse_uris
  default_file-load first second dir name path s s1 s2 s3 a faithful shrinks pem kept made wrote =
      let opts = new_authority_options first second in
      let (_, _, _, after) = authority-CarriesOptions none opts s s1 a faithful made in
      let (uris, parsed, file) =
        authority_file-load tools none opts dir name path s s1 s2 s3 a (bundle_of_one a.certificate)
          faithful shrinks pem kept made wrote in
      file.1 (refl, refl, inl (sym (eq_of_ok_eq parsed)), refl, after)

  new_authenticator-one :
      (s : S) (chain_error : ChainCheck) (now : ℕ) (path : Bytes) (c : Certificate)
      → load_trust_bundle (loader_at tools s) path ≡ ok (bundle_of_one c)
      → new_authenticator (loader_at tools s) chain_error now path
        ≡ ok (
            anchored chain_error now path
              (bundle_of_one c)
              (record { bundle = some (c ∷ []); skew = skew }))
  unfolding new_authenticator
  new_authenticator-one s chain_error now path c h = rw (h, new_verifier-pointers (c ∷ [])) refl

  -- When crypto/x509, crypto/ecdsa and os do what they document, encoding/pem does for the authority's
  -- certificate, and the client URI of a valid agent id is parsed as itself: an authenticator is built
  -- from the file of a default authority, as it is right after it was written, and it authenticates
  -- as that agent a peer that presents the default leaf of that URI, issued by the authority. The
  -- instant is then no earlier than the first readings of the clock for the options of both, and at
  -- most a day less a second after the second one for the authority's, and an hour less a second
  -- after the second one for the leaf's.
  pub issued_leaf-authenticate :
      (chain_error : ChainCheck) (now first second third fourth : ℕ) (agent dir name path : Bytes)
      (s s1 s2 s3 s4 s5 : S) (a : Authority Key) (c : Certificate) (key : Key)
      → IsFaithful tools
      → IsOnCurve tools
      → IsShorter tools
      → IsPem tools a.certificate.raw
      → IsKept tools
      → Vouches tools chain_error
      → tools.parse_url (client_uri agent) ≡ ok (client_uri agent)
      → IsAgentId agent
      → new_authority tools (new_authority_options first second) s ≡ ok (a, s1)
      → write_certificate tools dir name a.certificate s2 ≡ ok (path, s3)
      → new_leaf tools a (new_leaf_options third fourth (client_uri agent ∷ [])) s4
        ≡ ok ((c, key), s5)
      → first ≤ now
      → now + 1_000_000_000 ≤ second + authority_validity
      → third ≤ now
      → now + 1_000_000_000 ≤ fourth + leaf_validity
      → (b : Authenticator) × (line : AuditLine) × (new_authenticator
            (loader_at tools s3)
            chain_error
            now
            path
          ≡ ok (b, line))
        × (authenticate b (some c ∷ []) ≡ ok agent)
  unfolding new_authority new_authority_options new_leaf_options
  issued_leaf-authenticate chain_error now first second third fourth agent dir name path s s1 s2 s3
        s4 s5 a c key faithful curved shrinks pem kept vouches same valid made wrote issued h1 h2 h3
        h4 =
      let ca = a.certificate in
      let uri = client_uri agent in
      let leaf =
        new_leaf-IssuedLeaf tools a (new_leaf_options third fourth (uri ∷ [])) s4 s5 c key refl
          issued in
      let (t, uris, k, _, _, _, _, encoded) = leaf in
      let default = issued-IsDefaultLeaf tools a third fourth uri c faithful curved same leaf in
      let (is_ca, usage, before, after) =
        authority-CarriesOptions none (new_authority_options first second) s s1 a faithful made in
      let inside = default_leaf-Within tools c uri third fourth now default h3 h4 in
      let anchors =
        vouches (leaf_template t (new_leaf_options third fourth (uri ∷ [])) uris) ca c k a.key
          (ca ∷ []) now encoded mem-cons_self is_ca (ap (has_bit cert_sign_bit) usage)
          (default_authority-Within ca first second now before after h1 h2) inside in
      let loads =
        default_file-load first second dir name path s s1 s2 s3 a faithful shrinks pem kept made
          wrote in
      let (b, line) =
        anchored chain_error now path (bundle_of_one ca)
          (record { bundle = some (ca ∷ []); skew = skew }) in
      (
        b,
        line,
        new_authenticator-one s3 chain_error now path ca loads,
        default_leaf-authenticate tools b third fourth agent c (ca ∷ []) default valid refl
            (ap (chain_error (ca ∷ []) c []) (clamp_inside c now skew inside) ∙ anchors),
      )
