-- ===== src/TestPki/Issued.antt =====
-- What the certificates that internal/testpki issues carry.
use fizzled_go.Prelude.{◌≡◌, sym, ap, ◌∙◌, Bytes, false, Option, List, if◌then◌else◌}
use fizzled_go.Errors.{ok, ◌>>=◌, bind-eq-ok, eq_of_ok_eq}
use fizzled_go.Authn.Certificate.{Certificate, p256}
use fizzled_go.TestPki.Documented.{Encoded}
use fizzled_go.TestPki.{
  Tools, Template, Issuer, issued_by, Authority, AuthorityOptions, LeafOptions, authority_template,
  leaf_template, new_template, ecdsa_private_key, rsa_private_key, parse_uris, leaf_key, sign,
  signer_of, sign_authority, new_leaf,
}

module _ {S Key : Type 0} (tools : Tools S Key) where
  sign-Encoded :
      (t : Template) (parent : Issuer) (public_key signer_key : Key) (s s' : S) (c : Certificate)
      → sign tools t parent public_key signer_key s ≡ ok (c, s')
      → Encoded tools t parent public_key signer_key c
  unfolding sign
  sign-Encoded t parent public_key signer_key s s' c h =
      let ((der, u), p, k) =
        bind-eq-ok (tools.create_certificate t parent public_key signer_key s)
          (λ (der, s). tools.parse_certificate der >>= λ c. ok (c, s)) h in
      let (d, q, e) = bind-eq-ok (tools.parse_certificate der) (λ c. ok (c, u)) k in
      (s, u, der, p, q ∙ ap (λ z. ok z.0) (eq_of_ok_eq e))

  -- A template with these URIs, parsed, and the certificate that it became.
  abbrev pub IssuedAuthority : AuthorityOptions → Certificate → Type 0
  IssuedAuthority opts c =
      (t : Template) × (uris : List Bytes) × (parent : Issuer) × (key signer_key : Key)
      × (parse_uris tools opts.uris ≡ ok uris)
      × Encoded tools (authority_template t opts uris) parent key signer_key c

  pub sign_authority-IssuedAuthority :
      (parent : Option (Authority Key)) (opts : AuthorityOptions) (s s' : S) (a : Authority Key)
      → sign_authority tools parent opts s ≡ ok (a, s')
      → IssuedAuthority opts a.certificate
  unfolding sign_authority
  sign_authority-IssuedAuthority parent opts s s' a h =
      let made = λ (key : Key) (t : Template) (uris : List Bytes) (s : S).
        sign tools (authority_template t opts uris) (signer_of tools key parent).0 key
          (signer_of tools key parent).1 s
        >>= λ (c, s). ok (record { certificate = c; key = key }, s) in
      let ((key, s1), p, h) =
        bind-eq-ok (ecdsa_private_key tools p256 s)
          (λ (key, s). new_template tools s >>= λ (t, s).
            parse_uris tools opts.uris >>= λ uris. made key t uris s)
          h in
      let ((t, s2), q, h) =
        bind-eq-ok (new_template tools s1)
          (λ (t, s). parse_uris tools opts.uris >>= λ uris. made key t uris s) h in
      let (uris, r, h) = bind-eq-ok (parse_uris tools opts.uris) (λ uris. made key t uris s2) h in
      let ((c, s3), u, e) =
        bind-eq-ok
          (sign tools (authority_template t opts uris) (signer_of tools key parent).0 key
            (signer_of tools key parent).1 s2)
          (λ (c, s). ok (record { certificate = c; key = key }, s)) h in
      let same = ap (λ z. z.0.certificate) (eq_of_ok_eq e) in
      (
        t,
        uris,
        (signer_of tools key parent).0,
        key,
        (signer_of tools key parent).1,
        r,
        sign-Encoded (authority_template t opts uris) (signer_of tools key parent).0 key
            (signer_of tools key parent).1 s2 s3 a.certificate (u ∙ ap (λ d. ok (d, s3)) same),
      )

  abbrev pub IssuedLeaf : Authority Key → LeafOptions → Certificate → Type 0
  IssuedLeaf parent opts c =
      (t : Template) × (uris : List Bytes) × (key : Key) × (s s' : S) × (parse_uris tools opts.uris
        ≡ ok uris)
      × (ecdsa_private_key tools opts.curve s ≡ ok (key, s'))
      × Encoded tools (leaf_template t opts uris) (issued_by parent.certificate) key parent.key c

  pub new_leaf-IssuedLeaf :
      (parent : Authority Key) (opts : LeafOptions) (s s' : S) (c : Certificate) (key : Key)
      → opts.use_rsa ≡ false
      → new_leaf tools parent opts s ≡ ok ((c, key), s')
      → IssuedLeaf parent opts c
  unfolding new_leaf
  new_leaf-IssuedLeaf parent opts s s' c key curved h =
      let made = λ (t : Template) (uris : List Bytes) (key : Key) (s : S).
        sign tools (leaf_template t opts uris) (issued_by parent.certificate) key parent.key s
        >>= λ (c, s). ok ((c, key), s) in
      let ((t, s1), p, h) =
        bind-eq-ok (new_template tools s)
          (λ (t, s). parse_uris tools opts.uris >>= λ uris.
            leaf_key tools opts s >>= λ (key, s). made t uris key s)
          h in
      let (uris, q, h) =
        bind-eq-ok (parse_uris tools opts.uris)
          (λ uris. leaf_key tools opts s1 >>= λ (key, s). made t uris key s) h in
      let ((k, s2), r, h) = bind-eq-ok (leaf_key tools opts s1) (λ (key, s). made t uris key s) h in
      let ((d, s3), u, e) =
        bind-eq-ok
          (sign tools (leaf_template t opts uris) (issued_by parent.certificate) k parent.key s2)
          (λ (c, s). ok ((c, k), s)) h in
      let same = ap (λ z. z.0.0) (eq_of_ok_eq e) in
      (
        t,
        uris,
        k,
        s1,
        s2,
        q,
        ap (λ b. if b then rsa_private_key tools s1 else ecdsa_private_key tools opts.curve s1)
              (sym curved)
            ∙ r,
        sign-Encoded (leaf_template t opts uris) (issued_by parent.certificate) k parent.key s2 s3 c
            (u ∙ ap (λ d. ok (d, s3)) same),
      )
