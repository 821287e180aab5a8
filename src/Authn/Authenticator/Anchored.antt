-- ===== src/Authn/Authenticator/Anchored.antt =====
-- What an authenticator that internal/authn built anchors chains to.
use fizzled_go.Prelude.{◌≡◌, ◌≢◌, refl, sym, ap, ◌∙◌, ℕ, Bytes, some, List, [], ◌∷◌, length, All}
use fizzled_go.Prelude.Int.{pos}
use fizzled_go.Errors.{ok, ◌>>=◌, bind-eq-ok, eq_of_ok_eq}
use fizzled_go.Authn.Certificate.{Certificate}
use fizzled_go.Authn.Loader.{Loader}
use fizzled_go.Authn.X509svid.{ChainCheck, new_verifier, no_nil, put_first, verifier_of}
use fizzled_go.Authn.TrustBundle.{LoadedBundle, load_trust_bundle, parse_trust_bundle}
use fizzled_go.Authn.TrustBundle.Anchors.{Distinct, parse_trust_bundle-Anchors}
use fizzled_go.Authn.TrustBundle.Blocks.{IsAnchor}
use fizzled_go.Authn.Authenticator.{Authenticator}
use fizzled_go.Authn.Authenticator.Audit.{AuditLine, bundle_loaded}
use fizzled_go.Authn.Authenticator.Setup.{pointers, skew, new_authenticator, anchored}

no_nil-pointers : (cs : List Certificate) → no_nil (pointers cs) ≡ some cs
no_nil-pointers [] = refl
no_nil-pointers (c ∷ cs) = ap (put_first c) (no_nil-pointers cs)

pub new_verifier-pointers :
    (cs : List Certificate)
    → new_verifier (pointers cs) (pos skew) ≡ ok (record { bundle = some cs; skew = skew })
unfolding new_verifier
new_verifier-pointers cs = ap (λ o. verifier_of o skew) (no_nil-pointers cs)

-- An authenticator is built only from a file that reads as a trust bundle: it verifies against the
-- roots of that bundle, of which there is at least one, all different, each a signing certificate
-- for the program's trust domain; its skew is two minutes, it is at the instant given, and the line
-- that it logs has the path and the number of the roots.
pub new_authenticator-Anchors :
    (l : Loader) (chain_error : ChainCheck) (now : ℕ) (ca_path : Bytes) {a : Authenticator}
    {line : AuditLine}
    → new_authenticator l chain_error now ca_path ≡ ok (a, line)
    → (loaded : LoadedBundle) × (load_trust_bundle l ca_path ≡ ok loaded)
      × (a.verifier.bundle ≡ some loaded.roots)
      × (a.verifier.skew ≡ skew)
      × (a.now ≡ now)
      × (line ≡ bundle_loaded ca_path (length loaded.roots) loaded.earliest_expiry)
      × (loaded.roots ≢ [])
      × Distinct loaded.roots
      × All IsAnchor loaded.roots
unfolding new_authenticator load_trust_bundle
new_authenticator-Anchors l chain_error now ca_path {a} {line} h =
    let built = anchored chain_error now ca_path in
    let (loaded, p, h) =
      bind-eq-ok (load_trust_bundle l ca_path)
        (λ bundle. new_verifier (pointers bundle.roots) (pos skew) >>= λ v. ok (built bundle v))
        h in
    let (v, q, h) =
      bind-eq-ok (new_verifier (pointers loaded.roots) (pos skew)) (λ v. ok (built loaded v)) h in
    let (raw, _, parsed) = bind-eq-ok (l.read_file ca_path) (parse_trust_bundle l) p in
    let (some_root, _, distinct, anchors) = parse_trust_bundle-Anchors l raw parsed in
    let same = eq_of_ok_eq h in
    let verifier = eq_of_ok_eq (sym q ∙ new_verifier-pointers loaded.roots) in
    (
      loaded,
      p,
      ap (λ z. z.0.verifier.bundle) (sym same) ∙ ap (λ z. z.bundle) verifier,
      ap (λ z. z.0.verifier.skew) (sym same) ∙ ap (λ z. z.skew) verifier,
      ap (λ z. z.0.now) (sym same),
      ap (λ z. z.1) (sym same),
      some_root,
      distinct,
      anchors,
    )
