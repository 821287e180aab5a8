-- ===== src/TestPki/Leaves.antt =====
-- The leaves of internal/testpki that `NewLeafOptions` describes.
use fizzled_go.Prelude.{
  ℕ, ◌+◌, ◌-◌, ◌≤◌, ◌≡◌, ◌≢◌, refl, sym, ap, subst, ◌∙◌, Bytes, false, none, some, List, [], ◌∷◌,
  arith,
}
use fizzled_go.Errors.{ok, ◌>>=◌}
use fizzled_go.Authn.Certificate.{Certificate, p256, ecdsa}
use fizzled_go.Authn.SpiffeId.{SpiffeId, components_of}
use fizzled_go.Authn.AgentId.{IsAgentId}
use fizzled_go.Authn.Identity.{client_agent_id}
use fizzled_go.Authn.Identity.Uris.{client_uri, client_uri_iff, client_agent_id_iff}
use fizzled_go.Authn.X509svid.{clamp_to_validity}
use fizzled_go.Authn.Authenticator.{Authenticator, authenticate}
use fizzled_go.Authn.Authenticator.Peers.{authenticate_iff}
use fizzled_go.TestPki.Documented.{whole_seconds, Within, IsFaithful, IsOnCurve}
use fizzled_go.TestPki.Issued.{IssuedLeaf}
use fizzled_go.TestPki.{
  Tools, Authority, issued_by, leaf_validity, new_leaf_options, leaf_template, ecdsa_private_key,
  parse_uris,
}

pub clamp_inside :
    (c : Certificate) (now by : ℕ)
    → Within now c
    → clamp_to_validity now c.not_before c.not_after by ≡ now
unfolding clamp_to_validity
clamp_inside c now by (h, k) = ground arith

named_path : (i : SpiffeId) (agent : Bytes) → client_agent_id i ≡ ok agent → i.path ≢ []
unfolding components_of
named_path i agent h e =
    let (_, path, _) = (client_agent_id_iff i agent).0 h in
    let k = sym (ap components_of e) ∙ path in cc

module _ {S Key : Type 0} (tools : Tools S Key) where
  one_uri :
      (uri : Bytes) (uris : List Bytes)
      → tools.parse_url uri ≡ ok uri
      → parse_uris tools (uri ∷ []) ≡ ok uris
      → uris ≡ uri ∷ []
  unfolding parse_uris
  one_uri uri uris h k = let e = subst (λ r. (r >>= λ u. ok (u ∷ [])) ≡ ok uris) h k in cc

  -- What a default leaf with one URI is, whoever issued it.
  abbrev IsDefaultLeaf : ℕ → ℕ → Bytes → Certificate → Type 0
  IsDefaultLeaf now later uri c =
      (c.is_ca ≡ false)
      × (c.key_usage ≡ 1)
      × (c.ext_key_usage ≡ (new_leaf_options now later []).ext_key_usage)
      × (c.uris ≡ uri ∷ [])
      × (c.public_key ≡ ecdsa p256)
      × (c.not_before ≡ whole_seconds (now - leaf_validity))
      × (c.not_after ≡ whole_seconds (later + leaf_validity))

  pub issued-IsDefaultLeaf :
      (parent : Authority Key) (now later : ℕ) (uri : Bytes) (c : Certificate)
      → IsFaithful tools
      → IsOnCurve tools
      → tools.parse_url uri ≡ ok uri
      → IssuedLeaf tools parent (new_leaf_options now later (uri ∷ [])) c
      → IsDefaultLeaf now later uri c
  unfolding new_leaf_options leaf_template ecdsa_private_key
  issued-IsDefaultLeaf parent now later uri c faithful curved kept issued =
      let (t, uris, key, u, v, parsed, generated, (s, s', der, created, read)) = issued in
      let opts = new_leaf_options now later (uri ∷ []) in
      let ((_, ca, usage, ext, carried, before, after), public) =
        faithful (leaf_template t opts uris) (issued_by parent.certificate) key parent.key s s' der
          c created read in
      (
        ca,
        usage,
        ext,
        carried ∙ one_uri uri uris kept parsed,
        public ∙ curved p256 u v key generated,
        before,
        after,
      )

  pub default_leaf-authenticate :
      (a : Authenticator) (now later : ℕ) (agent : Bytes) (c : Certificate)
      (roots : List Certificate)
      → IsDefaultLeaf now later (client_uri agent) c
      → IsAgentId agent
      → a.verifier.bundle ≡ some roots
      → a.chain_error roots c [] (clamp_to_validity a.now c.not_before c.not_after a.verifier.skew)
        ≡ none
      → authenticate a (some c ∷ []) ≡ ok agent
  unfolding new_leaf_options
  default_leaf-authenticate a now later agent c roots (ca, usage, ext, carried, key, _, _) valid
        bundle anchors =
      let (i, parsed, named) = (client_uri_iff (client_uri agent) agent).1 (refl, valid) in
      (authenticate_iff a (some c ∷ []) agent).1 (
        record { spiffe_id = i; certificate = c },
        (
          (
            [],
            roots,
            refl,
            bundle,
            anchors,
            (ca, rw usage refl, rw usage refl, rw usage refl),
            (client_uri agent, carried, parsed),
            named_path i agent named,
            tt,
          ),
          (rw ext refl, rw ext refl, key),
        ),
        carried,
        valid,
      )

  pub default_leaf-Within :
      (c : Certificate) (uri : Bytes) (first second now : ℕ)
      → IsDefaultLeaf first second uri c
      → first ≤ now
      → now + 1_000_000_000 ≤ second + leaf_validity
      → Within now c
  default_leaf-Within c uri first second now (_, _, _, _, _, before, after) h k =
      (omega (arith, before), omega (arith, after))
