-- ===== src/Authn/Authenticator/Peers.antt =====
-- Which peers internal/authn/authenticator.go authenticates, and as whom.
use fizzled_go.Prelude.{
  ◌≡◌, ◌≢◌, ◌↔◌, inl, inr, refl, sym, ap, subst, ◌∙◌, Bytes, true, Option, List, [], ◌∷◌, arith,
  Bool-cases,
}
use fizzled_go.Errors.{ok, ◌>>=◌, ◌>>◌, bind_iff, eq_of_ok_eq}
use fizzled_go.Authn.Certificate.{
  Certificate, PublicKey, ecdsa, other_key, p256, other_curve, server_auth, client_auth,
}
use fizzled_go.Authn.SpiffeId.{SpiffeId}
use fizzled_go.Authn.AgentId.{IsAgentId}
use fizzled_go.Authn.X509svid.{Leaf, verify}
use fizzled_go.Authn.X509svid.Signers.{Carries}
use fizzled_go.Authn.X509svid.Standard.{IsSvid, verify_iff}
use fizzled_go.Authn.Identity.{
  contains_usage, key_policy, leaf_policy, client_agent_id, server_identity,
}
use fizzled_go.Authn.Identity.Uris.{
  client_uri, client_uri_iff, server_uri, server_uri_iff, client_not_server,
}
use fizzled_go.Authn.Authenticator.{
  Authenticator, verified_leaf, client_svid, server_svid, authenticate, verify_client_peer,
  verify_server_peer,
}

-- The issuance policy: both usages, and an ECDSA key on P-256.
abbrev pub KeepsPolicy : Certificate → Type 0
KeepsPolicy c =
    (contains_usage c.ext_key_usage server_auth ≡ true)
    × (contains_usage c.ext_key_usage client_auth ≡ true)
    × (c.public_key ≡ ecdsa p256)

key_policy_iff : (k : PublicKey) → (key_policy k ≡ ok tt) ↔ (k ≡ ecdsa p256)
key_policy_iff other_key = (λ h. cc, λ h. cc)
key_policy_iff (ecdsa p256) = (λ h. refl, λ h. refl)
key_policy_iff (ecdsa other_curve) = (λ h. cc, λ h. cc)

leaf_policy_iff : (c : Certificate) → (leaf_policy c ≡ ok tt) ↔ KeepsPolicy c
unfolding leaf_policy
leaf_policy_iff c = elim (Bool-cases (contains_usage c.ext_key_usage server_auth)) [
  | inr f ↦ (λ h. absurd (ground arith), λ (t, _, _). absurd (cc))
  | inl t ↦ elim (Bool-cases (contains_usage c.ext_key_usage client_auth)) [
    | inr f ↦ (λ h. absurd (ground arith), λ (_, u, _). absurd (cc))
    | inl u ↦
        let (to, from) = key_policy_iff c.public_key in
        rw (t, u) (λ h. (refl, refl, to h), λ (_, _, h). from h)
  ]
]

module _ (a : Authenticator) (chain : List (Option Certificate)) where
  -- A chain whose leaf is a standard SVID that keeps the policy.
  abbrev pub IsPeer : Leaf → Type 0
  IsPeer leaf = IsSvid a.chain_error a.now a.verifier chain leaf × KeepsPolicy leaf.certificate

  verified_leaf_iff : (leaf : Leaf) → (verified_leaf a chain ≡ ok leaf) ↔ IsPeer leaf
  unfolding verified_leaf
  verified_leaf_iff leaf =
      let found =
        bind_iff (verify a.chain_error a.now a.verifier chain)
          (λ l. leaf_policy l.certificate >> ok l) leaf in
      let standard = verify_iff a.chain_error a.now a.verifier chain in
      let policy = λ (l : Leaf). bind_iff (leaf_policy l.certificate) (λ _. ok l) leaf in
      (
        λ h.
            let (l, p, q) = found.0 h in
            let (u, r, e) = (policy l).0 q in
            let same : l ≡ leaf = eq_of_ok_eq e in
            subst IsPeer same ((standard l).0 p, (leaf_policy_iff l.certificate).0 r),
        λ (s, k). found.1 (
          leaf,
          (standard leaf).1 s,
          (policy leaf).1 (tt, (leaf_policy_iff leaf.certificate).1 k, refl),
        ),
      )

  client_svid_iff :
      (leaf : Leaf) (agent : Bytes)
      → (client_svid a chain ≡ ok (leaf, agent))
        ↔ (IsPeer leaf × (client_agent_id leaf.spiffe_id ≡ ok agent))
  unfolding client_svid
  client_svid_iff leaf agent =
      let found =
        bind_iff (verified_leaf a chain) (λ l. client_agent_id l.spiffe_id >>= λ b. ok (l, b))
          (leaf, agent) in
      let named =
        λ (l : Leaf). bind_iff (client_agent_id l.spiffe_id) (λ b. ok (l, b)) (leaf, agent) in
      (
        λ h.
            let (l, p, q) = found.0 h in
            let (b, r, e) = (named l).0 q in
            let same : l ≡ leaf = ap (λ z. z.0) (eq_of_ok_eq e) in
            let name : b ≡ agent = ap (λ z. z.1) (eq_of_ok_eq e) in
            (
              subst IsPeer same ((verified_leaf_iff l).0 p),
              ap (λ z. client_agent_id z.spiffe_id) (sym same) ∙ r ∙ ap ok name,
            ),
        λ (p, q). found.1 (leaf, (verified_leaf_iff leaf).1 p, (named leaf).1 (agent, q, refl)),
      )

  pub server_svid_iff :
      (leaf : Leaf)
      → (server_svid a chain ≡ ok leaf) ↔ (IsPeer leaf × (server_identity leaf.spiffe_id ≡ ok tt))
  unfolding server_svid
  server_svid_iff leaf =
      let found =
        bind_iff (verified_leaf a chain) (λ l. server_identity l.spiffe_id >> ok l) leaf in
      let named = λ (l : Leaf). bind_iff (server_identity l.spiffe_id) (λ _. ok l) leaf in
      (
        λ h.
            let (l, p, q) = found.0 h in
            let (u, r, e) = (named l).0 q in
            let same : l ≡ leaf = eq_of_ok_eq e in
            (
              subst IsPeer same ((verified_leaf_iff l).0 p),
              ap (λ z. server_identity z.spiffe_id) (sym same) ∙ r,
            ),
        λ (p, q). found.1 (leaf, (verified_leaf_iff leaf).1 p, (named leaf).1 (tt, q, refl)),
      )

client_of_uri :
    (c : Certificate) (i : SpiffeId) (agent : Bytes)
    → Carries c i
    → (client_agent_id i ≡ ok agent) ↔ ((c.uris ≡ client_uri agent ∷ []) × IsAgentId agent)
client_of_uri c i agent (uri, one, parsed) = (
  λ h.
      let (e, valid) = (client_uri_iff uri agent).0 (i, parsed, h) in
      (one ∙ ap (λ u. u ∷ []) e, valid),
  λ (k, valid).
      let e : uri ≡ client_uri agent = cc in
      let (j, other, named) = (client_uri_iff uri agent).1 (e, valid) in
      let same : i ≡ j = eq_of_ok_eq (sym parsed ∙ other) in ap client_agent_id same ∙ named,
)

pub server_of_uri :
    (c : Certificate) (i : SpiffeId)
    → Carries c i
    → (server_identity i ≡ ok tt) ↔ (c.uris ≡ server_uri ∷ [])
server_of_uri c i (uri, one, parsed) = (
  λ h. one ∙ ap (λ u. u ∷ []) ((server_uri_iff uri).0 (i, parsed, h)),
  λ k.
      let e : uri ≡ server_uri = cc in
      let (j, other, named) = (server_uri_iff uri).1 e in
      let same : i ≡ j = eq_of_ok_eq (sym parsed ∙ other) in ap server_identity same ∙ named,
)

-- A peer is authenticated as an agent exactly when its chain is one of a standard SVID that keeps
-- the policy, and whose one URI is the client URI of that agent, a valid agent id.
pub authenticate_iff :
    (a : Authenticator) (chain : List (Option Certificate)) (agent : Bytes)
    → (authenticate a chain ≡ ok agent) ↔ (
        (leaf : Leaf) × IsPeer a chain leaf
        × (leaf.certificate.uris ≡ client_uri agent ∷ [])
        × IsAgentId agent)
unfolding authenticate
authenticate_iff a chain agent =
    let found = bind_iff (client_svid a chain) (λ p. ok p.1) agent in
    (
      λ h.
          let ((leaf, b), p, e) = found.0 h in
          let name : b ≡ agent = eq_of_ok_eq e in
          let (peer, named) = (client_svid_iff a chain leaf b).0 p in
          let (uri, valid) =
            (client_of_uri leaf.certificate leaf.spiffe_id agent peer.0.6).0 (named ∙ ap ok name) in
          (leaf, peer, uri, valid),
      λ (leaf, peer, uri, valid).
          let named =
            (client_of_uri leaf.certificate leaf.spiffe_id agent peer.0.6).1 (uri, valid) in
          found.1 ((leaf, agent), (client_svid_iff a chain leaf agent).1 (peer, named), refl),
    )

-- A chain is never accepted both as a client's and as the server's.
pub roles_apart :
    (a : Authenticator) (chain : List (Option Certificate))
    → verify_client_peer a chain ≡ ok tt
    → verify_server_peer a chain ≢ ok tt
unfolding verify_client_peer verify_server_peer
roles_apart a chain h k =
    let ((leaf, agent), p, _) = (bind_iff (client_svid a chain) (λ _. ok tt) tt).0 h in
    let (other, q, _) = (bind_iff (server_svid a chain) (λ _. ok tt) tt).0 k in
    let (peer, named) = (client_svid_iff a chain leaf agent).0 p in
    let (peer', server) = (server_svid_iff a chain other).0 q in
    let same : leaf ≡ other =
      eq_of_ok_eq (
        sym ((verified_leaf_iff a chain leaf).1 peer)
        ∙ (verified_leaf_iff a chain other).1 peer') in
    client_not_server leaf.spiffe_id agent named
      (ap (λ l. server_identity l.spiffe_id) same ∙ server)
