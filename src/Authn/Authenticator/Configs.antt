-- ===== src/Authn/Authenticator/Configs.antt =====
-- Which connections the configurations of internal/authn make possible.
use fizzled_go.Prelude.{
  ◌≡◌, ◌↔◌, refl, sym, ap, ◌∙◌, subst, ℕ, Bytes, List, [], ◌∷◌, Option, true, false,
}
use fizzled_go.Errors.{Result, ok, ◌>>=◌, bind_iff, bind-eq-ok, eq_of_ok_eq}
use fizzled_go.Authn.Certificate.{Certificate}
use fizzled_go.Authn.Loader.{KeyPair, Loader}
use fizzled_go.Authn.TlsConfig.{
  TlsConfig, new_client_tls_config, new_server_tls_config, base_tls_config, renegotiate_never,
  require_any_client_cert, version_tls12, version_tls13, ecdsa_suites,
}
use fizzled_go.Authn.Authenticator.{
  Authenticator, client_svid, server_svid, verify_client_peer, verify_server_peer, authenticate,
}
use fizzled_go.Authn.Identity.Uris.{server_uri}
use fizzled_go.Authn.X509svid.{Leaf}
use fizzled_go.Authn.Authenticator.Peers.{IsPeer, server_svid_iff, server_of_uri}
use fizzled_go.Authn.Authenticator.Setup.{
  at_instant, load_identity, client_config, server_config, pointers, server_peer_callback,
  client_peer_callback, parse_chain,
}

-- A key pair is loaded from the paths, with the chain that its encodings parse to.
abbrev pub Loads : Loader → Bytes → Bytes → KeyPair → List Certificate → Type 0
Loads l cert key identity chain = load_identity l cert key ≡ ok (identity, chain)

-- A configuration is built of a key pair whose chain passes this side's check.
module _ {A : Type 0} (l : Loader) (cert key : Bytes) where
  checked_iff :
      (check : List Certificate → Result A) (build : KeyPair → TlsConfig) (c : TlsConfig)
      → ((load_identity l cert key >>= λ (identity, chain).
            check chain >>= λ found. ok (build identity))
          ≡ ok c)
        ↔ ((identity : KeyPair) × (chain : List Certificate) × Loads l cert key identity chain
            × ((check chain >>= λ found. ok (tt {0})) ≡ ok tt)
            × (c ≡ build identity))
  checked_iff check build c =
      let outer =
        bind_iff (load_identity l cert key)
          (λ (identity, chain). check chain >>= λ found. ok (build identity)) c in
      let inner = λ (identity : KeyPair) (chain : List Certificate).
        bind_iff (check chain) (λ found. ok (build identity)) c in
      let passed = λ (chain : List Certificate). bind_iff (check chain) (λ found. ok (tt {0})) tt in
      (
        λ h.
            let ((identity, chain), p, q) = outer.0 h in
            let (found, r, e) = (inner identity chain).0 q in
            (identity, chain, p, (passed chain).1 (found, r, refl), sym (eq_of_ok_eq e)),
        λ (identity, chain, p, q, e).
            let (found, r, _) = (passed chain).0 q in
            outer.1 ((identity, chain), p, (inner identity chain).1 (found, r, ap ok (sym e))),
      )

abbrev pub IsClientConfig : Loader → Authenticator → Bytes → Bytes → TlsConfig → Type 0
IsClientConfig l a cert key c =
    (identity : KeyPair) × (chain : List Certificate) × Loads l cert key identity chain
    × (verify_client_peer a (pointers chain) ≡ ok tt)
    × (c ≡ new_client_tls_config identity (server_peer_callback a))

abbrev pub IsServerConfig : Loader → Authenticator → Bytes → Bytes → TlsConfig → Type 0
IsServerConfig l a cert key s =
    (identity : KeyPair) × (chain : List Certificate) × Loads l cert key identity chain
    × (verify_server_peer a (pointers chain) ≡ ok tt)
    × (s ≡ new_server_tls_config identity (client_peer_callback a))

module _ (l : Loader) (a : Authenticator) (cert key : Bytes) where
  client_config_iff :
      (c : TlsConfig) → (client_config l a cert key ≡ ok c) ↔ IsClientConfig l a cert key c
  unfolding client_config verify_client_peer
  client_config_iff c =
      checked_iff l cert key (λ chain. client_svid a (pointers chain))
        (λ identity. new_client_tls_config identity (server_peer_callback a)) c

  server_config_iff :
      (s : TlsConfig) → (server_config l a cert key ≡ ok s) ↔ IsServerConfig l a cert key s
  unfolding server_config verify_server_peer
  server_config_iff s =
      checked_iff l cert key (λ chain. server_svid a (pointers chain))
        (λ identity. new_server_tls_config identity (client_peer_callback a)) s

-- The chain that the key pair of a configuration parses to.
abbrev pub Presents : Loader → TlsConfig → List Certificate → Type 0
Presents l c chain =
    (identity : KeyPair) × (c.certificates ≡ identity ∷ [])
    × (parse_chain l identity.der ≡ ok chain)

load_identity-parsed :
    (l : Loader) (cert key : Bytes) {identity : KeyPair} {chain : List Certificate}
    → Loads l cert key identity chain
    → parse_chain l identity.der ≡ ok chain
unfolding load_identity
load_identity-parsed l cert key h =
    let (pair, _, q) =
      bind-eq-ok (l.load_key_pair cert key)
        (λ pair. parse_chain l pair.der >>= λ chain. ok (pair, chain)) h in
    let (chain, r, e) = bind-eq-ok (parse_chain l pair.der) (λ chain. ok (pair, chain)) q in
    let same = eq_of_ok_eq e in
    ap (λ z. parse_chain l z.0.der) (sym same) ∙ r ∙ ap (λ z. ok z.1) same

-- When one authenticator builds the configuration of a client and that of a server, each side
-- presents a chain that the other side's callback accepts at the instant of that authenticator.
pub configs_meet :
    (l : Loader) (a : Authenticator) (cert key server_cert server_key : Bytes) {c s : TlsConfig}
    → client_config l a cert key ≡ ok c
    → server_config l a server_cert server_key ≡ ok s
    → ((chain : List Certificate) × Presents l c chain
        × (s.verify_connection a.now (pointers chain) ≡ ok tt))
      × ((chain : List Certificate) × Presents l s chain
          × (c.verify_connection a.now (pointers chain) ≡ ok tt))
unfolding new_client_tls_config new_server_tls_config base_tls_config
configs_meet l a cert key server_cert server_key {c} {s} h k =
    let (identity, chain, loads, accepted, e) = (client_config_iff l a cert key c).0 h in
    let (identity', chain', loads', accepted', e') =
      (server_config_iff l a server_cert server_key s).0 k in
    (
      (
        chain,
        (identity, ap (λ z. z.certificates) e, load_identity-parsed l cert key loads),
        ap (λ z. z.verify_connection a.now (pointers chain)) e' ∙ accepted,
      ),
      (
        chain',
        (
          identity',
          ap (λ z. z.certificates) e',
          load_identity-parsed l server_cert server_key loads',
        ),
        ap (λ z. z.verify_connection a.now (pointers chain')) e ∙ accepted',
      ),
    )

-- The transport policy of both sides: TLS 1.2 or 1.3 with the two suites, and no renegotiation.
abbrev pub KeepsTransport : TlsConfig → Type 0
KeepsTransport c =
    (c.min_version ≡ version_tls12)
    × (c.max_version ≡ version_tls13)
    × (c.cipher_suites ≡ ecdsa_suites)
    × (c.renegotiation ≡ renegotiate_never)

-- A client configuration, once built, keeps the transport policy, and accepts at an instant exactly
-- the chains of a peer, a standard SVID that keeps the issuance policy, whose one URI is the
-- server's.
pub client_config_verifies :
    (l : Loader) (a : Authenticator) (cert key : Bytes) {c : TlsConfig} (t : ℕ)
    (chain : List (Option Certificate))
    → client_config l a cert key ≡ ok c
    → KeepsTransport c
      × ((c.verify_connection t chain ≡ ok tt) ↔ (
          (leaf : Leaf) × IsPeer (at_instant a t) chain leaf
          × (leaf.certificate.uris ≡ server_uri ∷ [])))
unfolding new_client_tls_config base_tls_config verify_server_peer
client_config_verifies l a cert key {c} t chain h =
    let (identity, _, _, _, e) = (client_config_iff l a cert key c).0 h in
    let now = at_instant a t in
    let found = bind_iff (server_svid now chain) (λ leaf. ok (tt {0})) tt in
    subst
      (λ c.
        KeepsTransport c
        × ((c.verify_connection t chain ≡ ok tt)
            ↔ ((leaf : Leaf) × IsPeer now chain leaf × (leaf.certificate.uris ≡ server_uri ∷ []))))
      (sym e)
      (
        (refl, refl, refl, refl),
        (
          λ k.
              let (leaf, p, _) = found.0 k in
              let (peer, named) = (server_svid_iff now chain leaf).0 p in
              (leaf, peer, (server_of_uri leaf.certificate leaf.spiffe_id peer.0.6).0 named),
          λ (leaf, peer, uri).
              let named = (server_of_uri leaf.certificate leaf.spiffe_id peer.0.6).1 uri in
              found.1 (leaf, (server_svid_iff now chain leaf).1 (peer, named), refl),
        ),
      )

-- A server configuration, once built, keeps the transport policy, does not skip verification,
-- requires a certificate of every client, issues no session tickets, and accepts at an instant
-- exactly the chains that identify an agent at that instant.
pub server_config_verifies :
    (l : Loader) (a : Authenticator) (cert key : Bytes) {s : TlsConfig} (t : ℕ)
    (chain : List (Option Certificate))
    → server_config l a cert key ≡ ok s
    → KeepsTransport s
      × (s.insecure_skip_verify ≡ false)
      × (s.client_auth ≡ require_any_client_cert)
      × (s.session_tickets_disabled ≡ true)
      × ((s.verify_connection t chain ≡ ok tt)
          ↔ ((agent : Bytes) × (authenticate (at_instant a t) chain ≡ ok agent)))
unfolding new_server_tls_config base_tls_config verify_client_peer authenticate
server_config_verifies l a cert key {s} t chain h =
    let (identity, _, _, _, e) = (server_config_iff l a cert key s).0 h in
    let now = at_instant a t in
    let found = bind_iff (client_svid now chain) (λ p. ok (tt {0})) tt in
    let named = bind_iff (client_svid now chain) (λ p. ok p.1) in
    subst
      (λ s.
        KeepsTransport s
        × (s.insecure_skip_verify ≡ false)
        × (s.client_auth ≡ require_any_client_cert)
        × (s.session_tickets_disabled ≡ true)
        × ((s.verify_connection t chain ≡ ok tt)
            ↔ ((agent : Bytes) × (authenticate now chain ≡ ok agent))))
      (sym e)
      (
        (refl, refl, refl, refl),
        refl,
        refl,
        refl,
        (
          λ k. let (p, r, _) = found.0 k in (p.1, (named p.1).1 (p, r, refl)),
          λ (agent, k). let (p, r, _) = (named agent).0 k in found.1 (p, r, refl),
        ),
      )
