-- ===== src/Server/Lifecycle/Building.antt =====
-- From which files and settings `New` of internal/server/server.go builds a server, and which.
use fizzled_go.Prelude.{
  ◌≡◌, ◌≢◌, ◌↔◌, refl, sym, ap, ◌∙◌, ℕ, Bytes, some, List, [], ◌∷◌, length, text_eq, text_eq_iff,
  arith, false, subst,
}
use fizzled_go.Prelude.Int.{pos}
use fizzled_go.Errors.{Result, ok, ◌>>=◌, bind_iff, eq_of_ok_eq, ok_of_refused}
use fizzled_go.Authn.Certificate.{Certificate}
use fizzled_go.Authn.X509svid.{ChainCheck, Leaf, new_verifier}
use fizzled_go.Authn.Loader.{KeyPair, Loader}
use fizzled_go.Authn.TlsConfig.{TlsConfig, new_server_tls_config}
use fizzled_go.Authn.TrustBundle.{
  LoadedBundle, begin_markers, load_trust_bundle, parse_trust_bundle,
}
use fizzled_go.Authn.TrustBundle.Space.{trim_space}
use fizzled_go.Authn.TrustBundle.Rounds.{Shrinks}
use fizzled_go.Authn.TrustBundle.Anchors.{Distinct}
use fizzled_go.Authn.TrustBundle.Expiry.{expiry_from}
use fizzled_go.Authn.TrustBundle.Reads.{Reads, parse_trust_bundle_iff}
use fizzled_go.Authn.Identity.Uris.{server_uri}
use fizzled_go.Authn.Authenticator.{Authenticator, server_svid}
use fizzled_go.Authn.Authenticator.Audit.{AuditLine}
use fizzled_go.Authn.Authenticator.Anchored.{new_verifier-pointers}
use fizzled_go.Authn.Authenticator.Peers.{IsPeer, server_svid_iff, server_of_uri}
use fizzled_go.Authn.Authenticator.Configs.{Loads}
use fizzled_go.Authn.Authenticator.Setup.{
  anchored, client_peer_callback, load_identity, new_authenticator, pointers, server_config, skew,
}
use fizzled_go.Authz.{Authorizer, Decoder, load}
use fizzled_go.Server.Lifecycle.{Config, Server, server_of, new_server}

-- The file at the path is a trust bundle of these roots.
abbrev pub Bundles : Loader → Bytes → List Certificate → Type 0
Bundles l path roots =
    (raw : Bytes) × (l.read_file path ≡ ok raw)
    × Reads l (trim_space raw) roots
    × Distinct roots
    × (roots ≢ [])
    × (length roots ≡ begin_markers (trim_space raw))

abbrev bundle_from : List Certificate → LoadedBundle
bundle_from roots = record { roots = roots; earliest_expiry = expiry_from 0 roots }

-- The authenticator that verifies against these roots.
abbrev pub anchored_to : ChainCheck → ℕ → List Certificate → Authenticator
anchored_to chain_error now roots = record {
  verifier = record { bundle = some roots; skew = skew };
  chain_error = chain_error;
  now = now;
}

-- The key pair of the paths, with a chain that the authenticator takes for the server's.
abbrev pub Identifies : Loader → Authenticator → Bytes → Bytes → KeyPair → Type 0
Identifies l a cert key identity =
    (chain : List Certificate) × Loads l cert key identity chain
    × ((leaf : Leaf) × IsPeer a (pointers chain) leaf × (leaf.certificate.uris ≡ server_uri ∷ []))

load_trust_bundle_iff :
    (l : Loader) (path : Bytes) (loaded : LoadedBundle)
    → Shrinks l
    → (load_trust_bundle l path ≡ ok loaded)
      ↔ (Bundles l path loaded.roots × (loaded.earliest_expiry ≡ expiry_from 0 loaded.roots))
unfolding load_trust_bundle
load_trust_bundle_iff l path loaded shrinks =
    let read = bind_iff (l.read_file path) (parse_trust_bundle l) loaded in
    (
      λ h.
          let (raw, p, q) = read.0 h in
          let (blocks, distinct, filled, counted, soonest) =
            (parse_trust_bundle_iff l raw loaded shrinks).0 q in
          ((raw, p, blocks, distinct, filled, counted), soonest),
      λ ((raw, p, blocks, distinct, filled, counted), soonest). read.1 (
        raw,
        p,
        (parse_trust_bundle_iff l raw loaded shrinks).1
            (blocks, distinct, filled, counted, soonest),
      ),
    )

new_authenticator_iff :
    (l : Loader) (chain_error : ChainCheck) (now : ℕ) (path : Bytes) (p : Authenticator × AuditLine)
    → (new_authenticator l chain_error now path ≡ ok p) ↔ (
        (loaded : LoadedBundle) × (load_trust_bundle l path ≡ ok loaded)
        × (anchored chain_error now path loaded (record { bundle = some loaded.roots; skew = skew })
            ≡ p))
unfolding new_authenticator
new_authenticator_iff l chain_error now path p =
    let built = anchored chain_error now path in
    let read =
      bind_iff (load_trust_bundle l path)
        (λ bundle. new_verifier (pointers bundle.roots) (pos skew) >>= λ v. ok (built bundle v))
        p in
    (
      λ h.
          let (loaded, q, h) = read.0 h in
          (loaded, q, eq_of_ok_eq (rw (new_verifier-pointers loaded.roots) at h)),
      λ (loaded, q, e). read.1 (loaded, q, rw (new_verifier-pointers loaded.roots) (ap ok e)),
    )

server_config-Identifies :
    (l : Loader) (a : Authenticator) (cert key : Bytes) (c : TlsConfig)
    → (server_config l a cert key ≡ ok c) ↔ (
        (identity : KeyPair) × Identifies l a cert key identity
        × (new_server_tls_config identity (client_peer_callback a) ≡ c))
unfolding server_config
server_config-Identifies l a cert key c =
    let outer =
      bind_iff (load_identity l cert key)
        (λ (identity, chain). server_svid a (pointers chain) >>= λ leaf.
          ok (new_server_tls_config identity (client_peer_callback a)))
        c in
    let inner = λ (identity : KeyPair) (chain : List Certificate).
      bind_iff (server_svid a (pointers chain))
        (λ leaf. ok (new_server_tls_config identity (client_peer_callback a))) c in
    (
      λ h.
          let ((identity, chain), p, h) = outer.0 h in
          let (leaf, q, e) = (inner identity chain).0 h in
          let (peer, named) = (server_svid_iff a (pointers chain) leaf).0 q in
          let uri = (server_of_uri leaf.certificate leaf.spiffe_id peer.0.6).0 named in
          (identity, (chain, p, (leaf, peer, uri)), eq_of_ok_eq e),
      λ (identity, (chain, p, (leaf, peer, uri)), e).
          let named = (server_of_uri leaf.certificate leaf.spiffe_id peer.0.6).1 uri in
          let q = (server_svid_iff a (pointers chain) leaf).1 (peer, named) in
          outer.1 ((identity, chain), p, (inner identity chain).1 (leaf, q, ap ok e)),
    )

text_eq-refused : (s : Bytes) → s ≢ [] → text_eq s [] ≡ false
text_eq-refused s h = ground (arith, text_eq_iff s [])

module _ {Raw : Type 0} (l : Loader) (chain_error : ChainCheck) (now : ℕ) (decoder : Decoder Raw)
    (listen : Bytes → Result Bytes) (config : Config) where
  -- The settings and the files that make this server.
  abbrev pub Makes : Server → Type 0
  Makes s =
      (config.address ≢ [])
      × ((roots : List Certificate) × (identity : KeyPair) × (authorizer : Authorizer)
          × (listener : Bytes) × Bundles l config.ca_path roots
          × Identifies l (anchored_to chain_error now roots) config.cert_path config.key_path
              identity
          × (load decoder config.roles_path ≡ ok authorizer)
          × (listen config.address ≡ ok listener)
          × (server_of config (anchored_to chain_error now roots)
                (new_server_tls_config identity
                  (client_peer_callback (anchored_to chain_error now roots)))
                authorizer listener
              ≡ s))

  module _ (a : Authenticator) (s : Server) where
    abbrev Opens : Type 0
    Opens =
        (identity : KeyPair) × (authorizer : Authorizer) × (listener : Bytes) × Identifies l a
          config.cert_path config.key_path identity
        × (load decoder config.roles_path ≡ ok authorizer)
        × (listen config.address ≡ ok listener)
        × (server_of config a (new_server_tls_config identity (client_peer_callback a)) authorizer
              listener
            ≡ s)

    -- What `New` does with the authenticator.
    opened_iff :
        ((server_config l a config.cert_path config.key_path >>= λ tls.
        load decoder config.roles_path >>= λ roles.
        listen config.address >>= λ listener. ok (server_of config a tls roles listener))
          ≡ ok s)
        ↔ Opens
    opened_iff =
        let first =
          bind_iff (server_config l a config.cert_path config.key_path)
            (λ tls. load decoder config.roles_path >>= λ roles.
              listen config.address >>= λ listener. ok (server_of config a tls roles listener))
            s in
        let second = λ (tls : TlsConfig).
          bind_iff (load decoder config.roles_path)
            (λ roles.
              listen config.address >>= λ listener. ok (server_of config a tls roles listener))
            s in
        let third = λ (tls : TlsConfig) (roles : Authorizer).
          bind_iff (listen config.address) (λ listener. ok (server_of config a tls roles listener))
            s in
        let config_iff = server_config-Identifies l a config.cert_path config.key_path in
        (
          λ h.
              let (tls, p, h) = first.0 h in
              let (roles, q, h) = (second tls).0 h in
              let (listener, r, e) = (third tls roles).0 h in
              let (identity, found, same) = (config_iff tls).0 p in
              (
                identity,
                roles,
                listener,
                found,
                q,
                r,
                ap (λ tls. server_of config a tls roles listener) same ∙ eq_of_ok_eq e,
              ),
          λ (identity, roles, listener, found, q, r, e).
              let tls = new_server_tls_config identity (client_peer_callback a) in
              first.1 (
                tls,
                (config_iff tls).1 (identity, found, refl),
                (second tls).1 (roles, q, (third tls roles).1 (listener, r, ap ok e)),
              ),
        )

-- With a decoder that uses some of a text up, `New` gives a server exactly when the address is not
-- empty, the bundle file is the blocks of different anchors, as many as its begin markers and at
-- least one, the key pair loads with a chain that is a peer against these anchors with the server's
-- URI, the roles file loads, and the address can be listened on; the server is then the one with
-- that authenticator, key pair, authorizer and listener, whose registry is new.
pub new_server_iff :
    {Raw : Type 0} (l : Loader) (chain_error : ChainCheck) (now : ℕ) (decoder : Decoder Raw)
    (listen : Bytes → Result Bytes) (config : Config) (s : Server)
    → Shrinks l
    → (new_server l chain_error now decoder listen config ≡ ok s)
      ↔ Makes l chain_error now decoder listen config s
unfolding new_server
new_server_iff l chain_error now decoder listen config s shrinks =
    let authenticate =
      bind_iff (new_authenticator l chain_error now config.ca_path)
        (λ (a, line). server_config l a config.cert_path config.key_path >>= λ tls.
          load decoder config.roles_path >>= λ roles.
          listen config.address >>= λ listener. ok (server_of config a tls roles listener))
        s in
    let opened = λ (a : Authenticator). opened_iff l chain_error now decoder listen config a s in
    (
      λ h.
          let (named, h) = ok_of_refused (text_eq config.address []) _ h in
          let ((a, line), p, h) = authenticate.0 h in
          let (loaded, read, same) =
            (new_authenticator_iff l chain_error now config.ca_path (a, line)).0 p in
          let (bundles, _) = (load_trust_bundle_iff l config.ca_path loaded shrinks).0 read in
          let is : a ≡ anchored_to chain_error now loaded.roots = ap (λ z. z.0) (sym same) in
          let (identity, authorizer, listener, found, q, r, e) =
            subst (λ a. Opens l chain_error now decoder listen config a s) is ((opened a).0 h) in
          (
            λ e. ground (arith, text_eq_iff config.address []),
            (loaded.roots, identity, authorizer, listener, bundles, found, q, r, e),
          ),
      λ (named, (roots, identity, authorizer, listener, bundles, found, q, r, e)).
          let a = anchored_to chain_error now roots in
          let loaded = bundle_from roots in
          let read = (load_trust_bundle_iff l config.ca_path loaded shrinks).1 (bundles, refl) in
          let pair = anchored chain_error now config.ca_path loaded a.verifier in
          let p =
            (new_authenticator_iff l chain_error now config.ca_path pair).1 (loaded, read, refl) in
          rw (text_eq-refused config.address named) (
            authenticate.1
              (pair, p, (opened a).1 (identity, authorizer, listener, found, q, r, e))),
    )
