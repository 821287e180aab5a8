-- ===== src/Server/Lifecycle/Standing.antt =====
-- What holds of a server that `New` of internal/server/server.go built.
use fizzled_go.Prelude.{
  ◌≡◌, ◌≢◌, ◌↔◌, sym, ap, ◌∙◌, subst, ℕ, Bytes, Option, some, List, [], All, text_eq, text_eq_iff,
  arith,
}
use fizzled_go.Prelude.Int.{ℤ, pos, ◌<ℤ◌}
use fizzled_go.Errors.{Result, ok, ◌>>=◌, bind-eq-ok, eq_of_ok_eq, ok_of_refused}
use fizzled_go.Authn.Certificate.{Certificate}
use fizzled_go.Authn.X509svid.{ChainCheck}
use fizzled_go.Authn.Loader.{Loader}
use fizzled_go.Authn.TlsConfig.{TlsConfig}
use fizzled_go.Authn.Authenticator.{Authenticator, authenticate}
use fizzled_go.Authn.Authenticator.Audit.{AuditLine}
use fizzled_go.Authn.Authenticator.Setup.{new_authenticator, server_config, at_instant}
use fizzled_go.Authn.Authenticator.Anchored.{new_authenticator-Anchors}
use fizzled_go.Authn.Authenticator.Configs.{server_config_verifies}
use fizzled_go.Authn.TrustBundle.Blocks.{IsAnchor}
use fizzled_go.Authz.{Authorizer, Decoder, load}
use fizzled_go.Registry
use fizzled_go.Server.Lifecycle.{
  Config, Server, server_of, new_transport, new_server, grace_or_default,
}

grace_Positive : (grace : ℤ) → pos 0 <ℤ grace_or_default grace
grace_Positive grace = ground arith

module _ {Raw : Type 0} (l : Loader) (chain_error : ChainCheck) (now : ℕ) (decoder : Decoder Raw)
    (listen : Bytes → Result Bytes) where
  -- What `New` read and opened on the way to the server.
  pub record IsBuilt (config : Config) (s : Server) : Type 0 where
    pub authenticator : Authenticator
    pub line : AuditLine
    pub tls_config : TlsConfig
    pub authorizer : Authorizer
    pub named : config.address ≢ []
    pub anchored : new_authenticator l chain_error now config.ca_path ≡ ok (authenticator, line)
    pub presents : server_config l authenticator config.cert_path config.key_path ≡ ok tls_config
    pub loaded : load decoder config.roles_path ≡ ok authorizer
    pub bound : listen config.address ≡ ok s.listener
    pub grpc : s.grpc ≡ new_transport tls_config authenticator authorizer
    pub fresh : s.service ≡ Registry.new
    pub grace : s.shutdown_grace ≡ grace_or_default config.shutdown_grace

  new_server-IsBuilt :
      (config : Config) {s : Server}
      → new_server l chain_error now decoder listen config ≡ ok s
      → IsBuilt config s
  unfolding new_server
  new_server-IsBuilt config {s} h =
      let (named, h) = ok_of_refused (text_eq config.address []) _ h in
      let ((a, line), p, h) =
        bind-eq-ok (new_authenticator l chain_error now config.ca_path)
          (λ (a, line). server_config l a config.cert_path config.key_path >>= λ tls.
            load decoder config.roles_path >>= λ roles.
            listen config.address >>= λ listener. ok (server_of config a tls roles listener))
          h in
      let (tls, q, h) =
        bind-eq-ok (server_config l a config.cert_path config.key_path)
          (λ tls. load decoder config.roles_path >>= λ roles.
            listen config.address >>= λ listener. ok (server_of config a tls roles listener))
          h in
      let (roles, r, h) =
        bind-eq-ok (load decoder config.roles_path)
          (λ roles.
            listen config.address >>= λ listener. ok (server_of config a tls roles listener))
          h in
      let (listener, u, h) =
        bind-eq-ok (listen config.address) (λ listener. ok (server_of config a tls roles listener))
          h in
      let same = eq_of_ok_eq h in
      record {
        authenticator = a;
        line = line;
        tls_config = tls;
        authorizer = roles;
        named = λ e. ground (arith, text_eq_iff config.address []);
        anchored = p;
        presents = q;
        loaded = r;
        bound = u ∙ ap (λ z. ok z.listener) same;
        grpc = ap (λ z. z.grpc) (sym same);
        fresh = ap (λ z. z.service) (sym same);
        grace = ap (λ z. z.shutdown_grace) (sym same);
      }

-- A server is built only from an address that is not empty and a roles file that loads, of which it
-- has the authorizer; its grace is positive; the authenticator of its interceptor verifies against
-- roots, at least one, that are signing certificates for the program's trust domain; and its
-- handshake accepts a chain at an instant exactly when that authenticator, at that instant,
-- identifies an agent by it.
pub new_server_guards :
    {Raw : Type 0} (l : Loader) (chain_error : ChainCheck) (now : ℕ) (decoder : Decoder Raw)
    (listen : Bytes → Result Bytes) (config : Config) {s : Server} (t : ℕ)
    (chain : List (Option Certificate))
    → new_server l chain_error now decoder listen config ≡ ok s
    → (config.address ≢ [])
      × (load decoder config.roles_path ≡ ok s.grpc.interceptor.authorizer)
      × (pos 0 <ℤ s.shutdown_grace)
      × ((roots : List Certificate) × (s.grpc.interceptor.authenticator.verifier.bundle
            ≡ some roots)
          × (roots ≢ [])
          × All IsAnchor roots)
      × ((s.grpc.tls_config.verify_connection t chain ≡ ok tt) ↔ (
          (agent : Bytes) × (authenticate (at_instant s.grpc.interceptor.authenticator t) chain
            ≡ ok agent)))
unfolding new_transport
new_server_guards l chain_error now decoder listen config {s} t chain h =
    let b = new_server-IsBuilt l chain_error now decoder listen config h in
    let (loaded, _, bundle, _, _, _, some_root, _, anchors) =
      new_authenticator-Anchors l chain_error now config.ca_path b.anchored in
    let (_, _, _, _, verifies) =
      server_config_verifies l b.authenticator config.cert_path config.key_path t chain
        b.presents in
    let same : b.authenticator ≡ s.grpc.interceptor.authenticator =
      ap (λ g. g.interceptor.authenticator) (sym b.grpc) in
    let tls : b.tls_config ≡ s.grpc.tls_config = ap (λ g. g.tls_config) (sym b.grpc) in
    (
      b.named,
      b.loaded ∙ ap (λ g. ok g.interceptor.authorizer) (sym b.grpc),
      subst (λ g. pos 0 <ℤ g) (sym b.grace) (grace_Positive config.shutdown_grace),
      (loaded.roots, ap (λ a. a.verifier.bundle) (sym same) ∙ bundle, some_root, anchors),
      subst
          (λ a.
            (s.grpc.tls_config.verify_connection t chain ≡ ok tt)
            ↔ ((agent : Bytes) × (authenticate (at_instant a t) chain ≡ ok agent)))
          same
          (subst
            (λ c.
              (c.verify_connection t chain ≡ ok tt)
              ↔ ((agent : Bytes) × (authenticate (at_instant b.authenticator t) chain ≡ ok agent)))
            tls verifies),
    )
