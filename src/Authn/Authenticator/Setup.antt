-- ===== src/Authn/Authenticator/Setup.antt =====
-- internal/authn/authenticator.go: building an authenticator and the configurations of a
-- connection, with `loadIdentity` of identity.go.
use fizzled_go.Prelude.{ℕ, Bytes, Option, some, List, [], ◌∷◌, length}
use fizzled_go.Prelude.Int.{pos}
use fizzled_go.Errors.{Result, ok, ◌>>=◌}
use fizzled_go.Authn.Certificate.{Certificate}
use fizzled_go.Authn.Loader.{KeyPair, Loader}
use fizzled_go.Authn.X509svid.{ChainCheck, Verifier, new_verifier}
use fizzled_go.Authn.TrustBundle.{LoadedBundle, load_trust_bundle}
use fizzled_go.Authn.TlsConfig.{
  TlsConfig, Verification, new_client_tls_config, new_server_tls_config,
}
use fizzled_go.Authn.Authenticator.{
  Authenticator, client_svid, server_svid, verify_client_peer, verify_server_peer,
}
use fizzled_go.Authn.Authenticator.Audit.{AuditLine, bundle_loaded}

-- The pointers to certificates, none of which is nil.
abbrev pub pointers : List Certificate → List (Option Certificate)
pointers [] = []
pointers (c ∷ cs) = some c ∷ pointers cs

-- `skew`, two minutes in nanoseconds.
abbrev pub skew : ℕ
skew = 120_000_000_000

-- The new authenticator, and the line that it logs.
abbrev pub anchored : ChainCheck → ℕ → Bytes → LoadedBundle → Verifier → Authenticator × AuditLine
anchored chain_error now ca_path bundle verifier = (
  record { verifier = verifier; chain_error = chain_error; now = now },
  bundle_loaded ca_path (length bundle.roots) bundle.earliest_expiry,
)

-- `NewAuthenticator`, at the instant `now`.
unfoldable pub new_authenticator :
    Loader → ChainCheck → ℕ → Bytes → Result (Authenticator × AuditLine)
new_authenticator l chain_error now ca_path = do
  bundle ← load_trust_bundle l ca_path
  verifier ← new_verifier (pointers bundle.roots) (pos skew)
  ok (anchored chain_error now ca_path bundle verifier)

-- The loop of `loadIdentity`.
unfoldable pub parse_chain : Loader → List Bytes → Result (List Certificate)
parse_chain l [] = ok []
parse_chain l (der ∷ ders) = do
  certificate ← l.parse_certificate der
  rest ← parse_chain l ders
  ok (certificate ∷ rest)

-- `loadIdentity`
unfoldable pub load_identity : Loader → Bytes → Bytes → Result (KeyPair × List Certificate)
load_identity l cert_path key_path = do
  identity ← l.load_key_pair cert_path key_path
  chain ← parse_chain l identity.der
  ok (identity, chain)

-- The authenticator at another instant.
abbrev pub at_instant : Authenticator → ℕ → Authenticator
at_instant a now = record a { now = now }

abbrev pub server_peer_callback : Authenticator → Verification
server_peer_callback a now chain = verify_server_peer (at_instant a now) chain

abbrev pub client_peer_callback : Authenticator → Verification
client_peer_callback a now chain = verify_client_peer (at_instant a now) chain

-- `ClientConfig`
unfoldable pub client_config : Loader → Authenticator → Bytes → Bytes → Result TlsConfig
client_config l a cert_path key_path = do
  (identity, chain) ← load_identity l cert_path key_path
  (leaf, agent) ← client_svid a (pointers chain)
  ok (new_client_tls_config identity (server_peer_callback a))

-- `ServerConfig`
unfoldable pub server_config : Loader → Authenticator → Bytes → Bytes → Result TlsConfig
server_config l a cert_path key_path = do
  (identity, chain) ← load_identity l cert_path key_path
  leaf ← server_svid a (pointers chain)
  ok (new_server_tls_config identity (client_peer_callback a))
