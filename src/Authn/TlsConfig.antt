-- ===== src/Authn/TlsConfig.antt =====
-- internal/authn/tlsconfig.go. Of a tls.Config these are the fields that the code gives a value; all
-- others are nil or zero.
use fizzled_go.Prelude.{ℕ, Bool, true, false, Option, List, [], ◌∷◌}
use fizzled_go.Errors.{Result}
use fizzled_go.Authn.Certificate.{Certificate}
use fizzled_go.Authn.Loader.{KeyPair}

-- tls.ClientAuthType
pub data ClientAuth : Type 0 where
  no_client_cert request_client_cert require_any_client_cert : ClientAuth
  verify_client_cert_if_given require_and_verify_client_cert : ClientAuth

-- tls.RenegotiationSupport
pub data Renegotiation : Type 0 where
  renegotiate_never renegotiate_once_as_client renegotiate_freely_as_client : Renegotiation

-- The callback on a connection: the instant at which it runs, and the peer's certificates.
abbrev pub Verification : Type 0
Verification = ℕ → List (Option Certificate) → Result (Unit {0})

pub record TlsConfig : Type 0 where
  pub certificates : List KeyPair
  pub min_version : ℕ
  pub max_version : ℕ
  pub cipher_suites : List ℕ
  pub renegotiation : Renegotiation
  pub client_auth : ClientAuth
  pub verify_connection : Verification
  pub insecure_skip_verify : Bool
  pub prefer_server_cipher_suites : Bool
  pub session_tickets_disabled : Bool

-- tls.VersionTLS12 and tls.VersionTLS13.
abbrev pub version_tls12 : ℕ
version_tls12 = 771

abbrev pub version_tls13 : ℕ
version_tls13 = 772

-- TLS_ECDHE_ECDSA_WITH_AES_128_GCM_SHA256 and TLS_ECDHE_ECDSA_WITH_AES_256_GCM_SHA384.
abbrev pub ecdsa_suites : List ℕ
ecdsa_suites = 49_195 ∷ 49_196 ∷ []

-- `baseTLSConfig`
unfoldable pub base_tls_config : KeyPair → Verification → TlsConfig
base_tls_config identity verify = record {
  certificates = identity ∷ [];
  min_version = version_tls12;
  max_version = version_tls13;
  cipher_suites = ecdsa_suites;
  renegotiation = renegotiate_never;
  client_auth = no_client_cert;
  verify_connection = verify;
  insecure_skip_verify = false;
  prefer_server_cipher_suites = true;
  session_tickets_disabled = false;
}

-- `newClientTLSConfig`
unfoldable pub new_client_tls_config : KeyPair → Verification → TlsConfig
new_client_tls_config identity verify = record (base_tls_config identity verify) {
  insecure_skip_verify = true;
}

-- `newServerTLSConfig`
unfoldable pub new_server_tls_config : KeyPair → Verification → TlsConfig
new_server_tls_config identity verify = record (base_tls_config identity verify) {
  client_auth = require_any_client_cert;
  session_tickets_disabled = true;
}
