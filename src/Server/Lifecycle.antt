-- ===== src/Server/Lifecycle.antt =====
-- Building and closing the server: `New`, `newTransport` and `Close` of internal/server/server.go.
-- Listening on an address is the parameter `listen`; the log is not modelled.
pub mod Standing
pub mod Building
pub mod Serving
pub mod System
pub mod Examples
use fizzled_go.Prelude.{
  ℕ, Bytes, Bool, true, false, Option, none, some, List, [], ◌∷◌, if◌then◌else◌, text_eq,
}
use fizzled_go.Prelude.Int.{ℤ, pos, leb_ℤ}
use fizzled_go.Errors.{Result, ok, err, ◌>>=◌, GoError, error_is, empty_address, foreign}
use fizzled_go.Authn.X509svid.{ChainCheck}
use fizzled_go.Authn.Loader.{Loader}
use fizzled_go.Authn.TlsConfig.{TlsConfig}
use fizzled_go.Authn.Authenticator.{Authenticator}
use fizzled_go.Authn.Authenticator.Setup.{new_authenticator, server_config}
use fizzled_go.Authz.{Authorizer, Decoder, load}
use fizzled_go.Registry.{World}
use fizzled_go.Registry
use fizzled_go.Server.Interceptor.{Interceptor, new_interceptor}
use fizzled_go.Server.Service.{new_service}

pub record Config : Type 0 where
  pub address : Bytes
  pub ca_path : Bytes
  pub cert_path : Bytes
  pub key_path : Bytes
  pub roles_path : Bytes
  -- A time.Duration, in nanoseconds.
  pub shutdown_grace : ℤ

-- The options of the gRPC server: the credentials, one interceptor for both kinds of RPC, and the
-- keepalive parameters and policy, in nanoseconds. A knob at zero is infinite.
pub record Transport : Type 0 where
  pub tls_config : TlsConfig
  pub interceptor : Interceptor
  pub max_connection_idle : ℕ
  pub max_connection_age : ℕ
  pub max_connection_age_grace : ℕ
  pub time : ℕ
  pub timeout : ℕ
  pub min_time : ℕ
  pub permit_without_stream : Bool

-- `keepaliveTime`, `keepaliveTimeout`, `keepaliveMinTime` and `defaultShutdownGrace`.
abbrev pub keepalive_time : ℕ
keepalive_time = 60_000_000_000

abbrev pub keepalive_timeout : ℕ
keepalive_timeout = 10_000_000_000

abbrev pub keepalive_min_time : ℕ
keepalive_min_time = 600_000_000_000

abbrev pub default_shutdown_grace : ℤ
default_shutdown_grace = pos 5_000_000_000

-- `newTransport`
unfoldable pub new_transport : TlsConfig → Authenticator → Authorizer → Transport
new_transport tls_config authenticator authorizer = record {
  tls_config = tls_config;
  interceptor = new_interceptor authenticator authorizer;
  max_connection_idle = 0;
  max_connection_age = 0;
  max_connection_age_grace = 0;
  time = keepalive_time;
  timeout = keepalive_timeout;
  min_time = keepalive_min_time;
  permit_without_stream = false;
}

-- The service is its registry with the store of jobs; the listener is the address that it is bound
-- to.
pub record Server : Type 0 where
  pub grpc : Transport
  pub service : World
  pub listener : Bytes
  pub shutdown_grace : ℤ

abbrev pub grace_or_default : ℤ → ℤ
grace_or_default grace = if leb_ℤ grace (pos 0) then default_shutdown_grace else grace

-- The server that `New` returns.
abbrev pub server_of : Config → Authenticator → TlsConfig → Authorizer → Bytes → Server
server_of config authenticator tls_config authorizer listener = record {
  grpc = new_transport tls_config authenticator authorizer;
  service = new_service;
  listener = listener;
  shutdown_grace = grace_or_default config.shutdown_grace;
}

-- `New`, at the instant `now`.
unfoldable pub new_server :
    {Raw : Type 0}
    → Loader
    → ChainCheck
    → ℕ
    → Decoder Raw
    → (listen : Bytes → Result Bytes) → Config
    → Result Server
new_server loader chain_error now decoder listen config =
    if text_eq config.address [] then err (empty_address ∷ []) else do
      (authenticator, line) ← new_authenticator loader chain_error now config.ca_path
      tls_config ← server_config loader authenticator config.cert_path config.key_path
      authorizer ← load decoder config.roles_path
      listener ← listen config.address
      ok (server_of config authenticator tls_config authorizer listener)

-- net.ErrClosed
abbrev pub net_closed : ℕ
net_closed = 5

-- `Close`, on the error that closing the listener gave.
unfoldable pub close : Option GoError → Result (Unit {0})
close none = ok tt
close (some e) = if error_is e (foreign net_closed) then ok tt else err e
