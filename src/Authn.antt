-- ===== src/Authn.antt =====
-- Package internal/authn and the packages below it.
pub mod SpiffeId
pub mod AgentId
pub mod Certificate
pub mod X509svid
pub mod Identity
pub mod Loader
pub mod TrustBundle
pub mod TlsConfig
pub mod Authenticator
pub mod Examples
