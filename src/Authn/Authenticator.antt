-- ===== src/Authn/Authenticator.antt =====
-- internal/authn/authenticator.go: the paths from a peer's chain to an identity. The audit lines
-- are in the module Audit.
pub mod Peers
pub mod Audit
pub mod Configs
pub mod Anchored
pub mod Setup
pub mod Examples
use fizzled_go.Prelude.{ℕ, Bytes, Option, List}
use fizzled_go.Errors.{Result, ok, ◌>>=◌, ◌>>◌}
use fizzled_go.Authn.Certificate.{Certificate}
use fizzled_go.Authn.X509svid.{ChainCheck, Verifier, Leaf, verify}
use fizzled_go.Authn.Identity.{leaf_policy, client_agent_id, server_identity}

-- The verifier and the environment of one call: crypto/x509 and the time.
pub record Authenticator : Type 0 where
  pub verifier : Verifier
  pub chain_error : ChainCheck
  pub now : ℕ

-- The method `leaf`.
unfoldable pub verified_leaf : Authenticator → List (Option Certificate) → Result Leaf
verified_leaf a certificates = do
  leaf ← verify a.chain_error a.now a.verifier certificates
  leaf_policy leaf.certificate
  ok leaf

-- `clientSVID`
unfoldable pub client_svid : Authenticator → List (Option Certificate) → Result (Leaf × Bytes)
client_svid a chain = do
  leaf ← verified_leaf a chain
  agent ← client_agent_id leaf.spiffe_id
  ok (leaf, agent)

-- `serverSVID`
unfoldable pub server_svid : Authenticator → List (Option Certificate) → Result Leaf
server_svid a chain = do leaf ← verified_leaf a chain; server_identity leaf.spiffe_id; ok leaf

-- `Authenticate`
unfoldable pub authenticate : Authenticator → List (Option Certificate) → Result Bytes
authenticate a chain = do (leaf, agent) ← client_svid a chain; ok agent

-- `verifyClientPeer`
unfoldable pub verify_client_peer : Authenticator → List (Option Certificate) → Result (Unit {0})
verify_client_peer a chain = do (leaf, agent) ← client_svid a chain; ok tt

-- `verifyServerPeer`
unfoldable pub verify_server_peer : Authenticator → List (Option Certificate) → Result (Unit {0})
verify_server_peer a chain = do leaf ← server_svid a chain; ok tt
