-- ===== src/Authn/Identity.antt =====
-- internal/authn/identity.go: the issuance policy on a leaf, and the two identities of the trust
-- domain.
pub mod Uris
use fizzled_go.Prelude.{
  Bytes, codes, Bool, true, false, not, ◌&&◌, ◌||◌, List, [], ◌∷◌, if◌then◌else◌, text_eq, ◌==◌,
}
use fizzled_go.Errors.{
  Result, ok, err, ◌>>=◌, missing_server_auth, missing_client_auth, key_not_ecdsa, key_not_p256,
  wrong_trust_domain, unexpected_identity,
}
use fizzled_go.Authn.Certificate.{
  Certificate, ExtKeyUsage, usage_code, server_auth, client_auth, PublicKey, ecdsa, other_key,
  is_p256,
}
use fizzled_go.Authn.SpiffeId.{SpiffeId, path_components}
use fizzled_go.Authn.AgentId.{new_agent_id}

-- slices.Contains(usages, usage)
abbrev pub contains_usage : List ExtKeyUsage → ExtKeyUsage → Bool
contains_usage [] u = false
contains_usage (v ∷ vs) u = usage_code v == usage_code u || contains_usage vs u

-- The two checks on the key.
abbrev pub key_policy : PublicKey → Result (Unit {0})
key_policy other_key = err (key_not_ecdsa ∷ [])
key_policy (ecdsa curve) = if is_p256 curve then ok tt else err (key_not_p256 ∷ [])

-- `leafPolicy`
unfoldable pub leaf_policy : Certificate → Result (Unit {0})
leaf_policy certificate =
    if not (contains_usage certificate.ext_key_usage server_auth)
    then err (missing_server_auth ∷ [])
    else if not (contains_usage certificate.ext_key_usage client_auth)
    then err (missing_client_auth ∷ [])
    else key_policy certificate.public_key

-- `TrustDomain`
abbrev pub trust_domain : Bytes
trust_domain = codes "fizzled.internal"

abbrev pub path_server : Bytes
path_server = codes "server"

abbrev pub path_client : Bytes
path_client = codes "client"

abbrev pub path_agent : Bytes
path_agent = codes "agent"

-- The components of a client's path, which are three.
unfoldable pub client_path : List Bytes → Result Bytes
client_path (a ∷ b ∷ c ∷ []) =
    if not (text_eq a path_client) || not (text_eq b path_agent)
    then err (unexpected_identity ∷ [])
    else new_agent_id c
client_path [] = err (unexpected_identity ∷ [])
client_path (a ∷ []) = err (unexpected_identity ∷ [])
client_path (a ∷ b ∷ []) = err (unexpected_identity ∷ [])
client_path (a ∷ b ∷ c ∷ d ∷ cs) = err (unexpected_identity ∷ [])

-- `clientAgentID`
unfoldable pub client_agent_id : SpiffeId → Result Bytes
client_agent_id i =
    if not (text_eq i.trust_domain trust_domain)
    then err (wrong_trust_domain ∷ [])
    else client_path (path_components i)

unfoldable pub server_path : List Bytes → Result (Unit {0})
server_path (a ∷ []) = if not (text_eq a path_server) then err (unexpected_identity ∷ []) else ok tt
server_path [] = err (unexpected_identity ∷ [])
server_path (a ∷ b ∷ cs) = err (unexpected_identity ∷ [])

-- `serverIdentity`
unfoldable pub server_identity : SpiffeId → Result (Unit {0})
server_identity i =
    if not (text_eq i.trust_domain trust_domain)
    then err (wrong_trust_domain ∷ [])
    else server_path (path_components i)
