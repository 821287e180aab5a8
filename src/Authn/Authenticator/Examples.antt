-- ===== src/Authn/Authenticator/Examples.antt =====
-- The configurations of alice's client and of a server, on which the theorems about
-- internal/authn/authenticator.go apply.
use fizzled_go.Prelude.{◌≡◌, ◌≢◌, ◌↔◌, refl, Bytes, codes, Option, some, List, [], ◌∷◌, text_eq}
use fizzled_go.Prelude.Strings.{has_prefix, before, split, matches_class}
use fizzled_go.Errors.{ok}
use fizzled_go.Authn.AgentId.{new_agent_id, validate}
use fizzled_go.Authn.Certificate.{Certificate}
use fizzled_go.Authn.Examples.{authenticator, alice_chain, server_certificate}
use fizzled_go.Authn.Identity.{
  client_agent_id, client_path, server_identity, server_path, leaf_policy,
}
use fizzled_go.Authn.Identity.Uris.{server_uri}
use fizzled_go.Authn.Loader.{KeyPair}
use fizzled_go.Authn.SpiffeId.{
  parse, validate_trust_domain, validate_path, validate_components, components_of,
}
use fizzled_go.Authn.TlsConfig.{TlsConfig, new_client_tls_config, new_server_tls_config}
use fizzled_go.Authn.TrustBundle.Examples.{loader}
use fizzled_go.Authn.X509svid.{
  Leaf, clamp_to_validity, verify, verify_chain, validate_chain, validate_leaf_certificate,
  leaf_spiffe_id, new_spiffe_id, validate_signers,
}
use fizzled_go.Authn.Authenticator.{authenticate, client_svid, server_svid, verified_leaf}
use fizzled_go.Authn.Authenticator.Audit.{
  Accepted, client_peer_audited, audit_reject, peer_client, audited_agent,
}
use fizzled_go.Authn.Authenticator.Configs.{
  Presents, KeepsTransport, configs_meet, client_config_verifies,
}
use fizzled_go.Authn.Authenticator.Peers.{IsPeer}
use fizzled_go.Authn.Authenticator.Setup.{
  client_config, server_config, load_identity, parse_chain, pointers, at_instant,
  server_peer_callback, client_peer_callback,
}

abbrev pub pair_of : Bytes → KeyPair
pair_of name = record { der = name ∷ []; private_key = codes "key" }

abbrev alice_config : TlsConfig
alice_config = new_client_tls_config (pair_of (codes "alice")) (server_peer_callback authenticator)

abbrev server_side : TlsConfig
server_side = new_server_tls_config (pair_of (codes "server")) (client_peer_callback authenticator)

alice_configured :
    client_config loader authenticator (codes "alice") (codes "key") ≡ ok alice_config
unfolding client_config load_identity parse_chain client_svid verified_leaf verify verify_chain
    validate_chain validate_leaf_certificate leaf_spiffe_id new_spiffe_id validate_signers
    clamp_to_validity leaf_policy client_agent_id client_path new_agent_id validate parse has_prefix
    before split validate_trust_domain validate_path validate_components matches_class text_eq
    components_of
alice_configured = refl

server_configured :
    server_config loader authenticator (codes "server") (codes "key") ≡ ok server_side
unfolding server_config load_identity parse_chain server_svid verified_leaf verify verify_chain
    validate_chain validate_leaf_certificate leaf_spiffe_id new_spiffe_id validate_signers
    clamp_to_validity leaf_policy server_identity server_path parse has_prefix before split
    validate_trust_domain validate_path validate_components matches_class text_eq components_of
server_configured = refl

configs_meet_example :
    ((chain : List Certificate) × Presents loader alice_config chain
      × (server_side.verify_connection 95 (pointers chain) ≡ ok tt))
    × ((chain : List Certificate) × Presents loader server_side chain
        × (alice_config.verify_connection 95 (pointers chain) ≡ ok tt))
configs_meet_example =
    configs_meet loader authenticator (codes "alice") (codes "key") (codes "server") (codes "key")
      alice_configured server_configured

abbrev server_chain : List (Option Certificate)
server_chain = some server_certificate ∷ []

client_config_verifies_example :
    KeepsTransport alice_config
    × ((alice_config.verify_connection 100 server_chain ≡ ok tt) ↔ (
        (leaf : Leaf) × IsPeer (at_instant authenticator 100) server_chain leaf
        × (leaf.certificate.uris ≡ server_uri ∷ [])))
client_config_verifies_example =
    client_config_verifies loader authenticator (codes "alice") (codes "key") 100 server_chain
      alice_configured

audited_agent_example :
    let (line, result) = client_peer_audited authenticator alice_chain in
    ((authenticate authenticator alice_chain ≡ ok (codes "alice")) ↔ Accepted line (codes "alice"))
    × ((line ≡ audit_reject peer_client alice_chain) ↔ (result ≢ ok tt))
audited_agent_example = audited_agent authenticator alice_chain (codes "alice")
