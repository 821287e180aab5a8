-- ===== src/Authn/Examples.antt =====
-- Identities and a certificate, on which the theorems about internal/authn apply.
use fizzled_go.Prelude.{
  ◌≡◌, ◌≢◌, ◌↔◌, refl, Bytes, codes, false, ◌&&◌, leb, Option, none, some, List, [], ◌∷◌, text_eq,
  if◌then◌else◌,
}
use fizzled_go.Prelude.Strings.{has_prefix, before, split, matches_class}
use fizzled_go.Errors.{ok, foreign}
use fizzled_go.Authn.Certificate.{Certificate, server_auth, client_auth, ecdsa, p256}
use fizzled_go.Authn.SpiffeId.{
  SpiffeId, parse, validate_trust_domain, validate_path, validate_components, components_of,
  path_components,
}
use fizzled_go.Authn.SpiffeId.Grammar.{Denotes, parse_sound, parse_complete}
use fizzled_go.Authn.AgentId.{IsAgentId, new_agent_id, validate}
use fizzled_go.Authn.X509svid.{
  ChainCheck, Verifier, Leaf, clamp_to_validity, verify, verify_chain, validate_chain,
  validate_leaf_certificate, leaf_spiffe_id, new_spiffe_id, validate_signers,
}
use fizzled_go.Authn.X509svid.Standard.{IsSvid, verify_iff}
use fizzled_go.Authn.Identity.{client_agent_id, client_path, leaf_policy}
use fizzled_go.Authn.Identity.Uris.{client_uri}
use fizzled_go.Authn.Authenticator.{
  Authenticator, authenticate, client_svid, verified_leaf, verify_client_peer, verify_server_peer,
}
use fizzled_go.Authn.Authenticator.Peers.{IsPeer, authenticate_iff, roles_apart}

abbrev alice_id : SpiffeId
alice_id = record {
  uri = codes "spiffe://fizzled.internal/client/agent/alice";
  trust_domain = codes "fizzled.internal";
  path = codes "/client/agent/alice";
}

parsed : parse (codes "spiffe://fizzled.internal/client/agent/alice") ≡ ok alice_id
unfolding parse has_prefix before split validate_trust_domain validate_path validate_components
    matches_class text_eq
parsed = refl

parse_sound_example :
    (alice_id.uri ≡ codes "spiffe://fizzled.internal/client/agent/alice")
    × Denotes alice_id (path_components alice_id)
parse_sound_example =
    parse_sound (codes "spiffe://fizzled.internal/client/agent/alice") alice_id parsed

abbrev alice_components : List Bytes
alice_components = codes "client" ∷ codes "agent" ∷ codes "alice" ∷ []

denoted : Denotes alice_id alice_components
unfolding components_of split
denoted = (parse_sound (codes "spiffe://fizzled.internal/client/agent/alice") alice_id parsed).1

parse_complete_example :
    (parse alice_id.uri ≡ ok alice_id) × (path_components alice_id ≡ alice_components)
parse_complete_example = parse_complete alice_id alice_components denoted

-- Valid from 100 to 200, for digital signatures (bit 0).
abbrev pub alice_certificate : Certificate
alice_certificate = record {
  raw = codes "alice";
  serial = 1;
  is_ca = false;
  key_usage = 1;
  ext_key_usage = server_auth ∷ client_auth ∷ [];
  public_key = ecdsa p256;
  uris = codes "spiffe://fizzled.internal/client/agent/alice" ∷ [];
  not_before = 100;
  not_after = 200;
}

abbrev pub server_certificate : Certificate
server_certificate = record alice_certificate {
  raw = codes "server";
  serial = 2;
  uris = codes "spiffe://fizzled.internal/server" ∷ [];
}

-- A check of the validity window alone.
abbrev pub window_check : ChainCheck
window_check roots leaf rest t =
    if leb leaf.not_before t && leb t leaf.not_after then none else some (foreign 0 ∷ [])

abbrev pub alice_chain : List (Option Certificate)
alice_chain = some alice_certificate ∷ []

abbrev verifier : Verifier
verifier = record { bundle = some []; skew = 10 }

-- Five before the window, and within the skew of it.
abbrev pub authenticator : Authenticator
authenticator = record { verifier = verifier; chain_error = window_check; now = 95 }

abbrev alice_leaf : Leaf
alice_leaf = record { spiffe_id = alice_id; certificate = alice_certificate }

verify_iff_example :
    (verify window_check 95 verifier alice_chain ≡ ok alice_leaf)
    ↔ IsSvid window_check 95 verifier alice_chain alice_leaf
verify_iff_example = verify_iff window_check 95 verifier alice_chain alice_leaf

authenticate_iff_example : (authenticate authenticator alice_chain ≡ ok (codes "alice")) ↔ (
    (leaf : Leaf) × IsPeer authenticator alice_chain leaf
    × (leaf.certificate.uris ≡ client_uri (codes "alice") ∷ [])
    × IsAgentId (codes "alice"))
authenticate_iff_example = authenticate_iff authenticator alice_chain (codes "alice")

accepted : verify_client_peer authenticator alice_chain ≡ ok tt
unfolding verify_client_peer client_svid verified_leaf verify verify_chain validate_chain
    validate_leaf_certificate leaf_spiffe_id new_spiffe_id validate_signers clamp_to_validity
    leaf_policy client_agent_id client_path new_agent_id validate parse has_prefix before split
    validate_trust_domain validate_path validate_components matches_class text_eq components_of
accepted = refl

roles_apart_example : verify_server_peer authenticator alice_chain ≢ ok tt
roles_apart_example = roles_apart authenticator alice_chain accepted
