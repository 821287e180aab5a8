-- ===== src/Authn/Identity/Uris.antt =====
-- The URIs of internal/authn/identity.go: which texts name a client, and which the server.
use fizzled_go.Prelude.{
  ◌≤◌, ◌≡◌, ◌≢◌, ◌↔◌, inl, inr, refl, sym, ap, ◌∙◌, Bytes, codes, List, [], ◌∷◌, ◌++◌, append-nil,
  length, All, arith, text_eq, text_eq-cases,
}
use fizzled_go.Prelude.Strings.{separated, matches_class}
use fizzled_go.Errors.{ok}
use fizzled_go.Authn.SpiffeId.{
  SpiffeId, max_id_length, validate_trust_domain, parse, path_components, uri_scheme,
}
use fizzled_go.Authn.SpiffeId.Grammar.{
  validate_trust_domain_iff, IsComponent-iff, parse_sound, parse_complete, Denotes, IsComponent,
  IsPathByte, IsTrustDomain,
}
use fizzled_go.Authn.AgentId.{IsAgentId, IsAgentIdByte, new_agent_id, new_agent_id_iff}
use fizzled_go.Authn.Identity.{
  trust_domain, path_server, path_client, path_agent, client_path, client_agent_id, server_path,
  server_identity,
}

client_path_iff :
    (cs : List Bytes) (a : Bytes)
    → (client_path cs ≡ ok a) ↔ ((cs ≡ path_client ∷ path_agent ∷ a ∷ []) × IsAgentId a)
unfolding client_path
client_path_iff [] a = (λ h. cc, λ (k, _). cc)
client_path_iff (x ∷ []) a = (λ h. cc, λ (k, _). cc)
client_path_iff (x ∷ y ∷ []) a = (λ h. cc, λ (k, _). cc)
client_path_iff (x ∷ y ∷ z ∷ w ∷ cs) a = (λ h. cc, λ (k, _). cc)
client_path_iff (x ∷ y ∷ z ∷ []) a = elim (text_eq-cases x path_client) [
  | inr (n, f) ↦ (λ h. absurd (ground arith), λ (k, _). absurd (n (cc)))
  | inl (e, t) ↦ elim (text_eq-cases y path_agent) [
    | inr (n, f) ↦ (λ h. absurd (ground arith), λ (k, _). absurd (n (cc)))
    | inl (d, u) ↦
        let read : client_path (x ∷ y ∷ z ∷ []) ≡ new_agent_id z = rw (t, u) refl in
        (
          λ h. let (k, f) = (new_agent_id_iff z a).0 (sym read ∙ h) in (cc, rw k f),
          λ (k, h).
              let same : a ≡ z = cc in read ∙ (new_agent_id_iff z a).1 (same, rw (sym same) h),
        )
  ]
]

pub client_agent_id_iff :
    (i : SpiffeId) (a : Bytes)
    → (client_agent_id i ≡ ok a) ↔ (
        (i.trust_domain ≡ trust_domain)
        × (path_components i ≡ path_client ∷ path_agent ∷ a ∷ [])
        × IsAgentId a)
unfolding client_agent_id
client_agent_id_iff i a = elim (text_eq-cases i.trust_domain trust_domain) [
  | inr (n, f) ↦ (λ h. absurd (ground arith), λ h. absurd (n h.0))
  | inl (e, t) ↦ rw t (
    λ h. let (p, q) = (client_path_iff (path_components i) a).0 h in (e, p, q),
    λ h. (client_path_iff (path_components i) a).1 (h.1, h.2),
  )
]

server_path_iff : (cs : List Bytes) → (server_path cs ≡ ok tt) ↔ (cs ≡ path_server ∷ [])
unfolding server_path
server_path_iff [] = (λ h. cc, λ h. cc)
server_path_iff (x ∷ y ∷ cs) = (λ h. cc, λ h. cc)
server_path_iff (x ∷ []) = elim (text_eq-cases x path_server) [
  | inr (n, f) ↦ (λ h. absurd (ground arith), λ h. absurd (n (cc)))
  | inl (e, t) ↦ (λ h. cc, λ h. rw t refl)
]

server_identity_iff :
    (i : SpiffeId)
    → (server_identity i ≡ ok tt)
      ↔ ((i.trust_domain ≡ trust_domain) × (path_components i ≡ path_server ∷ []))
unfolding server_identity
server_identity_iff i = elim (text_eq-cases i.trust_domain trust_domain) [
  | inr (n, f) ↦ (λ h. absurd (ground arith), λ h. absurd (n h.0))
  | inl (e, t) ↦ rw t (
    λ h. (e, (server_path_iff (path_components i)).0 h),
    λ h. (server_path_iff (path_components i)).1 h.1,
  )
]

-- The part of an identity's text that its components stand for.
uri_of :
    (i : SpiffeId) (cs : List Bytes) (uri : Bytes)
    → i.uri ≡ uri
    → Denotes i (path_components i)
    → i.trust_domain ≡ trust_domain
    → path_components i ≡ cs
    → uri ≡ uri_scheme ++ (trust_domain ++ separated b'/' cs)
uri_of i cs uri e h d path = sym e ∙ h.0 ∙ rw (d, h.1, path) refl

domain-IsTrustDomain : IsTrustDomain trust_domain
unfolding validate_trust_domain matches_class
domain-IsTrustDomain = (validate_trust_domain_iff trust_domain).0 refl

path_client-IsComponent : IsComponent path_client
unfolding matches_class text_eq
path_client-IsComponent = (IsComponent-iff path_client).0 refl

path_agent-IsComponent : IsComponent path_agent
unfolding matches_class text_eq
path_agent-IsComponent = (IsComponent-iff path_agent).0 refl

path_server-IsComponent : IsComponent path_server
unfolding matches_class text_eq
path_server-IsComponent = (IsComponent-iff path_server).0 refl

agent_bytes : (a : Bytes) → All IsAgentIdByte a → All IsPathByte a
agent_bytes [] h = tt
agent_bytes (c ∷ a) (h, hs) = (ground arith, agent_bytes a hs)

no_dot : (a b : Bytes) → All IsAgentIdByte a → a ≢ b'.' ∷ b
no_dot [] b h e = cc
no_dot (c ∷ a) b (h, _) e = let same : c ≡ b'.' = cc in ground arith

agent-IsComponent : (a : Bytes) → IsAgentId a → IsComponent a
agent-IsComponent a (n, bytes, _) =
    (n, agent_bytes a bytes, no_dot a [] bytes, no_dot a (b'.' ∷ []) bytes)

-- The URI of the agent's client SVID.
abbrev pub client_uri : Bytes → Bytes
client_uri a = codes "spiffe://fizzled.internal/client/agent/" ++ a

abbrev pub server_uri : Bytes
server_uri = codes "spiffe://fizzled.internal/server"

client_uri-parts :
    (a : Bytes)
    → uri_scheme ++ (trust_domain ++ separated b'/' (path_client ∷ path_agent ∷ a ∷ []))
      ≡ client_uri a
unfolding separated
client_uri-parts a = ap (λ b. codes "spiffe://fizzled.internal/client/agent/" ++ b) (append-nil a)

server_uri-parts : uri_scheme ++ (trust_domain ++ separated b'/' (path_server ∷ [])) ≡ server_uri
unfolding separated
server_uri-parts = refl

short : (a : Bytes) → IsAgentId a → length (client_uri a) ≤ max_id_length
short a h = let fits = h.2 in omega (arith, fits)

client_id : Bytes → SpiffeId
unfolding separated
client_id a = record {
  uri = client_uri a;
  trust_domain = trust_domain;
  path = separated b'/' (path_client ∷ path_agent ∷ a ∷ []);
}

-- The peer that presents a URI is the client of an agent exactly when the agent id is valid and
-- the URI is spiffe://fizzled.internal/client/agent/ followed by it.
pub client_uri_iff :
    (uri a : Bytes)
    → ((i : SpiffeId) × (parse uri ≡ ok i) × (client_agent_id i ≡ ok a))
      ↔ ((uri ≡ client_uri a) × IsAgentId a)
unfolding client_id
client_uri_iff uri a = (
  λ (i, h, k).
      let (kept, made) = parse_sound uri i h in
      let (domain, path, valid) = (client_agent_id_iff i a).0 k in
      (
        uri_of i (path_client ∷ path_agent ∷ a ∷ []) uri kept made domain path ∙ client_uri-parts a,
        valid,
      ),
  λ (e, valid).
      let cs = path_client ∷ path_agent ∷ a ∷ [] in
      let parts : All IsComponent cs =
        (path_client-IsComponent, (path_agent-IsComponent, (agent-IsComponent a valid, tt))) in
      let (h, k) =
        parse_complete (client_id a) cs
          (sym (client_uri-parts a), refl, domain-IsTrustDomain, parts, short a valid) in
      (client_id a, rw e h, (client_agent_id_iff (client_id a) a).1 (refl, k, valid)),
)

server_id : SpiffeId
unfolding separated
server_id = record {
  uri = server_uri;
  trust_domain = trust_domain;
  path = separated b'/' (path_server ∷ []);
}

-- The peer that presents a URI is the server exactly when the URI is
-- spiffe://fizzled.internal/server.
pub server_uri_iff :
    (uri : Bytes)
    → ((i : SpiffeId) × (parse uri ≡ ok i) × (server_identity i ≡ ok tt)) ↔ (uri ≡ server_uri)
unfolding server_id
server_uri_iff uri = (
  λ (i, h, k).
      let (kept, made) = parse_sound uri i h in
      let (domain, path) = (server_identity_iff i).0 k in
      uri_of i (path_server ∷ []) uri kept made domain path ∙ server_uri-parts,
  λ e.
      let (h, k) = parse_complete server_id (path_server ∷ []) (
        sym server_uri-parts,
        refl,
        domain-IsTrustDomain,
        (path_server-IsComponent, tt),
        omega arith,
      ) in
      (server_id, rw e h, (server_identity_iff server_id).1 (refl, k)),
)

-- No identity is both a client's and the server's.
pub client_not_server :
    (i : SpiffeId) (a : Bytes) → client_agent_id i ≡ ok a → server_identity i ≢ ok tt
client_not_server i a h k =
    let (_, path, _) = (client_agent_id_iff i a).0 h in
    let (_, other) = (server_identity_iff i).0 k in cc
