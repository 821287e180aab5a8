-- ===== src/Authn/Authenticator/Audit.antt =====
-- The audit lines of internal/authn/authenticator.go. A serial number is given as a number, and the
-- text of an error is left out.
use fizzled_go.Prelude.{ℕ, ◌≡◌, ◌≢◌, ◌↔◌, refl, ap, Bytes, Option, none, some, List, [], ◌∷◌}
use fizzled_go.Errors.{Result, ok, err, ◌>>=◌, eq_of_ok_eq}
use fizzled_go.Authn.Certificate.{Certificate}
use fizzled_go.Authn.X509svid.{Leaf}
use fizzled_go.Authn.Authenticator.{
  Authenticator, client_svid, server_svid, authenticate, verify_client_peer, verify_server_peer,
}

-- `peerSide`
pub data PeerSide : Type 0 where
  peer_client peer_server : PeerSide

-- The lines by their messages: the bundle has its path, the number of its roots and its expiry; a
-- peer has its verified SPIFFE ID, its serial number and, a client, its agent id; a rejected peer
-- has the serial number that it presented, if it presented a certificate.
pub data AuditLine : Type 0 where
  bundle_loaded : Bytes → ℕ → ℕ → AuditLine
  peer_authenticated : PeerSide → (uri : Bytes) → (serial : ℕ) → (agent : Option Bytes) → AuditLine
  peer_rejected : PeerSide → (serial : Option ℕ) → AuditLine

-- A nil first certificate has no serial number to read; crypto/tls gives none.
abbrev pub presented_serial : List (Option Certificate) → Option ℕ
presented_serial [] = none
presented_serial (none ∷ cs) = none
presented_serial (some c ∷ cs) = some c.serial

-- `auditAccept`
abbrev pub audit_accept : PeerSide → Leaf → Option Bytes → AuditLine
audit_accept side leaf agent =
    peer_authenticated side leaf.spiffe_id.uri leaf.certificate.serial agent

-- `auditReject`
abbrev pub audit_reject : PeerSide → List (Option Certificate) → AuditLine
audit_reject side chain = peer_rejected side (presented_serial chain)

abbrev pub client_line : List (Option Certificate) → Result (Leaf × Bytes) → AuditLine
client_line chain (ok (leaf, agent)) = audit_accept peer_client leaf (some agent)
client_line chain (err e) = audit_reject peer_client chain

abbrev pub server_line : List (Option Certificate) → Result Leaf → AuditLine
server_line chain (ok leaf) = audit_accept peer_server leaf none
server_line chain (err e) = audit_reject peer_server chain

-- `verifyClientPeer` and `verifyServerPeer`, with the line that each logs.
unfoldable pub client_peer_audited :
    Authenticator → List (Option Certificate) → AuditLine × Result (Unit {0})
client_peer_audited a chain = (client_line chain (client_svid a chain), verify_client_peer a chain)

unfoldable pub server_peer_audited :
    Authenticator → List (Option Certificate) → AuditLine × Result (Unit {0})
server_peer_audited a chain = (server_line chain (server_svid a chain), verify_server_peer a chain)

abbrev pub Accepted : AuditLine → Bytes → Type 0
Accepted line agent =
    (uri : Bytes) × (serial : ℕ) × (line ≡ peer_authenticated peer_client uri serial (some agent))

client_line-Accepted :
    (chain : List (Option Certificate)) (r : Result (Leaf × Bytes)) (agent : Bytes)
    → ((r >>= λ p. ok p.1) ≡ ok agent) ↔ Accepted (client_line chain r) agent
client_line-Accepted chain (err e) agent = (λ h. absurd (cc), λ (uri, serial, h). absurd (cc))
client_line-Accepted chain (ok (leaf, named)) agent = (
  λ h. (
    leaf.spiffe_id.uri,
    leaf.certificate.serial,
    ap (λ b. audit_accept peer_client leaf (some b)) (eq_of_ok_eq h),
  ),
  λ (uri, serial, h). cc,
)

rejected_line :
    (chain : List (Option Certificate)) (r : Result (Leaf × Bytes))
    → (client_line chain r ≡ audit_reject peer_client chain) ↔ ((r >>= λ p. ok (tt {0})) ≢ ok tt)
rejected_line chain (err e) = (λ h k. cc, λ h. refl)
rejected_line chain (ok (leaf, named)) = (λ h. absurd (cc), λ h. absurd (h refl))

-- A verification of a client logs an acceptance that names an agent exactly when identifying the
-- peer by the same chain at the same instant gives that agent, and logs the rejection exactly when
-- it fails.
pub audited_agent :
    (a : Authenticator) (chain : List (Option Certificate)) (agent : Bytes)
    → let (line, result) = client_peer_audited a chain in
      ((authenticate a chain ≡ ok agent) ↔ Accepted line agent)
      × ((line ≡ audit_reject peer_client chain) ↔ (result ≢ ok tt))
unfolding client_peer_audited verify_client_peer authenticate
audited_agent a chain agent = (
  client_line-Accepted chain (client_svid a chain) agent,
  rejected_line chain (client_svid a chain),
)
