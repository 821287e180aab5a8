-- ===== src/Server/Call/Examples.antt =====
-- Calls of alice and of bob, whole, on which the theorems about an RPC apply.
use fizzled_go.Prelude.{ℕ, get_elem?, ◌≡◌, ◌≢◌, refl, codes, some, Option, List, [], ◌∷◌, text_eq}
use fizzled_go.Prelude.Assoc.{lookup, insert}
use fizzled_go.Prelude.Decimal.{format_int}
use fizzled_go.Prelude.Int.{pos}
use fizzled_go.Prelude.Strings.{matches_class, has_prefix, before, split}
use fizzled_go.Errors.{ok}
use fizzled_go.Worker.Countdown.{Task}
use fizzled_go.Worker.Job.{new_job}
use fizzled_go.Registry.{World, create, create_in, find, job_id}
use fizzled_go.Authn.AgentId.{validate, new_agent_id}
use fizzled_go.Authn.Certificate.{Certificate}
use fizzled_go.Authn.Examples.{authenticator, alice_chain, alice_certificate}
use fizzled_go.Authn.Authenticator.{authenticate, client_svid, verified_leaf}
use fizzled_go.Authn.Identity.{leaf_policy, client_agent_id, client_path}
use fizzled_go.Authn.SpiffeId.{
  parse, validate_trust_domain, validate_path, validate_components, components_of,
}
use fizzled_go.Authn.X509svid.{
  verify, verify_chain, validate_chain, validate_leaf_certificate, leaf_spiffe_id, new_spiffe_id,
  validate_signers, clamp_to_validity,
}
use fizzled_go.Authz.{authorize}
use fizzled_go.Authz
use fizzled_go.Server.Rpc.{Answer, reply, tls}
use fizzled_go.Server.Interceptor.{Interceptor, LogLine, action_for, authorize_call, intercept}
use fizzled_go.Server.Service.{proto_status, status_unspecified, start, new_service}
use fizzled_go.Server.Examples.{authorizer}
use fizzled_go.Server.Call.{
  Reply, started, has_status, start_request, stop_request, get_status_request, call, handle,
  at_time, Serves, opens, calls,
}
use fizzled_go.Server.Call.Hidden.{IsConcealed, foreign_call-IsConcealed}
use fizzled_go.Server.Call.Owned.{started_job_served}

abbrev interceptor : Interceptor
interceptor = record { authenticator = authenticator; authorizer = authorizer }

abbrev bob_certificate : Certificate
bob_certificate = record alice_certificate {
  raw = codes "bob";
  serial = 3;
  uris = codes "spiffe://fizzled.internal/client/agent/bob" ∷ [];
}

abbrev bob_chain : List (Option Certificate)
bob_chain = some bob_certificate ∷ []

is_alice : (authenticate (at_time interceptor 150).authenticator alice_chain ≡ ok (codes "alice"))
unfolding authenticate client_svid verified_leaf verify verify_chain validate_chain
    validate_leaf_certificate leaf_spiffe_id new_spiffe_id validate_signers clamp_to_validity
    leaf_policy client_agent_id client_path new_agent_id validate parse has_prefix before split
    validate_trust_domain validate_path validate_components matches_class text_eq components_of
is_alice = refl

is_alice_later :
    (authenticate (at_time interceptor 170).authenticator alice_chain ≡ ok (codes "alice"))
unfolding authenticate client_svid verified_leaf verify verify_chain validate_chain
    validate_leaf_certificate leaf_spiffe_id new_spiffe_id validate_signers clamp_to_validity
    leaf_policy client_agent_id client_path new_agent_id validate parse has_prefix before split
    validate_trust_domain validate_path validate_components matches_class text_eq components_of
is_alice_later = refl

is_bob : authenticate (at_time interceptor 160).authenticator bob_chain ≡ ok (codes "bob")
unfolding authenticate client_svid verified_leaf verify verify_chain validate_chain
    validate_leaf_certificate leaf_spiffe_id new_spiffe_id validate_signers clamp_to_validity
    leaf_policy client_agent_id client_path new_agent_id validate parse has_prefix before split
    validate_trust_domain validate_path validate_components matches_class text_eq components_of
is_bob = refl

-- alice starts a job at 150.
abbrev first : List LogLine × Answer Reply × World
first = call (at_time interceptor 150) (some (tls alice_chain)) (start_request (pos 3)) new_service

abbrev first_lines : List LogLine × Answer Reply × World → List LogLine
first_lines (lines, _, _) = lines

abbrev left : List LogLine × Answer Reply × World → World
left (_, _, w) = w

first_reply : first ≡ (first_lines first, reply (started (codes "alice/0")), left first)
unfolding call intercept authorize_call action_for handle start create create_in new_job job_id
    lookup insert format_int authorize authenticate client_svid verified_leaf verify verify_chain
    validate_chain validate_leaf_certificate leaf_spiffe_id new_spiffe_id validate_signers
    clamp_to_validity leaf_policy client_agent_id client_path new_agent_id validate parse has_prefix
    before split validate_trust_domain validate_path validate_components matches_class text_eq
    components_of
first_reply = refl

first_call : Serves interceptor new_service (left first)
first_call =
    calls 150 (some (tls alice_chain)) (start_request (pos 3)) (first_lines first)
      (reply (started (codes "alice/0"))) opens first_reply

first_found : find (codes "alice") (codes "alice/0") (left first) ≡ some 0
unfolding find call intercept authorize_call action_for handle start create create_in new_job job_id
    lookup insert format_int authorize authenticate client_svid verified_leaf verify verify_chain
    validate_chain validate_leaf_certificate leaf_spiffe_id new_spiffe_id validate_signers
    clamp_to_validity leaf_policy client_agent_id client_path new_agent_id validate parse has_prefix
    before split validate_trust_domain validate_path validate_components matches_class text_eq
    components_of
first_found = refl

not_bob : codes "alice" ≢ codes "bob"
not_bob e = cc

-- bob calls `Stop` with the id of alice's job, at 160.
foreign_call-IsConcealed_example :
    IsConcealed
      (call
        (at_time interceptor 160)
        (some (tls bob_chain))
        (stop_request (codes "alice/0"))
        (left first))
      (left first)
foreign_call-IsConcealed_example =
    foreign_call-IsConcealed interceptor 160 (left first) (codes "alice") (codes "bob")
      (codes "alice/0") 0 bob_chain (stop_request (codes "alice/0")) first_call first_found is_bob
      not_bob refl

granted : authorize interceptor.authorizer (codes "alice") Authz.get_status ≡ ok tt
unfolding authorize lookup text_eq
granted = refl

-- alice asks for its status, at 170.
started_job_served_example :
    (p : ℕ) × (t : Task) × (get_elem? (left first).tasks p ≡ some t)
    × (t.job.id ≡ codes "alice/0")
    × ((call
          (at_time interceptor 170)
          (some (tls alice_chain))
          (get_status_request (codes "alice/0"))
          (left first)).1
        ≡ reply (has_status (proto_status t.job.status)))
    × (proto_status t.job.status ≢ status_unspecified)
started_job_served_example =
    started_job_served interceptor 150 170 new_service (left first) (left first) (codes "alice")
      (codes "alice/0") (pos 3) alice_chain alice_chain (first_lines first) opens is_alice
      first_reply opens is_alice_later granted
