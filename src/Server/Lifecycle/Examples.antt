-- ===== src/Server/Lifecycle/Examples.antt =====
-- A server that is built, and runs of its `Serve`, on which the theorems about
-- internal/server/server.go apply.
use fizzled_go.Prelude.{
  ◌≡◌, ◌≢◌, ◌↔◌, ◌⊎◌, refl, Bytes, codes, true, Option, none, some, List, [], All, text_eq,
}
use fizzled_go.Prelude.Assoc.{lookup, insert}
use fizzled_go.Prelude.Int.{pos, ◌<ℤ◌}
use fizzled_go.Prelude.Strings.{has_prefix, before, split, matches_class}
use fizzled_go.Errors.{Result, ok}
use fizzled_go.Authn.AgentId.{validate}
use fizzled_go.Authn.Certificate.{Certificate}
use fizzled_go.Authn.Examples.{window_check, alice_chain}
use fizzled_go.Authn.Identity.{server_identity, server_path, leaf_policy}
use fizzled_go.Authn.SpiffeId.{
  parse, validate_trust_domain, validate_path, validate_components, components_of,
}
use fizzled_go.Authn.TlsConfig.{new_server_tls_config}
use fizzled_go.Authn.TrustBundle.Blocks.{IsAnchor}
use fizzled_go.Authn.TrustBundle.Examples.{loader, loaded, loader-Shrinks}
use fizzled_go.Authn.TrustBundle.Space.{trim_space}
use fizzled_go.Authn.TrustBundle.{
  add_root, begin_markers, bundle_certificate, bundle_of, count, decode_block, is_seen,
  load_trust_bundle, parse_trimmed, parse_trust_bundle, read_blocks, sooner,
}
use fizzled_go.Authn.X509svid.{
  clamp_to_validity, verify, verify_chain, validate_chain, validate_leaf_certificate,
  leaf_spiffe_id, new_spiffe_id, new_verifier, validate_signers, validate_signing_certificate,
  signing_spiffe_id,
}
use fizzled_go.Authn.Authenticator.{Authenticator, authenticate, server_svid, verified_leaf}
use fizzled_go.Authn.Authenticator.Examples.{pair_of}
use fizzled_go.Authn.Authenticator.Setup.{
  new_authenticator, server_config, load_identity, parse_chain, at_instant, client_peer_callback,
  skew,
}
use fizzled_go.Authz.{load, load_entries, unmarshal_role}
use fizzled_go.Server.Examples.{decoder, authorizer}
use fizzled_go.Server.Lifecycle.{Config, Server, new_server, server_of}
use fizzled_go.Server.Lifecycle.Building.{Makes, new_server_iff}
use fizzled_go.Server.Lifecycle.Standing.{new_server_guards}
use fizzled_go.Server.Lifecycle.Serving.{
  Serving, new_serving, transport_returns, ctx_ends, sees_done, jobs_stop, transport_drains,
  sees_stopped, takes_late_error, step, Reach, serving, next, returned, finished, serve_result,
}
use fizzled_go.Server.Lifecycle.Serving.Answers.{Drained, CutOff, Failed, serve_answers}

abbrev pub config : Config
config = record {
  address = codes "localhost:8443";
  ca_path = codes "ca.crt";
  cert_path = codes "server";
  key_path = codes "key";
  roles_path = codes "roles.json";
  shutdown_grace = pos 0;
}

abbrev pub listen : Bytes → Result Bytes
listen address = ok address

abbrev authenticator : Authenticator
authenticator = record {
  verifier = record { bundle = some loaded.roots; skew = skew };
  chain_error = window_check;
  now = 150;
}

abbrev pub server : Server
server =
    server_of config authenticator
      (new_server_tls_config (pair_of (codes "server")) (client_peer_callback authenticator))
      authorizer (codes "localhost:8443")

pub built : new_server loader window_check 150 decoder listen config ≡ ok server
unfolding new_server new_authenticator load_trust_bundle parse_trust_bundle parse_trimmed trim_space
    read_blocks decode_block bundle_certificate validate_signing_certificate signing_spiffe_id
    add_root is_seen lookup insert text_eq sooner bundle_of begin_markers count has_prefix
    new_verifier server_config load_identity parse_chain server_svid verified_leaf verify
    verify_chain validate_chain validate_leaf_certificate leaf_spiffe_id new_spiffe_id
    validate_signers clamp_to_validity leaf_policy server_identity server_path parse before split
    validate_trust_domain validate_path validate_components matches_class components_of load
    load_entries unmarshal_role validate
built = refl

new_server_guards_example :
    (config.address ≢ [])
    × (load decoder config.roles_path ≡ ok server.grpc.interceptor.authorizer)
    × (pos 0 <ℤ server.shutdown_grace)
    × ((roots : List Certificate) × (server.grpc.interceptor.authenticator.verifier.bundle
          ≡ some roots)
        × (roots ≢ [])
        × All IsAnchor roots)
    × ((server.grpc.tls_config.verify_connection 160 alice_chain ≡ ok tt) ↔ (
        (agent : Bytes) × (authenticate
            (at_instant server.grpc.interceptor.authenticator 160)
            alice_chain
          ≡ ok agent)))
new_server_guards_example =
    new_server_guards loader window_check 150 decoder listen config 160 alice_chain built

new_server_iff_example :
    (new_server loader window_check 150 decoder listen config ≡ ok server)
    ↔ Makes loader window_check 150 decoder listen config server
new_server_iff_example =
    new_server_iff loader window_check 150 decoder listen config server loader-Shrinks

abbrev taken : Option Serving → Serving
taken none = new_serving
taken (some s) = s

abbrev canceled : Serving
canceled = taken (step ctx_ends new_serving)

-- The context ends, the jobs stop, the transport drains and returns.
abbrev pub drained : Serving
drained = record new_serving {
  main = returned none;
  stopper = finished;
  transport = some none;
  ctx_done = true;
}

canceled_run : Reach canceled
unfolding step
canceled_run = next ctx_ends serving refl

pub drained_run : Reach drained
unfolding step serve_result
drained_run =
    next takes_late_error
      (next (transport_returns none)
        (next sees_stopped
          (next transport_drains (next jobs_stop (next sees_done canceled_run refl) refl) refl)
          refl)
        refl)
      refl

serve_answers_example :
    (drained.stopper ≡ finished)
    × (Drained drained none ⊎ (CutOff drained none ⊎ Failed drained none))
serve_answers_example = serve_answers drained none drained_run refl
