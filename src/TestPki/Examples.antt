-- ===== src/TestPki/Examples.antt =====
-- An authority, a leaf of alice and a roles file, on which the theorems about internal/testpki apply.
mod Bench
use mathlib.Core.List.{Memᴰ}
use fizzled_go.Prelude.{
  ℕ, suc, zero, ◌≤◌, ◌<◌, ◌+◌, ◌≡◌, ◌≢◌, ◌↔◌, refl, sym, ap, ◌∙◌, Bytes, codes, Bool, true, false,
  ◌&&◌, ◌==◌, leb, Option, none, some, List, [], ◌∷◌, ◌++◌, length, drop, All, arith, eq_of_some_eq,
  inl, inr, Option-cases, text_eq, text_eq-cases, if◌then◌else◌,
}
use fizzled_go.Prelude.Assoc.{Assoc, lookup, insert}
use fizzled_go.Prelude.Strings.{has_prefix, matches_class}
use fizzled_go.Errors.{Result, ok, err, foreign, eq_of_ok_eq}
use fizzled_go.Authn.Certificate.{
  Certificate, Curve, ExtKeyUsage, PublicKey, ecdsa, other_key, p256, other_curve, server_auth,
  client_auth, other_usage, has_bit, cert_sign_bit,
}
use fizzled_go.Authn.Loader.{Block, KeyPair}
use fizzled_go.Authn.X509svid.{ChainCheck}
use fizzled_go.Authn.AgentId.{IsAgentId, validate, validate_iff}
use fizzled_go.Authn.Identity.Uris.{client_uri}
use fizzled_go.Authn.Authenticator.{Authenticator, authenticate}
use fizzled_go.Authn.Authenticator.Audit.{AuditLine}
use fizzled_go.Authn.Authenticator.Setup.{new_authenticator}
use fizzled_go.Authn.TrustBundle.{
  LoadedBundle, certificate_pem_type, pem_begin_marker, load_trust_bundle, begin_markers, count,
}
use fizzled_go.Authn.TrustBundle.Space.{trim_space}
use fizzled_go.Authz.{Action, Authorizer, Decoder, authorize, load, role_user}
use fizzled_go.Authz.Loaded.{IsNamed}
use fizzled_go.TestPki.Roots.{IsHome, authority_file-load}
use fizzled_go.TestPki.Admitted.{issued_leaf-authenticate}
use fizzled_go.TestPki.Roles.{IsJson, Marshals, decoder_at, roles_file-load}
use fizzled_go.TestPki.Documented.{
  whole_seconds, IsFaithful, IsOnCurve, IsShorter, IsPem, IsKept, Vouches,
}
use fizzled_go.TestPki.{
  Tools, Template, Issuer, Authority, authority_template, certificate_pem, ecdsa_private_key,
  leaf_template, new_authority, new_authority_options, new_leaf, new_leaf_options, new_template,
  parse_uris, random_serial_number, sign, sign_authority, write_certificate, write_file,
  write_roles, user_roles, loader_at,
}
use Bench.{
  tools, window_check, tools-IsFaithful, tools-IsOnCurve, tools-IsShorter, tools-IsKept,
  tools-Vouches,
}

abbrev clock : ℕ
clock = 200_000_000_000_000

abbrev root_der : Bytes
root_der = 1 ∷ 96 ∷ 113_600_000_000_000 ∷ 286_400_000_000_000 ∷ 0 ∷ 77 ∷ []

abbrev root : Certificate
root = record {
  raw = root_der;
  serial = 77;
  is_ca = true;
  key_usage = 96;
  ext_key_usage = [];
  public_key = ecdsa p256;
  uris = [];
  not_before = 113_600_000_000_000;
  not_after = 286_400_000_000_000;
}

abbrev authority : Authority ℕ
authority = record { certificate = root; key = 0 }

abbrev alice_der : Bytes
alice_der =
    0 ∷ 1 ∷ 196_400_000_000_000 ∷ 203_600_000_000_000 ∷ 0 ∷ 77 ∷ 0 ∷ client_uri (codes "alice")

abbrev alice_leaf : Certificate
alice_leaf = record {
  raw = alice_der;
  serial = 77;
  is_ca = false;
  key_usage = 1;
  ext_key_usage = server_auth ∷ client_auth ∷ [];
  public_key = ecdsa p256;
  uris = client_uri (codes "alice") ∷ [];
  not_before = 196_400_000_000_000;
  not_after = 203_600_000_000_000;
}

root_made : new_authority tools (new_authority_options clock clock) [] ≡ ok (authority, [])
unfolding new_authority sign_authority ecdsa_private_key new_template random_serial_number
    parse_uris sign authority_template new_authority_options
root_made = refl

root_signed : sign_authority tools none (new_authority_options clock clock) [] ≡ ok (authority, [])
unfolding sign_authority ecdsa_private_key new_template random_serial_number parse_uris sign
    authority_template new_authority_options
root_signed = refl

leaf_made :
    new_leaf tools authority (new_leaf_options clock clock (client_uri (codes "alice") ∷ [])) []
    ≡ ok ((alice_leaf, 0), [])
unfolding new_leaf ecdsa_private_key new_template random_serial_number parse_uris sign leaf_template
    new_leaf_options
leaf_made = refl

abbrev ca_text : Bytes
ca_text = pem_begin_marker ++ root_der

root_written :
    write_certificate tools (codes "/tmp") (codes "ca.crt") root []
    ≡ ok (codes "/tmp/ca.crt", ca_text)
unfolding write_certificate write_file certificate_pem
root_written = refl

root-IsPem : IsPem tools root_der
unfolding trim_space begin_markers count has_prefix
root-IsPem = (refl, refl, refl)

abbrev loaded : LoadedBundle
loaded = record { roots = root ∷ []; earliest_expiry = 286_400_000_000_000 }

authority_file-load_example :
    (uris : List Bytes) × (parse_uris tools (new_authority_options clock clock).uris ≡ ok uris)
    × ((load_trust_bundle (loader_at tools ca_text) (codes "/tmp/ca.crt") ≡ ok loaded) ↔ (
        ((new_authority_options clock clock).is_ca ≡ true)
        × (has_bit cert_sign_bit (new_authority_options clock clock).key_usage ≡ true)
        × IsHome uris
        × (loaded.roots ≡ root ∷ [])
        × (loaded.earliest_expiry ≡ whole_seconds (new_authority_options clock clock).not_after)))
authority_file-load_example =
    authority_file-load tools none (new_authority_options clock clock) (codes "/tmp")
      (codes "ca.crt") (codes "/tmp/ca.crt") [] [] [] ca_text authority loaded tools-IsFaithful
      tools-IsShorter root-IsPem tools-IsKept root_signed root_written

alice-IsAgentId : IsAgentId (codes "alice")
unfolding validate matches_class text_eq
alice-IsAgentId = (validate_iff (codes "alice")).0 refl

issued_leaf-authenticate_example :
    (b : Authenticator) × (line : AuditLine) × (new_authenticator
        (loader_at tools ca_text)
        window_check
        clock
        (codes "/tmp/ca.crt")
      ≡ ok (b, line))
    × (authenticate b (some alice_leaf ∷ []) ≡ ok (codes "alice"))
issued_leaf-authenticate_example =
    issued_leaf-authenticate tools window_check clock clock clock clock clock (codes "alice")
      (codes "/tmp") (codes "ca.crt") (codes "/tmp/ca.crt") [] [] [] ca_text [] [] authority
      alice_leaf 0 tools-IsFaithful tools-IsOnCurve tools-IsShorter root-IsPem tools-IsKept
      tools-Vouches refl alice-IsAgentId root_made root_written leaf_made (omega arith)
      (omega arith) (omega arith) (omega arith)

abbrev decoder : Decoder Bytes
decoder = record {
  read_file = λ path. ok [];
  unmarshal_object = λ content. ok ((codes "alice", role_user) ∷ []);
  unmarshal_string = λ raw. ok raw;
}

abbrev agents : List Bytes
agents = codes "alice" ∷ []

roles_written : write_roles tools agents [] ≡ ok (codes "/tmp/roles.json", codes "{}")
unfolding write_roles write_file
roles_written = refl

alice-IsNamed :
    (agent role : Bytes)
    → lookup agent (user_roles agents []) ≡ some role
    → IsNamed decoder agent ((codes "alice", role_user) ∷ [])
unfolding lookup insert user_roles
alice-IsNamed agent role h = elim (text_eq-cases (codes "alice") agent) [
  | inl (e, _) ↦ inl e
  | inr (_, f) ↦ absurd (ground arith)
]

roles-IsJson :
    IsJson
      (decoder_at tools decoder (codes "{}"))
      (Marshals tools decoder (user_roles agents []))
      (user_roles agents [])
unfolding lookup insert user_roles text_eq
roles-IsJson encoded h =
    ((codes "alice", role_user) ∷ [], refl, ((role_user, refl, refl), tt), alice-IsNamed)

roles_file-load_example :
    (a : Authorizer) × (load (decoder_at tools decoder (codes "{}")) (codes "/tmp/roles.json")
      ≡ ok a)
    × ((agent : Bytes) (action : Action) → (authorize a agent action ≡ ok tt) ↔ Memᴰ agent agents)
roles_file-load_example =
    roles_file-load tools decoder agents (codes "/tmp/roles.json") [] (codes "{}") tools-IsKept
      roles-IsJson (λ e. cc) (alice-IsAgentId, tt) roles_written
