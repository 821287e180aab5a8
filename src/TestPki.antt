-- ===== src/TestPki.antt =====
-- internal/testpki: the authorities, leaves and files that the tests are written against. The fields
-- that `newTemplate` and `newName` leave zero throughout are left out.
pub mod Documented
pub mod Issued
pub mod Roots
pub mod Leaves
pub mod Admitted
pub mod Roles
pub mod Examples
use fizzled_go.Prelude.{
  ℕ, ◌+◌, ◌-◌, ◌^◌, Bytes, codes, Bool, true, false, Option, none, some, List, [], ◌∷◌,
  if◌then◌else◌,
}
use fizzled_go.Prelude.Assoc.{Assoc, insert}
use fizzled_go.Errors.{Result, ok, ◌>>=◌}
use fizzled_go.Authn.Certificate.{
  Certificate, Curve, p256, PublicKey, other_key, ExtKeyUsage, server_auth, client_auth,
}
use fizzled_go.Authn.Loader.{Block, KeyPair, Loader}
use fizzled_go.Authn.TrustBundle.{certificate_pem_type}
use fizzled_go.Authz.{role_user}

-- `Authority`, whose key is of some type.
pub record Authority (Key : Type 0) : Type 0 where
  pub certificate : Certificate
  pub key : Key

-- The fields of a template that `signAuthority` and `NewLeaf` may fill in; `fields` are the ones that
-- a Certificate has.
pub record Template : Type 0 where
  pub fields : Certificate
  pub common_name : Bytes
  pub basic_constraints_valid : Bool

-- The parent of a certificate: its own template, or a certificate.
pub data Issuer : Type 0 where
  itself : Issuer
  issued_by : Certificate → Issuer

-- What the package calls: crypto/ecdsa, crypto/rsa, crypto/rand, crypto/x509, encoding/pem,
-- encoding/json, net/url, path/filepath, os, and the temporary directories of package testing. `S` is
-- what a call may change, the random source and the files. A parsed URL is given as the text of it,
-- a mode as its bits, and the public half of a key by the key.
pub record Tools (S Key : Type 0) : Type 0 where
  pub generate_ecdsa : Curve → S → Result (Key × S)
  pub generate_rsa : ℕ → S → Result (Key × S)
  -- The dynamic type of the public half of a key.
  pub public_type : Key → PublicKey
  pub random_below : ℕ → S → Result (ℕ × S)
  pub parse_url : Bytes → Result Bytes
  -- The template, the parent, the key that is certified and the key that signs.
  pub create_certificate : Template → Issuer → Key → Key → S → Result (Bytes × S)
  pub parse_certificate : Bytes → Result Certificate
  pub marshal_key : Key → Result Bytes
  pub encode_to_memory : Block → Bytes
  pub decode : Bytes → Option (Block × Bytes)
  pub marshal_roles : Assoc Bytes → Result Bytes
  pub join : Bytes → Bytes → Bytes
  pub temp_dir : S → Result (Bytes × S)
  pub write : Bytes → Bytes → (mode : ℕ) → S → Result S
  pub read_file : S → Bytes → Result Bytes
  pub load_key_pair : S → Bytes → Bytes → Result KeyPair

-- `AuthorityOptions`
pub record AuthorityOptions : Type 0 where
  pub uris : List Bytes
  pub is_ca : Bool
  pub key_usage : ℕ
  pub not_before : ℕ
  pub not_after : ℕ

-- `LeafOptions`
pub record LeafOptions : Type 0 where
  pub uris : List Bytes
  pub is_ca : Bool
  pub key_usage : ℕ
  pub ext_key_usage : List ExtKeyUsage
  pub curve : Curve
  pub use_rsa : Bool
  pub not_before : ℕ
  pub not_after : ℕ

abbrev pub private_key_pem_type : Bytes
private_key_pem_type = codes "PRIVATE KEY"

-- 0o600
abbrev pub key_file_mode : ℕ
key_file_mode = 384

abbrev pub rsa_bits : ℕ
rsa_bits = 2048

abbrev pub serial_number_bits : ℕ
serial_number_bits = 128

-- A day and an hour in nanoseconds.
abbrev pub authority_validity : ℕ
authority_validity = 86_400_000_000_000

abbrev pub leaf_validity : ℕ
leaf_validity = 3_600_000_000_000

-- `NewAuthorityOptions`, which reads the clock twice: KeyUsageCertSign and KeyUsageCRLSign are the
-- bits 5 and 6. The present is later than the first day of the origin.
unfoldable pub new_authority_options : ℕ → ℕ → AuthorityOptions
new_authority_options now later = record {
  uris = [];
  is_ca = true;
  key_usage = 2 ^ 5 + 2 ^ 6;
  not_before = now - authority_validity;
  not_after = later + authority_validity;
}

-- `NewLeafOptions`, which reads the clock twice: KeyUsageDigitalSignature is the bit 0.
unfoldable pub new_leaf_options : ℕ → ℕ → List Bytes → LeafOptions
new_leaf_options now later uris = record {
  uris = uris;
  is_ca = false;
  key_usage = 2 ^ 0;
  ext_key_usage = server_auth ∷ client_auth ∷ [];
  curve = p256;
  use_rsa = false;
  not_before = now - leaf_validity;
  not_after = later + leaf_validity;
}

-- The template of `newTemplate` with a serial number; a nil public key has no dynamic type.
abbrev pub zero_template : ℕ → Template
zero_template serial = record {
  fields = record {
    raw = [];
    serial = serial;
    is_ca = false;
    key_usage = 0;
    ext_key_usage = [];
    public_key = other_key;
    uris = [];
    not_before = 0;
    not_after = 0;
  };
  common_name = [];
  basic_constraints_valid = false;
}

-- The template that `signAuthority` has filled in.
unfoldable pub authority_template : Template → AuthorityOptions → List Bytes → Template
authority_template t opts uris = record t {
  fields = record t.fields {
    not_before = opts.not_before;
    not_after = opts.not_after;
    is_ca = opts.is_ca;
    key_usage = opts.key_usage;
    uris = uris;
  };
  common_name = codes "test authority";
  basic_constraints_valid = true;
}

-- The template that `NewLeaf` has filled in.
unfoldable pub leaf_template : Template → LeafOptions → List Bytes → Template
leaf_template t opts uris = record t {
  fields = record t.fields {
    not_before = opts.not_before;
    not_after = opts.not_after;
    is_ca = opts.is_ca;
    key_usage = opts.key_usage;
    ext_key_usage = opts.ext_key_usage;
    uris = uris;
  };
  basic_constraints_valid = true;
}

-- The map that `WriteRoles` makes of the agents, entered in their order.
unfoldable pub user_roles : List Bytes → Assoc Bytes → Assoc Bytes
user_roles [] roles = roles
user_roles (agent ∷ agents) roles = user_roles agents (insert agent role_user roles)

-- Where the source calls tb.Fatalf the result is the error that it reports.
module _ {S Key : Type 0} (tools : Tools S Key) where
  -- `randomSerialNumber`
  unfoldable pub random_serial_number : S → Result (ℕ × S)
  random_serial_number s = tools.random_below (2 ^ serial_number_bits) s

  -- `newTemplate`
  unfoldable pub new_template : S → Result (Template × S)
  new_template s = do (serial, s) ← random_serial_number s; ok (zero_template serial, s)

  -- `ecdsaPrivateKey` and `rsaPrivateKey`
  unfoldable pub ecdsa_private_key : Curve → S → Result (Key × S)
  ecdsa_private_key curve s = tools.generate_ecdsa curve s

  unfoldable pub rsa_private_key : S → Result (Key × S)
  rsa_private_key s = tools.generate_rsa rsa_bits s

  -- `parseURIs`
  unfoldable pub parse_uris : List Bytes → Result (List Bytes)
  parse_uris [] = ok []
  parse_uris (each ∷ raw) = do uri ← tools.parse_url each; uris ← parse_uris raw; ok (uri ∷ uris)

  -- `sign`
  unfoldable pub sign : Template → Issuer → Key → Key → S → Result (Certificate × S)
  sign template parent public_key signer_key s = do
    (der, s) ← tools.create_certificate template parent public_key signer_key s
    certificate ← tools.parse_certificate der
    ok (certificate, s)

  -- The certificate and the key that sign, when the parent is nil and when it is not.
  abbrev pub signer_of : Key → Option (Authority Key) → Issuer × Key
  signer_of key none = (itself, key)
  signer_of key (some parent) = (issued_by parent.certificate, parent.key)

  -- `signAuthority`
  unfoldable pub sign_authority :
      Option (Authority Key) → AuthorityOptions → S → Result (Authority Key × S)
  sign_authority parent opts s = do
    (key, s) ← ecdsa_private_key p256 s
    (template, s) ← new_template s
    uris ← parse_uris opts.uris
    (certificate, s) ←
        sign (authority_template template opts uris) (signer_of key parent).0 key
          (signer_of key parent).1 s
    ok (record { certificate = certificate; key = key }, s)

  -- `NewAuthority`
  unfoldable pub new_authority : AuthorityOptions → S → Result (Authority Key × S)
  new_authority opts s = sign_authority none opts s

  -- `NewIntermediate`
  unfoldable pub new_intermediate :
      Authority Key → AuthorityOptions → S → Result (Authority Key × S)
  new_intermediate parent opts s = sign_authority (some parent) opts s

  -- The key that a leaf is issued to.
  abbrev pub leaf_key : LeafOptions → S → Result (Key × S)
  leaf_key opts s = if opts.use_rsa then rsa_private_key s else ecdsa_private_key opts.curve s

  -- `NewLeaf`
  unfoldable pub new_leaf : Authority Key → LeafOptions → S → Result ((Certificate × Key) × S)
  new_leaf parent opts s = do
    (template, s) ← new_template s
    uris ← parse_uris opts.uris
    (key, s) ← leaf_key opts s
    (certificate, s) ←
        sign (leaf_template template opts uris) (issued_by parent.certificate) key parent.key s
    ok ((certificate, key), s)

  -- `CertificatePEM`
  unfoldable pub certificate_pem : Certificate → Bytes
  certificate_pem certificate =
      tools.encode_to_memory
        (record { block_type = certificate_pem_type; headers = []; bytes = certificate.raw })

  -- `WriteFile`: the path of the file, and what it leaves.
  unfoldable pub write_file : Bytes → Bytes → Bytes → S → Result (Bytes × S)
  write_file dir name content s = do
    s ← tools.write (tools.join dir name) content key_file_mode s
    ok (tools.join dir name, s)

  -- `WriteCertificate`
  unfoldable pub write_certificate : Bytes → Bytes → Certificate → S → Result (Bytes × S)
  write_certificate dir name certificate s = write_file dir name (certificate_pem certificate) s

  -- `WriteKey`
  unfoldable pub write_key : Bytes → Bytes → Key → S → Result (Bytes × S)
  write_key dir name key s = do
    der ← tools.marshal_key key
    write_file dir name
        (tools.encode_to_memory
          (record { block_type = private_key_pem_type; headers = []; bytes = der }))
        s

  -- `NewLeafFiles`
  unfoldable pub new_leaf_files : Authority Key → LeafOptions → S → Result ((Bytes × Bytes) × S)
  new_leaf_files parent opts s = do
    (dir, s) ← tools.temp_dir s
    ((certificate, key), s) ← new_leaf parent opts s
    (certificate_path, s) ← write_certificate dir (codes "certificate.crt") certificate s
    (key_path, s) ← write_key dir (codes "private-key.key") key s
    ok ((certificate_path, key_path), s)

  -- `WriteRoles`
  unfoldable pub write_roles : List Bytes → S → Result (Bytes × S)
  write_roles agents s = do
    encoded ← tools.marshal_roles (user_roles agents [])
    (dir, s) ← tools.temp_dir s
    write_file dir (codes "roles.json") encoded s

  -- What a reader of files finds after the calls that have left `s`.
  unfoldable pub loader_at : S → Loader
  loader_at s = record {
    read_file = tools.read_file s;
    decode = tools.decode;
    parse_certificate = tools.parse_certificate;
    load_key_pair = tools.load_key_pair s;
  }
