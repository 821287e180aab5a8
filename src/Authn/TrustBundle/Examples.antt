-- ===== src/Authn/TrustBundle/Examples.antt =====
-- A trust bundle of two roots, on which the theorems about internal/authn/trustbundle.go apply. A
-- block of it is the begin marker and one byte, which stands for a certificate.
use mathlib.Core.List.{Mem}
use fizzled_go.Prelude.{
  ℕ, ◌≤◌, ◌<◌, ◌≡◌, ◌≢◌, ◌↔◌, refl, ap, Bytes, codes, true, Option, none, some, [], ◌∷◌, length,
  take, drop, length-drop, All, arith, text_eq, if◌then◌else◌, eq_of_some_eq,
}
use fizzled_go.Prelude.Assoc.{lookup, insert}
use fizzled_go.Prelude.Strings.{has_prefix}
use fizzled_go.Errors.{ok}
use fizzled_go.Authn.Certificate.{Certificate, other_key}
use fizzled_go.Authn.Loader.{Block, Loader}
use fizzled_go.Authn.X509svid.{validate_signing_certificate, signing_spiffe_id}
use fizzled_go.Authn.Examples.{alice_certificate, server_certificate}
use fizzled_go.Authn.TrustBundle.Space.{trim_space}
use fizzled_go.Authn.TrustBundle.Rounds.{Shrinks}
use fizzled_go.Authn.TrustBundle.Anchors.{Distinct, parse_trust_bundle-Anchors}
use fizzled_go.Authn.TrustBundle.Blocks.{IsAnchor}
use fizzled_go.Authn.TrustBundle.Expiry.{earliest_expiry-least, expiry_from}
use fizzled_go.Authn.TrustBundle.Reads.{Reads, parse_trust_bundle_iff}
use fizzled_go.Authn.TrustBundle.{
  LoadedBundle, add_root, begin_markers, bundle_certificate, bundle_of, count, decode_block,
  is_seen, parse_trimmed, parse_trust_bundle, read_blocks, sooner, certificate_pem_type,
}

-- A signing certificate without a URI, that expires when its byte says.
abbrev pub root : Bytes → ℕ → Certificate
root raw not_after = record {
  raw = raw;
  serial = 7;
  is_ca = true;
  key_usage = 32;
  ext_key_usage = [];
  public_key = other_key;
  uris = [];
  not_before = 0;
  not_after = not_after;
}

abbrev root_of : Bytes → Certificate
root_of [] = root [] 1
root_of (c ∷ s) = root (c ∷ s) c

abbrev block_at : Bytes → Option (Block × Bytes)
block_at [] = none
block_at (c ∷ s) = some (
  record { block_type = certificate_pem_type; headers = []; bytes = take 1 (drop 10 s) },
  drop 11 s,
)

abbrev certificate_for : Bytes → Certificate
certificate_for der =
    if text_eq der (codes "alice")
    then alice_certificate
    else if text_eq der (codes "server")
    then server_certificate
    else root_of der

abbrev pub bundle_text : Bytes
bundle_text = codes "\n-----BEGIN b\n-----BEGIN a\n"

-- A path of a certificate names its one encoding.
abbrev pub loader : Loader
loader = record {
  read_file = λ path. ok bundle_text;
  decode = block_at;
  parse_certificate = λ der. ok (certificate_for der);
  load_key_pair = λ cert key. ok (record { der = cert ∷ []; private_key = key });
}

block_at-shrinks :
    (text : Bytes) (block : Block) (remainder : Bytes)
    → block_at text ≡ some (block, remainder)
    → length remainder < length text
block_at-shrinks [] block remainder e = absurd (cc)
block_at-shrinks (c ∷ s) block remainder e =
    omega (arith, length-drop 11 s, ap length (ap (λ p. p.1) (eq_of_some_eq e)))

pub loader-Shrinks : Shrinks loader
loader-Shrinks = block_at-shrinks

abbrev pub loaded : LoadedBundle
loaded = record { roots = root (codes "b") 98 ∷ root (codes "a") 97 ∷ []; earliest_expiry = 97 }

pub parsed : parse_trust_bundle loader bundle_text ≡ ok loaded
unfolding parse_trust_bundle parse_trimmed trim_space read_blocks decode_block bundle_certificate
    validate_signing_certificate signing_spiffe_id add_root is_seen lookup insert text_eq sooner
    bundle_of begin_markers count has_prefix
parsed = refl

parse_trust_bundle-Anchors_example :
    (loaded.roots ≢ [])
    × (length loaded.roots ≡ begin_markers (trim_space bundle_text))
    × Distinct loaded.roots
    × All IsAnchor loaded.roots
parse_trust_bundle-Anchors_example = parse_trust_bundle-Anchors loader bundle_text parsed

late : All (λ c. 0 < c.not_after) loaded.roots
late = (omega arith, (omega arith, tt))

earliest_expiry-least_example :
    All (λ c. loaded.earliest_expiry ≤ c.not_after) loaded.roots
    × ((c : Certificate) × Mem c loaded.roots × (c.not_after ≡ loaded.earliest_expiry))
earliest_expiry-least_example = earliest_expiry-least loader bundle_text parsed late

parse_trust_bundle_iff_example : (parse_trust_bundle loader bundle_text ≡ ok loaded) ↔ (
    Reads loader (trim_space bundle_text) loaded.roots
    × Distinct loaded.roots
    × (loaded.roots ≢ [])
    × (length loaded.roots ≡ begin_markers (trim_space bundle_text))
    × (loaded.earliest_expiry ≡ expiry_from 0 loaded.roots))
parse_trust_bundle_iff_example = parse_trust_bundle_iff loader bundle_text loaded loader-Shrinks
