-- ===== src/Authn/TrustBundle.antt =====
-- internal/authn/trustbundle.go. Reading the file, decoding one PEM block and parsing a certificate
-- are fields of a `Loader`. The texts of the errors, with the ordinal of a block, are not modelled.
pub mod Space
pub mod Rounds
pub mod Anchors
pub mod Expiry
pub mod Blocks
pub mod Reads
pub mod Examples
use fizzled_go.Prelude.{
  ℕ, zero, suc, ◌+◌, ◌==◌, Bytes, codes, Bool, true, false, not, ◌&&◌, ◌||◌, Option, none, some,
  List, [], ◌∷◌, ◌++◌, length, ltb, if◌then◌else◌, text_eq,
}
use fizzled_go.Prelude.Assoc.{Assoc, lookup, insert}
use fizzled_go.Prelude.Strings.{has_prefix}
use fizzled_go.Errors.{
  Result, ok, err, ◌>>=◌, ◌>>◌, empty_trust_bundle, bundle_not_certificate,
  bundle_block_has_headers, bundle_unexpected_data, bundle_block_dropped,
  bundle_duplicate_certificate, wrong_trust_domain,
}
use fizzled_go.Authn.Certificate.{Certificate}
use fizzled_go.Authn.Loader.{Block, Loader}
use fizzled_go.Authn.SpiffeId.{SpiffeId}
use fizzled_go.Authn.X509svid.{validate_signing_certificate}
use fizzled_go.Authn.Identity.{trust_domain}
use Space.{trim_space}

-- `loadedBundle`. A time is in nanoseconds from Go's zero time, which is 0.
pub record LoadedBundle : Type 0 where
  pub roots : List Certificate
  pub earliest_expiry : ℕ

abbrev pub certificate_pem_type : Bytes
certificate_pem_type = codes "CERTIFICATE"

abbrev pub pem_begin_marker : Bytes
pem_begin_marker = codes "-----BEGIN "

-- A SPIFFE ID that a root carries is in the trust domain of the program.
abbrev pub home_domain : Option SpiffeId → Result (Unit {0})
home_domain none = ok tt
home_domain (some i) =
    if not (text_eq i.trust_domain trust_domain) then err (wrong_trust_domain ∷ []) else ok tt

abbrev pub has_headers : Assoc Bytes → Bool
has_headers [] = false
has_headers (h ∷ hs) = true

-- `bundleCertificate`
unfoldable pub bundle_certificate : Loader → Block → Result Certificate
bundle_certificate l block =
    if not (text_eq block.block_type certificate_pem_type)
    then err (bundle_not_certificate ∷ [])
    else if has_headers block.headers
    then err (bundle_block_has_headers ∷ [])
    else do
      certificate ← l.parse_certificate block.bytes
      found ← validate_signing_certificate certificate
      home_domain found
      ok certificate

abbrev pub certificate_of : Loader → Option (Block × Bytes) → Result (Certificate × Bytes)
certificate_of l none = err (bundle_block_dropped ∷ [])
certificate_of l (some (block, remainder)) = do
  certificate ← bundle_certificate l block
  ok (certificate, remainder)

-- `decodeBlock`
unfoldable pub decode_block : Loader → Bytes → Result (Certificate × Bytes)
decode_block l rest =
    if not (has_prefix rest pem_begin_marker)
    then err (bundle_unexpected_data ∷ [])
    else certificate_of l (l.decode rest)

-- bytes.Count(text, sep), for a separator that cannot overlap itself: of `\n-----BEGIN ` only the
-- first byte is a line feed.
unfoldable pub count : Bytes → Bytes → ℕ
count [] sep = 0
count (c ∷ text) sep =
    let more = count text sep in if has_prefix (c ∷ text) sep then suc more else more

-- `beginMarkers`
unfoldable pub begin_markers : Bytes → ℕ
begin_markers trimmed =
    let inner = count trimmed (b'\n' ∷ pem_begin_marker) in
    if has_prefix trimmed pem_begin_marker then inner + 1 else inner

-- The variables of the loop of `parseTrustBundle`, but for `rest`.
pub record Reading : Type 0 where
  pub roots : List Certificate
  pub earliest_expiry : ℕ
  pub seen : Assoc Bool

-- A missing key reads as false.
abbrev pub or_false : Option Bool → Bool
or_false none = false
or_false (some b) = b

unfoldable pub is_seen : Bytes → Assoc Bool → Bool
is_seen raw seen = or_false (lookup raw seen)

unfoldable pub sooner : ℕ → ℕ → ℕ
sooner earliest not_after = if earliest == 0 || ltb not_after earliest then not_after else earliest

-- The body of the loop behind `decodeBlock`.
unfoldable pub add_root : Certificate → Reading → Result Reading
add_root c r =
    if is_seen c.raw r.seen
    then err (bundle_duplicate_certificate ∷ [])
    else ok (record {
      roots = r.roots ++ (c ∷ []);
      earliest_expiry = sooner r.earliest_expiry c.not_after;
      seen = insert c.raw true r.seen;
    })

-- The loop, on fuel: a round for each byte is enough, since each round uses some up.
unfoldable pub read_blocks : Loader → ℕ → Bytes → Reading → Result Reading
read_blocks l zero rest r = ok r
read_blocks l (suc fuel) [] r = ok r
read_blocks l (suc fuel) (b ∷ rest) r = do
  (certificate, remainder) ← decode_block l (b ∷ rest)
  next ← add_root certificate r
  read_blocks l fuel (trim_space remainder) next

abbrev pub no_reading : Reading
no_reading = record { roots = []; earliest_expiry = 0; seen = [] }

-- The checks behind the loop.
unfoldable pub bundle_of : Bytes → Reading → Result LoadedBundle
bundle_of trimmed r =
    if length r.roots == 0
    then err (empty_trust_bundle ∷ [])
    else if not (length r.roots == begin_markers trimmed)
    then err (bundle_block_dropped ∷ [])
    else ok (record { roots = r.roots; earliest_expiry = r.earliest_expiry })

unfoldable pub parse_trimmed : Loader → Bytes → Result LoadedBundle
parse_trimmed l trimmed = read_blocks l (length trimmed) trimmed no_reading >>= bundle_of trimmed

-- `parseTrustBundle`
unfoldable pub parse_trust_bundle : Loader → Bytes → Result LoadedBundle
parse_trust_bundle l raw = parse_trimmed l (trim_space raw)

-- `loadTrustBundle`; cleaning the path is left to `read_file`.
unfoldable pub load_trust_bundle : Loader → Bytes → Result LoadedBundle
load_trust_bundle l path = l.read_file path >>= parse_trust_bundle l
