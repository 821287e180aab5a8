-- ===== src/Authn/SpiffeId.antt =====
-- internal/authn/spiffeid/id.go.
pub mod Grammar
use fizzled_go.Prelude.{
  ℕ, ◌+◌, Bytes, codes, Bool, true, false, not, ◌&&◌, ◌||◌, List, [], ◌∷◌, ltb, leb, ◌==◌, length,
  drop, if◌then◌else◌, text_eq,
}
use fizzled_go.Prelude.Strings.{has_prefix, before, split, matches_class}
use fizzled_go.Errors.{
  Result, ok, err, ◌>>=◌, ◌>>◌, not_spiffe, id_too_long, trust_domain_too_long,
  invalid_trust_domain, invalid_path_component,
}

pub record SpiffeId : Type 0 where
  pub uri : Bytes
  pub trust_domain : Bytes
  pub path : Bytes

abbrev pub uri_scheme : Bytes
uri_scheme = codes "spiffe://"

abbrev pub max_id_length : ℕ
max_id_length = 2048

abbrev pub max_trust_domain_length : ℕ
max_trust_domain_length = 255

-- The classes of `validTrustDomainPattern` and `validPathComponentPattern`.
abbrev pub is_trust_domain_byte : ℕ → Bool
is_trust_domain_byte c =
    (leb b'a' c && leb c b'z')
    || (leb b'0' c && leb c b'9')
    || (c == b'.')
    || (c == b'_')
    || (c == b'-')

abbrev pub is_path_byte : ℕ → Bool
is_path_byte c = (leb b'A' c && leb c b'Z') || is_trust_domain_byte c

unfoldable pub validate_trust_domain : Bytes → Result (Unit {0})
validate_trust_domain trust_domain =
    if ltb max_trust_domain_length (length trust_domain)
    then err (trust_domain_too_long ∷ [])
    else if not (matches_class is_trust_domain_byte trust_domain)
    then err (invalid_trust_domain ∷ [])
    else ok tt

abbrev pub refuses_component : Bytes → Bool
refuses_component component =
    not (matches_class is_path_byte component)
    || text_eq component (codes ".")
    || text_eq component (codes "..")

-- The loop over the components.
unfoldable pub validate_components : List Bytes → Result (Unit {0})
validate_components [] = ok tt
validate_components (component ∷ components) =
    if refuses_component component
    then err (invalid_path_component ∷ [])
    else validate_components components

unfoldable pub validate_path : Bytes → Result (Unit {0})
validate_path [] = ok tt
validate_path (c ∷ path) = validate_components (split b'/' path)

-- `path[1:]` is taken of a path that is not empty.
unfoldable pub parse : Bytes → Result SpiffeId
parse uri =
    let trust_domain = before b'/' (drop (length uri_scheme) uri) in
    let path = drop (length uri_scheme + length trust_domain) uri in
    if not (has_prefix uri uri_scheme)
    then err (not_spiffe ∷ [])
    else if ltb max_id_length (length uri)
    then err (id_too_long ∷ [])
    else (do
      validate_trust_domain trust_domain
      validate_path path
      ok (record { uri = uri; trust_domain = trust_domain; path = path }))

-- `PathComponents`
unfoldable pub components_of : Bytes → List Bytes
components_of [] = []
components_of (c ∷ path) = split b'/' path

abbrev pub path_components : SpiffeId → List Bytes
path_components i = components_of i.path
