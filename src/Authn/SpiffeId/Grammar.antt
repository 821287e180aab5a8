-- ===== src/Authn/SpiffeId/Grammar.antt =====
-- What `parse` accepts: exactly the texts of a grammar of SPIFFE IDs, with their parts.
use fizzled_go.Prelude.{
  ℕ, zero, suc, ◌+◌, ◌==◌, ◌≡◌, ◌≢◌, ◌≤◌, ◌↔◌, refl, sym, ap, ◌∙◌, ◌⊎◌, inl, inr, Bytes, codes,
  true, false, List, [], ◌∷◌, ◌++◌, append-nil, arith, All, length, drop, drop-append, text_eq_iff,
  Bool-cases, ltb,
}
use fizzled_go.Prelude.Strings.{
  has_prefix, has_prefix-append, eq_of_has_prefix, before, before-append, before-all, before_drop,
  split, separated, separated-split, split-separated, Lacks, matches_class_iff,
}
use fizzled_go.Errors.{ok, ◌>>◌, bind-eq-ok, eq_of_ok_eq}
use fizzled_go.Authn.SpiffeId.{
  SpiffeId, uri_scheme, max_id_length, max_trust_domain_length, is_trust_domain_byte, is_path_byte,
  validate_trust_domain, validate_components, validate_path, refuses_component, parse,
  path_components, components_of,
}

abbrev pub IsTrustDomainByte : ℕ → Type 0
IsTrustDomainByte c =
    ((b'a' ≤ c) × (c ≤ b'z')) ⊎ ((b'0' ≤ c) × (c ≤ b'9')) ⊎ (c ≡ b'.') ⊎ (c ≡ b'_') ⊎ (c ≡ b'-')

abbrev pub IsPathByte : ℕ → Type 0
IsPathByte c = ((b'A' ≤ c) × (c ≤ b'Z')) ⊎ IsTrustDomainByte c

-- A trust domain is not empty, holds only its bytes, and is not too long.
abbrev pub IsTrustDomain : Bytes → Type 0
IsTrustDomain s = (s ≢ []) × All IsTrustDomainByte s × (length s ≤ max_trust_domain_length)

-- A component is not empty, holds only its bytes, and is no relative modifier.
abbrev pub IsComponent : Bytes → Type 0
IsComponent s = (s ≢ []) × All IsPathByte s × (s ≢ codes ".") × (s ≢ codes "..")

is_trust_domain_byte_iff : (c : ℕ) → (is_trust_domain_byte c ≡ true) ↔ IsTrustDomainByte c
is_trust_domain_byte_iff c = (λ h. ground arith, λ h. ground arith)

is_path_byte_iff : (c : ℕ) → (is_path_byte c ≡ true) ↔ IsPathByte c
is_path_byte_iff c = (λ h. ground arith, λ h. ground arith)

pub validate_trust_domain_iff : (s : Bytes) → (validate_trust_domain s ≡ ok tt) ↔ IsTrustDomain s
unfolding validate_trust_domain
validate_trust_domain_iff s =
    let fits =
      matches_class_iff is_trust_domain_byte IsTrustDomainByte is_trust_domain_byte_iff s in
    (
      λ h. ((fits.0 (ground arith)).0, (fits.0 (ground arith)).1, ground arith),
      λ h. ground (arith, fits.1 (h.0, h.1)),
    )

pub IsComponent-iff : (s : Bytes) → (refuses_component s ≡ false) ↔ IsComponent s
IsComponent-iff s =
    let fits = matches_class_iff is_path_byte IsPathByte is_path_byte_iff s in
    (
      λ h. (
        (fits.0 (ground arith)).0,
        (fits.0 (ground arith)).1,
        ground (arith, text_eq_iff s (codes ".")),
        ground (arith, text_eq_iff s (codes "..")),
      ),
      λ h. ground (arith, fits.1 (h.0, h.1), text_eq_iff s (codes "."), text_eq_iff s (codes "..")),
    )

validate_components_iff : (cs : List Bytes) → (validate_components cs ≡ ok tt) ↔ All IsComponent cs
unfolding validate_components
validate_components_iff [] = (λ h. tt, λ h. refl)
validate_components_iff (c ∷ cs) =
    let (to, from) = IsComponent-iff c in
    let (rest_to, rest_from) = validate_components_iff cs in
    (λ h. (to (ground arith), rest_to (ground arith)), λ h. ground (arith, from h.0, rest_from h.1))

-- What an identity and its path components are: the scheme, the trust domain and the components,
-- each behind a slash.
abbrev pub Denotes : SpiffeId → List Bytes → Type 0
Denotes i cs =
    (i.uri ≡ uri_scheme ++ (i.trust_domain ++ i.path))
    × (i.path ≡ separated b'/' cs)
    × IsTrustDomain i.trust_domain
    × All IsComponent cs
    × (length i.uri ≤ max_id_length)

slash_first :
    (s : Bytes)
    → (drop (length (before b'/' s)) s ≡ [])
      ⊎ ((t : Bytes) × (drop (length (before b'/' s)) s ≡ b'/' ∷ t))
unfolding before
slash_first [] = inl refl
slash_first (c ∷ s) = elim (Bool-cases (c == b'/')) [
  | inl same ↦ inr (s, ground arith)
  | inr other ↦ elim (slash_first s) [
    | inl none_left ↦ inl (ground arith)
    | inr (t, found) ↦ inr (t, ground arith)
  ]
]

-- The identity that `parse` builds of a text.
abbrev parts_of : Bytes → SpiffeId
parts_of uri = record {
  uri = uri;
  trust_domain = before b'/' (drop (length uri_scheme) uri);
  path = drop (length uri_scheme + length (before b'/' (drop (length uri_scheme) uri))) uri;
}

abbrev IsAccepted : Bytes → Type 0
IsAccepted uri =
    (has_prefix uri uri_scheme ≡ true)
    × (ltb max_id_length (length uri) ≡ false)
    × (validate_trust_domain (parts_of uri).trust_domain ≡ ok tt)
    × (validate_path (parts_of uri).path ≡ ok tt)

parse-ok : (uri : Bytes) (i : SpiffeId) → parse uri ≡ ok i → IsAccepted uri × (i ≡ parts_of uri)
unfolding parse
parse-ok uri i h = elim (Bool-cases (has_prefix uri uri_scheme)) [
  | inr other ↦ absurd (ground arith)
  | inl schemed ↦ elim (Bool-cases (ltb max_id_length (length uri))) [
    | inl long ↦ absurd (ground arith)
    | inr short ↦
        let (a, h1, k1) =
          bind-eq-ok (validate_trust_domain (parts_of uri).trust_domain)
            (λ _. validate_path (parts_of uri).path >> ok (parts_of uri)) (ground arith) in
        let (b, h2, k2) =
          bind-eq-ok (validate_path (parts_of uri).path) (λ _. ok (parts_of uri)) k1 in
        ((schemed, short, h1, h2), sym (eq_of_ok_eq k2))
  ]
]

parse-accepted : (uri : Bytes) → IsAccepted uri → parse uri ≡ ok (parts_of uri)
unfolding parse
parse-accepted uri (a, b, c, d) = rw (a, b, c, d)

components_of-separated :
    (s : Bytes)
    → let path = drop (length (before b'/' s)) s in separated b'/' (components_of path) ≡ path
unfolding components_of separated
components_of-separated s = elim (slash_first s) [
  | inl none_left ↦ rw none_left
  | inr (t, found) ↦ rw (found) (separated-split b'/' t)
]

suc_add : (m n : ℕ) → suc m + n ≡ suc (m + n)
suc_add m n = omega arith

drop_nil : (n : ℕ) → drop {A = ℕ} n [] ≡ []
drop_nil zero = refl
drop_nil (suc n) = refl

drop_twice : (m n : ℕ) (s : Bytes) → drop (m + n) s ≡ drop n (drop m s)
drop_twice zero n s = ap (λ k. drop k s) (omega arith)
drop_twice (suc m) n [] = ap (λ k. drop k []) (suc_add m n) ∙ sym (drop_nil n)
drop_twice (suc m) n (c ∷ s) = ap (λ k. drop k (c ∷ s)) (suc_add m n) ∙ drop_twice m n s

path_byte_Lacks : (s : Bytes) → All IsPathByte s → Lacks b'/' s
path_byte_Lacks [] h = tt
path_byte_Lacks (c ∷ s) (h, hs) = (λ e. ground arith, path_byte_Lacks s hs)

domain_byte_Lacks : (s : Bytes) → All IsTrustDomainByte s → Lacks b'/' s
domain_byte_Lacks [] h = tt
domain_byte_Lacks (c ∷ s) (h, hs) = (λ e. ground arith, domain_byte_Lacks s hs)

components-Lacks : (cs : List Bytes) → All IsComponent cs → All (Lacks b'/') cs
components-Lacks [] h = tt
components-Lacks (c ∷ cs) (h, hs) = (path_byte_Lacks c h.1, components-Lacks cs hs)

before-separated :
    (s : Bytes) (cs : List Bytes) → Lacks b'/' s → before b'/' (s ++ separated b'/' cs) ≡ s
unfolding separated
before-separated s [] h = ap (before b'/') (append-nil s) ∙ before-all b'/' s h
before-separated s (c ∷ cs) h = before-append b'/' s (c ++ separated b'/' cs) h

validate_path_iff :
    (path : Bytes) → (validate_path path ≡ ok tt) ↔ All IsComponent (components_of path)
unfolding validate_path components_of
validate_path_iff [] = (λ h. tt, λ h. refl)
validate_path_iff (c ∷ path) = validate_components_iff (split b'/' path)

components_of_separated_lem :
    (cs : List Bytes) → All (Lacks b'/') cs → components_of (separated b'/' cs) ≡ cs
unfolding components_of separated
components_of_separated_lem [] h = refl
components_of_separated_lem (c ∷ cs) h = split-separated b'/' c cs h

parts_of-uri :
    (uri : Bytes)
    → has_prefix uri uri_scheme ≡ true
    → uri ≡ uri_scheme ++ ((parts_of uri).trust_domain ++ (parts_of uri).path)
parts_of-uri uri h =
    let rest = drop (length uri_scheme) uri in
    eq_of_has_prefix uri uri_scheme h
    ∙ ap (λ t. uri_scheme ++ t)
        (before_drop b'/' rest
          ∙ ap (λ t. before b'/' rest ++ t)
              (sym (drop_twice (length uri_scheme) (length (before b'/' rest)) uri)))

path_parts :
    (uri : Bytes) → (parts_of uri).path ≡ separated b'/' (components_of (parts_of uri).path)
path_parts uri =
    let rest = drop (length uri_scheme) uri in
    rw (drop_twice (length uri_scheme) (length (before b'/' rest)) uri)
      (sym (components_of-separated rest))

-- The parts of a text made of a trust domain and components are these.
parts_of_made :
    (uri domain path : Bytes) (cs : List Bytes)
    → uri ≡ uri_scheme ++ (domain ++ path)
    → path ≡ separated b'/' cs
    → Lacks b'/' domain
    → parts_of uri ≡ record { uri = uri; trust_domain = domain; path = path }
parts_of_made uri domain path cs whole parted lacks =
    let rest : drop (length uri_scheme) uri ≡ domain ++ path =
      ap (drop (length uri_scheme)) whole ∙ drop-append uri_scheme (domain ++ path) in
    let found : before b'/' (drop (length uri_scheme) uri) ≡ domain =
      rw (rest, parted) (before-separated domain cs lacks) in
    let left : drop (length uri_scheme + length domain) uri ≡ path =
      drop_twice (length uri_scheme) (length domain) uri
      ∙ ap (drop (length domain)) rest
      ∙ drop-append domain path in
    rw (found, left)

-- A text that `parse` accepts is the scheme, a trust domain and path components, each in its
-- alphabet, and is not too long; the parsed identity keeps the text, and these parts are its own.
pub parse_sound :
    (uri : Bytes) (i : SpiffeId) → parse uri ≡ ok i → (i.uri ≡ uri) × Denotes i (path_components i)
parse_sound uri i h =
    let ((schemed, short, domain, path), e) = parse-ok uri i h in
    rw e (
      refl,
      (
        parts_of-uri uri schemed,
        path_parts uri,
        (validate_trust_domain_iff (parts_of uri).trust_domain).0 domain,
        (validate_path_iff (parts_of uri).path).0 path,
        ground arith,
      ),
    )

-- Every text of the grammar is accepted, and parses to the identity and the components that it
-- was made of.
pub parse_complete :
    (i : SpiffeId) (cs : List Bytes)
    → Denotes i cs
    → (parse i.uri ≡ ok i) × (path_components i ≡ cs)
parse_complete i cs (whole, path, domain, components, fits) =
    let lacks = domain_byte_Lacks i.trust_domain domain.1 in
    let parts = parts_of_made i.uri i.trust_domain i.path cs whole path lacks in
    let kept : path_components i ≡ cs =
      rw path (components_of_separated_lem cs (components-Lacks cs components)) in
    let accepted : IsAccepted i.uri = (
      rw whole (has_prefix-append uri_scheme (i.trust_domain ++ i.path)),
      ground arith,
      ap (λ j. validate_trust_domain j.trust_domain) parts
          ∙ (validate_trust_domain_iff i.trust_domain).1 domain,
      ap (λ j. validate_path j.path) parts ∙ (validate_path_iff i.path).1 (rw kept components),
    ) in
    (parse-accepted i.uri accepted ∙ ap ok parts, kept)
