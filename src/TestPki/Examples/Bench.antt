-- ===== src/TestPki/Examples/Bench.antt =====
-- Concrete tools for internal/testpki: they keep the last file alone, a key is a number, and an
-- encoding is the list of what a certificate is read back from.
use fizzled_go.Prelude.{
  ℕ, suc, zero, ◌≡◌, refl, sym, ap, ◌∙◌, Bytes, codes, Bool, true, false, ◌&&◌, ◌==◌, leb, Option,
  none, some, List, [], ◌∷◌, ◌++◌, length, drop, arith, eq_of_some_eq, inl, inr, Option-cases,
  if◌then◌else◌,
}
use fizzled_go.Errors.{Result, ok, err, foreign, eq_of_ok_eq}
use fizzled_go.Authn.Certificate.{
  Certificate, Curve, ExtKeyUsage, PublicKey, ecdsa, other_key, p256, other_curve, server_auth,
  client_auth, other_usage,
}
use fizzled_go.Authn.Loader.{Block}
use fizzled_go.Authn.X509svid.{ChainCheck}
use fizzled_go.Authn.TrustBundle.{certificate_pem_type, pem_begin_marker}
use fizzled_go.TestPki.Documented.{whole_seconds, IsFaithful, IsOnCurve, IsShorter, IsKept, Vouches}
use fizzled_go.TestPki.{Tools, Template}

-- The usages and the URIs that the two kinds of options have by default: an authority's, and a
-- leaf's with one URI.
abbrev no_uris : List Bytes → Option Bytes
no_uris [] = some []
no_uris (u ∷ us) = none

abbrev one_uri : List Bytes → Option Bytes
one_uri [] = none
one_uri (u ∷ []) = some (0 ∷ u)
one_uri (u ∷ v ∷ us) = none

abbrev rest_code : List ExtKeyUsage → List Bytes → Option Bytes
rest_code [] uris = no_uris uris
rest_code (server_auth ∷ client_auth ∷ []) uris = one_uri uris
rest_code (server_auth ∷ client_auth ∷ u ∷ us) uris = none
rest_code (server_auth ∷ server_auth ∷ us) uris = none
rest_code (server_auth ∷ other_usage n ∷ us) uris = none
rest_code (server_auth ∷ []) uris = none
rest_code (client_auth ∷ us) uris = none
rest_code (other_usage n ∷ us) uris = none

abbrev usages_of : Bytes → List ExtKeyUsage
usages_of [] = []
usages_of (c ∷ uri) = server_auth ∷ client_auth ∷ []

abbrev uris_of : Bytes → List Bytes
uris_of [] = []
uris_of (c ∷ uri) = uri ∷ []

abbrev ReadsAs : List ExtKeyUsage → List Bytes → Bytes → Type 0
ReadsAs usages uris code = (usages_of code ≡ usages) × (uris_of code ≡ uris)

no_uris-ReadsAs :
    (uris : List Bytes) (code : Bytes) → no_uris uris ≡ some code → ReadsAs [] uris code
no_uris-ReadsAs [] code h = rw (sym (eq_of_some_eq h)) (refl, refl)
no_uris-ReadsAs (u ∷ us) code h = absurd (cc)

one_uri-ReadsAs :
    (uris : List Bytes) (code : Bytes)
    → one_uri uris ≡ some code
    → ReadsAs (server_auth ∷ client_auth ∷ []) uris code
one_uri-ReadsAs [] code h = absurd (cc)
one_uri-ReadsAs (u ∷ []) code h = rw (sym (eq_of_some_eq h)) (refl, refl)
one_uri-ReadsAs (u ∷ v ∷ us) code h = absurd (cc)

rest_code-ReadsAs :
    (usages : List ExtKeyUsage) (uris : List Bytes) (code : Bytes)
    → rest_code usages uris ≡ some code
    → ReadsAs usages uris code
rest_code-ReadsAs [] uris code h = no_uris-ReadsAs uris code h
rest_code-ReadsAs (server_auth ∷ client_auth ∷ []) uris code h = one_uri-ReadsAs uris code h
rest_code-ReadsAs (server_auth ∷ client_auth ∷ u ∷ us) uris code h = absurd (cc)
rest_code-ReadsAs (server_auth ∷ server_auth ∷ us) uris code h = absurd (cc)
rest_code-ReadsAs (server_auth ∷ other_usage n ∷ us) uris code h = absurd (cc)
rest_code-ReadsAs (server_auth ∷ []) uris code h = absurd (cc)
rest_code-ReadsAs (client_auth ∷ us) uris code h = absurd (cc)
rest_code-ReadsAs (other_usage n ∷ us) uris code h = absurd (cc)

abbrev type_of : ℕ → PublicKey
type_of zero = ecdsa p256
type_of (suc zero) = ecdsa other_curve
type_of (suc (suc n)) = other_key

abbrev key_on : Curve → ℕ
key_on p256 = 0
key_on other_curve = 1

abbrev flag : Bool → ℕ
flag false = 0
flag true = 1

abbrev encoding : Template → ℕ → Bytes → Bytes
encoding t key code =
    flag (t.basic_constraints_valid && t.fields.is_ca)
    ∷ t.fields.key_usage
    ∷ whole_seconds t.fields.not_before
    ∷ whole_seconds t.fields.not_after
    ∷ key
    ∷ t.fields.serial
    ∷ code

abbrev encoded : Template → ℕ → Option Bytes → Bytes → Result (Bytes × Bytes)
encoded t key none s = err (foreign 1 ∷ [])
encoded t key (some code) s = ok (encoding t key code, s)

abbrev read_back : Bytes → Result Certificate
read_back (ca ∷ usage ∷ before ∷ after ∷ key ∷ serial ∷ code) = ok (record {
  raw = ca ∷ usage ∷ before ∷ after ∷ key ∷ serial ∷ code;
  serial = serial;
  is_ca = ca == 1;
  key_usage = usage;
  ext_key_usage = usages_of code;
  public_key = type_of key;
  uris = uris_of code;
  not_before = before;
  not_after = after;
})
read_back [] = err (foreign 2 ∷ [])
read_back (a ∷ []) = err (foreign 2 ∷ [])
read_back (a ∷ b ∷ []) = err (foreign 2 ∷ [])
read_back (a ∷ b ∷ c ∷ []) = err (foreign 2 ∷ [])
read_back (a ∷ b ∷ c ∷ d ∷ []) = err (foreign 2 ∷ [])
read_back (a ∷ b ∷ c ∷ d ∷ e ∷ []) = err (foreign 2 ∷ [])

-- The text behind the begin marker is the encoding.
abbrev decoded : Bytes → Option (Block × Bytes)
decoded [] = none
decoded (c ∷ s) =
    some (record { block_type = certificate_pem_type; headers = []; bytes = drop 10 s }, [])

abbrev pub tools : Tools Bytes ℕ
tools = record {
  generate_ecdsa = λ curve s. ok (key_on curve, s);
  generate_rsa = λ bits s. ok (2, s);
  public_type = type_of;
  random_below = λ bound s. ok (77, s);
  parse_url = λ u. ok u;
  create_certificate =
      λ t parent key signer s. encoded t key (rest_code t.fields.ext_key_usage t.fields.uris) s;
  parse_certificate = read_back;
  marshal_key = λ key. ok (key ∷ []);
  encode_to_memory = λ block. pem_begin_marker ++ block.bytes;
  decode = decoded;
  marshal_roles = λ roles. ok (codes "{}");
  join = λ dir name. dir ++ (b'/' ∷ name);
  temp_dir = λ s. ok (codes "/tmp", s);
  write = λ path content mode s. ok content;
  read_file = λ s path. ok s;
  load_key_pair = λ s cert key. ok (record { der = s ∷ []; private_key = key });
}

flag-flag : (b : Bool) → (flag b == 1) ≡ b
flag-flag true = refl
flag-flag false = refl

pub tools-IsFaithful : IsFaithful tools
tools-IsFaithful t parent key signer s s' der c h k =
    elim (Option-cases (rest_code t.fields.ext_key_usage t.fields.uris)) [
      | inl e ↦
          let refused : encoded t key none s ≡ ok (der, s') =
            ap (λ o. encoded t key o s) (sym e) ∙ h in
          absurd (cc)
      | inr (code, e) ↦
          let made : encoded t key (some code) s ≡ ok (der, s') =
            ap (λ o. encoded t key o s) (sym e) ∙ h in
          let is : encoding t key code ≡ der = ap (λ z. z.0) (eq_of_ok_eq made) in
          let read = sym (eq_of_ok_eq (ap read_back is ∙ k)) in
          let (usages, uris) = rest_code-ReadsAs t.fields.ext_key_usage t.fields.uris code e in
          (
            (
              ap (λ z. z.raw) read ∙ is,
              ap (λ z. z.is_ca) read ∙ flag-flag (t.basic_constraints_valid && t.fields.is_ca),
              ap (λ z. z.key_usage) read,
              ap (λ z. z.ext_key_usage) read ∙ usages,
              ap (λ z. z.uris) read ∙ uris,
              ap (λ z. z.not_before) read,
              ap (λ z. z.not_after) read,
            ),
            ap (λ z. z.public_key) read,
          )
    ]

pub tools-IsOnCurve : IsOnCurve tools
tools-IsOnCurve p256 s s' key h = sym (ap (λ z. type_of z.0) (eq_of_ok_eq h))
tools-IsOnCurve other_curve s s' key h = sym (ap (λ z. type_of z.0) (eq_of_ok_eq h))

pub tools-IsShorter : IsShorter tools
tools-IsShorter [] block remainder h = absurd (cc)
tools-IsShorter (c ∷ s) block remainder h =
    omega (arith, ap length (ap (λ z. z.1) (eq_of_some_eq h)))

pub tools-IsKept : IsKept tools
tools-IsKept path content mode s s' h = ap ok (sym (eq_of_ok_eq h))

-- A check of the validity window alone.
abbrev pub window_check : ChainCheck
window_check roots leaf rest t =
    if leb leaf.not_before t && leb t leaf.not_after then none else some (foreign 0 ∷ [])

pub tools-Vouches : Vouches tools window_check
tools-Vouches t p c key signer roots now made m ca usage (h, k) (h', k') = ground arith
