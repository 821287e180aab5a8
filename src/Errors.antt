-- ===== src/Errors.antt =====
-- Go's `error` values, as far as errors.Is reads them. An error is the list of the sentinels that
-- errors.Is finds in it: `fmt.Errorf("…: %w", err)` keeps that list, and with two `%w` it joins the
-- lists. The text of the messages is not modelled. `nil` is the absence of an error: `none`, or the
-- `ok` of a result.
use fizzled_go.Prelude.{
  ℕ, ◌+◌, ◌≡◌, refl, Bool, true, false, not, ◌||◌, if◌then◌else◌, List, [], ◌∷◌, ◌==◌, ◌⊎◌, ◌↔◌,
  inl, inr,
}

-- The sentinels of the packages, by package: worker, registry, authz, authn, spiffeid, x509svid,
-- server, client and the two commands. `foreign n` stands for an error of code outside the
-- repository.
pub data Sentinel : Type 0 where
  invalid_count invalid_mean_interval job_panic : Sentinel
  not_accepting_jobs : Sentinel
  action_unauthorized empty_roles unknown_role : Sentinel
  empty_trust_bundle bundle_not_certificate bundle_block_has_headers : Sentinel
  bundle_unexpected_data bundle_block_dropped bundle_duplicate_certificate : Sentinel
  wrong_trust_domain unexpected_identity invalid_agent_id : Sentinel
  missing_server_auth missing_client_auth key_not_ecdsa key_not_p256 : Sentinel
  not_spiffe id_too_long trust_domain_too_long : Sentinel
  invalid_trust_domain invalid_path_component : Sentinel
  no_certificate no_trust_bundle leaf_cert_is_ca leaf_cert_has_key_cert_sign : Sentinel
  leaf_cert_has_crl_sign leaf_cert_missing_digital_signature leaf_spiffe_missing_path : Sentinel
  cert_has_no_uri cert_has_multiple_uris signing_cert_is_not_ca : Sentinel
  signing_cert_missing_key_cert_sign signing_spiffe_has_path : Sentinel
  signing_spiffe_in_different_trust_domain negative_skew : Sentinel
  empty_address shutdown_grace_elapsed : Sentinel
  invalid_argument not_found permission_denied unauthenticated unavailable : Sentinel
  canceled deadline_exceeded rpc config unknown_status : Sentinel
  usage server_config help server_stopped : Sentinel
  foreign : ℕ → Sentinel

-- Sentinels are compared by identity; the tag stands for a sentinel's address.
abbrev pub tag : Sentinel → ℕ
tag invalid_count = 0
tag invalid_mean_interval = 1
tag job_panic = 2
tag not_accepting_jobs = 3
tag action_unauthorized = 4
tag empty_roles = 5
tag unknown_role = 6
tag empty_trust_bundle = 7
tag bundle_not_certificate = 8
tag bundle_block_has_headers = 9
tag bundle_unexpected_data = 10
tag bundle_block_dropped = 11
tag bundle_duplicate_certificate = 12
tag wrong_trust_domain = 13
tag unexpected_identity = 14
tag invalid_agent_id = 15
tag missing_server_auth = 16
tag missing_client_auth = 17
tag key_not_ecdsa = 18
tag key_not_p256 = 19
tag not_spiffe = 20
tag id_too_long = 21
tag trust_domain_too_long = 22
tag invalid_trust_domain = 23
tag invalid_path_component = 24
tag no_certificate = 25
tag no_trust_bundle = 26
tag leaf_cert_is_ca = 27
tag leaf_cert_has_key_cert_sign = 28
tag leaf_cert_has_crl_sign = 29
tag leaf_cert_missing_digital_signature = 30
tag leaf_spiffe_missing_path = 31
tag cert_has_no_uri = 32
tag cert_has_multiple_uris = 33
tag signing_cert_is_not_ca = 34
tag signing_cert_missing_key_cert_sign = 35
tag signing_spiffe_has_path = 36
tag signing_spiffe_in_different_trust_domain = 37
tag negative_skew = 38
tag empty_address = 39
tag shutdown_grace_elapsed = 40
tag invalid_argument = 41
tag not_found = 42
tag permission_denied = 43
tag unauthenticated = 44
tag unavailable = 45
tag canceled = 46
tag deadline_exceeded = 47
tag rpc = 48
tag config = 49
tag unknown_status = 50
tag usage = 51
tag server_config = 52
tag help = 53
tag server_stopped = 54
tag (foreign n) = 55 + n

abbrev pub GoError : Type 0
GoError = List Sentinel

-- errors.Is(err, sentinel)
abbrev pub error_is : GoError → Sentinel → Bool
error_is [] s = false
error_is (t ∷ err) s = tag t == tag s || error_is err s

-- A value and an error, of which a function returns one.
pub data Result {ℓ} (A : Type ℓ) : Type ℓ where
  ok : A → Result A
  err : GoError → Result A

-- The early return of `if err != nil { return …, err }`, with the value of the call or without.
infixl 5 ◌>>=◌
abbrev pub ◌>>=◌ {ℓ κ} : {V : Type ℓ} {W : Type κ} → Result V → (V → Result W) → Result W
err failure >>= next = err failure
ok v >>= next = next v

infixl 5 ◌>>◌
abbrev pub ◌>>◌ {κ} : {W : Type κ} → Result (Unit {0}) → Result W → Result W
check >> after = check >>= (λ done. after)

-- Inversion of a chain that succeeded.
pub bind-eq-ok {ℓ κ} :
    {V : Type ℓ} {W : Type κ} (first : Result V) (next : V → Result W) {w : W}
    → (first >>= next) ≡ ok w
    → (v : V) × (first ≡ ok v) × (next v ≡ ok w)
bind-eq-ok (err failure) next h = cc
bind-eq-ok (ok v) next h = (v, refl, h)

-- To split on a computed result and keep the equation.
pub Result-cases {ℓ} :
    {A : Type ℓ} (r : Result A) → ((a : A) × (r ≡ ok a)) ⊎ ((e : GoError) × (r ≡ err e))
Result-cases (ok a) = inl (a, refl)
Result-cases (err e) = inr (e, refl)

pub eq_of_ok_eq {ℓ} : {A : Type ℓ} {a b : A} → ok a ≡ ok b → a ≡ b
eq_of_ok_eq h = cc

pub bind_iff {ℓ κ} :
    {A : Type ℓ} {B : Type κ} (m : Result A) (f : A → Result B) (b : B)
    → ((m >>= f) ≡ ok b) ↔ ((a : A) × (m ≡ ok a) × (f a ≡ ok b))
bind_iff m f b = (λ h. bind-eq-ok m f h, λ (a, e, h). rw e h)

-- Inversion of an early return that was not taken.
pub ok_of_refused {ℓ} :
    {A : Type ℓ} (b : Bool) (e : GoError) {r : Result A} {a : A}
    → (if b then err e else r) ≡ ok a
    → (b ≡ false) × (r ≡ ok a)
ok_of_refused true e h = cc
ok_of_refused false e h = (refl, h)

pub ok_of_required {ℓ} :
    {A : Type ℓ} (b : Bool) (e : GoError) {r : Result A} {a : A}
    → (if not b then err e else r) ≡ ok a
    → (b ≡ true) × (r ≡ ok a)
ok_of_required true e h = (refl, h)
ok_of_required false e h = cc
