-- ===== src/Authn/Certificate.antt =====
-- A certificate of crypto/x509, as the fields that the repository reads.
use fizzled_go.Prelude.{ℕ, suc, ◌/◌, ◌%◌, ◌^◌, ◌==◌, Bytes, Bool, true, false, List}

-- x509.ExtKeyUsage, of which the policy names two; `other_usage n` is any other.
pub data ExtKeyUsage : Type 0 where
  server_auth client_auth : ExtKeyUsage
  other_usage : ℕ → ExtKeyUsage

abbrev pub usage_code : ExtKeyUsage → ℕ
usage_code server_auth = 0
usage_code client_auth = 1
usage_code (other_usage n) = suc (suc n)

pub data Curve : Type 0 where
  p256 other_curve : Curve

abbrev pub is_p256 : Curve → Bool
is_p256 p256 = true
is_p256 other_curve = false

-- The dynamic type of a certificate's public key, with the curve of an ECDSA key.
pub data PublicKey : Type 0 where
  ecdsa : Curve → PublicKey
  other_key : PublicKey

pub record Certificate : Type 0 where
  -- The DER encoding, which the certificate was parsed from.
  pub raw : Bytes
  -- A serial number; two certificates may share one.
  pub serial : ℕ
  pub is_ca : Bool
  -- The bits of x509.KeyUsage.
  pub key_usage : ℕ
  pub ext_key_usage : List ExtKeyUsage
  pub public_key : PublicKey
  -- The texts of the URI SANs.
  pub uris : List Bytes
  -- The validity window, as nanoseconds from one origin.
  pub not_before : ℕ
  pub not_after : ℕ

-- `key_usage & (1 << bit) != 0`
abbrev pub has_bit : ℕ → ℕ → Bool
has_bit bit usage = (usage / 2 ^ bit) % 2 == 1

-- x509.KeyUsageDigitalSignature, KeyUsageCertSign and KeyUsageCRLSign, by their bits.
abbrev pub digital_signature_bit : ℕ
digital_signature_bit = 0

abbrev pub cert_sign_bit : ℕ
cert_sign_bit = 5

abbrev pub crl_sign_bit : ℕ
crl_sign_bit = 6
