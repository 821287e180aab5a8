-- ===== src/TestPki/Documented.antt =====
-- What internal/testpki relies on in the packages that it calls, as they document it.
use mathlib.Core.List.{Mem}
use fizzled_go.Prelude.{
  ℕ, ◌/◌, ◌*◌, ◌<◌, ◌≤◌, ◌≡◌, Bytes, true, ◌&&◌, Option, none, some, List, [], length,
}
use fizzled_go.Prelude.Strings.{has_prefix}
use fizzled_go.Errors.{ok}
use fizzled_go.Authn.Certificate.{Certificate, Curve, ecdsa, has_bit, cert_sign_bit}
use fizzled_go.Authn.Loader.{Block}
use fizzled_go.Authn.X509svid.{ChainCheck}
use fizzled_go.Authn.TrustBundle.{certificate_pem_type, pem_begin_marker, begin_markers}
use fizzled_go.Authn.TrustBundle.Space.{trim_space}
use fizzled_go.TestPki.{Tools, Template, Issuer, issued_by}

-- The DER encoding of an instant has whole seconds.
abbrev pub whole_seconds : ℕ → ℕ
whole_seconds t = t / 1_000_000_000 * 1_000_000_000

-- A certificate parsed from an encoding that was made of a template has the fields of it.
abbrev pub Describes : Template → Bytes → Certificate → Type 0
Describes t der c =
    (c.raw ≡ der)
    × (c.is_ca ≡ (t.basic_constraints_valid && t.fields.is_ca))
    × (c.key_usage ≡ t.fields.key_usage)
    × (c.ext_key_usage ≡ t.fields.ext_key_usage)
    × (c.uris ≡ t.fields.uris)
    × (c.not_before ≡ whole_seconds t.fields.not_before)
    × (c.not_after ≡ whole_seconds t.fields.not_after)

abbrev pub certificate_block : Bytes → Block
certificate_block der = record { block_type = certificate_pem_type; headers = []; bytes = der }

-- A text is the certificate's one block, with nothing behind it.
abbrev pub IsOneBlock : (Bytes → Option (Block × Bytes)) → Bytes → Bytes → Type 0
IsOneBlock decode der text =
    (has_prefix text pem_begin_marker ≡ true)
    × (decode text ≡ some (certificate_block der, []))
    × (begin_markers text ≡ 1)

abbrev pub Within : ℕ → Certificate → Type 0
Within t c = (c.not_before ≤ t) × (t ≤ c.not_after)

module _ {S Key : Type 0} (tools : Tools S Key) where
  -- The certificate that `CreateCertificate` has encoded, as `ParseCertificate` reads it back.
  abbrev pub Encoded : Template → Issuer → Key → Key → Certificate → Type 0
  Encoded t parent public_key signer_key c =
      (s s' : S) × (der : Bytes) × (tools.create_certificate t parent public_key signer_key s
        ≡ ok (der, s'))
      × (tools.parse_certificate der ≡ ok c)

  -- crypto/x509: a parsed certificate has the fields of its template and its own encoding.
  abbrev pub IsFaithful : Type 0
  IsFaithful =
      (t : Template) (parent : Issuer) (public_key signer_key : Key) (s s' : S) (der : Bytes)
      (c : Certificate)
      → tools.create_certificate t parent public_key signer_key s ≡ ok (der, s')
      → tools.parse_certificate der ≡ ok c
      → Describes t der c × (c.public_key ≡ tools.public_type public_key)

  -- crypto/ecdsa: a key is on the curve that it was made for.
  abbrev pub IsOnCurve : Type 0
  IsOnCurve =
      (curve : Curve) (s s' : S) (key : Key)
      → tools.generate_ecdsa curve s ≡ ok (key, s')
      → tools.public_type key ≡ ecdsa curve

  -- encoding/pem: what follows a block is shorter than the text.
  abbrev pub IsShorter : Type 0
  IsShorter =
      (text : Bytes) (block : Block) (remainder : Bytes)
      → tools.decode text ≡ some (block, remainder)
      → length remainder < length text

  -- encoding/pem: the encoding of this certificate, less white space, is its one block.
  abbrev pub IsPem : Bytes → Type 0
  IsPem der =
      IsOneBlock tools.decode der (trim_space (tools.encode_to_memory (certificate_block der)))

  -- os: a file that was written has what was written.
  abbrev pub IsKept : Type 0
  IsKept =
      (path content : Bytes) (mode : ℕ) (s s' : S)
      → tools.write path content mode s ≡ ok s'
      → tools.read_file s' path ≡ ok content

  -- crypto/x509: a certificate that was issued by a signing certificate among the roots anchors to
  -- them at any instant within the windows of both.
  abbrev pub Vouches : ChainCheck → Type 0
  Vouches chain_error =
      (t : Template) (p c : Certificate) (public_key signer_key : Key) (roots : List Certificate)
      (now : ℕ)
      → Encoded t (issued_by p) public_key signer_key c
      → Mem p roots
      → p.is_ca ≡ true
      → has_bit cert_sign_bit p.key_usage ≡ true
      → Within now p
      → Within now c
      → chain_error roots c [] now ≡ none
