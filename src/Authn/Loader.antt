-- ===== src/Authn/Loader.antt =====
-- The calls that leave internal/authn for files and encodings: os.ReadFile, encoding/pem's `Decode`,
-- crypto/x509's `ParseCertificate` and crypto/tls's `LoadX509KeyPair`. Cleaning a path is left to
-- the calls that take one.
use fizzled_go.Prelude.{Bytes, Option, List}
use fizzled_go.Prelude.Assoc.{Assoc}
use fizzled_go.Errors.{Result}
use fizzled_go.Authn.Certificate.{Certificate}

-- pem.Block
pub record Block : Type 0 where
  pub block_type : Bytes
  pub headers : Assoc Bytes
  pub bytes : Bytes

-- tls.Certificate, as the DER encodings of a chain and the private key.
pub record KeyPair : Type 0 where
  pub der : List Bytes
  pub private_key : Bytes

-- `decode` gives the first block of a text with what follows it, or nothing; `load_key_pair` takes
-- the paths of the certificate and the key.
pub record Loader : Type 0 where
  pub read_file : Bytes → Result Bytes
  pub decode : Bytes → Option (Block × Bytes)
  pub parse_certificate : Bytes → Result Certificate
  pub load_key_pair : Bytes → Bytes → Result KeyPair
