-- ===== src/Server/Rpc.antt =====
-- The parts of package grpc that internal/server and internal/client name: the status codes, an
-- RPC's answer, and what a context carries of a call.
use fizzled_go.Prelude.{Bytes, codes, Option, List}
use fizzled_go.Authn.Certificate.{Certificate}

-- codes.Code
pub data Code : Type 0 where
  ok_code canceled unknown invalid_argument deadline_exceeded not_found : Code
  already_exists permission_denied resource_exhausted failed_precondition aborted : Code
  out_of_range unimplemented internal unavailable data_loss unauthenticated : Code

-- What the caller of an RPC receives: a reply, or a status with its message.
pub data Answer {ℓ} (A : Type ℓ) : Type ℓ where
  reply : A → Answer A
  refuse : Code → Bytes → Answer A

infixl 5 ◌>>=◌
abbrev pub ◌>>=◌ {ℓ κ} : {A : Type ℓ} {B : Type κ} → Answer A → (A → Answer B) → Answer B
reply a >>= f = f a
refuse c m >>= f = refuse c m

-- The dynamic type of a peer's AuthInfo: TLS with the peer's certificates, or another.
pub data AuthInfo : Type 0 where
  tls : List (Option Certificate) → AuthInfo
  other_auth : AuthInfo

-- A context: the peer, and the value under `agentIDKey`.
pub record Context : Type 0 where
  pub peer : Option AuthInfo
  pub agent_id : Option Bytes

abbrev pub internal_error_message : Bytes
internal_error_message = codes "internal error"
