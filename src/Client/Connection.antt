-- ===== src/Client/Connection.antt =====
-- Building a client, and the calls that it makes: internal/client/client.go. The logger, which the
-- command leaves nil, is not modelled.
use fizzled_go.Prelude.{ℕ, Bytes, Option, none, some, List, [], ◌∷◌, if◌then◌else◌, text_eq}
use fizzled_go.Prelude.Int.{ℤ}
use fizzled_go.Errors.{Sentinel, Result, ok, err, ◌>>=◌, config, foreign}
use fizzled_go.Authn.X509svid.{ChainCheck}
use fizzled_go.Authn.Loader.{Loader}
use fizzled_go.Authn.TlsConfig.{TlsConfig}
use fizzled_go.Authn.Authenticator.Setup.{new_authenticator, client_config}
use fizzled_go.Worker.Tick.{Status}
use fizzled_go.Server.Rpc.{Code, canceled, Answer}
use fizzled_go.Server.Service.{WireStatus, WireTick}
use fizzled_go.Client.{reported_status}

pub record Config : Type 0 where
  pub address : Bytes
  pub ca_path : Bytes
  pub cert_path : Bytes
  pub key_path : Bytes

-- An opened stream: the ticks that `Recv` gives, and then io.EOF (`none`) or a status.
pub record TickStream : Type 0 where
  pub ticks : List WireTick
  pub ending : Option (Code × Bytes)

-- The generated client on a connection.
pub record Wire : Type 0 where
  pub send_start : ℤ → Answer Bytes
  pub send_stop : Bytes → Answer WireStatus
  pub send_get_status : Bytes → Answer WireStatus
  pub open_stream : Bytes → Answer TickStream

-- What the process meets: files and certificates, crypto/x509 and the time, grpc.NewClient, and the
-- two encoders that `tickJSON` calls, protojson's `Marshal` and encoding/json's `Compact`.
pub record Environment : Type 0 where
  pub loader : Loader
  pub chain_error : ChainCheck
  pub now : ℕ
  pub dial : Bytes → TlsConfig → Result Wire
  pub marshal : WireTick → Result Bytes
  pub compact : Bytes → Result Bytes

-- `fmt.Errorf("…: %w: %w", sentinel, err)`
abbrev pub wrapped {ℓ} : {A : Type ℓ} → Sentinel → Result A → Result A
wrapped s (ok a) = ok a
wrapped s (err e) = err (s ∷ e)

-- `New`
unfoldable pub new_client : Environment → Config → Result Wire
new_client env c = if text_eq c.address [] then err (config ∷ []) else do
  (authenticator, line) ←
      wrapped config (new_authenticator env.loader env.chain_error env.now c.ca_path)
  tls_config ← wrapped config (client_config env.loader authenticator c.cert_path c.key_path)
  wrapped config (env.dial c.address tls_config)

-- `Close`, on the status of the error that closing the connection gave.
unfoldable pub close : Option Code → Result (Unit {0})
close none = ok tt
close (some canceled) = ok tt
close (some code) = err (foreign 4 ∷ [])

-- `Stop`
unfoldable pub stop : Wire → Bytes → Result Status
stop w job_id = reported_status (w.send_stop job_id)

-- `GetStatus`
unfoldable pub get_status : Wire → Bytes → Result Status
get_status w job_id = reported_status (w.send_get_status job_id)
