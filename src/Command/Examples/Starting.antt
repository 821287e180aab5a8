-- ===== src/Command/Examples/Starting.antt =====
-- A run of `fizzle start` by alice's client against a server that takes it for bob's, on which the
-- theorem about it applies.
use fizzled_go.Prelude.{Bytes, codes, List, []}
use fizzled_go.Prelude.Int.{pos}
use fizzled_go.Errors.{ok}
use fizzled_go.Authn.Examples.{window_check}
use fizzled_go.Authn.TrustBundle.{count}
use fizzled_go.Authn.TrustBundle.Examples.{loader}
use fizzled_go.Registry.Examples.{one_job}
use fizzled_go.Server.Rpc.{not_found, refuse}
use fizzled_go.Server.Service
use fizzled_go.Server.Examples.{as_bob}
use fizzled_go.Client.Connection.{Config, Environment, Wire}
use fizzled_go.Command.Fizzle.{start_command}
use fizzled_go.Command.Fizzle.CommandLine.{command_line}

-- The client's connection, to a server with one job.
abbrev wire : Wire
wire = record {
  send_start = λ count. (Service.start as_bob count one_job).0;
  send_stop = λ job_id. refuse not_found [];
  send_get_status = λ job_id. refuse not_found [];
  open_stream = λ job_id. refuse not_found [];
}

abbrev environment : Environment
environment = record {
  loader = loader;
  chain_error = window_check;
  now = 150;
  dial = λ address tls_config. ok wire;
  marshal = λ tick. ok [];
  compact = λ text. ok text;
}

abbrev config : Config
config = record {
  address = codes "localhost:8443";
  ca_path = codes "ca.crt";
  cert_path = codes "alice";
  key_path = codes "key";
}

abbrev args : List Bytes
args = command_line config (start_command (pos 5))
