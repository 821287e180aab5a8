-- ===== src/Command/Examples.antt =====
-- Runs of the two programs, on which the theorems about cmd/fizzle and cmd/fizzled apply.
mod Starting
use fizzled_go.Prelude.{
  ◌≡◌, ◌⊎◌, refl, Bytes, codes, true, false, Option, none, some, List, [], ◌∷◌, arith, text_eq,
}
use fizzled_go.Prelude.Int.{negsuc}
use fizzled_go.Errors.{Result, ok, err, GoError, usage}
use fizzled_go.Authn.Examples.{window_check}
use fizzled_go.Authn.TrustBundle.Examples.{loader}
use fizzled_go.Worker.Countdown.{step}
use fizzled_go.Worker.Examples.{finished}
use fizzled_go.Server.Rpc.{not_found, unavailable, reply, refuse}
use fizzled_go.Server.Service.{WireTick, wire_progress, wire_stopped, wire_failure, proto_tick}
use fizzled_go.Server.Service.Streaming.Examples.{session, streamed, streamed_phase}
use fizzled_go.Server.Service.Streaming.Sent.{proto_ticks}
use fizzled_go.Server.Lifecycle.{Server}
use fizzled_go.Server.Lifecycle.Examples.{server, drained, drained_run}
use fizzled_go.Server.Lifecycle
use fizzled_go.Client.Connection.{Environment, Wire}
use fizzled_go.Client.Streaming.{tick_json}
use fizzled_go.Command.Flags.{parse_flags, effect, token, flag_name, cut}
use fizzled_go.Prelude.Assoc.{lookup}
use fizzled_go.Command.Fizzle.{
  start_command, outputs_command, default_config, read_command, parse, run, is_help_request,
  execute_command,
}
use fizzled_go.Command.Fizzle.CommandLine.{command_line, read_command-command_line}
use fizzled_go.Command.Fizzle.EndToEnd.{outputs_whole_job}
use fizzled_go.Command.Fizzle.Exits.{AsksHelp, help_shown, usage_shown, unread_run}
use fizzled_go.Command.Fizzle.Outputs.{encode_all, lines, open_writer}
use fizzled_go.Command.Fizzled
use fizzled_go.Command.Fizzled.ExitCodes.{IsForeign, ExitsBy, served_exit_code}

read_command-command_line_example :
    read_command (command_line default_config (start_command (negsuc 4)))
    ≡ ok (default_config, start_command (negsuc 4))
read_command-command_line_example =
    read_command-command_line default_config (start_command (negsuc 4)) (omega arith)

-- Each kind of tick has a text of its own.
abbrev tick_text : WireTick → Result Bytes
tick_text (wire_progress elapsed remaining) = ok (codes "progress")
tick_text wire_stopped = ok (codes "stopped")
tick_text (wire_failure message) = ok (codes "failure")

abbrev wire : Wire
wire = record {
  send_start = λ count. refuse unavailable [];
  send_stop = λ job_id. refuse not_found [];
  send_get_status = λ job_id. refuse not_found [];
  open_stream = λ job_id. reply (record { ticks = streamed.sent; ending = none });
}

abbrev environment : Environment
environment = record {
  loader = loader;
  chain_error = window_check;
  now = 150;
  dial = λ address tls_config. ok wire;
  marshal = tick_text;
  compact = λ text. ok text;
}

unknown_command : read_command (codes "begin" ∷ []) ≡ err (usage ∷ [])
unfolding read_command parse is_help_request text_eq
unknown_command = refl

unread_run_example :
    (AsksHelp (codes "begin" ∷ [])
      × (run environment open_writer open_writer (codes "begin" ∷ []) ≡ help_shown open_writer))
    ⊎ ((¬ AsksHelp (codes "begin" ∷ []))
        × (run environment open_writer open_writer (codes "begin" ∷ [])
            ≡ usage_shown open_writer (usage ∷ [])))
unread_run_example =
    unread_run environment open_writer open_writer (codes "begin" ∷ []) unknown_command

abbrev texts : List Bytes
texts = codes "progress" ∷ codes "stopped" ∷ []

encoded : encode_all environment (proto_ticks finished.job.ticks) ≡ ok texts
unfolding tick_json proto_tick step
encoded = refl

outputs_whole_job_example :
    execute_command environment wire open_writer (outputs_command (codes "alice/0"))
    ≡ (lines texts, none)
outputs_whole_job_example =
    outputs_whole_job finished streamed environment wire (codes "alice/0") session streamed_phase
      refl encoded

-- A server that can be built, and whose `Serve` returns nil.
abbrev build_server : Lifecycle.Config → Result Server
build_server c = ok server

abbrev served : Server → Option GoError
served s = none

abbrev args : List Bytes
args = codes "--roles" ∷ codes "roles.json" ∷ []

abbrev parsed_config : Lifecycle.Config
parsed_config = record Fizzled.default_config { roles_path = codes "roles.json" }

args_parsed : Fizzled.parse args ≡ ok parsed_config
unfolding Fizzled.parse parse_flags effect token flag_name cut lookup text_eq
args_parsed = refl

drained-IsForeign : IsForeign drained
drained-IsForeign e h = absurd (cc)

served_exit_code_example : ExitsBy drained (Fizzled.run build_server served args).code
served_exit_code_example =
    served_exit_code build_server served args {config = parsed_config} {s = server} drained
      args_parsed refl drained_run refl drained-IsForeign
