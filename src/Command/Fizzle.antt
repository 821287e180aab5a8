-- ===== src/Command/Fizzle.antt =====
-- cmd/fizzle: flags.go, command.go and main.go. The text of the usage and of a diagnostic is not
-- modelled, only that it is printed; closing the connection has no effect here.
pub mod CommandLine
pub mod Outputs
pub mod Exits
pub mod Starts
pub mod EndToEnd
use fizzled_go.Prelude.{
  ℕ, Bytes, codes, Bool, true, false, ◌||◌, not, Option, none, some, List, [], ◌∷◌, ◌++◌,
  if◌then◌else◌, text_eq,
}
use fizzled_go.Prelude.Int.{ℤ}
use fizzled_go.Errors.{Result, ok, err, ◌>>=◌, GoError, error_is, usage, help}
use fizzled_go.Worker.Tick.{Status, running, completed, stopped, failed, status_text}
use fizzled_go.Client.Connection.{Config, Environment, Wire, new_client, wrapped}
use fizzled_go.Client.Streaming.{Consumer, stream_output}
use fizzled_go.Client.{fizzle_exit_code}
use fizzled_go.Client
use fizzled_go.Client.Connection
use fizzled_go.Command.Flags.{Formal, parse_flags, usage_unless_help}
use fizzled_go.Command.Atoi.{atoi}

abbrev pub command_start : Bytes
command_start = codes "start"

abbrev pub command_stop : Bytes
command_stop = codes "stop"

abbrev pub command_status : Bytes
command_status = codes "status"

abbrev pub command_outputs : Bytes
command_outputs = codes "outputs"

-- `invocation`
pub record Invocation : Type 0 where
  pub name : Bytes
  pub argument : Bytes
  pub config : Config

abbrev pub default_config : Config
default_config = record {
  address = codes "localhost:8443";
  ca_path = codes ".secrets/ca.crt";
  cert_path = codes ".secrets/agent-smith.crt";
  key_path = codes ".secrets/agent-smith-private.key";
}

-- `newFlagSet`
abbrev pub flag_set : Formal Config
flag_set =
    (codes "server", λ value c. record c { address = value })
    ∷ (codes "ca", λ value c. record c { ca_path = value })
    ∷ (codes "cert", λ value c. record c { cert_path = value })
    ∷ (codes "key", λ value c. record c { key_path = value })
    ∷ []

-- `isHelpRequest`
unfoldable pub is_help_request : Bytes → Bool
is_help_request arg =
    text_eq arg (codes "-h") || text_eq arg (codes "-help") || text_eq arg (codes "--help")

abbrev pub is_command : Bytes → Bool
is_command name =
    text_eq name command_start
    || text_eq name command_stop
    || text_eq name command_status
    || text_eq name command_outputs

abbrev pub one_argument : Bytes → Config × List Bytes → Result Invocation
one_argument name (config, argument ∷ []) =
    ok (record { name = name; argument = argument; config = config })
one_argument name (config, []) = err (usage ∷ [])
one_argument name (config, a ∷ b ∷ arguments) = err (usage ∷ [])

-- `parse`; where it fails, what it returns beside the error is not read.
unfoldable pub parse : List Bytes → Result Invocation
parse [] = err (usage ∷ [])
parse (name ∷ args) =
    if is_help_request name
    then err (help ∷ [])
    else if not (is_command name)
    then err (usage ∷ [])
    else usage_unless_help (parse_flags flag_set none args default_config) >>= one_argument name

-- The implementations of `command`.
pub data Command : Type 0 where
  start_command : ℤ → Command
  stop_command status_command outputs_command : Bytes → Command

-- `newCommand`
unfoldable pub new_command : Bytes → Bytes → Result Command
new_command name argument =
    if text_eq name command_start
    then wrapped usage (atoi argument) >>= (λ count. ok (start_command count))
    else if text_eq name command_stop
    then ok (stop_command argument)
    else if text_eq name command_status
    then ok (status_command argument)
    else if text_eq name command_outputs
    then ok (outputs_command argument)
    else err (usage ∷ [])

-- A text that the program prints.
pub data Printed : Type 0 where
  line : Bytes → Printed
  usage_text : Printed
  diagnostic : GoError → Printed

-- A writer: the error of writing a text behind those that it took.
abbrev pub Writer : Type 0
Writer = List Printed → Printed → Option GoError

-- What was written, and the error that a command ends with.
abbrev pub Outcome : Type 0
Outcome = List Printed × Option GoError

abbrev pub wrote : List Printed → Printed → Option GoError → Outcome
wrote out text none = (out ++ (text ∷ []), none)
wrote out text (some e) = (out, some e)

-- `writeLine`
unfoldable pub write_line : Writer → List Printed → Bytes → Outcome
write_line stdout out text = wrote out (line text) (stdout out (line text))

-- Printing what a call reports.
abbrev pub print_result : {A : Type 0} → Writer → (A → Bytes) → Result A → Outcome
print_result stdout text (ok a) = write_line stdout [] (text a)
print_result stdout text (err e) = ([], some e)

abbrev pub only_error : {A : Type 0} → Result A → Outcome
only_error (ok a) = ([], none)
only_error (err e) = ([], some e)

abbrev pub wants_more : Outcome → Outcome × Bool
wants_more (out, none) = ((out, none), true)
wants_more (out, some e) = ((out, some e), false)

-- The body of the range of `outputsCommand`.
unfoldable pub print_tick : Writer → Consumer Outcome
print_tick stdout (out, e) (err failure) = ((out, some failure), false)
print_tick stdout (out, e) (ok tick) = wants_more (write_line stdout out tick)

-- `execute` of each command.
unfoldable pub execute_command : Environment → Wire → Writer → Command → Outcome
execute_command env w stdout (start_command count) =
    print_result stdout (λ job_id. job_id) (Client.start w.send_start count)
execute_command env w stdout (stop_command job_id) = only_error (Connection.stop w job_id)
execute_command env w stdout (status_command job_id) =
    print_result stdout status_text (Connection.get_status w job_id)
execute_command env w stdout (outputs_command job_id) =
    stream_output env w job_id (print_tick stdout) ([], none)

-- Reading the command line.
unfoldable pub read_command : List Bytes → Result (Config × Command)
read_command args = do
  parsed ← parse args
  command ← new_command parsed.name parsed.argument
  ok (parsed.config, command)

abbrev pub execute_on : Environment → Writer → Command → Result Wire → Outcome
execute_on env stdout command (ok w) = execute_command env w stdout command
execute_on env stdout command (err e) = ([], some e)

abbrev pub execute_read : Environment → Writer → Result (Config × Command) → Outcome
execute_read env stdout (ok (config, command)) =
    execute_on env stdout command (new_client env config)
execute_read env stdout (err e) = ([], some e)

-- `execute`
unfoldable pub execute : Environment → Writer → List Bytes → Outcome
execute env stdout args = execute_read env stdout (read_command args)

-- What a run leaves: the texts on the two outputs, and the exit code.
pub record Ended : Type 0 where
  pub stdout : List Printed
  pub stderr : List Printed
  pub code : ℕ

-- A text printed whose error is dropped.
abbrev pub print : Writer → List Printed → Printed → List Printed
print w out text = (wrote out text (w out text)).0

abbrev pub diagnosed : Writer → GoError → List Printed
diagnosed stderr e =
    print stderr (if error_is e usage then print stderr [] usage_text else []) (diagnostic e)

abbrev pub exit_with : Writer → Writer → Outcome → Ended
exit_with stdout stderr (out, none) = record { stdout = out; stderr = []; code = 0 }
exit_with stdout stderr (out, some e) =
    if error_is e help
    then record { stdout = print stdout out usage_text; stderr = []; code = 0 }
    else record { stdout = out; stderr = diagnosed stderr e; code = fizzle_exit_code (some e) }

-- `run`
unfoldable pub run : Environment → Writer → Writer → List Bytes → Ended
run env stdout stderr args = exit_with stdout stderr (execute env stdout args)

-- `main`, on the program's name and its arguments: os.Args[1:] panics when there is no name.
unfoldable pub main : Environment → Writer → Writer → List Bytes → Option Ended
main env stdout stderr [] = none
main env stdout stderr (program ∷ args) = some (run env stdout stderr args)
