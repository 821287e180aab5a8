-- ===== src/Command/Fizzle/CommandLine.antt =====
-- Every command of cmd/fizzle, with any configuration, can be written as arguments.
use fizzled_go.Prelude.{
  suc, ◌^◌, ◌<◌, ◌≤◌, ◌≡◌, refl, ap, Bytes, codes, none, List, [], ◌∷◌, text_eq,
}
use fizzled_go.Prelude.Int.{ℤ, pos, negsuc}
use fizzled_go.Prelude.Decimal.{format_int}
use fizzled_go.Errors.{ok, ◌>>=◌}
use fizzled_go.Client.Connection.{Config}
use fizzled_go.Command.Flags.{parse_flags, effect, token, flag_name, cut, usage_unless_help}
use fizzled_go.Command.Atoi.{atoi, atoi-format_int, atoi-negative}
use fizzled_go.Prelude.Assoc.{lookup}
use fizzled_go.Command.Fizzle.{
  Command, start_command, stop_command, status_command, outputs_command, parse, new_command,
  read_command, flag_set, default_config, is_help_request, one_argument, command_start,
  command_stop, command_status, command_outputs,
}

abbrev pub count_text : ℤ → Bytes
count_text (pos n) = format_int n
count_text (negsuc n) = b'-' ∷ format_int (suc n)

abbrev pub name_of : Command → Bytes
name_of (start_command count) = command_start
name_of (stop_command job_id) = command_stop
name_of (status_command job_id) = command_status
name_of (outputs_command job_id) = command_outputs

abbrev pub argument_of : Command → Bytes
argument_of (start_command count) = count_text count
argument_of (stop_command job_id) = job_id
argument_of (status_command job_id) = job_id
argument_of (outputs_command job_id) = job_id

abbrev flag_args : Config → Bytes → List Bytes
flag_args c argument =
    codes "--server"
    ∷ c.address
    ∷ codes "--ca"
    ∷ c.ca_path
    ∷ codes "--cert"
    ∷ c.cert_path
    ∷ codes "--key"
    ∷ c.key_path
    ∷ codes "--"
    ∷ argument
    ∷ []

abbrev pub command_line : Config → Command → List Bytes
command_line c command = name_of command ∷ flag_args c (argument_of command)

flags_read :
    (c : Config) (argument : Bytes)
    → parse_flags flag_set none (flag_args c argument) default_config ≡ ok (c, argument ∷ [])
unfolding parse_flags effect token flag_name cut lookup text_eq
flags_read c argument = refl

-- An `int` has 64 bits.
abbrev pub IsInt64 : ℤ → Type 0
IsInt64 (pos n) = n < 2 ^ 63
IsInt64 (negsuc n) = suc n ≤ 2 ^ 63

abbrev pub Fits : Command → Type 0
Fits (start_command count) = IsInt64 count
Fits _ = Unit

count_read : (count : ℤ) → IsInt64 count → atoi (count_text count) ≡ ok count
count_read (pos n) h = atoi-format_int n h
count_read (negsuc n) h = atoi-negative n h

command_read :
    (command : Command)
    → Fits command
    → new_command (name_of command) (argument_of command) ≡ ok command
unfolding new_command text_eq
command_read (start_command count) h = rw (count_read count h) refl
command_read (stop_command job_id) h = refl
command_read (status_command job_id) h = refl
command_read (outputs_command job_id) h = refl

invocation_read :
    (c : Config) (command : Command)
    → parse (command_line c command)
      ≡ ok (record { name = name_of command; argument = argument_of command; config = c })
unfolding parse is_help_request text_eq
invocation_read c (start_command count) =
    ap (λ r. usage_unless_help r >>= one_argument command_start) (flags_read c _)
invocation_read c (stop_command job_id) =
    ap (λ r. usage_unless_help r >>= one_argument command_stop) (flags_read c _)
invocation_read c (status_command job_id) =
    ap (λ r. usage_unless_help r >>= one_argument command_status) (flags_read c _)
invocation_read c (outputs_command job_id) =
    ap (λ r. usage_unless_help r >>= one_argument command_outputs) (flags_read c _)

-- A command line that spells a command with its four flags, `--` and its argument is read as that
-- command with that configuration, whatever the texts are, also those that begin with a dash, when
-- the count of a start fits in 64 bits.
pub read_command-command_line :
    (c : Config) (command : Command)
    → Fits command
    → read_command (command_line c command) ≡ ok (c, command)
unfolding read_command
read_command-command_line c command h = rw (invocation_read c command, command_read command h) refl
