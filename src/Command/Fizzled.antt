-- ===== src/Command/Fizzled.antt =====
-- cmd/fizzled: flags.go and main.go. The text of the usage and of a diagnostic is not modelled, only
-- that it is printed; the two outputs take every text. Building the server and serving are the
-- parameters `new` and `served`, the result of `Serve`.
pub mod ExitCodes
use fizzled_go.Prelude.{
  ℕ, Bytes, codes, Bool, true, false, Option, none, some, List, [], ◌∷◌, ◌++◌, if◌then◌else◌,
}
use fizzled_go.Prelude.Int.{ℤ, pos}
use fizzled_go.Errors.{Result, ok, err, ◌>>=◌, GoError, error_is, usage, help, server_config}
use fizzled_go.Client.{fizzled_exit_code}
use fizzled_go.Server.Lifecycle.{Config, Server}
use fizzled_go.Command.Flags.{Formal, parse_flags, usage_unless_help}

abbrev pub default_config : Config
default_config = record {
  address = codes "localhost:8443";
  ca_path = codes ".secrets/ca.crt";
  cert_path = codes ".secrets/server.crt";
  key_path = codes ".secrets/server-private.key";
  roles_path = codes ".secrets/roles.json";
  shutdown_grace = pos 0;
}

abbrev pub flag_set : Formal Config
flag_set =
    (codes "server", λ value c. record c { address = value })
    ∷ (codes "ca", λ value c. record c { ca_path = value })
    ∷ (codes "cert", λ value c. record c { cert_path = value })
    ∷ (codes "key", λ value c. record c { key_path = value })
    ∷ (codes "roles", λ value c. record c { roles_path = value })
    ∷ []

abbrev pub no_argument : Config × List Bytes → Result Config
no_argument (config, []) = ok config
no_argument (config, a ∷ arguments) = err (usage ∷ [])

-- `parse`; where it fails, what it returns beside the error is not read.
unfoldable pub parse : List Bytes → Result Config
parse args = usage_unless_help (parse_flags flag_set none args default_config) >>= no_argument

-- What the program writes: the usage, a diagnostic, and the log lines with the address that is
-- bound, and with the error that the program stopped by.
pub data Written : Type 0 where
  usage_text : Written
  diagnostic : GoError → Written
  listening : Bytes → Written
  stopped : Option GoError → Written

abbrev pub serve_on : (Server → Option GoError) → Result Server → List Written × Option GoError
serve_on served (ok s) = (listening s.listener ∷ [], served s)
serve_on served (err e) = ([], some (server_config ∷ e))

-- `serve`
unfoldable pub serve :
    (new : Config → Result Server)
    → (served : Server → Option GoError) → Config
    → List Written × Option GoError
serve new served config = serve_on served (new config)

-- What a run leaves: the texts on the two outputs, and the exit code.
pub record Ended : Type 0 where
  pub stdout : List Written
  pub stderr : List Written
  pub code : ℕ

abbrev pub unparsed : GoError → Ended
unparsed e =
    if error_is e help then record { stdout = usage_text ∷ []; stderr = []; code = 0 } else record {
      stdout = [];
      stderr = usage_text ∷ diagnostic e ∷ [];
      code = fizzled_exit_code (some e);
    }

abbrev pub logged : List Written × Option GoError → Ended
logged (lines, e) = record {
  stdout = [];
  stderr = lines ++ (stopped e ∷ []);
  code = fizzled_exit_code e;
}

abbrev pub run_parsed : (Config → Result Server) → (Server → Option GoError) → Result Config → Ended
run_parsed new served (err e) = unparsed e
run_parsed new served (ok config) = logged (serve new served config)

-- `run`
unfoldable pub run :
    (new : Config → Result Server) → (served : Server → Option GoError) → List Bytes → Ended
run new served args = run_parsed new served (parse args)

-- `main`, on the program's name and its arguments.
unfoldable pub main :
    (new : Config → Result Server) → (served : Server → Option GoError) → List Bytes → Option Ended
main new served [] = none
main new served (program ∷ args) = some (run new served args)
