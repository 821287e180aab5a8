-- ===== src/Command/Fizzle/Starts.antt =====
-- What `fizzle start` leaves, from its arguments to its exit code, for a server that accepts jobs.
use fizzled_go.Prelude.{◌≡◌, ◌⊎◌, ℕ, Bytes, false, none, some, List, [], ◌∷◌}
use fizzled_go.Errors.{Sentinel, GoError, error_is, help, usage}
use fizzled_go.Server.Service
use fizzled_go.Command.Fizzle.{Printed, line, diagnostic, Writer, Ended, print}

-- A writer whose errors are none of the program's own.
abbrev pub IsForeign : Writer → Type 0
IsForeign w =
    (out : List Printed) (text : Printed) (e : GoError)
    → w out text ≡ some e
    → (error_is e help ≡ false)
      × (error_is e usage ≡ false)
      × (error_is e Sentinel.invalid_argument ≡ false)
      × (error_is e Sentinel.config ≡ false)

-- A command that failed before it printed.
abbrev pub failure_shown : Writer → GoError → ℕ → Ended
failure_shown stderr e code = record {
  stdout = [];
  stderr = print stderr [] (diagnostic e);
  code = code;
}

-- The id is printed, or stdout refuses it.
abbrev pub Prints : Writer → Writer → Bytes → Ended → Type 0
Prints stdout stderr id ended =
    ((stdout [] (line id) ≡ none)
      × (ended ≡ record { stdout = line id ∷ []; stderr = []; code = 0 }))
    ⊎ ((e : GoError) × (stdout [] (line id) ≡ some e) × (ended ≡ failure_shown stderr e 1))
