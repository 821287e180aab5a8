-- ===== src/Command/Fizzled/ExitCodes.antt =====
-- The exit code of cmd/fizzled, by how its server ended.
use fizzled_go.Prelude.{
  ℕ, ◌≡◌, refl, ap, ◌∙◌, ◌⊎◌, inl, inr, Bytes, true, false, Option, some, List,
}
use fizzled_go.Errors.{Result, ok, GoError, error_is, usage, server_config, server_stopped}
use fizzled_go.Client.{fizzled_exit_code}
use fizzled_go.Server.Lifecycle.{Config, Server}
use fizzled_go.Server.Lifecycle.Serving.{Serving, Reach, returned}
use fizzled_go.Server.Lifecycle.Serving.Answers.{WasStopped, serve_answers}
use fizzled_go.Command.Fizzled.{parse, serve, run}

-- An error of the transport is none of the two sentinels of the program itself.
abbrev pub IsForeign : Serving → Type 0
IsForeign m =
    (e : GoError)
    → m.transport ≡ some (some e)
    → (error_is e usage ≡ false) × (error_is e server_config ≡ false)

code_of_served :
    (new : Config → Result Server) (served : Server → Option GoError) (args : List Bytes)
    {config : Config} {s : Server}
    → parse args ≡ ok config
    → new config ≡ ok s
    → (run new served args).code ≡ fizzled_exit_code (served s)
unfolding run serve
code_of_served new served args h k = rw (h, k) refl

-- How the run of `Serve` ended, by what the transport's own `Serve` returned and whether the
-- transport was cut off, beside the exit code.
abbrev pub ExitsBy : Serving → ℕ → Type 0
ExitsBy m code =
    ((code ≡ 0) × (m.is_cut ≡ false) × WasStopped m)
    ⊎ (((code ≡ 1) × (m.is_cut ≡ true) × WasStopped m)
        ⊎ ((code ≡ 1)
            × ((e : GoError) × (m.transport ≡ some (some e))
                × (error_is e server_stopped ≡ false))))

-- When the flags can be read, the server is built, the run of `Serve` gives the result, and the
-- transport's own error is none of the sentinels of the program: the exit code is 1 when the
-- transport failed, by an error other than that it was stopped. When it was stopped, the exit code is
-- 0 if the streams were drained, and 1 if the grace elapsed and they were cut off.
pub served_exit_code :
    (new : Config → Result Server) (served : Server → Option GoError) (args : List Bytes)
    {config : Config} {s : Server} (m : Serving)
    → parse args ≡ ok config
    → new config ≡ ok s
    → Reach m
    → m.main ≡ returned (served s)
    → IsForeign m
    → ExitsBy m (run new served args).code
served_exit_code new served args {config} {s} m h k reached at foreign =
    let code = code_of_served new served args h k in
    elim (serve_answers m (served s) reached at).1 [
      | inl (e, whole, stopped) ↦ inl (code ∙ ap fizzled_exit_code e, whole, stopped)
      | inr (inl (e, cut, stopped)) ↦ inr (inl (code ∙ ap fizzled_exit_code e, cut, stopped))
      | inr (inr (f, e, transport, own)) ↦
          let (no_usage, no_config) = foreign f transport in
          inr (
            inr
              (code ∙ ap fizzled_exit_code e ∙ rw (no_usage, no_config) refl, (f, transport, own)))
    ]
