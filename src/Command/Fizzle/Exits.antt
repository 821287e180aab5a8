-- ===== src/Command/Fizzle/Exits.antt =====
-- How a run of cmd/fizzle ends when it cannot read its command line.
use fizzled_go.Prelude.{
  ◌≡◌, ◌↔◌, refl, ◌⊎◌, inl, inr, Bytes, codes, true, none, List, [], ◌∷◌, arith, Bool-cases,
  text_eq, text_eq_iff, not,
}
use fizzled_go.Errors.{Result, ok, err, ◌>>=◌, GoError, error_is, help, usage}
use fizzled_go.Client.Connection.{Config, Environment, wrapped}
use fizzled_go.Command.Flags.{parse_flags, usage_unless_help}
use fizzled_go.Command.Flags.Help.{AsksFlag, AsksFlag-HelpError, HelpError-AsksFlag}
use fizzled_go.Command.Atoi.{atoi}
use fizzled_go.Command.Failures.{
  Errs, bind-Errs, ok-Errs, err-Errs, if-Errs, NotHelp, HasHelp, NotHelp-HasHelp, bind-HasHelp,
  usage_unless_help-HasHelp, usage_atoi-NotHelp,
}
use fizzled_go.Command.Fizzle.{
  usage_text, diagnostic, Writer, Ended, Invocation, Command, parse, new_command, start_command,
  read_command, execute, run, print, is_help_request, is_command, one_argument, flag_set,
  default_config, command_start, command_stop, command_status, command_outputs,
}

-- What an error of reading the command line is.
abbrev IsReadError : GoError → Type 0
IsReadError e = (error_is e help ≡ true) ⊎ (error_is e usage ≡ true)

usage_unless_help-IsReadError : {A : Type 0} (r : Result A) → Errs IsReadError (usage_unless_help r)
usage_unless_help-IsReadError (ok a) = ok-Errs IsReadError a
usage_unless_help-IsReadError (err f) = elim (Bool-cases (error_is f help)) [
  | inl t ↦ rw t (err-Errs IsReadError f (inl t))
  | inr n ↦ rw n (err-Errs IsReadError (usage ∷ f) (inr (ground arith)))
]

wrapped-IsReadError : {A : Type 0} (r : Result A) → Errs IsReadError (wrapped usage r)
wrapped-IsReadError (ok a) = ok-Errs IsReadError a
wrapped-IsReadError (err e) = err-Errs IsReadError (usage ∷ e) (inr (ground arith))

-- What follows behind `parse`.
abbrev command_of : Invocation → Result (Config × Command)
command_of i = new_command i.name i.argument >>= λ c. ok (i.config, c)

-- What holds of the errors of the parts, for a kind of error that a usage error is.
module _ (P : GoError → Type 0) (of_usage : P (usage ∷ [])) where
  one_argument-Errs : (name : Bytes) (left : Config × List Bytes) → Errs P (one_argument name left)
  one_argument-Errs name (c, argument ∷ []) = ok-Errs P _
  one_argument-Errs name (c, []) = err-Errs P (usage ∷ []) of_usage
  one_argument-Errs name (c, a ∷ b ∷ more) = err-Errs P (usage ∷ []) of_usage

  new_command-Errs :
      (of_atoi : (s : Bytes) → Errs P (wrapped usage (atoi s))) (name argument : Bytes)
      → Errs P (new_command name argument)
  unfolding new_command
  new_command-Errs of_atoi name argument =
      if-Errs P (text_eq name command_start) _ _
        (bind-Errs P (wrapped usage (atoi argument)) (λ n. ok (start_command n)) (of_atoi argument)
          (λ n. ok-Errs P _))
        (if-Errs P (text_eq name command_stop) _ _ (ok-Errs P _) (
          if-Errs P (text_eq name command_status) _ _ (ok-Errs P _) (
            if-Errs P (text_eq name command_outputs) _ _ (ok-Errs P _)
              (err-Errs P (usage ∷ []) of_usage))))

  command_of-Errs :
      (of_atoi : (s : Bytes) → Errs P (wrapped usage (atoi s))) (i : Invocation)
      → Errs P (command_of i)
  command_of-Errs of_atoi i =
      bind-Errs P (new_command i.name i.argument) (λ c. ok (i.config, c))
        (new_command-Errs of_atoi i.name i.argument) (λ c. ok-Errs P _)

parse-IsReadError : (args : List Bytes) → Errs IsReadError (parse args)
unfolding parse
parse-IsReadError [] = err-Errs IsReadError (usage ∷ []) (inr refl)
parse-IsReadError (name ∷ args) =
    if-Errs IsReadError (is_help_request name) _ _ (err-Errs IsReadError (help ∷ []) (inl refl)) (
      if-Errs IsReadError (not (is_command name)) _ _ (err-Errs IsReadError (usage ∷ []) (inr refl))
        (bind-Errs IsReadError (usage_unless_help (parse_flags flag_set none args default_config))
          (one_argument name)
          (usage_unless_help-IsReadError (parse_flags flag_set none args default_config))
          (one_argument-Errs IsReadError (inr refl) name)))

read_command-IsReadError : (args : List Bytes) → Errs IsReadError (read_command args)
unfolding read_command
read_command-IsReadError args =
    bind-Errs IsReadError (parse args) command_of (parse-IsReadError args)
      (command_of-Errs IsReadError (inr refl) (λ s. wrapped-IsReadError (atoi s)))

-- The words that ask for the usage in place of a command, and the commands.
abbrev pub IsHelpWord : Bytes → Type 0
IsHelpWord name = (name ≡ codes "-h") ⊎ ((name ≡ codes "-help") ⊎ (name ≡ codes "--help"))

abbrev pub IsCommand : Bytes → Type 0
IsCommand name =
    (name ≡ codes "start")
    ⊎ ((name ≡ codes "stop") ⊎ ((name ≡ codes "status") ⊎ (name ≡ codes "outputs")))

-- The arguments ask for help: the first is a word that does, or it is a command and the arguments
-- behind it have a flag -h or -help where a flag may stand, behind flags of the program alone.
abbrev pub AsksHelp : List Bytes → Type 0
AsksHelp [] = ⊥
AsksHelp (name ∷ args) = IsHelpWord name ⊎ (IsCommand name × AsksFlag flag_set args)

help_request_iff : (name : Bytes) → (is_help_request name ≡ true) ↔ IsHelpWord name
unfolding is_help_request
help_request_iff name =
    let first = text_eq_iff name (codes "-h") in
    let second = text_eq_iff name (codes "-help") in
    let third = text_eq_iff name (codes "--help") in (λ h. ground arith, λ h. ground arith)

IsCommand-iff : (name : Bytes) → (is_command name ≡ true) ↔ IsCommand name
IsCommand-iff name =
    let start = text_eq_iff name command_start in
    let stop = text_eq_iff name command_stop in
    let status = text_eq_iff name command_status in
    let outputs = text_eq_iff name command_outputs in (λ h. ground arith, λ h. ground arith)

parse-AsksHelp : (args : List Bytes) → HasHelp (parse args) ↔ AsksHelp args
unfolding parse
parse-AsksHelp [] = (NotHelp-HasHelp (err-Errs NotHelp (usage ∷ []) refl), λ h. absurd h)
parse-AsksHelp (name ∷ args) =
    let read = parse_flags flag_set none args default_config in
    let (to_flags, of_flags) = usage_unless_help-HasHelp read in
    let (to_read, of_read) =
      bind-HasHelp (usage_unless_help read) (one_argument name)
        (one_argument-Errs NotHelp refl name) in
    let (to_word, of_word) = help_request_iff name in
    let (to_command, of_command) = IsCommand-iff name in
    elim (Bool-cases (is_help_request name)) [
      | inl word ↦ rw word (λ h. inl (to_word word), λ h. (help ∷ [], refl, refl))
      | inr other ↦ elim (Bool-cases (is_command name)) [
        | inr unknown ↦
            rw (other, unknown)
              (
                λ h. absurd (NotHelp-HasHelp (err-Errs NotHelp (usage ∷ []) refl) h),
                λ h. elim h [
                  | inl w ↦ absurd (let t = of_word w in cc)
                  | inr (k, _) ↦ absurd (let t = of_command k in cc)
                ],
              )
        | inl known ↦
            rw (other, known)
              (
                λ h. inr (
                  to_command known,
                  HelpError-AsksFlag flag_set args default_config (to_flags (to_read h)),
                ),
                λ h. elim h [
                  | inl w ↦ absurd (let t = of_word w in cc)
                  | inr (_, k) ↦ of_read (of_flags (AsksFlag-HelpError flag_set default_config k))
                ],
              )
      ]
    ]

read_command-AsksHelp : (args : List Bytes) → HasHelp (read_command args) ↔ AsksHelp args
unfolding read_command
read_command-AsksHelp args =
    let (to_parse, of_parse) =
      bind-HasHelp (parse args) command_of (command_of-Errs NotHelp refl usage_atoi-NotHelp) in
    let (to_asks, of_asks) = parse-AsksHelp args in
    (λ h. to_asks (to_parse h), λ h. of_parse (of_asks h))

abbrev pub help_shown : Writer → Ended
help_shown stdout = record { stdout = print stdout [] usage_text; stderr = []; code = 0 }

abbrev pub usage_shown : Writer → GoError → Ended
usage_shown stderr e = record {
  stdout = [];
  stderr = print stderr (print stderr [] usage_text) (diagnostic e);
  code = 2;
}

-- A run whose command line cannot be read ends in one of two ways, whatever the files, the server
-- and the connection are. When the arguments ask for help, by their first word or by a flag of a
-- command, the usage stands on stdout as far as it takes it, stderr is empty and the exit code is 0.
-- When they do not, stdout is empty, stderr has the usage and the diagnostic, as far as it takes them,
-- and the exit code is 2.
pub unread_run :
    (env : Environment) (stdout stderr : Writer) (args : List Bytes) {e : GoError}
    → read_command args ≡ err e
    → (AsksHelp args × (run env stdout stderr args ≡ help_shown stdout))
      ⊎ ((¬ AsksHelp args) × (run env stdout stderr args ≡ usage_shown stderr e))
unfolding run execute
unread_run env stdout stderr args {e} h =
    let (to_asks, of_asks) = read_command-AsksHelp args in
    elim (Bool-cases (error_is e help)) [
      | inl t ↦ inl (to_asks (e, h, t), rw (h, t) refl)
      | inr n ↦ elim (read_command-IsReadError args e h) [
        | inl t ↦ absurd (cc)
        | inr u ↦ inr (λ asks. let (g, k, t) = of_asks asks in absurd (cc), rw (h, n, u) refl)
      ]
    ]
