-- ===== src/Command/Flags/Help.antt =====
-- When `Parse` of package flag reports ErrHelp: a flag -h or -help that is none of the set, where a
-- flag may stand, behind flags of the set alone.
use fizzled_go.Prelude.{
  ◌≡◌, ◌⊎◌, inl, inr, refl, sym, ap, subst, ◌∙◌, Bytes, codes, true, false, Option, none, some,
  List, [], ◌∷◌, text_eq, text_eq-cases, Option-cases,
}
use fizzled_go.Prelude.Assoc.{lookup}
use fizzled_go.Errors.{Result, ok, err, GoError, help, error_is}
use fizzled_go.Command.Flags.{
  Token, positional, terminator, malformed, named, token, Formal, ends_before, ends_behind, fails,
  sets, takes, effect, effect_of_token, effect_of, flag_error, parse_flags,
}

module _ {C : Type 0} (formal : Formal C) where
  -- A flag of the set.
  abbrev pub IsFlag : Bytes → Type 0
  IsFlag name = (setter : (Bytes → C → C)) × (lookup name formal ≡ some setter)

  abbrev pub IsHelpFlag : Bytes → Type 0
  IsHelpFlag name = (lookup name formal ≡ none) × ((name ≡ codes "help") ⊎ (name ≡ codes "h"))

  -- The arguments ask for help: at once, or behind a flag with its value, which stands behind an `=`
  -- or is the next argument.
  pub data AsksFlag : List Bytes → Type 0 where
    asks :
        {s : Bytes} {args : List Bytes} {name : Bytes} {value : Option Bytes}
        → token s ≡ named name value
        → IsHelpFlag name
        → AsksFlag (s ∷ args)
    behind :
        {s : Bytes} {args : List Bytes} {name value : Bytes}
        → token s ≡ named name (some value)
        → IsFlag name
        → AsksFlag args
        → AsksFlag (s ∷ args)
    behind_next :
        {s value : Bytes} {args : List Bytes} {name : Bytes}
        → token s ≡ named name none
        → IsFlag name
        → AsksFlag args
        → AsksFlag (s ∷ value ∷ args)

  abbrev pub HelpError : Result (C × List Bytes) → Type 0
  HelpError r = (e : GoError) × (r ≡ err e) × (error_is e help ≡ true)

  effect_of_named :
      (s name : Bytes) (value : Option Bytes) (o : Option (Bytes → C → C))
      → token s ≡ named name value
      → lookup name formal ≡ o
      → effect formal s ≡ effect_of name value o
  unfolding effect
  effect_of_named s name value o e f = ap (effect_of_token formal) e ∙ ap (effect_of name value) f

  help_effect :
      (name : Bytes) (value : Option Bytes)
      → (name ≡ codes "help") ⊎ (name ≡ codes "h")
      → effect_of {C = C} name value none ≡ fails (help ∷ [])
  unfolding text_eq
  help_effect name value (inl e) = rw e refl
  help_effect name value (inr e) = rw e refl

  -- What the loop makes of an argument that is no help flag.
  parse-sets :
      (s : Bytes) (args : List Bytes) (c : C) (f : C → C)
      → effect formal s ≡ sets f
      → parse_flags formal none (s ∷ args) c ≡ parse_flags formal none args (f c)
  unfolding parse_flags
  parse-sets s args c f e = rw (e, parse_flags) refl

  parse-fails :
      (s : Bytes) (args : List Bytes) (c : C) (e : GoError)
      → effect formal s ≡ fails e
      → parse_flags formal none (s ∷ args) c ≡ err e
  unfolding parse_flags
  parse-fails s args c f e = rw (e, parse_flags) refl

  parse-takes :
      (s : Bytes) (args : List Bytes) (c : C) (setter : Bytes → C → C)
      → effect formal s ≡ takes setter
      → parse_flags formal none (s ∷ args) c ≡ parse_flags formal (some setter) args c
  unfolding parse_flags
  parse-takes s args c setter e = rw (e, parse_flags) refl

  parse-ends :
      (s : Bytes) (args : List Bytes) (c : C)
      → (effect formal s ≡ ends_before) ⊎ (effect formal s ≡ ends_behind)
      → (left : C × List Bytes) × (parse_flags formal none (s ∷ args) c ≡ ok left)
  unfolding parse_flags
  parse-ends s args c (inl e) = ((c, s ∷ args), rw (e, parse_flags) refl)
  parse-ends s args c (inr e) = ((c, args), rw (e, parse_flags) refl)

  pub AsksFlag-HelpError :
      {args : List Bytes} (c : C) → AsksFlag args → HelpError (parse_flags formal none args c)
  unfolding parse_flags
  AsksFlag-HelpError c (asks {s} {args} {name} {value} e (f, h)) =
      let is = effect_of_named s name value none e f ∙ help_effect name value h in
      (help ∷ [], parse-fails s args c (help ∷ []) is, refl)
  AsksFlag-HelpError c (behind {s} {args} {name} {value} e (setter, f) later) =
      let is = effect_of_named s name (some value) (some setter) e f in
      subst HelpError (sym (parse-sets s args c (setter value) is))
        (AsksFlag-HelpError (setter value c) later)
  AsksFlag-HelpError c (behind_next {s} {value} {args} {name} e (setter, f) later) =
      let is = effect_of_named s name none (some setter) e f in
      subst HelpError (sym (parse-takes s (value ∷ args) c setter is))
        (AsksFlag-HelpError (setter value c) later)

  -- What an argument is, and what follows from it.
  abbrev Read : Bytes → Type 0
  Read s =
      (effect formal s ≡ ends_before)
      ⊎ ((effect formal s ≡ ends_behind)
          ⊎ ((effect formal s ≡ fails flag_error)
              ⊎ ((name : Bytes) × (value : Option Bytes) × (token s ≡ named name value))))

  Read-of : (s : Bytes) (t : Token) → token s ≡ t → Read s
  unfolding effect
  Read-of s positional e = inl (ap (effect_of_token formal) e)
  Read-of s terminator e = inr (inl (ap (effect_of_token formal) e))
  Read-of s malformed e = inr (inr (inl (ap (effect_of_token formal) e)))
  Read-of s (named name value) e = inr (inr (inr (name, value, e)))

  unknown_effect :
      (name : Bytes) (value : Option Bytes)
      → ((name ≡ codes "help") ⊎ (name ≡ codes "h"))
        ⊎ (effect_of {C = C} name value none ≡ fails flag_error)
  unknown_effect name value = elim (text_eq-cases name (codes "help")) [
    | inl (e, _) ↦ inl (inl e)
    | inr (_, f) ↦ elim (text_eq-cases name (codes "h")) [
      | inl (e, _) ↦ inl (inr e)
      | inr (_, g) ↦ inr (rw (f, g) refl)
    ]
  ]

  no_help :
      {r : Result (C × List Bytes)} {e : GoError}
      → r ≡ err e
      → error_is e help ≡ false
      → HelpError r
      → ⊥
  no_help h f (e', h', t) = cc

  no_error : {r : Result (C × List Bytes)} {a : C × List Bytes} → r ≡ ok a → HelpError r → ⊥
  no_error h (e, h', t) = cc

  ends_help : (c : C) → HelpError (parse_flags formal none [] c) → ⊥
  unfolding parse_flags
  ends_help c h = no_error refl h

  taken_next :
      (setter : Bytes → C → C) (value : Bytes) (args : List Bytes) (c : C)
      → parse_flags formal (some setter) (value ∷ args) c
        ≡ parse_flags formal none args (setter value c)
  unfolding parse_flags
  taken_next setter value args c = refl

  -- How a request for help goes on from its first argument.
  abbrev Asked : Bytes → List Bytes → C → Type 0
  Asked s args c =
      ((name : Bytes) × (value : Option Bytes) × (token s ≡ named name value) × IsHelpFlag name)
      ⊎ (((name value : Bytes) × (setter : (Bytes → C → C)) × (token s ≡ named name (some value))
            × (lookup name formal ≡ some setter)
            × HelpError (parse_flags formal none args (setter value c)))
          ⊎ ((name : Bytes) × (setter : (Bytes → C → C)) × (token s ≡ named name none)
              × (lookup name formal ≡ some setter)
              × HelpError (parse_flags formal (some setter) args c)))

  known-Asked :
      (s : Bytes) (args : List Bytes) (c : C) (name : Bytes) (value : Option Bytes)
      (setter : Bytes → C → C)
      → token s ≡ named name value
      → lookup name formal ≡ some setter
      → HelpError (parse_flags formal none (s ∷ args) c)
      → Asked s args c
  known-Asked s args c name (some value) setter e f h =
      let is = effect_of_named s name (some value) (some setter) e f in
      inr
        (inl (name, value, setter, e, f, subst HelpError (parse-sets s args c (setter value) is) h))
  known-Asked s args c name none setter e f h =
      let is = effect_of_named s name none (some setter) e f in
      inr (inr (name, setter, e, f, subst HelpError (parse-takes s args c setter is) h))

  Asked-cases :
      (s : Bytes) (args : List Bytes) (c : C)
      → HelpError (parse_flags formal none (s ∷ args) c)
      → Asked s args c
  Asked-cases s args c h = elim (Read-of s (token s) refl) [
    | inl e ↦ absurd (no_error (parse-ends s args c (inl e)).1 h)
    | inr (inl e) ↦ absurd (no_error (parse-ends s args c (inr e)).1 h)
    | inr (inr (inl e)) ↦ absurd (no_help (parse-fails s args c flag_error e) refl h)
    | inr (inr (inr (name, value, e))) ↦ elim (Option-cases (lookup name formal)) [
      | inr (setter, f) ↦ known-Asked s args c name value setter e f h
      | inl f ↦ elim (unknown_effect name value) [
        | inl asked ↦ inl (name, value, e, (f, asked))
        | inr other ↦
            let is = effect_of_named s name value none e f ∙ other in
            absurd (no_help (parse-fails s args c flag_error is) refl h)
      ]
    ]
  ]

  -- A flag that takes the next argument, when there is none.
  last_flag :
      (setter : Bytes → C → C) (c : C) → HelpError (parse_flags formal (some setter) [] c) → ⊥
  unfolding parse_flags
  last_flag setter c h = no_help refl refl h

  pub HelpError-AsksFlag :
      (args : List Bytes) (c : C) → HelpError (parse_flags formal none args c) → AsksFlag args
  HelpError-AsksFlag [] c h = absurd (ends_help c h)
  HelpError-AsksFlag (s ∷ []) c h = elim (Asked-cases s [] c h) [
    | inl (name, value, e, help_flag) ↦ asks e help_flag
    | inr (inl (name, value, setter, e, f, later)) ↦
        behind e (setter, f) (HelpError-AsksFlag [] (setter value c) later)
    | inr (inr (name, setter, e, f, later)) ↦ absurd (last_flag setter c later)
  ]
  HelpError-AsksFlag (s ∷ value ∷ args) c h = elim (Asked-cases s (value ∷ args) c h) [
    | inl (name, value, e, help_flag) ↦ asks e help_flag
    | inr (inl (name, value', setter, e, f, later)) ↦
        behind e (setter, f) (HelpError-AsksFlag (value ∷ args) (setter value' c) later)
    | inr (inr (name, setter, e, f, later)) ↦
        behind_next e (setter, f)
          (HelpError-AsksFlag args (setter value c)
            (subst HelpError (taken_next setter value args c) later))
  ]
