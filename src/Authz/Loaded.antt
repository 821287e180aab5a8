-- ===== src/Authz/Loaded.antt =====
-- What an authorizer loaded by internal/authz allows.
use fizzled_go.Prelude.{
  ◌≡◌, ◌≢◌, ◌↔◌, ◌⊎◌, inl, inr, refl, sym, ap, ◌∙◌, Bytes, true, Option, none, some, [], ◌∷◌, arith,
  text_eq, text_eq-cases, eq_of_some_eq, Option-cases,
}
use fizzled_go.Prelude.Assoc.{Assoc, lookup, insert, lookup-insert}
use fizzled_go.Errors.{ok, ◌>>=◌, bind_iff, eq_of_ok_eq}
use fizzled_go.Authn.AgentId.{IsAgentId, validate, validate_iff}
use fizzled_go.Authz.{
  Action, start, stop, get_status, stream_output, role_user, role_allows, Authorizer, authorize,
  Decoder, known_role, unmarshal_role, load_entries, authorizer_of, load,
}

known_role-ok : (input role : Bytes) → known_role input ≡ ok role → role ≡ role_user
unfolding text_eq
known_role-ok input role h = elim (text_eq-cases input role_user) [
  | inl (e, t) ↦ sym (eq_of_ok_eq (ap known_role (sym e) ∙ h))
  | inr (n, f) ↦ absurd (ground arith)
]

user_may : (action : Action) → role_allows (some role_user) action ≡ true
unfolding text_eq
user_may start = refl
user_may stop = refl
user_may get_status = refl
user_may stream_output = refl

-- `Authorize` allows what the role of the agent's entry grants.
pub authorize_iff :
    (a : Authorizer) (agent : Bytes) (action : Action)
    → (authorize a agent action ≡ ok tt) ↔ (role_allows (lookup agent a.roles) action ≡ true)
unfolding authorize
authorize_iff a agent action = (λ h. ground arith, λ h. ground arith)

abbrev made_of : Assoc Bytes → Authorizer
made_of roles = record { roles = roles }

no_role : {o : Option Bytes} (action : Action) → role_allows o action ≡ true → o ≢ none
no_role {o = none} action h e = cc
no_role {o = some role} action h e = cc

module _ {Raw : Type 0} (decoder : Decoder Raw) where
  unmarshal_role-ok :
      (raw : Raw) (role : Bytes) → unmarshal_role decoder raw ≡ ok role → role ≡ role_user
  unfolding unmarshal_role
  unmarshal_role-ok raw role h =
      let (input, _, k) = (bind_iff (decoder.unmarshal_string raw) known_role role).0 h in
      known_role-ok input role k

  -- The agents that a list of entries names.
  abbrev pub IsNamed : Bytes → Assoc Raw → Type 0
  IsNamed agent [] = ⊥
  IsNamed agent ((named, raw) ∷ entries) = (named ≡ agent) ⊎ IsNamed agent entries

  abbrev HasRole : Bytes → Assoc Bytes → Type 0
  HasRole agent roles = lookup agent roles ≡ some role_user

  -- After the loop every named agent is valid and a user, an agent keeps being a user, and an agent
  -- that has a role had it before, or is named and a user.
  LoadsTo : Assoc Raw → Assoc Bytes → Assoc Bytes → Bytes → Type 0
  LoadsTo entries roles roles' agent =
      (IsNamed agent entries → HasRole agent roles' × IsAgentId agent)
      × (HasRole agent roles → HasRole agent roles')
      × ((role : Bytes)
          → lookup agent roles' ≡ some role
          → (lookup agent roles ≡ some role) ⊎ (IsNamed agent entries × (role ≡ role_user)))

  loads_one :
      (named agent : Bytes) (raw : Raw) (entries : Assoc Raw) (roles roles' : Assoc Bytes)
      → IsAgentId named
      → LoadsTo entries (insert named role_user roles) roles' agent
      → LoadsTo ((named, raw) ∷ entries) roles roles' agent
  unfolding LoadsTo
  loads_one named agent raw entries roles roles' valid (names, keeps, only) =
      let inserted = lookup-insert named agent role_user roles in
      elim (text_eq-cases named agent) [
        | inl (e, t) ↦
            let found : HasRole agent (insert named role_user roles) = rw (inserted, t) refl in
            (
              λ _. (keeps found, rw (← e) valid),
              λ _. keeps found,
              λ role h. elim (only role h) [
                | inl k ↦ inr (inl e, eq_of_some_eq (sym k ∙ found))
                | inr (k, r) ↦ inr (inr k, r)
              ],
            )
        | inr (n, f) ↦
            let same : lookup agent (insert named role_user roles) ≡ lookup agent roles =
              rw (inserted, f) refl in
            (
              λ h. elim h [ inl e ↦ absurd (n e) | inr k ↦ names k ],
              λ h. keeps (same ∙ h),
              λ role h. elim (only role h) [
                | inl k ↦ inl (sym same ∙ k)
                | inr (k, r) ↦ inr (inr k, r)
              ],
            )
      ]

  load_entries-ok :
      (entries : Assoc Raw) (roles roles' : Assoc Bytes) (agent : Bytes)
      → load_entries decoder entries roles ≡ ok roles'
      → LoadsTo entries roles roles' agent
  unfolding load_entries LoadsTo
  load_entries-ok [] roles roles' agent h =
      let e : roles ≡ roles' = eq_of_ok_eq h in
      (λ k. absurd k, λ k. rw (← e) k, λ role k. inl (ap (lookup agent) e ∙ k))
  load_entries-ok ((named, raw) ∷ entries) roles roles' agent h =
      let next = λ (role : Bytes). load_entries decoder entries (insert named role roles) in
      let (u, valid, k) =
        (bind_iff (validate named) (λ _. unmarshal_role decoder raw >>= next) roles').0 h in
      let (role, r, l) = (bind_iff (unmarshal_role decoder raw) next roles').0 k in
      let user = unmarshal_role-ok raw role r in
      loads_one named agent raw entries roles roles' ((validate_iff named).0 valid) (
        load_entries-ok entries (insert named role_user roles) roles' agent
          (ap next (sym user) ∙ l))

  -- The entries that a loaded authorizer stands on.
  abbrev pub IsLoaded : Bytes → Assoc Raw → Type 0
  IsLoaded path entries =
      (content : Bytes) × (decoder.read_file path ≡ ok content)
      × (decoder.unmarshal_object content ≡ ok entries)

  authorizer_of-ok :
      (entries : Assoc Raw) (a : Authorizer)
      → authorizer_of decoder entries ≡ ok a
      → (entries ≢ []) × (load_entries decoder entries [] ≡ ok a.roles)
  authorizer_of-ok [] a h = cc
  authorizer_of-ok (e ∷ es) a h =
      let (roles, k, f) =
        (bind_iff (load_entries decoder (e ∷ es) []) (λ roles. ok (made_of roles)) a).0 h in
      (λ n. cc, k ∙ ap (λ z. ok z.roles) (eq_of_ok_eq f))

  loaded_allows :
      (entries : Assoc Raw) (roles : Assoc Bytes) (agent : Bytes) (action : Action)
      → LoadsTo entries [] roles agent
      → (role_allows (lookup agent roles) action ≡ true) ↔ (IsNamed agent entries × IsAgentId agent)
  unfolding LoadsTo lookup
  loaded_allows entries roles agent action (names, keeps, only) = (
    λ h. elim (Option-cases (lookup agent roles)) [
      | inl e ↦ absurd (no_role action h e)
      | inr (role, e) ↦ elim (only role e) [ inl k ↦ cc | inr (k, _) ↦ (k, (names k).1) ]
    ],
    λ (k, _). rw ((names k).0) (user_may action),
  )

  -- A file that loads names an agent, and an agent is allowed an action, any of the four, exactly
  -- when the file names it and its identifier is valid.
  pub load-authorize :
      (path : Bytes) (a : Authorizer)
      → load decoder path ≡ ok a
      → (entries : Assoc Raw) × IsLoaded path entries
        × (entries ≢ [])
        × ((agent : Bytes) (action : Action)
            → (authorize a agent action ≡ ok tt) ↔ (IsNamed agent entries × IsAgentId agent))
  unfolding load
  load-authorize path a h =
      let decoded =
        λ (content : Bytes). decoder.unmarshal_object content >>= authorizer_of decoder in
      let (content, r, k) = (bind_iff (decoder.read_file path) decoded a).0 h in
      let (entries, d, l) =
        (bind_iff (decoder.unmarshal_object content) (authorizer_of decoder) a).0 k in
      let (some_entry, loaded) = authorizer_of-ok entries a l in
      (
        entries,
        (content, r, d),
        some_entry,
        λ agent action.
            let (to, from) = authorize_iff a agent action in
            let (to_named, of_named) =
              loaded_allows entries a.roles agent action
                (load_entries-ok entries [] a.roles agent loaded) in
            (λ t. to_named (to t), λ t. from (of_named t)),
      )
