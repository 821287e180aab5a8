-- ===== src/TestPki/Roles.antt =====
-- The roles file of internal/testpki, before internal/authz.
use mathlib.Core.List.{Memᴰ}
use mathlib.Core.List.Memᴰ.{head, tail}
use fizzled_go.Prelude.{
  ◌≡◌, ◌≢◌, ◌↔◌, ◌⊎◌, inl, inr, refl, sym, ap, subst, ◌∙◌, Bytes, codes, some, List, [], ◌∷◌, All,
  text_eq, text_eq-cases, eq_of_some_eq,
}
use fizzled_go.Prelude.Assoc.{Assoc, lookup, insert, lookup-insert}
use fizzled_go.Errors.{ok, ◌>>=◌, bind-eq-ok, eq_of_ok_eq}
use fizzled_go.Authn.AgentId.{IsAgentId, validate_iff}
use fizzled_go.Authz.{
  Action, Authorizer, Decoder, authorize, authorizer_of, load, load_entries, role_user,
  unmarshal_role,
}
use fizzled_go.Authz.Loaded.{IsNamed, load-authorize}
use fizzled_go.TestPki.Documented.{IsKept}
use fizzled_go.TestPki.{Tools, user_roles, write_file, write_roles}

-- An agent has a role after the loop exactly as it says: each of the agents is a user.
abbrev UsersAre : List Bytes → Assoc Bytes → Bytes → Type 0
UsersAre agents roles agent =
    (Memᴰ agent agents → lookup agent (user_roles agents roles) ≡ some role_user)
    × (lookup agent roles ≡ some role_user
        → lookup agent (user_roles agents roles) ≡ some role_user)
    × ((role : Bytes)
        → lookup agent (user_roles agents roles) ≡ some role
        → (Memᴰ agent agents × (role ≡ role_user)) ⊎ (lookup agent roles ≡ some role))

user_roles-UsersAre :
    (agents : List Bytes) (roles : Assoc Bytes) (agent : Bytes) → UsersAre agents roles agent
unfolding user_roles
user_roles-UsersAre [] roles agent = (λ m. elim m [ ], λ h. h, λ role h. inr h)
user_roles-UsersAre (first ∷ agents) roles agent =
    let (named, keeps, only) = user_roles-UsersAre agents (insert first role_user roles) agent in
    let inserted = lookup-insert first agent role_user roles in
    elim (text_eq-cases first agent) [
      | inl (e, t) ↦
          let found : lookup agent (insert first role_user roles) ≡ some role_user =
            rw (inserted, t) refl in
          (
            λ m. keeps found,
            λ h. keeps found,
            λ role h. elim (only role h) [
              | inl (m, k) ↦ inl (tail m, k)
              | inr k ↦ inl (head (sym e), eq_of_some_eq (sym k ∙ found))
            ],
          )
      | inr (n, f) ↦
          let same : lookup agent (insert first role_user roles) ≡ lookup agent roles =
            rw (inserted, f) refl in
          (
            λ m. elim m [ head e ↦ absurd (n (sym e)) | tail m ↦ named m ],
            λ h. keeps (same ∙ h),
            λ role h. elim (only role h) [
              | inl (m, k) ↦ inl (tail m, k)
              | inr k ↦ inr (sym same ∙ k)
            ],
          )
    ]

user_roles_iff :
    (agents : List Bytes) (agent : Bytes)
    → Memᴰ agent agents ↔ (lookup agent (user_roles agents []) ≡ some role_user)
unfolding lookup
user_roles_iff agents agent =
    let (named, _, only) = user_roles-UsersAre agents [] agent in
    (named, λ h. elim (only role_user h) [ inl (m, _) ↦ m | inr k ↦ absurd (cc) ])

users_only :
    (agents : List Bytes) (agent role : Bytes)
    → lookup agent (user_roles agents []) ≡ some role
    → Memᴰ agent agents × (role ≡ role_user)
unfolding lookup
users_only agents agent role h = elim ((user_roles-UsersAre agents [] agent).2 role h) [
  | inl k ↦ k
  | inr k ↦ absurd (cc)
]

Memᴰ-All :
    (P : Bytes → Type 0) (agents : List Bytes) (agent : Bytes)
    → Memᴰ agent agents
    → All P agents
    → P agent
Memᴰ-All P [] agent m ps = elim m [ ]
Memᴰ-All P (first ∷ agents) agent (head e) (p, ps) = subst P (sym e) p
Memᴰ-All P (first ∷ agents) agent (tail m) (p, ps) = Memᴰ-All P agents agent m ps

module _ {Raw : Type 0} (decoder : Decoder Raw) where
  -- The raw value of each entry is the string that the map has for its name.
  abbrev pub Holds : Assoc Bytes → Assoc Raw → Type 0
  Holds roles [] = Unit
  Holds roles ((agent, raw) ∷ entries) =
      ((role : Bytes) × (lookup agent roles ≡ some role) × (decoder.unmarshal_string raw ≡ ok role))
      × Holds roles entries

  -- encoding/json: the encoding of this map of strings is decoded to entries for each of its names.
  abbrev pub IsJson : (Bytes → Type 0) → Assoc Bytes → Type 0
  IsJson encodes roles =
      (encoded : Bytes)
      → encodes encoded
      → (entries : Assoc Raw) × (decoder.unmarshal_object encoded ≡ ok entries)
        × Holds roles entries
        × ((agent role : Bytes) → lookup agent roles ≡ some role → IsNamed decoder agent entries)

  IsNamed-lookup :
      (roles : Assoc Bytes) (entries : Assoc Raw) (agent : Bytes)
      → Holds roles entries
      → IsNamed decoder agent entries
      → (role : Bytes) × (lookup agent roles ≡ some role)
  IsNamed-lookup roles [] agent h k = elim k [ ]
  IsNamed-lookup roles ((named, raw) ∷ entries) agent ((role, h, _), hs) (inl e) =
      (role, ap (λ z. lookup z roles) (sym e) ∙ h)
  IsNamed-lookup roles ((named, raw) ∷ entries) agent (h, hs) (inr k) =
      IsNamed-lookup roles entries agent hs k

  load_entries_total :
      (agents : List Bytes) (entries : Assoc Raw) (loaded : Assoc Bytes)
      → All IsAgentId agents
      → Holds (user_roles agents []) entries
      → (roles : Assoc Bytes) × (load_entries decoder entries loaded ≡ ok roles)
  unfolding load_entries unmarshal_role text_eq
  load_entries_total agents [] loaded valid h = (loaded, refl)
  load_entries_total agents ((agent, raw) ∷ entries) loaded valid ((role, found, reads), hs) =
      let (m, user) = users_only agents agent role found in
      let (roles, rest) =
        load_entries_total agents entries (insert agent role_user loaded) valid hs in
      let known = reads ∙ ap ok user in
      (roles, rw ((validate_iff agent).1 (Memᴰ-All IsAgentId agents agent m valid), known) rest)

  authorizer_of_total :
      (entries : Assoc Raw) (roles : Assoc Bytes)
      → entries ≢ []
      → load_entries decoder entries [] ≡ ok roles
      → authorizer_of decoder entries ≡ ok (record { roles = roles })
  authorizer_of_total [] roles filled h = absurd (filled refl)
  authorizer_of_total (entry ∷ entries) roles filled h =
      ap (λ r. r >>= λ roles. ok (record { roles = roles })) h

module _ {S Key Raw : Type 0} (tools : Tools S Key) (decoder : Decoder Raw) where
  -- The decoder over the files that a call has left.
  abbrev pub decoder_at : S → Decoder Raw
  decoder_at s = record decoder { read_file = tools.read_file s }

  abbrev pub Marshals : Assoc Bytes → Bytes → Type 0
  Marshals roles encoded = tools.marshal_roles roles ≡ ok encoded

  written_roles :
      (agents : List Bytes) (path : Bytes) (s s' : S)
      → IsKept tools
      → write_roles tools agents s ≡ ok (path, s')
      → (encoded : Bytes) × Marshals (user_roles agents []) encoded
        × (tools.read_file s' path ≡ ok encoded)
  unfolding write_roles write_file
  written_roles agents path s s' kept h =
      let name = codes "roles.json" in
      let written = λ (encoded : Bytes) (dir : Bytes) (s : S).
        tools.write (tools.join dir name) encoded 384 s >>= λ s. ok (tools.join dir name, s) in
      let (encoded, p, h) =
        bind-eq-ok (tools.marshal_roles (user_roles agents []))
          (λ encoded. tools.temp_dir s >>= λ (dir, s). written encoded dir s) h in
      let ((dir, s1), _, h) = bind-eq-ok (tools.temp_dir s) (λ (dir, s). written encoded dir s) h in
      let (s2, wrote, e) =
        bind-eq-ok (tools.write (tools.join dir name) encoded 384 s1)
          (λ s. ok (tools.join dir name, s)) h in
      (
        encoded,
        p,
        subst (λ z. tools.read_file z.1 z.0 ≡ ok encoded) (eq_of_ok_eq e)
            (kept (tools.join dir name) encoded 384 s1 s2 wrote),
      )

  -- When os does what it documents, and encoding/json does for the map of these agents: the roles
  -- file that is written for at least one agent, each with a valid id, is loaded, and the authorizer
  -- allows an agent an action, any of the four, exactly when the file was written for that agent.
  pub roles_file-load :
      (agents : List Bytes) (path : Bytes) (s s' : S)
      → IsKept tools
      → IsJson (decoder_at s') (Marshals (user_roles agents [])) (user_roles agents [])
      → agents ≢ []
      → All IsAgentId agents
      → write_roles tools agents s ≡ ok (path, s')
      → (a : Authorizer) × (load (decoder_at s') path ≡ ok a)
        × ((agent : Bytes) (action : Action)
            → (authorize a agent action ≡ ok tt) ↔ Memᴰ agent agents)
  unfolding load
  roles_file-load [] path s s' kept json filled valid wrote = absurd (filled refl)
  roles_file-load (first ∷ rest) path s s' kept json filled valid wrote =
      let agents = first ∷ rest in
      let roles = user_roles agents [] in
      let d = decoder_at s' in
      let (encoded, marshalled, read) = written_roles agents path s s' kept wrote in
      let (entries, decoded, holds, all) = json encoded marshalled in
      let (loaded, made) = load_entries_total d agents entries [] valid holds in
      let some_entry : entries ≢ [] = λ e.
        subst (IsNamed d first) e
          (all first role_user ((user_roles_iff agents first).0 (head refl))) in
      let a : Authorizer = record { roles = loaded } in
      let loads : load d path ≡ ok a =
        ap (λ r. r >>= λ content. d.unmarshal_object content >>= authorizer_of d) read
        ∙ ap (λ r. r >>= authorizer_of d) decoded
        ∙ authorizer_of_total d entries loaded some_entry made in
      let (entries', (content, read', decoded'), _, allows) = load-authorize d path a loads in
      let same : entries' ≡ entries =
        eq_of_ok_eq
          (sym decoded' ∙ ap d.unmarshal_object (eq_of_ok_eq (sym read' ∙ read)) ∙ decoded) in
      (
        a,
        loads,
        λ agent action. (
          λ h.
              let (named, _) = (allows agent action).0 h in
              let (role, found) =
                IsNamed-lookup d roles entries agent holds (subst (IsNamed d agent) same named) in
              (users_only agents agent role found).0,
          λ m.
              let named = all agent role_user ((user_roles_iff agents agent).0 m) in
              (allows agent action).1
                (subst (IsNamed d agent) (sym same) named, Memᴰ-All IsAgentId agents agent m valid),
        ),
      )
