-- ===== src/Server/Interceptor/Access.antt =====
-- Which calls internal/server's Interceptor lets through, and what it hands to their handlers.
use fizzled_go.Prelude.{
  ◌≡◌, ◌≢◌, ◌⊎◌, inl, inr, refl, sym, ap, subst, ◌∙◌, Bytes, codes, true, false, Option, none, some,
  Option-cases, List, [], ◌∷◌,
}
use fizzled_go.Errors.{ok, err, GoError, Result-cases}
use fizzled_go.Authn.Certificate.{Certificate}
use fizzled_go.Authn.Authenticator.{authenticate}
use fizzled_go.Authz.{Action, authorize}
use fizzled_go.Server.Rpc.{
  Code, internal, unauthenticated, permission_denied, reply, refuse, AuthInfo, tls, other_auth,
  Context, internal_error_message,
}
use fizzled_go.Server.Interceptor.{
  Interceptor, LogLine, no_action, decision, action_for, Logged, authenticate_peer, audited_job,
  authorize_agent, authorize_action, authorize_call, Ran, guard, run_authorized, intercept,
}

-- The peer's certificates authenticate it as this agent.
abbrev pub IsAuthentic : Interceptor → Context → Bytes → Type 0
IsAuthentic i ctx agent =
    (chain : List (Option Certificate)) × (ctx.peer ≡ some (tls chain))
    × (authenticate i.authenticator chain ≡ ok agent)

-- A method with an action, from an authentic agent that may take it.
abbrev pub IsAllowed : Interceptor → Context → Bytes → Bytes → Action → Type 0
IsAllowed i ctx full_method agent action =
    (action_for full_method ≡ some action)
    × IsAuthentic i ctx agent
    × (authorize i.authorizer agent action ≡ ok tt)

-- The ways in which a call is refused, with the status that its caller sees.
abbrev pub IsRefused : Interceptor → Context → Bytes → Code → Type 0
IsRefused i ctx full_method code =
    ((action_for full_method ≡ none) × (code ≡ internal))
    ⊎ ((action : Action) × (action_for full_method ≡ some action)
        × (¬ ((agent : Bytes) × IsAuthentic i ctx agent))
        × (code ≡ unauthenticated))
    ⊎ ((action : Action) × (agent : Bytes) × (action_for full_method ≡ some action)
        × IsAuthentic i ctx agent
        × (authorize i.authorizer agent action ≢ ok tt)
        × (code ≡ permission_denied))

-- What a call's authorization comes to: a decision to allow, or a refusal.
abbrev pub Verdict : Interceptor → Context → Bytes → Bytes → Logged Context → Type 0
Verdict i ctx full_method job_id r =
    ((agent : Bytes) × (action : Action) × IsAllowed i ctx full_method agent action
      × (r ≡ (
        decision agent action true (audited_job job_id) ∷ [],
        reply (record ctx { agent_id = some agent }),
      )))
    ⊎ ((code : Code) × (message : Bytes) × (lines : List LogLine) × IsRefused i ctx full_method code
        × (r ≡ (lines, refuse code message)))

other_apart : (chain : List (Option Certificate)) → some other_auth ≢ some (tls chain)
other_apart chain h = cc

pub tls_eq : {a b : List (Option Certificate)} → some (tls a) ≡ some (tls b) → a ≡ b
tls_eq h = cc

not_both :
    (i : Interceptor) (a b : List (Option Certificate)) (agent : Bytes) (failure : GoError)
    → a ≡ b
    → authenticate i.authenticator a ≡ ok agent
    → authenticate i.authenticator b ≢ err failure
not_both i a b agent failure e h k = cc

peer-Verdict :
    (i : Interceptor) (ctx : Context) (full_method job_id : Bytes) (action : Action)
    (peer : Option AuthInfo)
    → action_for full_method ≡ some action
    → ctx.peer ≡ peer
    → Verdict i ctx full_method job_id
        (authorize_agent i ctx action job_id (authenticate_peer i.authenticator peer))
peer-Verdict i ctx full_method job_id action none m e =
    inr (_, _, _, inr (inl (action, m, (λ (agent, (chain, k, h)). absurd (cc)), refl)), refl)
peer-Verdict i ctx full_method job_id action (some other_auth) m e = inr (
  _,
  _,
  _,
  inr (inl (action, m, (λ (agent, (chain, k, h)). other_apart chain (sym e ∙ k)), refl)),
  refl,
)
peer-Verdict i ctx full_method job_id action (some (tls chain)) m e =
    elim (Result-cases (authenticate i.authenticator chain)) [
      | inr (failure, f) ↦ inr (
        unauthenticated,
        codes "unauthenticated",
        [],
        inr (
            inl (
              action,
              m,
              (λ (agent, (other, k, h)).
                  not_both i other chain agent failure (tls_eq (sym k ∙ e)) h f),
              refl,
            )),
        rw f refl,
      )
      | inl (agent, f) ↦ elim (Result-cases (authorize i.authorizer agent action)) [
        | inl (u, g) ↦ inl (agent, action, (m, (chain, e, f), g), rw (f, g) refl)
        | inr (failure, g) ↦ inr (
          permission_denied,
          codes "permission denied",
          decision agent action false (audited_job job_id) ∷ [],
          inr (inr (action, agent, m, (chain, e, f), (λ h. absurd (cc)), refl)),
          rw (f, g) refl,
        )
      ]
    ]

-- Every call gets a verdict: it is allowed, its one log line is the decision with the agent, the
-- action and the job id, and the handler's context names the authenticated agent; or it is refused,
-- with internal when no action stands for the method, else unauthenticated when the peer has no
-- valid client certificate, else permission denied when its role does not grant the action.
pub authorize_call-Verdict :
    (i : Interceptor) (ctx : Context) (full_method job_id : Bytes)
    → Verdict i ctx full_method job_id (authorize_call i ctx full_method job_id)
unfolding authorize_call
authorize_call-Verdict i ctx full_method job_id = elim (Option-cases (action_for full_method)) [
  | inl e ↦ inr (
    internal,
    internal_error_message,
    no_action full_method ∷ [],
    inl (e, refl),
    ap (authorize_action i ctx full_method job_id) e,
  )
  | inr (action, e) ↦
      subst (λ o. Verdict i ctx full_method job_id (authorize_action i ctx full_method job_id o))
        (sym e) (peer-Verdict i ctx full_method job_id action ctx.peer e refl)
]

-- A handler runs only for an allowed call: with a context that names the authenticated agent, and
-- otherwise the state that handlers share is left as it was, and the caller is refused.
pub intercept_guards :
    {A S : Type 0} (i : Interceptor) (ctx : Context) (full_method job_id : Bytes)
    (handler : Context → S → Ran A × S) (s : S)
    → ((agent : Bytes) × (action : Action) × IsAllowed i ctx full_method agent action
        × (intercept i ctx full_method job_id handler s
            ≡ guard full_method
                (decision agent action true (audited_job job_id) ∷ [])
                (handler (record ctx { agent_id = some agent }) s)))
      ⊎ ((code : Code) × (message : Bytes) × (lines : List LogLine) × IsRefused i ctx full_method
            code
          × (intercept i ctx full_method job_id handler s ≡ (lines, refuse code message, s)))
unfolding intercept
intercept_guards i ctx full_method job_id handler s =
    elim (authorize_call-Verdict i ctx full_method job_id) [
      | inl (agent, action, allowed, e) ↦
          inl (agent, action, allowed, ap (run_authorized full_method handler s) e)
      | inr (code, message, lines, refused, e) ↦
          inr (code, message, lines, refused, ap (run_authorized full_method handler s) e)
    ]
