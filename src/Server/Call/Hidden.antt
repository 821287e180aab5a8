-- ===== src/Server/Call/Hidden.antt =====
-- Whose jobs a call can reach, from the first call of a server on.
use fizzled_go.Prelude.{
  ℕ, ◌≡◌, ◌≢◌, ◌⊎◌, inl, inr, refl, sym, ap, subst, ◌∙◌, Bytes, codes, Option, some, List, text_eq,
}
use fizzled_go.Errors.{ok, eq_of_ok_eq}
use fizzled_go.Authn.AgentId.{IsAgentId, IsAgentId-Lacks}
use fizzled_go.Authn.Authenticator.{authenticate}
use fizzled_go.Authn.Authenticator.Peers.{authenticate_iff}
use fizzled_go.Authn.Certificate.{Certificate}
use fizzled_go.Authz.{Action}
use fizzled_go.Registry.{World, new, find}
use fizzled_go.Registry.Invariant
use fizzled_go.Registry.Shutdown.{begin_shutdown}
use fizzled_go.Prelude.Assoc.{lookup}
use fizzled_go.Registry.Invariant.{IsWellFormed, Steps, Steps-IsWellFormed, here, next, closes}
use fizzled_go.Registry.JobId.{NoSlash}
use fizzled_go.Server.Rpc.{
  Code, not_found, permission_denied, Answer, refuse, AuthInfo, tls, Context,
}
use fizzled_go.Server.Interceptor.{Interceptor, LogLine, action_for, guard, Ran, returned, panicked}
use fizzled_go.Server.Interceptor.Access.{IsAuthentic, IsRefused, intercept_guards, tls_eq}
use fizzled_go.Server.Service.{new_service}
use fizzled_go.Server.Service.Isolation.{IsNotFound, foreign_job_hidden}
use fizzled_go.Server.Call.{
  Request, start_request, stop_request, get_status_request, stream_output_request, Reply, method_of,
  decided_job_id, handle, incoming, call, Serves, opens, calls, job_steps, shuts_down,
  target_job_id, at_time,
}
use fizzled_go.Server.Call.Effects.{Changed, handle-Changed}

-- What holds of the worlds that a server reaches: the registry is one that its operations lead to,
-- and who has a job has a valid agent id.
pub record IsServed (w : World) : Type 0 where
  pub steps : Steps new w
  pub owners : (a id : Bytes) (p : ℕ) → find a id w ≡ some p → IsAgentId a

pub IsAuthentic-IsAgentId :
    (i : Interceptor) (ctx : Context) (agent : Bytes) → IsAuthentic i ctx agent → IsAgentId agent
IsAuthentic-IsAgentId i ctx agent (chain, _, h) =
    ((authenticate_iff i.authenticator chain agent).0 h).3

Changed-IsServed :
    (agent : Bytes) (w u : World) → IsAgentId agent → Changed agent w u → IsServed w → IsServed u
Changed-IsServed agent w u valid c s = record {
  steps = c.steps new s.steps;
  owners = λ a id p h. elim (c.finds a id p h) [
    | inl old ↦ s.owners a id p old
    | inr mine ↦ subst IsAgentId (sym mine) valid
  ];
}

guard_state :
    {A S : Type 0} (full_method : Bytes) (lines : List LogLine) (ran : Ran A × S)
    → (guard full_method lines ran).2 ≡ ran.1
guard_state full_method lines (returned answer, s) = refl
guard_state full_method lines (panicked, s) = refl

-- A call leaves the world as it was, or an agent's handler ran.
pub call-cases :
    (i : Interceptor) (peer : Option AuthInfo) (request : Request) (w : World)
    → ((call i peer request w).2 ≡ w)
      ⊎ ((agent : Bytes) × IsAuthentic i (incoming peer) agent
          × ((call i peer request w).2
              ≡ (handle request (record (incoming peer) { agent_id = some agent }) w).1))
unfolding call
call-cases i peer request w =
    elim (intercept_guards i (incoming peer) (method_of request) (decided_job_id request)
      (handle request) w) [
        | inl (agent, action, (_, authentic, _), e) ↦
            inr (agent, authentic, ap (λ z. z.2) e ∙ guard_state _ _ _)
        | inr (code, message, lines, _, e) ↦ inl (ap (λ z. z.2) e)
      ]

call-IsServed :
    (i : Interceptor) (peer : Option AuthInfo) (request : Request) (w : World)
    → IsServed w
    → IsServed (call i peer request w).2
call-IsServed i peer request w s = elim (call-cases i peer request w) [
  | inl same ↦ subst IsServed (sym same) s
  | inr (agent, authentic, ran) ↦
      let ctx = record (incoming peer) { agent_id = some agent } in
      let f = Steps-IsWellFormed s.steps in
      subst IsServed (sym ran) (
        Changed-IsServed agent w (handle request ctx w).1
          (IsAuthentic-IsAgentId i (incoming peer) agent authentic)
          (handle-Changed ctx agent w f refl request) s)
]

pub Serves-IsServed : {i : Interceptor} {w u : World} → Serves i w u → IsServed w → IsServed u
unfolding find begin_shutdown
Serves-IsServed opens s = s
Serves-IsServed (calls {w} {u} now peer request lines answer r h) s =
    subst IsServed (ap (λ z. z.2) h) (call-IsServed _ peer request w (Serves-IsServed r s))
Serves-IsServed (job_steps {w} p t u e r h step) s =
    let before = Serves-IsServed r s in
    record {
      steps = next before.steps (Invariant.job_steps p t u e h step);
      owners = before.owners;
    }
Serves-IsServed (shuts_down {w} r) s =
    let before = Serves-IsServed r s in
    record { steps = next before.steps closes; owners = before.owners }

pub new-IsServed : IsServed new_service
unfolding find lookup
new-IsServed = record { steps = here; owners = λ a id p h. absurd (cc) }

NoSlash-of_agent : (a : Bytes) → IsAgentId a → NoSlash a
NoSlash-of_agent a (_, bytes, _) = IsAgentId-Lacks a bytes

-- The request names this job.
abbrev pub Targets : Request → Bytes → Type 0
Targets (start_request count) job_id = ⊥
Targets request job_id = target_job_id request ≡ job_id

-- The caller learns nothing of the job, and changes nothing: it may not call the method, or the
-- answer is that there is no such job.
abbrev pub IsConcealed : List LogLine × Answer Reply × World → World → Type 0
IsConcealed outcome w =
    (outcome.2 ≡ w)
    × ((outcome.1 ≡ refuse not_found (codes "job not found"))
        ⊎ ((message : Bytes) × (outcome.1 ≡ refuse permission_denied message)))

handled-missing :
    (request : Request) (job_id : Bytes) (ctx : Context) (w : World)
    → Targets request job_id
    → IsNotFound ctx job_id w
    → handle request ctx w ≡ (returned (refuse not_found (codes "job not found")), w)
unfolding handle
handled-missing (start_request count) job_id ctx w t h = absurd t
handled-missing (stop_request j) job_id ctx w t (_, h, _) = rw (t, h) refl
handled-missing (get_status_request j) job_id ctx w t (h, _, _) = rw (t, h) refl
handled-missing (stream_output_request j) job_id ctx w t (_, _, h) = rw (t, h) refl

action-exists :
    (request : Request) → (action : Action) × (action_for (method_of request) ≡ some action)
unfolding action_for text_eq
action-exists (start_request count) = (_, refl)
action-exists (stop_request job_id) = (_, refl)
action-exists (get_status_request job_id) = (_, refl)
action-exists (stream_output_request job_id) = (_, refl)

refused_code :
    (i : Interceptor) (request : Request) (chain : List (Option Certificate)) (b : Bytes)
    (code : Code)
    → authenticate i.authenticator chain ≡ ok b
    → IsRefused i (incoming (some (tls chain))) (method_of request) code
    → code ≡ permission_denied
refused_code i request chain b code h (inl (none_for, _)) =
    let (action, e) = action-exists request in absurd (cc)
refused_code i request chain b code h (inr (inl (action, _, stranger, _))) =
    absurd (stranger (b, (chain, refl, h)))
refused_code i request chain b code h (inr (inr (action, agent, _, _, _, e))) = e

pub authentic_as :
    (i : Interceptor) (chain : List (Option Certificate)) (a b : Bytes)
    → authenticate i.authenticator chain ≡ ok b
    → IsAuthentic i (incoming (some (tls chain))) a
    → a ≡ b
authentic_as i chain a b h (other, e, k) =
    eq_of_ok_eq (sym (ap (λ c. authenticate i.authenticator c) (tls_eq e) ∙ k) ∙ h)

-- In every world that a server reaches from its start, by the calls of any peers, the steps of the
-- jobs and its shutdown: a job that one agent finds is concealed from each call that names it and
-- whose peer is authenticated, when it calls, as another agent. The call changes nothing, and its answer is that the
-- job is not found, or that the permission is denied.
pub foreign_call-IsConcealed :
    (i : Interceptor) (now : ℕ) (w : World) (a b job_id : Bytes) (p : ℕ)
    (chain : List (Option Certificate)) (request : Request)
    → Serves i new_service w
    → find a job_id w ≡ some p
    → authenticate (at_time i now).authenticator chain ≡ ok b
    → a ≢ b
    → Targets request job_id
    → IsConcealed (call (at_time i now) (some (tls chain)) request w) w
unfolding call
foreign_call-IsConcealed i now w a b job_id p chain request served found named other target =
    let ctx = incoming (some (tls chain)) in
    let s = Serves-IsServed served new-IsServed in
    let j = at_time i now in
    let f = Steps-IsWellFormed s.steps in
    let valid = NoSlash-of_agent a (s.owners a job_id p found) in
    elim (intercept_guards j ctx (method_of request) (decided_job_id request) (handle request) w) [
      | inl (agent, action, (_, authentic, _), e) ↦
          let same = authentic_as j chain agent b named authentic in
          let valid' = NoSlash-of_agent agent (IsAuthentic-IsAgentId j ctx agent authentic) in
          let missing =
            foreign_job_hidden a agent job_id p w (record ctx { agent_id = some agent }) f valid
              valid' found (λ q. other (q ∙ same)) refl in
          let all =
            e
            ∙ ap (guard (method_of request) _) (
                handled-missing request job_id (record ctx { agent_id = some agent }) w target
                  missing) in
          (ap (λ z. z.2) all, inl (ap (λ z. z.1) all))
      | inr (code, message, lines, refused, e) ↦
          let c = refused_code j request chain b code named refused in
          (ap (λ z. z.2) e, inr (message, ap (λ z. z.1) e ∙ ap (λ c. refuse c message) c))
    ]
