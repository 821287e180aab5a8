-- ===== src/Server/Call/Owned.antt =====
-- What an agent gets from the job that it started.
use fizzled_go.Prelude.{
  ℕ, ◌≡◌, ◌≢◌, inl, inr, refl, sym, ap, subst, ◌∙◌, Bytes, Option, some, get_elem?, List, [], ◌∷◌,
  true, false, text_eq,
}
use fizzled_go.Prelude.Int.{ℤ}
use fizzled_go.Errors.{ok}
use fizzled_go.Worker.Tick.{Status, running, completed, stopped, failed}
use fizzled_go.Worker.Countdown.{Task}
use fizzled_go.Authn.Certificate.{Certificate}
use fizzled_go.Authn.Authenticator.{authenticate}
use fizzled_go.Authz.{Action, authorize}
use fizzled_go.Authz
use fizzled_go.Registry.{World, create, find}
use fizzled_go.Registry.Invariant.{Steps-IsWellFormed}
use fizzled_go.Registry.Ownership.{create_registers}
use fizzled_go.Registry.Shutdown.{begin_shutdown}
use fizzled_go.Server.Rpc.{Code, Answer, reply, refuse, AuthInfo, tls, ◌>>=◌}
use fizzled_go.Server.Interceptor.{
  Interceptor, LogLine, decision, audited_job, action_for, authorize_call, guard, intercept,
}
use fizzled_go.Server.Interceptor.Access.{intercept_guards}
use fizzled_go.Server.Service.{status_unspecified, proto_status, start, new_service}
use fizzled_go.Server.Service.Isolation.{start_of, started_reply, get_status_found}
use fizzled_go.Server.Call.{
  Request, start_request, get_status_request, Reply, started, has_status, method_of, decided_job_id,
  handle, handle_start, incoming, call, at_time, Serves, opens, calls, job_steps, shuts_down,
}
use fizzled_go.Server.Call.Effects.{handle-Changed}
use fizzled_go.Server.Call.Hidden.{
  IsServed, Serves-IsServed, new-IsServed, call-cases, authentic_as,
}

-- A call that its peer may make runs its handler.
allowed_call :
    (i : Interceptor) (chain : List (Option Certificate)) (request : Request) (w : World)
    (agent : Bytes) (action : Action)
    → action_for (method_of request) ≡ some action
    → authenticate i.authenticator chain ≡ ok agent
    → authorize i.authorizer agent action ≡ ok tt
    → call i (some (tls chain)) request w
      ≡ guard
          (method_of request)
          (decision agent action true (audited_job (decided_job_id request)) ∷ [])
          (handle request (record { peer = some (tls chain); agent_id = some agent }) w)
unfolding call intercept authorize_call
allowed_call i chain request w agent action e named granted = rw (e, named, granted) refl

-- What can be found stays there, whatever the server does.
call_keeps :
    (i : Interceptor) (peer : Option AuthInfo) (request : Request) (w : World) (a id : Bytes)
    (p : ℕ)
    → IsServed w
    → find a id w ≡ some p
    → find a id (call i peer request w).2 ≡ some p
call_keeps i peer request w a id p s h = elim (call-cases i peer request w) [
  | inl same ↦ ap (find a id) same ∙ h
  | inr (agent, _, ran) ↦
      let ctx = record (incoming peer) { agent_id = some agent } in
      ap (find a id) ran
      ∙ (handle-Changed ctx agent w (Steps-IsWellFormed s.steps) refl request).keeps a id p h
]

Serves_keeps :
    {i : Interceptor} {w u : World} (a id : Bytes) (p : ℕ)
    → Serves i w u
    → IsServed w
    → find a id w ≡ some p
    → find a id u ≡ some p
unfolding find begin_shutdown
Serves_keeps a id p opens s h = h
Serves_keeps a id p (calls {w} {u} now peer request lines answer r e) s h =
    subst (λ u. find a id u ≡ some p) (ap (λ z. z.2) e)
      (call_keeps _ peer request w a id p (Serves-IsServed r s) (Serves_keeps a id p r s h))
Serves_keeps a id p (job_steps {w} q t u e r k step) s h = Serves_keeps a id p r s h
Serves_keeps a id p (shuts_down r) s h = Serves_keeps a id p r s h

started_eq : {x y : Bytes} → reply (started x) ≡ reply (started y) → x ≡ y
started_eq h = cc

never_started : {c : Code} {m x : Bytes} → ◌≢◌ {A = Answer Reply} (refuse c m) (reply (started x))
never_started h = cc

start_inv :
    (full_method : Bytes) (decided lines : List LogLine) (outcome : Answer Bytes × World)
    (job_id : Bytes) (u : World)
    → guard full_method decided (handle_start outcome) ≡ (lines, reply (started job_id), u)
    → outcome ≡ (reply job_id, u)
start_inv full_method decided lines (reply j, v) job_id u h =
    let same : j ≡ job_id = started_eq (ap (λ z. z.1) h) in
    let world : v ≡ u = ap (λ z. z.2) h in
    ap (λ j. (reply j, v)) same ∙ ap (λ v. (reply job_id, v)) world
start_inv full_method decided lines (refuse c m, v) job_id u h =
    absurd (never_started (ap (λ z. z.1) h))

wire_specified : (s : Status) → proto_status s ≢ status_unspecified
unfolding proto_status
wire_specified running e = cc
wire_specified completed e = cc
wire_specified stopped e = cc
wire_specified failed e = cc

module _ (i : Interceptor) (now : ℕ) (w u : World) (a job_id : Bytes) (count : ℤ)
    (chain : List (Option Certificate)) (lines : List LogLine) (s : IsServed w)
    (named : authenticate (at_time i now).authenticator chain ≡ ok a)
    (h : call (at_time i now) (some (tls chain)) (start_request count) w
      ≡ (lines, reply (started job_id), u)) where
  -- The job that a call of `Start` replies is there for its caller.
  started_found : (p : ℕ) × (find a job_id u ≡ some p)
  unfolding call handle
  started_found =
      let ctx = incoming (some (tls chain)) in
      elim (intercept_guards (at_time i now) ctx (method_of (start_request count)) []
        (handle (start_request count)) w) [
          | inr (code, message, ls, _, e) ↦ absurd (never_started (ap (λ z. z.1) (sym e ∙ h)))
          | inl (agent, action, (_, authentic, _), e) ↦
              let same = authentic_as (at_time i now) chain agent a named authentic in
              let full = record ctx { agent_id = some agent } in
              let replied =
                start_inv (method_of (start_request count)) _ lines (start full count w) job_id u
                  (sym e ∙ h) in
              let made =
                started_reply w u (create false agent count w) job_id
                  (sym (start_of full agent count w refl) ∙ replied) in
              let f = Steps-IsWellFormed s.steps in
              let (_, (p, _, found, _, _, _, _)) =
                create_registers false agent count w u job_id f made in
              (p, ap (λ b. find b job_id u) (sym same) ∙ found)
        ]

-- In a world that a server reaches from its start, when a call of `Start` by a peer that is
-- authenticated as an agent replies a job id, then in every world that the server reaches from
-- there, and for every peer that is authenticated as the same agent and whose role grants it,
-- `GetStatus` of that id replies the status of the job in the store that bears the id, which is not
-- UNSPECIFIED.
pub started_job_served :
    (i : Interceptor) (now later : ℕ) (w u v : World) (a job_id : Bytes) (count : ℤ)
    (chain other : List (Option Certificate)) (lines : List LogLine)
    → Serves i new_service w
    → authenticate (at_time i now).authenticator chain ≡ ok a
    → call (at_time i now) (some (tls chain)) (start_request count) w
      ≡ (lines, reply (started job_id), u)
    → Serves i u v
    → authenticate (at_time i later).authenticator other ≡ ok a
    → authorize i.authorizer a Authz.get_status ≡ ok tt
    → (p : ℕ) × (t : Task) × (get_elem? v.tasks p ≡ some t)
      × (t.job.id ≡ job_id)
      × ((call (at_time i later) (some (tls other)) (get_status_request job_id) v).1
          ≡ reply (has_status (proto_status t.job.status)))
      × (proto_status t.job.status ≢ status_unspecified)
unfolding handle
started_job_served i now later w u v a job_id count chain other lines r named h r' named' granted =
    let s = Serves-IsServed r new-IsServed in
    let (p, found) = started_found i now w u a job_id count chain lines s named h in
    let s' = Serves-IsServed (calls now _ _ _ _ r h) new-IsServed in
    let found' = Serves_keeps a job_id p r' s' found in
    let f = Steps-IsWellFormed (Serves-IsServed r' s').steps in
    let (t, at, bears) = f.stored a job_id p found' in
    let ctx = record (incoming (some (tls other))) { agent_id = some a } in
    let answered = get_status_found ctx a job_id v p t refl found' at in
    let ran =
      allowed_call (at_time i later) other (get_status_request job_id) v a Authz.get_status
        (unfold action_for text_eq in refl) named' granted in
    (
      p,
      t,
      at,
      bears,
      ap (λ z. z.1) ran ∙ ap (λ s. s >>= λ s. reply (has_status s)) answered,
      wire_specified t.job.status,
    )
