-- ===== src/Server/Interceptor.antt =====
-- internal/server/interceptor.go. Each function returns the lines that it logs beside its result,
-- of which the messages' texts are left out.
pub mod Access
use fizzled_go.Prelude.{
  ℕ, Bytes, codes, Bool, true, false, Option, none, some, List, [], ◌∷◌, ◌++◌, if◌then◌else◌,
  text_eq,
}
use fizzled_go.Errors.{Result, ok, err, GoError}
use fizzled_go.Authn.Authenticator.{Authenticator, authenticate}
use fizzled_go.Authz.{Action, start, stop, get_status, stream_output, Authorizer, authorize}
use fizzled_go.Server.Rpc.{
  Code, internal, unauthenticated, permission_denied, Answer, reply, refuse, AuthInfo, tls,
  other_auth, Context, internal_error_message,
}

pub record Interceptor : Type 0 where
  pub authenticator : Authenticator
  pub authorizer : Authorizer

-- `NewInterceptor`
abbrev pub new_interceptor : Authenticator → Authorizer → Interceptor
new_interceptor authenticator authorizer = record {
  authenticator = authenticator;
  authorizer = authorizer;
}

-- The lines by what they record; a decision has the job id when it is not empty.
pub data LogLine : Type 0 where
  no_action : Bytes → LogLine
  no_peer not_mtls : LogLine
  decision : (agent : Bytes) → Action → (allowed : Bool) → Option Bytes → LogLine
  panic_in_handler : Bytes → LogLine

-- The method names of the generated code.
abbrev pub method_start : Bytes
method_start = codes "/fizzled.v1.FizzledService/Start"

abbrev pub method_stop : Bytes
method_stop = codes "/fizzled.v1.FizzledService/Stop"

abbrev pub method_get_status : Bytes
method_get_status = codes "/fizzled.v1.FizzledService/GetStatus"

abbrev pub method_stream_output : Bytes
method_stream_output = codes "/fizzled.v1.FizzledService/StreamOutput"

-- `actionFor`
unfoldable pub action_for : Bytes → Option Action
action_for full_method =
    if text_eq full_method method_start
    then some start
    else if text_eq full_method method_stop
    then some stop
    else if text_eq full_method method_get_status
    then some get_status
    else if text_eq full_method method_stream_output
    then some stream_output
    else none

-- A result and the lines logged on the way to it.
abbrev pub Logged : Type 0 → Type 0
Logged A = List LogLine × Answer A

abbrev pub unauthenticated_as : Result Bytes → Answer Bytes
unauthenticated_as (ok agent) = reply agent
unauthenticated_as (err e) = refuse unauthenticated (codes "unauthenticated")

-- `authenticate`
abbrev pub authenticate_peer : Authenticator → Option AuthInfo → Logged Bytes
authenticate_peer a none = (no_peer ∷ [], refuse unauthenticated (codes "no peer"))
authenticate_peer a (some other_auth) =
    (not_mtls ∷ [], refuse unauthenticated (codes "connection is not mTLS"))
authenticate_peer a (some (tls chain)) = ([], unauthenticated_as (authenticate a chain))

-- `agentIDFrom`
abbrev pub agent_id_from : Context → Option Bytes
agent_id_from ctx = ctx.agent_id

-- The attributes of a decision line.
abbrev pub audited_job : Bytes → Option Bytes
audited_job [] = none
audited_job (c ∷ job_id) = some (c ∷ job_id)

abbrev pub decide : Context → Bytes → Action → Bytes → Result (Unit {0}) → Logged Context
decide ctx agent action job_id (err e) = (
  decision agent action false (audited_job job_id) ∷ [],
  refuse permission_denied (codes "permission denied"),
)
decide ctx agent action job_id (ok _) = (
  decision agent action true (audited_job job_id) ∷ [],
  reply (record ctx { agent_id = some agent }),
)

-- What follows the authentication.
abbrev pub authorize_agent : Interceptor → Context → Action → Bytes → Logged Bytes → Logged Context
authorize_agent i ctx action job_id (lines, refuse c m) = (lines, refuse c m)
authorize_agent i ctx action job_id (lines, reply agent) =
    let (decided, answer) = decide ctx agent action job_id (authorize i.authorizer agent action) in
    (lines ++ decided, answer)

abbrev pub authorize_action : Interceptor → Context → Bytes → Bytes → Option Action → Logged Context
authorize_action i ctx full_method job_id none =
    (no_action full_method ∷ [], refuse internal internal_error_message)
authorize_action i ctx full_method job_id (some action) =
    authorize_agent i ctx action job_id (authenticate_peer i.authenticator ctx.peer)

-- `authorize`
unfoldable pub authorize_call : Interceptor → Context → Bytes → Bytes → Logged Context
authorize_call i ctx full_method job_id =
    authorize_action i ctx full_method job_id (action_for full_method)

-- How a handler ends: it returns, or it panics.
pub data Ran (A : Type 0) : Type 0 where
  returned : Answer A → Ran A
  panicked : Ran A

module _ {A S : Type 0} where
  -- `guard`, on a handler's end; `S` is the state that handlers share.
  abbrev pub guard : Bytes → List LogLine → Ran A × S → List LogLine × Answer A × S
  guard full_method lines (returned answer, s) = (lines, answer, s)
  guard full_method lines (panicked, s) =
      (lines ++ panic_in_handler full_method ∷ [], refuse internal internal_error_message, s)

  abbrev pub run_authorized :
      Bytes → (Context → S → Ran A × S) → S → Logged Context → List LogLine × Answer A × S
  run_authorized full_method handler s (lines, refuse c m) = (lines, refuse c m, s)
  run_authorized full_method handler s (lines, reply ctx) = guard full_method lines (handler ctx s)

  -- `Unary`, and `Stream` with an empty job id: the request is in the handler.
  unfoldable pub intercept :
      Interceptor
      → Context
      → Bytes
      → Bytes
      → (Context → S → Ran A × S)
      → S
      → List LogLine × Answer A × S
  intercept i ctx full_method job_id handler s =
      run_authorized full_method handler s (authorize_call i ctx full_method job_id)
