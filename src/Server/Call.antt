-- ===== src/Server/Call.antt =====
-- One RPC as the server carries it out, from its peer to the answer: `Unary` and `Stream` of
-- internal/server/interceptor.go around the handlers of internal/server/service.go. A request is
-- routed by its method, and a handler that waits for a job is taken as far as its wait.
pub mod Effects
pub mod Hidden
pub mod Owned
pub mod Examples
use fizzled_go.Prelude.{ℕ, Bytes, Option, none, some, List, [], ◌∷◌, ◌≡◌, get_elem?, set}
use fizzled_go.Prelude.Int.{ℤ}
use fizzled_go.Worker.Countdown.{Task}
use fizzled_go.Worker.Countdown
use fizzled_go.Authn.Authenticator.Setup.{at_instant}
use fizzled_go.Registry.{World}
use fizzled_go.Server.Rpc.{Answer, reply, refuse, ◌>>=◌, AuthInfo, Context}
use fizzled_go.Server.Interceptor.{
  Interceptor, LogLine, Ran, returned, intercept, method_start, method_stop, method_get_status,
  method_stream_output,
}
use fizzled_go.Server.Service.{WireStatus, start, stop, get_status, stream_output, shutdown}

pub data Request : Type 0 where
  start_request : ℤ → Request
  stop_request get_status_request stream_output_request : (job_id : Bytes) → Request

abbrev pub method_of : Request → Bytes
method_of (start_request count) = method_start
method_of (stop_request job_id) = method_stop
method_of (get_status_request job_id) = method_get_status
method_of (stream_output_request job_id) = method_stream_output

-- `targetJobID`
abbrev pub target_job_id : Request → Bytes
target_job_id (start_request count) = []
target_job_id (stop_request job_id) = job_id
target_job_id (get_status_request job_id) = job_id
target_job_id (stream_output_request job_id) = job_id

-- The job id of the decision: `Stream` has no request in hand.
abbrev pub decided_job_id : Request → Bytes
decided_job_id (stream_output_request job_id) = []
decided_job_id request = target_job_id request

-- The id of a new job; the job that a call waits for; a status; the job that a stream is of.
pub data Reply : Type 0 where
  started : Bytes → Reply
  stopping : ℕ → Reply
  has_status : WireStatus → Reply
  streaming : ℕ → Reply

abbrev pub handle_start : Answer Bytes × World → Ran Reply × World
handle_start (answer, w) = (returned (answer >>= λ job_id. reply (started job_id)), w)

abbrev pub handle_stop : Answer ℕ × World → Ran Reply × World
handle_stop (answer, w) = (returned (answer >>= λ p. reply (stopping p)), w)

-- The handler of a request.
unfoldable pub handle : Request → Context → World → Ran Reply × World
handle (start_request count) ctx w = handle_start (start ctx count w)
handle (stop_request job_id) ctx w = handle_stop (stop ctx job_id w)
handle (get_status_request job_id) ctx w =
    (returned (get_status ctx job_id w >>= λ s. reply (has_status s)), w)
handle (stream_output_request job_id) ctx w =
    (returned (stream_output ctx job_id w >>= λ p. reply (streaming p)), w)

-- The context of a call before the interceptor.
abbrev pub incoming : Option AuthInfo → Context
incoming peer = record { peer = peer; agent_id = none }

unfoldable pub call :
    Interceptor → Option AuthInfo → Request → World → List LogLine × Answer Reply × World
call i peer request w =
    intercept i (incoming peer) (method_of request) (decided_job_id request) (handle request) w

-- The interceptor at an instant: a peer is verified when it calls.
abbrev pub at_time : Interceptor → ℕ → Interceptor
at_time i now = record i { authenticator = at_instant i.authenticator now }

-- The worlds that a server reaches from one: calls of any peers, steps of the jobs and of the calls that wait
-- for them, and its shutdown.
pub data Serves (i : Interceptor) (from : World) : World → Type 0 where
  opens : Serves i from from
  calls :
      {w u : World} (now : ℕ) (peer : Option AuthInfo) (request : Request) (lines : List LogLine)
      (answer : Answer Reply)
      → Serves i from w
      → call (at_time i now) peer request w ≡ (lines, answer, u)
      → Serves i from u
  job_steps :
      {w : World} (p : ℕ) (t u : Task) (e : Countdown.Event)
      → Serves i from w
      → get_elem? w.tasks p ≡ some t
      → Countdown.step e t ≡ some u
      → Serves i from (record w { tasks = set w.tasks p u })
  shuts_down : {w : World} → Serves i from w → Serves i from (shutdown w).0
