-- ===== src/Server/Service.antt =====
-- internal/server/service.go, over the registry and the store of jobs. A handler that waits for a
-- job is in two parts, before and after the wait. The log lines are not modelled.
pub mod Isolation
pub mod Streaming
use fizzled_go.Prelude.{
  ℕ, Bytes, codes, Bool, true, false, Option, none, some, List, [], ◌∷◌, get_elem?, set,
  if◌then◌else◌,
}
use fizzled_go.Prelude.Int.{ℤ, int32}
use fizzled_go.Errors.{Result, ok, err, GoError, error_is, invalid_count, not_accepting_jobs}
use fizzled_go.Worker.Tick.{
  Status, running, completed, stopped, failed, Tick, progress, panic_error,
}
use fizzled_go.Worker.Job.{Job}
use fizzled_go.Worker.Countdown.{Task}
use fizzled_go.Worker.Countdown.Stop.{request_stop, stop_answer}
use fizzled_go.Registry.{World, create, find}
use fizzled_go.Registry
use fizzled_go.Registry.Shutdown.{begin_shutdown}
use fizzled_go.Server.Interceptor.{agent_id_from}
use fizzled_go.Server.Rpc.{
  Code, internal, invalid_argument, unavailable, not_found, Answer, reply, refuse, ◌>>=◌, Context,
  internal_error_message,
}

-- `NewService`: a service is its registry, with the store of jobs.
abbrev pub new_service : World
new_service = Registry.new

-- `Shutdown`, as far as the registry's critical section; then it waits for the jobs returned.
abbrev pub shutdown : World → World × List ℕ
shutdown w = begin_shutdown w

-- fizzledv1.Status
pub data WireStatus : Type 0 where
  status_unspecified status_running status_completed status_stopped status_failed : WireStatus

-- `protoStatus`; the default is for strings that are none of the constants.
unfoldable pub proto_status : Status → WireStatus
proto_status running = status_running
proto_status completed = status_completed
proto_status stopped = status_stopped
proto_status failed = status_failed

-- fizzledv1.Tick: elapsed in nanoseconds, remaining as an int32.
pub data WireTick : Type 0 where
  wire_progress : ℤ → ℤ → WireTick
  wire_stopped : WireTick
  wire_failure : Bytes → WireTick

abbrev pub unexpected_error_message : Bytes
unexpected_error_message = codes "unexpected error"

-- `protoTick` and `protoFailure`.
unfoldable pub proto_tick : Tick → WireTick
proto_tick (progress elapsed remaining) = wire_progress elapsed (int32 remaining)
proto_tick (Tick.stopped cause) = wire_stopped
proto_tick (panic_error e) = wire_failure unexpected_error_message

abbrev pub agent_answer : Option Bytes → Answer Bytes
agent_answer none = refuse internal internal_error_message
agent_answer (some agent) = reply agent

-- `agentID`
abbrev pub agent_id : Context → Answer Bytes
agent_id ctx = agent_answer (agent_id_from ctx)

abbrev pub found_job : Bytes → Option ℕ → Answer (ℕ × Bytes)
found_job agent none = refuse not_found (codes "job not found")
found_job agent (some job) = reply (job, agent)

-- `findJob`: a pointer to the job, and its owner.
unfoldable pub find_job : Context → Bytes → World → Answer (ℕ × Bytes)
find_job ctx job_id w = agent_id ctx >>= λ agent. found_job agent (find agent job_id w)

abbrev pub invalid_count_message : Bytes
invalid_count_message = codes "count must be between 1 and 100"

-- The `switch` of `Start`, with the world that `Create` left.
abbrev pub started : World → Result (Bytes × World) → Answer Bytes × World
started w (ok (job_id, w')) = (reply job_id, w')
started w (err e) = (
  if error_is e invalid_count
      then refuse invalid_argument invalid_count_message
      else if error_is e not_accepting_jobs
      then refuse unavailable (codes "unavailable")
      else refuse internal internal_error_message,
  w,
)

abbrev pub start_as : Answer Bytes → ℤ → World → Answer Bytes × World
start_as (refuse c m) count w = (refuse c m, w)
start_as (reply agent) count w = started w (create false agent count w)

-- `Start`; the context that `Create` is given is never done.
unfoldable pub start : Context → ℤ → World → Answer Bytes × World
start ctx count w = start_as (agent_id ctx) count w

-- `job.Status()`, through the pointer; a pointer that the registry gives leads to a job.
abbrev pub status_of : Option Task → Answer WireStatus
status_of none = refuse internal internal_error_message
status_of (some t) = reply (proto_status t.job.status)

abbrev pub status_at : World → ℕ → Answer WireStatus
status_at w p = status_of (get_elem? w.tasks p)

-- `GetStatus`
unfoldable pub get_status : Context → Bytes → World → Answer WireStatus
get_status ctx job_id w = find_job ctx job_id w >>= λ found. status_at w found.0

abbrev pub put_canceled : World → ℕ → Option Task → World
put_canceled w p none = w
put_canceled w p (some t) = record w {
  tasks = set w.tasks p (record t { job = request_stop t.job });
}

abbrev pub cancel_at : World → ℕ → World
cancel_at w p = put_canceled w p (get_elem? w.tasks p)

abbrev pub stop_found : Answer (ℕ × Bytes) → World → Answer ℕ × World
stop_found (refuse c m) w = (refuse c m, w)
stop_found (reply (p, agent)) w = (reply p, cancel_at w p)

-- `Stop` until it waits: the job that it waits for.
unfoldable pub stop : Context → Bytes → World → Answer ℕ × World
stop ctx job_id w = stop_found (find_job ctx job_id w) w

abbrev pub response_of : Option Status → Option WireStatus
response_of none = none
response_of (some s) = some (proto_status s)

-- `Stop` after the wait; `none` while it waits.
unfoldable pub stop_response : Job → Option WireStatus
stop_response j = response_of (stop_answer j)

-- `StreamOutput` until it ranges over the job's ticks: the job that it subscribes to.
unfoldable pub stream_output : Context → Bytes → World → Answer ℕ
stream_output ctx job_id w = find_job ctx job_id w >>= λ found. reply found.0
