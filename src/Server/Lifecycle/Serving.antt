-- ===== src/Server/Lifecycle/Serving.antt =====
-- `Serve` and `shutdown` of internal/server/server.go: the goroutine of `Serve`, the one that serves
-- the transport, the one that stops it, and the timer, as a state machine whose steps are the
-- points where they meet. When the transport's `Serve` returns, when the jobs have stopped, when
-- `GracefulStop` returns and when the grace elapses are events; what they wait for is not modelled.
pub mod Answers
pub mod Returning
use fizzled_go.Prelude.{
  Bool, true, false, not, ◌&&◌, Option, none, some, List, [], ◌∷◌, if◌then◌else◌, ◌≡◌,
}
use fizzled_go.Errors.{GoError, error_is, server_stopped, shutdown_grace_elapsed}

-- Where `Serve` stands: in its `select`; in the `select` of `shutdown`, with the serve error if it
-- has it; behind the grace, where it waits for the stopping goroutine; behind `shutdown` without a
-- serve error; or returned.
pub data Main : Type 0 where
  selecting : Main
  shutting : Option (Option GoError) → Main
  cut_off : Option (Option GoError) → Main
  awaiting : (is_drained : Bool) → Main
  returned : Option GoError → Main

-- The goroutine of `shutdown`: not started, in the service's `Shutdown`, in the transport's
-- `GracefulStop`, or behind the close of `stopped`.
pub data Stopper : Type 0 where
  idle stopping_jobs draining finished : Stopper

-- `served` is what the buffered channel holds, and `transport` what the transport's `Serve` returned,
-- once it has; `is_cut` is whether the transport's `Stop` was called.
pub record Serving : Type 0 where
  pub main : Main
  pub stopper : Stopper
  pub served : Option (Option GoError)
  pub transport : Option (Option GoError)
  pub ctx_done : Bool
  pub is_cut : Bool

abbrev pub new_serving : Serving
new_serving = record {
  main = selecting;
  stopper = idle;
  served = none;
  transport = none;
  ctx_done = false;
  is_cut = false;
}

-- The `switch` at the end of `Serve`.
unfoldable pub serve_result : Option GoError → Bool → Option GoError
serve_result none drained = if drained then none else some (shutdown_grace_elapsed ∷ [])
serve_result (some e) drained =
    if not (error_is e server_stopped)
    then some e
    else if drained
    then none
    else some (shutdown_grace_elapsed ∷ [])

-- What happens: the transport's `Serve` returns, the context ends, `Serve` takes the error or sees
-- the end of the context, the jobs have stopped, the transport has drained, `Serve` sees that, the
-- grace elapses, and `Serve` takes the error behind the shutdown.
pub data Event : Type 0 where
  transport_returns : Option GoError → Event
  ctx_ends takes_error sees_done jobs_stop transport_drains sees_stopped grace_elapses : Event
  takes_late_error : Event

-- Behind `shutdown`: with the error in hand `Serve` returns.
abbrev pub behind_shutdown : Option (Option GoError) → Bool → Main
behind_shutdown none drained = awaiting drained
behind_shutdown (some e) drained = returned (serve_result e drained)

abbrev pub when : Bool → Serving → Option Serving
when b s = if b then some s else none

abbrev pub takes_at : Main → Option (Option GoError) → Serving → Option Serving
takes_at selecting (some e) s =
    some (record s { main = shutting (some e); stopper = stopping_jobs; served = none })
takes_at _ _ s = none

abbrev pub sees_done_at : Main → Serving → Option Serving
sees_done_at selecting s =
    when s.ctx_done (record s { main = shutting none; stopper = stopping_jobs })
sees_done_at _ s = none

abbrev pub stop_at : Stopper → Event → Serving → Option Serving
stop_at stopping_jobs jobs_stop s = some (record s { stopper = draining })
stop_at draining transport_drains s = some (record s { stopper = finished })
stop_at _ _ s = none

abbrev pub sees_stopped_at : Main → Stopper → Serving → Option Serving
sees_stopped_at (shutting e) finished s = some (record s { main = behind_shutdown e true })
sees_stopped_at (cut_off e) finished s = some (record s { main = behind_shutdown e false })
sees_stopped_at _ _ s = none

abbrev pub elapse_at : Main → Serving → Option Serving
elapse_at (shutting e) s = some (record s { main = cut_off e; is_cut = true })
elapse_at _ s = none

abbrev pub takes_late_at : Main → Option (Option GoError) → Serving → Option Serving
takes_late_at (awaiting drained) (some e) s =
    some (record s { main = returned (serve_result e drained); served = none })
takes_late_at _ _ s = none

abbrev pub serve_at : Option (Option GoError) → Option GoError → Serving → Option Serving
serve_at none e s = some (record s { served = some e; transport = some e })
serve_at (some before) e s = none

-- One step; `none` when the event cannot happen here.
unfoldable pub step : Event → Serving → Option Serving
step (transport_returns e) s = serve_at s.transport e s
step ctx_ends s = some (record s { ctx_done = true })
step takes_error s = takes_at s.main s.served s
step sees_done s = sees_done_at s.main s
step jobs_stop s = stop_at s.stopper jobs_stop s
step transport_drains s = stop_at s.stopper transport_drains s
step sees_stopped s = sees_stopped_at s.main s.stopper s
step grace_elapses s = elapse_at s.main s
step takes_late_error s = takes_late_at s.main s.served s

pub data Reach : Serving → Type 0 where
  serving : Reach new_serving
  next : {s t : Serving} (e : Event) → Reach s → step e s ≡ some t → Reach t
