-- ===== src/Server/Lifecycle/System.antt =====
-- `Serve` and `shutdown` of internal/server/server.go beside the registry that they shut down: the
-- states of the two side by side, where the handlers create jobs, the jobs and the calls of `Stop`
-- take their steps, and the stopping goroutine runs the registry's `Shutdown`.
pub mod Acts
pub mod Kept
pub mod Returned
pub mod CanReturn
pub mod Examples
use fizzled_go.Prelude.{
  ℕ, Bytes, Bool, true, false, ◌&&◌, Option, none, some, List, [], ◌∷◌, get_elem?, set,
  if◌then◌else◌, ◌≡◌,
}
use fizzled_go.Prelude.Int.{ℤ}
use fizzled_go.Errors.{Result, ok, err}
use fizzled_go.Worker.Countdown.{Task}
use fizzled_go.Worker.Countdown
use fizzled_go.Registry.{World, create}
use fizzled_go.Server.Service.{shutdown, new_service}
use fizzled_go.Server.Lifecycle.Serving.{
  Stopper, stopping_jobs, Serving, Event, jobs_stop, new_serving, step,
}

-- `collected` is what the registry's `Shutdown` waits for, once it has left its critical section.
pub record System : Type 0 where
  pub serving : Serving
  pub world : World
  pub collected : Option (List ℕ)

abbrev pub new_system : System
new_system = record { serving = new_serving; world = new_service; collected = none }

-- What happens: a step of `Serve` and its goroutines; a call of `Create` by a handler; a step of the
-- job at a position, or of a call that cancels it; and the critical section of the registry's
-- `Shutdown`.
pub data Act : Type 0 where
  serves : Event → Act
  creates : (parent_done : Bool) → Bytes → ℤ → Act
  job_steps : ℕ → Countdown.Event → Act
  collects : Act

-- A position without a job leaves nothing to wait for.
abbrev pub is_finished : Option Task → Bool
is_finished none = true
is_finished (some t) = t.job.finished

-- The calls of `Stop` on these jobs can return.
unfoldable pub all_finished : List ℕ → List Task → Bool
all_finished [] tasks = true
all_finished (p ∷ ps) tasks = is_finished (get_elem? tasks p) && all_finished ps tasks

abbrev pub is_over : Option (List ℕ) → List Task → Bool
is_over none tasks = false
is_over (some ps) tasks = all_finished ps tasks

-- The service's `Shutdown` returns when the registry's has.
abbrev pub may_happen : Event → System → Bool
may_happen jobs_stop y = is_over y.collected y.world.tasks
may_happen _ y = true

abbrev pub with_serving : System → Option Serving → Option System
with_serving y none = none
with_serving y (some s) = some (record y { serving = s })

abbrev pub with_created : System → Result (Bytes × World) → System
with_created y (err e) = y
with_created y (ok (id, w)) = record y { world = w }

abbrev pub put_task : System → ℕ → Option Task → Option System
put_task y p none = none
put_task y p (some t) = some (record y { world = record y.world { tasks = set y.world.tasks p t } })

abbrev pub step_task : Countdown.Event → Option Task → Option Task
step_task e none = none
step_task e (some t) = Countdown.step e t

abbrev pub collects_at : Stopper → Option (List ℕ) → System → Option System
collects_at stopping_jobs none y =
    let (w, ps) = shutdown y.world in some (record y { world = w; collected = some ps })
collects_at _ _ y = none

-- One act; `none` when it cannot happen here.
unfoldable pub advance : Act → System → Option System
advance (serves e) y = if may_happen e y then with_serving y (step e y.serving) else none
advance (creates parent_done agent count) y =
    some (with_created y (create parent_done agent count y.world))
advance (job_steps p e) y = put_task y p (step_task e (get_elem? y.world.tasks p))
advance collects y = collects_at y.serving.stopper y.collected y

pub data Reach : System → Type 0 where
  starts : Reach new_system
  next : {y z : System} (a : Act) → Reach y → advance a y ≡ some z → Reach z
