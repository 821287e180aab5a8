-- ===== src/Worker/Countdown.antt =====
-- internal/worker/job.go: the goroutine `countdown`, one step for each action that other
-- goroutines may see, and `finish`, whose two halves are two such steps.
pub mod Invariant
pub mod Preserved
pub mod Effect
pub mod Kept
pub mod Reach
pub mod Ending
pub mod Crash
pub mod Stop
pub mod Finishing
use fizzled_go.Prelude.{
  ℕ, Bool, true, false, Option, none, some, List, [], ◌∷◌, ◌++◌, if◌then◌else◌,
}
use fizzled_go.Prelude.Int.{ℤ, pos, ltb_ℤ, ◌-ℤ◌}
use fizzled_go.Errors.{GoError, foreign, job_panic}
use fizzled_go.Worker.Tick.{
  Status, completed, stopped, failed, Tick, progress, panic_error, is_terminal,
}
use fizzled_go.Worker.Job.{
  Job, Outcome, returned, panicked, report_progress, set_terminal, audit_transition,
}

-- Where the goroutine stands: before the first report; in the `select` of the round with this
-- count; before `auditTransition`, reached from the loop or from the deferred recovery; before each
-- of the two other deferred calls, in the order they run; and at its end. `crashed` is the end of
-- the process by a panic in the deferred recovery.
pub data Pc : Type 0 where
  starting : ℤ → Pc
  waiting : ℤ → Pc
  auditing : Bool → Status → Tick → Pc
  closing releasing exited crashed : Pc

pub record Task : Type 0 where
  pub job : Job
  pub pc : Pc

-- What `recover()` gives: a value of type `error`, or another.
pub data Recovered : Type 0 where
  error_value : GoError → Recovered
  other_value : Recovered

-- What the scheduler and the environment choose. `tick_after elapsed` is the timer of the `select`,
-- with the reading of time.Since; `done cause` is its other case, with `ctx.Err()`; `panics` is a
-- panic of the code that runs at this point. `cancel` is a call of the job's `cancel` by another
-- goroutine (`Stop`, or the end of the parent context); the other events are the goroutine's own.
pub data Event : Type 0 where
  run : Event
  tick_after : ℤ → Event
  done : GoError → Event
  panics : Recovered → Event
  cancel : Event

abbrev pub panic_tick : Recovered → Tick
panic_tick (error_value e) = panic_error (some (e ++ job_panic ∷ []))
panic_tick other_value = panic_error (some (job_panic ∷ []))

abbrev after_finish : Bool → Status → Tick → Bool → Pc
after_finish recovering s tick true = auditing recovering s tick
after_finish recovering s tick false = closing

-- The deferred function that recovers.
pub recover_from : Recovered → Job → Task
recover_from r j = elim (set_terminal failed (panic_tick r) j) [
  | returned won j' ↦ record { job = j'; pc = after_finish true failed (panic_tick r) won }
  | panicked j' ↦ record { job = j'; pc = crashed }
]

abbrev runtime_panic : Recovered
runtime_panic = error_value (foreign 0 ∷ [])

-- The first half of `finish`, called from the loop, which then returns.
pub start_finish : Status → Tick → Job → Task
start_finish s tick j = elim (set_terminal s tick j) [
  | returned won j' ↦ record { job = j'; pc = after_finish false s tick won }
  | panicked j' ↦ recover_from runtime_panic j'
]

-- The loop's test on the count of the next round; when it fails the function returns.
abbrev next_round : ℤ → Pc
next_round count = if ltb_ℤ count (pos 0) then closing else waiting count

-- `reportProgress`, and the loop from the round with this count.
pub report : Tick → ℤ → Job → Task
report tick next j = elim (report_progress tick j) [
  | returned _ j' ↦ record { job = j'; pc = next_round next }
  | panicked j' ↦ recover_from runtime_panic j'
]

-- The timer's case of the `select`.
pub on_tick : ℤ → ℤ → Job → Task
on_tick elapsed count j =
    let tick = progress elapsed count in
    if is_terminal tick then start_finish completed tick j else report tick (count -ℤ pos 1) j

-- One step; `none` when the event cannot happen here.
pub step_at : Pc → Event → Job → Option Task
step_at pc cancel j = some (record { job = record j { canceled = true }; pc = pc })
step_at (starting count) run j = some (report (progress (pos 0) count) (count -ℤ pos 1) j)
step_at (starting count) (panics r) j = some (recover_from r j)
step_at (waiting count) (tick_after elapsed) j = some (on_tick elapsed count j)
step_at (waiting count) (done cause) j =
    if j.canceled then some (start_finish stopped (Tick.stopped cause) j) else none
step_at (waiting count) (panics r) j = some (recover_from r j)
step_at (auditing recovering s tick) run j =
    some (record { job = audit_transition s tick j; pc = closing })
step_at (auditing false s tick) (panics r) j = some (recover_from r j)
step_at (auditing true s tick) (panics r) j = some (record { job = j; pc = crashed })
step_at closing run j = some (record { job = record j { finished = true }; pc = releasing })
step_at releasing run j = some (record { job = record j { canceled = true }; pc = exited })
step_at _ _ j = none

unfoldable pub step : Event → Task → Option Task
unfolding step_at start_finish report on_tick recover_from ◌-ℤ◌ set_terminal report_progress
    audit_transition
step e t = step_at t.pc e t.job
