-- ===== src/Worker/Job.antt =====
-- internal/worker/job.go: the state of a job, and the operations that hold its mutex.
-- A call that holds the mutex is one function here, since no other such call runs beside it.
use fizzled_go.Prelude.{
  ℕ, ◌+◌, Bytes, Bool, true, false, ◌||◌, List, [], ◌∷◌, ◌++◌, ◌==◌, if◌then◌else◌,
}
use fizzled_go.Prelude.Int.{ℤ, pos, leb_ℤ, ltb_ℤ}
use fizzled_go.Errors.{Result, ok, err, invalid_count, invalid_mean_interval}
use fizzled_go.Worker.Tick.{Status, running, failed, Tick, progress, panic_error, is_running}

-- A line that `auditTransition` writes. `has_error` tells whether it carries the failure's text.
pub data Level : Type 0 where
  info warn error : Level

pub record AuditLine : Type 0 where
  pub level : Level
  pub job_id : Bytes
  pub status : Status
  pub has_error : Bool

-- The channels that the field `changed` has held are numbered in the order they were made:
-- `changed` is the current one, and `is_closed` says which are closed. `canceled` is the state of
-- the job's context, which `cancel` sets, and `finished` tells whether that channel is closed.
-- `log` holds the lines that the job wrote to its logger.
pub record Job : Type 0 where
  pub id : Bytes
  pub status : Status
  pub ticks : List Tick
  pub mean_tick_interval : ℤ
  pub canceled : Bool
  pub changed : ℕ
  pub is_closed : ℕ → Bool
  pub finished : Bool
  pub log : List AuditLine

abbrev pub max_count : ℤ
max_count = pos 100

-- time.Second, in nanoseconds
abbrev pub default_mean_tick_interval : ℤ
default_mean_tick_interval = pos 1_000_000_000

-- The job that `NewJob` makes. `parent_done` tells whether the context that the job's own is derived
-- from is done.
abbrev pub fresh_job : Bool → Bytes → ℤ → Job
fresh_job parent_done job_id interval = record {
  id = job_id;
  status = running;
  ticks = [];
  mean_tick_interval = interval;
  canceled = parent_done;
  changed = 0;
  is_closed = λ c. false;
  finished = false;
  log = [];
}

-- The job that `NewJob` returns, whose countdown is about to start.
unfoldable pub new_job : Bool → Bytes → ℤ → ℤ → Result Job
new_job parent_done job_id count interval =
    if leb_ℤ count (pos 0) || ltb_ℤ max_count count
    then err (invalid_count ∷ [])
    else if leb_ℤ interval (pos 0)
    then err (invalid_mean_interval ∷ [])
    else ok (fresh_job parent_done job_id interval)

-- What a call leaves: it returned a value, or it panicked.
pub data Outcome (A : Type 0) : Type 0 where
  returned : A → Job → Outcome A
  panicked : Job → Outcome A

-- `close(j.changed)`, and then `next`; closing a closed channel panics.
abbrev close_changed : {A : Type 0} → Job → (Job → Outcome A) → Outcome A
close_changed j next =
    if j.is_closed j.changed
    then panicked j
    else next (record j { is_closed = λ c. if c == j.changed then true else j.is_closed c })

unfoldable pub report_progress : Tick → Job → Outcome (Unit {0})
report_progress tick j =
    if is_running j.status
    then close_changed (record j { ticks = j.ticks ++ tick ∷ [] })
        (λ j'. returned tt (record j' { changed = j'.changed + 1 }))
    else returned tt j

-- The Boolean tells whether this call made the transition.
unfoldable pub set_terminal : Status → Tick → Job → Outcome Bool
set_terminal terminal_status last_tick j =
    if is_running j.status
    then close_changed (record j { status = terminal_status; ticks = j.ticks ++ last_tick ∷ [] })
        (λ j'. returned true j')
    else returned false j

abbrev is_panic : Tick → Bool
is_panic (progress e r) = false
is_panic (Tick.stopped e) = false
is_panic (panic_error e) = true

abbrev level_of : Status → Level
level_of failed = Level.error
level_of running = Level.info
level_of _ = Level.info

unfoldable pub audit_transition : Status → Tick → Job → Job
audit_transition terminal_status last_tick j = record j {
  log =
      j.log
      ++ record {
        level = level_of terminal_status;
        job_id = j.id;
        status = terminal_status;
        has_error = is_panic last_tick;
      }
        ∷ [];
}
