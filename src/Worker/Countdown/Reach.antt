-- ===== src/Worker/Countdown/Reach.antt =====
-- The runs of a job's goroutine, from `NewJob` on, and what every point of every run has.
use fizzled_go.Prelude.{
  ℕ, ◌≡◌, ◌<◌, ◌≤◌, refl, ◌⊎◌, inl, inr, Bytes, Bool, false, some, arith, All, length,
}
use fizzled_go.Prelude.Int.{ℤ, pos, ◌≤ℤ◌}
use fizzled_go.Errors.{ok}
use fizzled_go.Worker.Tick.{running, is_terminal}
use fizzled_go.Worker.Job.{Job, new_job, fresh_job}
use fizzled_go.Worker.Countdown.{
  Pc, starting, waiting, auditing, closing, releasing, exited, crashed, Task, Event, step,
}
use fizzled_go.Worker.Buffer.{CountsDown, CountsDown-IsOpen, CountsDown-length, IsEnded}
use fizzled_go.Worker.Countdown.Invariant.{IsConsistent, AtPc}
use fizzled_go.Worker.Countdown.Preserved.{step-IsConsistent}

pub data Reach (s : Task) : Task → Type 0 where
  here : Reach s s
  next : {t u : Task} (e : Event) → Reach s t → step e t ≡ some u → Reach s u

-- The goroutine that `NewJob` starts.
abbrev pub start : ℤ → Job → Task
start count j = record { job = j; pc = starting count }

-- `NewJob` accepts a count from 1 to 100 and an interval above zero, and nothing else.
pub new_job-ok :
    (p : Bool) (id : Bytes) (count interval : ℤ) (j : Job)
    → new_job p id count interval ≡ ok j
    → (j ≡ fresh_job p id interval) × (pos 1 ≤ℤ count) × (count ≤ℤ pos 100) × (pos 1 ≤ℤ interval)
unfolding new_job
new_job-ok p id count interval j h = (ground arith, ground arith, ground arith, ground arith)

fresh_job-IsConsistent :
    (p : Bool) (id : Bytes) (count : ℕ) (interval : ℤ)
    → 0 < count
    → IsConsistent count (start (pos count) (fresh_job p id interval))
fresh_job-IsConsistent p id count interval h = record {
  channels = λ c. ground arith;
  state = (refl, refl, refl, h, refl, refl);
}

pub new_job-IsConsistent :
    (p : Bool) (id : Bytes) (count : ℕ) (interval : ℤ) (j : Job)
    → new_job p id (pos count) interval ≡ ok j
    → IsConsistent count (start (pos count) j)
new_job-IsConsistent p id count interval j h =
    let (e, low, _, _) = new_job-ok p id (pos count) interval j h in
    rw e (fresh_job-IsConsistent p id count interval (omega arith))

-- Every point that a job's goroutine reaches, whatever the timers, cancellations and panics on the
-- way, is consistent.
pub Reach-IsConsistent :
    (p : Bool) (id : Bytes) (count : ℕ) (interval : ℤ) (j : Job) {t : Task}
    → new_job p id (pos count) interval ≡ ok j
    → Reach (start (pos count) j) t
    → IsConsistent count t
Reach-IsConsistent p id count interval j h here = new_job-IsConsistent p id count interval j h
Reach-IsConsistent p id count interval j h (next e r s) =
    step-IsConsistent count e _ _ s (Reach-IsConsistent p id count interval j h r)

-- What the buffer of a consistent job looks like, by the status.
abbrev pub IsSound : ℕ → Job → Type 0
IsSound count j =
    ((j.status ≡ running) × All (λ t. is_terminal t ≡ false) j.ticks × (length j.ticks ≤ count))
    ⊎ IsEnded count j.status j.ticks

live_IsSound :
    (count m : ℕ) (j : Job) → CountsDown count j.ticks m → j.status ≡ running → IsSound count j
live_IsSound count m j h r =
    inl (r, CountsDown-IsOpen count j.ticks m h, omega (arith, CountsDown-length count j.ticks m h))

pub IsConsistent-IsSound : (count : ℕ) (pc : Pc) (j : Job) → AtPc count pc j → IsSound count j
IsConsistent-IsSound count (starting c) j h = live_IsSound count count j (rw (h.1) refl) h.0
IsConsistent-IsSound count (waiting c) j h = live_IsSound count h.0 j h.2 h.3
IsConsistent-IsSound count (auditing r s t) j h = inr h.3
IsConsistent-IsSound count closing j (b, f) = inr b.buffer
IsConsistent-IsSound count releasing j (b, f) = inr b.buffer
IsConsistent-IsSound count exited j (b, f) = inr b.buffer
IsConsistent-IsSound count crashed j (b, f) = inr b.buffer

-- At every point that the goroutine of a new job reaches, a RUNNING job's buffer holds no terminal
-- tick and at most one tick for each number counted down, and the buffer of a job that has ended is
-- progress ticks that count down and then one terminal tick, which fits the status.
pub Reach-IsSound :
    (p : Bool) (id : Bytes) (count : ℕ) (interval : ℤ) (j : Job) {t : Task}
    → new_job p id (pos count) interval ≡ ok j
    → Reach (start (pos count) j) t
    → IsSound count t.job
Reach-IsSound p id count interval j {t} h r =
    IsConsistent-IsSound count t.pc t.job (Reach-IsConsistent p id count interval j h r).state
