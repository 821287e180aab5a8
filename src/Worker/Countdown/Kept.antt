-- ===== src/Worker/Countdown/Kept.antt =====
-- What every step of the goroutine leaves alone: the job's id, that it has finished, and that its
-- context is canceled.
use fizzled_go.Prelude.{◌≡◌, true, false, some, arith}
use fizzled_go.Prelude.Int.{ℤ, pos, ◌-ℤ◌}
use fizzled_go.Worker.Tick.{Status, completed, stopped, Tick, progress}
use fizzled_go.Worker.Job.{Job, set_terminal, report_progress, audit_transition}
use fizzled_go.Worker.Countdown.{
  Pc, starting, waiting, auditing, Task, Recovered, Event, run, tick_after, done, panics, cancel,
  step, step_at, start_finish, recover_from, report, on_tick,
}

abbrev Keeps : Job → Job → Type 0
Keeps j k =
    (k.id ≡ j.id)
    × (j.finished ≡ true → k.finished ≡ true)
    × (j.canceled ≡ true → k.canceled ≡ true)

module _ (j : Job) where
  recover_from-Keeps : (r : Recovered) → Keeps j (recover_from r j).job
  unfolding recover_from set_terminal
  recover_from-Keeps r = ground arith

  start_finish-Keeps : (s : Status) (t : Tick) → Keeps j (start_finish s t j).job
  unfolding start_finish recover_from set_terminal
  start_finish-Keeps s t = ground arith

  report-Keeps : (t : Tick) (n : ℤ) → Keeps j (report t n j).job
  unfolding report recover_from set_terminal report_progress
  report-Keeps t n = ground arith

  on_tick-Keeps : (elapsed count : ℤ) → Keeps j (on_tick elapsed count j).job
  unfolding on_tick
  on_tick-Keeps elapsed count = ground (
    arith,
    start_finish-Keeps completed (progress elapsed count),
    report-Keeps (progress elapsed count) (count -ℤ pos 1),
  )

  step_at-Keeps : (pc : Pc) (e : Event) (t' : Task) → step_at pc e j ≡ some t' → Keeps j t'.job
  unfolding step_at audit_transition
  step_at-Keeps pc cancel t' h = ground arith
  step_at-Keeps (starting count) run t' h =
      ground (arith, report-Keeps (progress (pos 0) count) (count -ℤ pos 1))
  step_at-Keeps (starting count) (panics r) t' h = ground (arith, recover_from-Keeps r)
  step_at-Keeps (waiting count) (tick_after x) t' h = ground (arith, on_tick-Keeps x count)
  step_at-Keeps (waiting count) (done cause) t' h =
      ground (arith, start_finish-Keeps stopped (Tick.stopped cause))
  step_at-Keeps (waiting count) (panics r) t' h = ground (arith, recover_from-Keeps r)
  step_at-Keeps (auditing false s t) (panics r) t' h = ground (arith, recover_from-Keeps r)
  step_at-Keeps pc _ t' h = ground arith

pub id-step : (e : Event) (t t' : Task) → step e t ≡ some t' → t'.job.id ≡ t.job.id
unfolding step
id-step e t t' h = (step_at-Keeps t.job t.pc e t' h).0

pub finished-step :
    (e : Event) (t t' : Task) → step e t ≡ some t' → t.job.finished ≡ true → t'.job.finished ≡ true
unfolding step
finished-step e t t' h = (step_at-Keeps t.job t.pc e t' h).1

pub canceled-step :
    (e : Event) (t t' : Task) → step e t ≡ some t' → t.job.canceled ≡ true → t'.job.canceled ≡ true
unfolding step
canceled-step e t t' h = (step_at-Keeps t.job t.pc e t' h).2
