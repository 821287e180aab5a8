-- ===== src/Worker/Countdown/Effect.antt =====
-- What a step of the goroutine does to the state that a subscriber reads: it leaves the buffer and
-- the channels, or it appends one tick and closes the current channel.
use fizzled_go.Prelude.{
  ℕ, zero, suc, ◌≡◌, ◌<◌, refl, sym, subst, true, false, ◌∙◌, some, [], ◌∷◌, ◌++◌, eq_of_some_eq,
  eq_of_if_some, if◌then◌else◌, ◌==◌,
}
use fizzled_go.Prelude.Int.{ℤ, pos, ◌-ℤ◌}
use fizzled_go.Worker.Tick.{Status, completed, stopped, Tick, progress}
use fizzled_go.Worker.Job.{Job, audit_transition}
use fizzled_go.Worker.Countdown.{
  Pc, starting, waiting, auditing, closing, releasing, Task, Recovered, Event, run, tick_after,
  done, panics, cancel, step, step_at, start_finish, recover_from, report, on_tick, panic_tick,
}
use fizzled_go.Worker.Countdown.Invariant.{
  IsConsistent, IsLive, start_finish-running, recover_from-running, report-running, starting-IsLive,
  waiting-IsLive, pos-sub-one, Matches-not-running,
}
use fizzled_go.Worker.Countdown.Preserved.{recover_from-ended}

pub data Effect (j k : Job) : Type 0 where
  keeps : k.ticks ≡ j.ticks → k.changed ≡ j.changed → k.is_closed ≡ j.is_closed → Effect j k
  appends :
      (t : Tick)
      → k.ticks ≡ j.ticks ++ t ∷ []
      → ((c : ℕ) → k.is_closed c ≡ (if c == j.changed then true else j.is_closed c))
      → Effect j k

module _ {count next : ℕ} {j : Job} (l : IsLive count next j) where
  start_finish-Effect : (s : Status) (t : Tick) → Effect j (start_finish s t j).job
  start_finish-Effect s t = rw (start_finish-running l s t) (appends t refl (λ c. refl))

  recover_from-Effect : (r : Recovered) → Effect j (recover_from r j).job
  recover_from-Effect r = rw (recover_from-running l r) (appends (panic_tick r) refl (λ c. refl))

report-Effect :
    {count m : ℕ} {j : Job} (elapsed : ℤ)
    → IsLive count (suc m) j
    → Effect j (report (progress elapsed (pos (suc m))) (pos (suc m) -ℤ pos 1) j).job
report-Effect {m} elapsed l =
    rw (pos-sub-one m, report-running elapsed l) (appends _ refl (λ c. refl))

on_tick-Effect :
    {count : ℕ} (m : ℕ) {j : Job} (elapsed : ℤ)
    → IsLive count m j
    → Effect j (on_tick elapsed (pos m) j).job
unfolding on_tick
on_tick-Effect zero elapsed l = start_finish-Effect l completed (progress elapsed (pos 0))
on_tick-Effect (suc m) elapsed l = report-Effect elapsed l

first_report-Effect :
    (count : ℕ) (j : Job)
    → IsLive count count j
    → 0 < count
    → Effect j (report (progress (pos 0) (pos count)) (pos count -ℤ pos 1) j).job
first_report-Effect zero j l h = elim h [ ]
first_report-Effect (suc m) j l h = report-Effect (pos 0) l

-- From the next task's equation to its job.
to_job : (j : Job) (t t' : Task) → t ≡ t' → Effect j t.job → Effect j t'.job
to_job j t t' h = subst (λ (u : Task). Effect j u.job) h

step_at-Effect :
    (count : ℕ) (pc : Pc) (e : Event) (j : Job) (t' : Task)
    → step_at pc e j ≡ some t'
    → IsConsistent count (record { job = j; pc = pc })
    → Effect j t'.job
unfolding step_at audit_transition
step_at-Effect count pc cancel j t' h c = to_job j _ t' (eq_of_some_eq h) (keeps refl refl refl)
step_at-Effect count (starting n) run j t' h c =
    to_job j _ t' (eq_of_some_eq h) (
      rw (c.state.2) (first_report-Effect count j (starting-IsLive j c.channels c.state) c.state.3))
step_at-Effect count (starting n) (panics r) j t' h c =
    to_job j _ t' (eq_of_some_eq h) (recover_from-Effect (starting-IsLive j c.channels c.state) r)
step_at-Effect count (waiting n) (tick_after e) j t' h c =
    to_job j _ t' (eq_of_some_eq h)
      (rw (c.state.1) (on_tick-Effect c.state.0 e (waiting-IsLive j c.channels c.state)))
step_at-Effect count (waiting n) (done cause) j t' h c =
    to_job j _ t' (eq_of_if_some j.canceled h)
      (start_finish-Effect (waiting-IsLive j c.channels c.state) stopped _)
step_at-Effect count (waiting n) (panics r) j t' h c =
    to_job j _ t' (eq_of_some_eq h) (recover_from-Effect (waiting-IsLive j c.channels c.state) r)
step_at-Effect count (auditing false s t) (panics r) j t' h c =
    to_job j _ t'
      (sym (recover_from-ended r j (rw (c.state.2) (Matches-not-running s t c.state.0 c.state.1)))
        ∙ eq_of_some_eq h)
      (keeps refl refl refl)
step_at-Effect count (auditing true s t) (panics r) j t' h c =
    to_job j _ t' (eq_of_some_eq h) (keeps refl refl refl)
step_at-Effect count (auditing q s t) run j t' h c =
    to_job j _ t' (eq_of_some_eq h) (keeps refl refl refl)
step_at-Effect count closing run j t' h c = to_job j _ t' (eq_of_some_eq h) (keeps refl refl refl)
step_at-Effect count releasing run j t' h c = to_job j _ t' (eq_of_some_eq h) (keeps refl refl refl)
step_at-Effect count _ _ j t' h c = cc

pub step-Effect :
    (count : ℕ) (e : Event) (t t' : Task)
    → step e t ≡ some t'
    → IsConsistent count t
    → Effect t.job t'.job
unfolding step
step-Effect count e t t' h c = step_at-Effect count t.pc e t.job t' h c
