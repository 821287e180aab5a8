-- ===== src/Worker/Countdown/Finishing.antt =====
-- That a job whose process has not crashed can be brought to its end: `cancel`, and then the steps of
-- its goroutine without a panic.
use fizzled_go.Prelude.{
  ℕ, zero, suc, ◌≡◌, ◌≢◌, refl, sym, ap, ◌∙◌, subst, Bool, true, false, some, [], ◌∷◌, arith,
}
use fizzled_go.Prelude.Int.{ℤ, pos}
use fizzled_go.Errors.{canceled}
use fizzled_go.Worker.Tick.{Status, Tick, progress, stopped}
use fizzled_go.Worker.Job.{Job, audit_transition}
use fizzled_go.Worker.Countdown.{
  Pc, starting, waiting, auditing, closing, releasing, exited, crashed, Task, Event, run, done,
  panics, cancel, step, step_at,
}
use fizzled_go.Worker.Channels.{ended, reported}
use fizzled_go.Worker.Countdown.Ending.{step_at-step}
use fizzled_go.Worker.Countdown.Invariant.{
  IsConsistent, pos-sub-one, report-running, start_finish-running, starting-IsLive, waiting-IsLive,
}
use fizzled_go.Worker.Countdown.Preserved.{step-IsConsistent}

abbrev pub IsCalm : Event → Type 0
IsCalm (panics r) = ⊥
IsCalm _ = Unit

-- Steps without a panic that lead to where the channel `finished` is closed.
pub data Finishes : Task → Type 0 where
  over : {t : Task} → t.job.finished ≡ true → Finishes t
  by : {t u : Task} (e : Event) → IsCalm e → step e t ≡ some u → Finishes u → Finishes t

closing-Finishes : (j : Job) → Finishes (record { job = j; pc = closing })
unfolding step
closing-Finishes j = by run tt refl (over refl)

auditing-Finishes :
    (r : Bool) (s : Status) (t : Tick) (j : Job)
    → Finishes (record { job = j; pc = auditing r s t })
unfolding step
auditing-Finishes r s t j = by run tt refl (closing-Finishes (audit_transition s t j))

canceled_waiting-Finishes :
    (count : ℕ) (c : ℤ) (j : Job)
    → IsConsistent count (record { job = record j { canceled = true }; pc = waiting c })
    → Finishes (record { job = record j { canceled = true }; pc = waiting c })
unfolding step_at
canceled_waiting-Finishes count c j h =
    let tick = Tick.stopped (canceled ∷ []) in
    let stopping = record j { canceled = true } in
    let l = waiting-IsLive stopping h.channels h.state in
    let s : step (done (canceled ∷ [])) (record { job = stopping; pc = waiting c })
        ≡ some (record { job = ended stopped tick stopping; pc = auditing false stopped tick }) =
      step_at-step (done (canceled ∷ [])) (record { job = stopping; pc = waiting c })
      ∙ ap some (start_finish-running l stopped tick) in
    by (done (canceled ∷ [])) tt s
      (auditing-Finishes false stopped tick (ended stopped tick stopping))

waiting-Finishes :
    (count : ℕ) (c : ℤ) (j : Job)
    → IsConsistent count (record { job = j; pc = waiting c })
    → Finishes (record { job = j; pc = waiting c })
unfolding step_at
waiting-Finishes count c j h =
    let s = step_at-step cancel (record { job = j; pc = waiting c }) in
    by cancel tt s (canceled_waiting-Finishes count c j (step-IsConsistent count cancel _ _ s h))

starting-Finishes :
    (count : ℕ) (j : Job)
    → IsConsistent count (record { job = j; pc = starting (pos count) })
    → Finishes (record { job = j; pc = starting (pos count) })
unfolding step_at
starting-Finishes zero j h = absurd (omega (arith, h.state.3))
starting-Finishes (suc m) j h =
    let l = starting-IsLive j h.channels h.state in
    let s : step run (record { job = j; pc = starting (pos (suc m)) })
        ≡ some
            (record { job = reported (progress (pos 0) (pos (suc m))) j; pc = waiting (pos m) }) =
      step_at-step run (record { job = j; pc = starting (pos (suc m)) })
      ∙ rw (pos-sub-one m, report-running (pos 0) l) refl in
    by run tt s (waiting-Finishes (suc m) (pos m) _ (step-IsConsistent (suc m) run _ _ s h))

at-Finishes :
    (count : ℕ) (pc : Pc) (j : Job)
    → pc ≢ crashed
    → IsConsistent count (record { job = j; pc = pc })
    → Finishes (record { job = j; pc = pc })
at-Finishes count (starting c) j n h =
    let e = h.state.2 in
    subst (λ c. Finishes (record { job = j; pc = starting c })) (sym e)
      (starting-Finishes count j
        (subst (λ c. IsConsistent count (record { job = j; pc = starting c })) e h))
at-Finishes count (waiting c) j n h = waiting-Finishes count c j h
at-Finishes count (auditing r s t) j n h = auditing-Finishes r s t j
at-Finishes count closing j n h = closing-Finishes j
at-Finishes count releasing j n h = over (h.state.1)
at-Finishes count exited j n h = over (h.state.1)
at-Finishes count crashed j n h = absurd (n refl)

-- A consistent job that has not crashed can finish.
pub IsConsistent-Finishes :
    (count : ℕ) (t : Task) → IsConsistent count t → t.pc ≢ crashed → Finishes t
IsConsistent-Finishes count t h n = at-Finishes count t.pc t.job n h
