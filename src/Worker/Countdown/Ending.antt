-- ===== src/Worker/Countdown/Ending.antt =====
-- How a job's goroutine ends: it ends in a bounded number of steps of its own, it never waits with
-- nothing to do, and behind the transition nothing changes any more.
use fizzled_go.Prelude.{
  ℕ, suc, ◌+◌, ◌≡◌, ◌<◌, ◌≤◌, refl, sym, ap, ◌∙◌, ◌⊎◌, inl, inr, true, false, some, arith,
  eq_of_some_eq,
}
use fizzled_go.Prelude.Int.{ℤ, pos, pos_part, ◌-ℤ◌}
use fizzled_go.Worker.Tick.{Status, completed, stopped, Tick, progress, is_running}
use fizzled_go.Worker.Job.{Job, set_terminal, report_progress, audit_transition}
use fizzled_go.Worker.Countdown.{
  Pc, Recovered, starting, waiting, auditing, closing, releasing, exited, crashed, Task, Event, run,
  tick_after, done, panics, cancel, step, step_at, start_finish, recover_from, report, on_tick,
}
use fizzled_go.Worker.Countdown.Reach.{Reach, here, next}

-- The steps that the goroutine may still make: two for each round, and the last ones.
abbrev pub steps_left : Pc → ℕ
steps_left (starting count) = pos_part count + 6
steps_left (waiting count) = pos_part count + 5
steps_left (auditing false s t) = 4
steps_left (auditing true s t) = 3
steps_left closing = 2
steps_left releasing = 1
steps_left exited = 0
steps_left crashed = 0

abbrev pub IsOwn : Event → Type 0
IsOwn cancel = ⊥
IsOwn _ = Unit

pub step_at-step : (e : Event) (t : Task) → step e t ≡ step_at t.pc e t.job
unfolding step
step_at-step e t = refl

start_finish-steps : (s : Status) (t : Tick) (j : Job) → steps_left (start_finish s t j).pc ≤ 4
unfolding start_finish recover_from
start_finish-steps s t j = ground arith

recover_from-steps : (r : Recovered) (j : Job) → steps_left (recover_from r j).pc ≤ 3
unfolding recover_from
recover_from-steps r j = ground arith

report-steps :
    (t : Tick) (count : ℤ) (j : Job)
    → steps_left (report t (count -ℤ pos 1) j).pc ≤ pos_part count + 4
unfolding report ◌-ℤ◌ report_progress recover_from set_terminal
report-steps t count j = ground arith

on_tick-steps :
    (elapsed count : ℤ) (j : Job) → steps_left (on_tick elapsed count j).pc ≤ pos_part count + 4
unfolding on_tick
on_tick-steps elapsed count j = ground (
  arith,
  start_finish-steps completed (progress elapsed count) j,
  report-steps (progress elapsed count) count j,
)

step_at-steps :
    (pc : Pc) (e : Event) (j : Job) (t' : Task)
    → step_at pc e j ≡ some t'
    → IsOwn e
    → steps_left t'.pc < steps_left pc
unfolding step_at
step_at-steps pc cancel j t' h o = absurd o
step_at-steps (starting count) run j t' h o =
    ground (arith, report-steps (progress (pos 0) count) count j)
step_at-steps (starting count) (panics r) j t' h o = ground (arith, recover_from-steps r j)
step_at-steps (waiting count) (tick_after e) j t' h o = ground (arith, on_tick-steps e count j)
step_at-steps (waiting count) (done cause) j t' h o =
    ground (arith, start_finish-steps stopped (Tick.stopped cause) j)
step_at-steps (waiting count) (panics r) j t' h o = ground (arith, recover_from-steps r j)
step_at-steps (auditing false s t) (panics r) j t' h o = ground (arith, recover_from-steps r j)
step_at-steps pc _ j t' h o = ground arith

step-steps :
    (e : Event) (t t' : Task) → step e t ≡ some t' → IsOwn e → steps_left t'.pc < steps_left t.pc
step-steps e t t' h = step_at-steps t.pc e t.job t' (sym (step_at-step e t) ∙ h)

cancel-steps : (t t' : Task) → step cancel t ≡ some t' → t'.pc ≡ t.pc
unfolding step
cancel-steps t t' h = ap (λ (u : Task). u.pc) (sym (eq_of_some_eq h))

-- The steps of the goroutine itself in a run.
abbrev pub own_steps : {s t : Task} → Reach s t → ℕ
own_steps here = 0
own_steps (next cancel r h) = own_steps r
own_steps (next run r h) = suc (own_steps r)
own_steps (next (tick_after e) r h) = suc (own_steps r)
own_steps (next (done c) r h) = suc (own_steps r)
own_steps (next (panics x) r h) = suc (own_steps r)

-- On every run from one point to another, the steps of the goroutine's own and those that it has left
-- at the end are together at most those that it had left at the start.
pub own_steps_bounded :
    {s t : Task} (r : Reach s t) → own_steps r + steps_left t.pc ≤ steps_left s.pc
own_steps_bounded here = omega arith
own_steps_bounded (next {t} {u} cancel r h) =
    omega (arith, own_steps_bounded r, ap steps_left (cancel-steps t u h))
own_steps_bounded (next {t} {u} run r h) =
    omega (arith, own_steps_bounded r, step-steps run t u h tt)
own_steps_bounded (next {t} {u} (tick_after e) r h) =
    omega (arith, own_steps_bounded r, step-steps (tick_after e) t u h tt)
own_steps_bounded (next {t} {u} (done c) r h) =
    omega (arith, own_steps_bounded r, step-steps (done c) t u h tt)
own_steps_bounded (next {t} {u} (panics x) r h) =
    omega (arith, own_steps_bounded r, step-steps (panics x) t u h tt)

can_step_at :
    (pc : Pc) (j : Job)
    → ((pc ≡ exited) ⊎ (pc ≡ crashed))
      ⊎ ((e : Event) × IsOwn e × ((t' : Task) × (step_at pc e j ≡ some t')))
unfolding step_at
can_step_at exited j = inl (inl refl)
can_step_at crashed j = inl (inr refl)
can_step_at (starting count) j = inr (run, tt, (_, refl))
can_step_at (waiting count) j = inr (tick_after (pos 0), tt, (_, refl))
can_step_at (auditing r s t) j = inr (run, tt, (_, refl))
can_step_at closing j = inr (run, tt, (_, refl))
can_step_at releasing j = inr (run, tt, (_, refl))

-- A goroutine that has not ended has a step of its own.
pub can_step :
    (t : Task)
    → ((t.pc ≡ exited) ⊎ (t.pc ≡ crashed))
      ⊎ ((e : Event) × IsOwn e × ((t' : Task) × (step e t ≡ some t')))
can_step t = elim (can_step_at t.pc t.job) [
  | inl ended ↦ inl ended
  | inr (e, own, (t', h)) ↦ inr (e, own, (t', step_at-step e t ∙ h))
]

-- The status and the buffer are the same.
abbrev pub SameEnd : Job → Job → Type 0
SameEnd j k = (k.status ≡ j.status) × (k.ticks ≡ j.ticks)

module _ (j : Job) (h : is_running j.status ≡ false) where
  start_finish-ended : (s : Status) (t : Tick) → SameEnd j (start_finish s t j).job
  unfolding start_finish set_terminal
  start_finish-ended s t = ground arith

  recover_from-ended : (r : Recovered) → SameEnd j (recover_from r j).job
  unfolding recover_from set_terminal
  recover_from-ended r = ground arith

  report-ended : (t : Tick) (n : ℤ) → SameEnd j (report t n j).job
  unfolding report report_progress
  report-ended t n = ground arith

  on_tick-ended : (elapsed count : ℤ) → SameEnd j (on_tick elapsed count j).job
  unfolding on_tick
  on_tick-ended elapsed count = ground (
    arith,
    start_finish-ended completed (progress elapsed count),
    report-ended (progress elapsed count) (count -ℤ pos 1),
  )

  step_at-ended : (pc : Pc) (e : Event) (t' : Task) → step_at pc e j ≡ some t' → SameEnd j t'.job
  unfolding step_at audit_transition
  step_at-ended pc cancel t' e = ground arith
  step_at-ended (starting count) run t' e =
      ground (arith, report-ended (progress (pos 0) count) (count -ℤ pos 1))
  step_at-ended (starting count) (panics r) t' e = ground (arith, recover_from-ended r)
  step_at-ended (waiting count) (tick_after x) t' e = ground (arith, on_tick-ended x count)
  step_at-ended (waiting count) (done cause) t' e =
      ground (arith, start_finish-ended stopped (Tick.stopped cause))
  step_at-ended (waiting count) (panics r) t' e = ground (arith, recover_from-ended r)
  step_at-ended (auditing false s t) (panics r) t' e = ground (arith, recover_from-ended r)
  step_at-ended pc _ t' e = ground arith

-- From a point where the status is terminal, no run changes the status or the buffer.
pub ended_for_good :
    {t u : Task} → is_running t.job.status ≡ false → Reach t u → SameEnd t.job u.job
ended_for_good h here = (refl, refl)
ended_for_good h (next {t = v} {u} e r s) =
    let (a, b) = ended_for_good h r in
    let (c, d) = step_at-ended v.job (ap is_running a ∙ h) v.pc e u (sym (step_at-step e v) ∙ s) in
    (c ∙ a, d ∙ b)
