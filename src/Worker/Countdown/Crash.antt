-- ===== src/Worker/Countdown/Crash.antt =====
-- internal/worker/job.go: the process ends by a panic of a job's goroutine only where the deferred
-- function that recovers panics itself.
use fizzled_go.Prelude.{
  ℕ, zero, suc, ◌≡◌, ◌≢◌, ◌<◌, ◌⊎◌, inl, inr, refl, sym, subst, ◌∙◌, true, false, some,
  eq_of_some_eq, eq_of_if_some,
}
use fizzled_go.Prelude.Int.{ℤ, pos, ◌-ℤ◌}
use fizzled_go.Worker.Tick.{Status, completed, stopped, Tick, progress}
use fizzled_go.Worker.Job.{Job}
use fizzled_go.Worker.Countdown.{
  Pc, starting, waiting, auditing, closing, releasing, crashed, Task, Recovered, Event, run,
  tick_after, done, panics, cancel, step, step_at, start_finish, recover_from, report, on_tick,
}
use fizzled_go.Worker.Countdown.Invariant.{
  IsConsistent, IsLive, start_finish-running, recover_from-running, report-running, starting-IsLive,
  waiting-IsLive, pos-sub-one, Matches-not-running,
}
use fizzled_go.Worker.Countdown.Preserved.{recover_from-ended, step-IsConsistent}
use fizzled_go.Worker.Countdown.Reach.{Reach, here, next}

abbrev IsUp : Task → Type 0
IsUp t = t.pc ≢ crashed

module _ {count m : ℕ} {j : Job} (l : IsLive count m j) where
  start_finish-IsUp : (s : Status) (t : Tick) → IsUp (start_finish s t j)
  start_finish-IsUp s t = rw (start_finish-running l s t) (λ h. cc)

  recover_from-IsUp : (r : Recovered) → IsUp (recover_from r j)
  recover_from-IsUp r = rw (recover_from-running l r) (λ h. cc)

report-IsUp :
    {count m : ℕ} {j : Job} (elapsed : ℤ)
    → IsLive count (suc m) j
    → IsUp (report (progress elapsed (pos (suc m))) (pos (suc m) -ℤ pos 1) j)
report-IsUp {m} elapsed l = rw (pos-sub-one m, report-running elapsed l) (λ h. cc)

on_tick-IsUp :
    {count : ℕ} (m : ℕ) {j : Job} (elapsed : ℤ)
    → IsLive count m j
    → IsUp (on_tick elapsed (pos m) j)
unfolding on_tick
on_tick-IsUp zero elapsed l = start_finish-IsUp l completed (progress elapsed (pos 0))
on_tick-IsUp (suc m) elapsed l = report-IsUp elapsed l

first_report-IsUp :
    (count : ℕ) (j : Job)
    → IsLive count count j
    → 0 < count
    → IsUp (report (progress (pos 0) (pos count)) (pos count -ℤ pos 1) j)
first_report-IsUp zero j l h = elim h [ ]
first_report-IsUp (suc m) j l h = report-IsUp (pos 0) l

-- The event is a panic of the deferred function that recovers, behind the transition that it made.
abbrev pub IsLastPanic : Pc → Event → Type 0
IsLastPanic pc e =
    (r : Recovered) × (s : Status) × (t : Tick) × (pc ≡ auditing true s t) × (e ≡ panics r)

up : (pc : Pc) (e : Event) (t t' : Task) → t ≡ t' → IsUp t → IsUp t' ⊎ IsLastPanic pc e
up pc e t t' h n = inl (subst IsUp h n)

step_at-IsUp :
    (count : ℕ) (pc : Pc) (e : Event) (j : Job) (t' : Task)
    → pc ≢ crashed
    → step_at pc e j ≡ some t'
    → IsConsistent count (record { job = j; pc = pc })
    → IsUp t' ⊎ IsLastPanic pc e
unfolding step_at
step_at-IsUp count pc cancel j t' n h c = up pc cancel _ t' (eq_of_some_eq h) n
step_at-IsUp count (starting n) run j t' _ h c =
    up _ _ _ t' (eq_of_some_eq h)
      (rw (c.state.2) (first_report-IsUp count j (starting-IsLive j c.channels c.state) c.state.3))
step_at-IsUp count (starting n) (panics r) j t' _ h c =
    up _ _ _ t' (eq_of_some_eq h) (recover_from-IsUp (starting-IsLive j c.channels c.state) r)
step_at-IsUp count (waiting n) (tick_after e) j t' _ h c =
    up _ _ _ t' (eq_of_some_eq h)
      (rw (c.state.1) (on_tick-IsUp c.state.0 e (waiting-IsLive j c.channels c.state)))
step_at-IsUp count (waiting n) (done cause) j t' _ h c =
    up _ _ _ t' (eq_of_if_some j.canceled h)
      (start_finish-IsUp (waiting-IsLive j c.channels c.state) stopped _)
step_at-IsUp count (waiting n) (panics r) j t' _ h c =
    up _ _ _ t' (eq_of_some_eq h) (recover_from-IsUp (waiting-IsLive j c.channels c.state) r)
step_at-IsUp count (auditing false s t) (panics r) j t' _ h c =
    up _ _ _ t'
      (sym (recover_from-ended r j (rw (c.state.2) (Matches-not-running s t c.state.0 c.state.1)))
        ∙ eq_of_some_eq h)
      (λ k. cc)
step_at-IsUp count (auditing true s t) (panics r) j t' _ h c = inr (r, s, t, refl, refl)
step_at-IsUp count (auditing q s t) run j t' _ h c = up _ _ _ t' (eq_of_some_eq h) (λ k. cc)
step_at-IsUp count closing run j t' _ h c = up _ _ _ t' (eq_of_some_eq h) (λ k. cc)
step_at-IsUp count releasing run j t' _ h c = up _ _ _ t' (eq_of_some_eq h) (λ k. cc)
step_at-IsUp count _ _ j t' _ h c = absurd (cc)

-- The run has such a panic.
abbrev pub HasLastPanic : {s t : Task} → Reach s t → Type 0
HasLastPanic here = ⊥
HasLastPanic (next {t} e r h) = HasLastPanic r ⊎ IsLastPanic t.pc e

-- A run from a consistent point of a process that has not crashed ends at another, or it has a panic
-- of the deferred function that recovers.
pub Reach-IsUp :
    {count : ℕ} {t u : Task}
    → IsConsistent count t
    → t.pc ≢ crashed
    → (r : Reach t u) → (IsConsistent count u × (u.pc ≢ crashed)) ⊎ HasLastPanic r
unfolding step
Reach-IsUp c n here = inl (c, n)
Reach-IsUp {count} c n (next {t = v} {u} e r h) = elim (Reach-IsUp c n r) [
  | inr p ↦ inr (inl p)
  | inl (k, up_to) ↦ elim (step_at-IsUp count v.pc e v.job u up_to h k) [
    | inl still ↦ inl (step-IsConsistent count e v u h k, still)
    | inr p ↦ inr (inr p)
  ]
]
