-- ===== src/Worker/Countdown/Stop.antt =====
-- internal/worker/job.go: `Stop`. It is a call of `cancel` (the event of that name), a wait for the
-- channel `finished`, and a read of the status.
use fizzled_go.Prelude.{
  ℕ, ◌≡◌, refl, sym, ap, ◌∙◌, ◌≢◌, true, false, Option, none, some, [], ◌∷◌, ◌++◌, ◌<◌, ◌⊎◌, inl,
  inr, arith, if◌then◌else◌,
}
use fizzled_go.Prelude.Int.{ℤ}
use fizzled_go.Errors.{canceled}
use fizzled_go.Worker.Tick.{Status, Tick, is_running, stopped}
use fizzled_go.Worker.Job.{Job}
use fizzled_go.Worker.Countdown.{
  Pc, starting, waiting, auditing, closing, releasing, exited, crashed, Task, done, run, step,
  step_at, cancel, start_finish,
}
use fizzled_go.Worker.Countdown.Invariant.{
  IsConsistent, AtPc, HasEnded, Matches-not-running, start_finish-running, waiting-IsLive,
}
use fizzled_go.Worker.Countdown.Reach.{Reach, here, next}
use fizzled_go.Worker.Countdown.Crash.{HasLastPanic, Reach-IsUp}
use fizzled_go.Worker.Countdown.Kept.{finished-step, canceled-step}
use fizzled_go.Worker.Countdown.Ending.{
  ended_for_good, step_at-step, steps_left, own_steps, own_steps_bounded,
}
use fizzled_go.Worker.Countdown.Preserved.{step-IsConsistent}

-- The first half of `Stop`: the job's context is done from here on.
unfoldable pub request_stop : Job → Job
request_stop j = record j { canceled = true }

-- It is a step beside the goroutine.
pub step-cancel : (t : Task) → step cancel t ≡ some (record t { job = request_stop t.job })
unfolding request_stop step_at
step-cancel t = step_at-step cancel t

-- What the second half returns; `none` while it blocks.
unfoldable pub stop_answer : Job → Option Status
stop_answer j = if j.finished then some j.status else none

ended_at : (count : ℕ) (pc : Pc) (j : Job) → AtPc count pc j → j.finished ≡ true → HasEnded count j
ended_at count (starting c) j h f = absurd (cc (h.4))
ended_at count (waiting c) j h f = absurd (cc (h.4))
ended_at count (auditing r s t) j h f = absurd (cc (h.4))
ended_at count closing j (e, h) f = e
ended_at count crashed j (e, h) f = e
ended_at count releasing j (e, h) f = e
ended_at count exited j (e, h) f = e

not_running : (count : ℕ) (j : Job) → HasEnded count j → is_running j.status ≡ false
not_running count j e = Matches-not-running j.status e.buffer.last e.buffer.next e.buffer.matches

-- A job whose channel `finished` is closed has ended.
pub finished-HasEnded :
    (count : ℕ) (t : Task)
    → IsConsistent count t
    → t.job.finished ≡ true
    → HasEnded count t.job × (is_running t.job.status ≡ false)
finished-HasEnded count t c f =
    let e = ended_at count t.pc t.job c.state f in (e, not_running count t.job e)

finished_of_answer :
    (j : Job) {s : Status} → stop_answer j ≡ some s → (j.finished ≡ true) × (j.status ≡ s)
unfolding stop_answer
finished_of_answer j h = ground arith

finished-Reach : {t u : Task} → Reach t u → t.job.finished ≡ true → u.job.finished ≡ true
finished-Reach here f = f
finished-Reach (next {t} {u} e r h) f = finished-step e t u h (finished-Reach r f)

-- At a consistent point where `Stop` has an answer, that is not RUNNING, and at every later point `Stop`
-- has the same answer.
pub stop_answer_final :
    {count : ℕ} {t u : Task} {s : Status}
    → IsConsistent count t
    → stop_answer t.job ≡ some s
    → Reach t u
    → (is_running s ≡ false) × (stop_answer u.job ≡ some s)
unfolding stop_answer
stop_answer_final {count} {t} {u} {s} c h r =
    let (f, e) = finished_of_answer t.job h in
    let (_, over) = finished-HasEnded count t c f in
    let (same, _) = ended_for_good over r in
    (ap is_running (sym e) ∙ over, rw (finished-Reach r f) (ap some (same ∙ e)))

-- A request stays, and what is consistent stays so.
abbrev IsAsked : ℕ → Task → Type 0
IsAsked count t = IsConsistent count t × (t.job.canceled ≡ true)

IsAsked-Reach : (count : ℕ) {t u : Task} → IsAsked count t → Reach t u → IsAsked count u
IsAsked-Reach count a here = a
IsAsked-Reach count a (next {t} {u} e r h) =
    let (c, asked) = IsAsked-Reach count a r in
    (step-IsConsistent count e t u h c, canceled-step e t u h asked)

-- The second half of `Stop` returns a status, which is terminal.
abbrev pub Answers : Job → Type 0
Answers j = (s : Status) × (stop_answer j ≡ some s) × (is_running s ≡ false)

-- The goroutine takes the other case of its `select`, without waiting for the timer, and the job is
-- stopped by that, with a stopped tick behind the ticks that it had.
abbrev pub Stops : Task → Type 0
Stops u =
    (c : ℤ) × (u.pc ≡ waiting c)
    × ((v : Task) × (step (done (canceled ∷ [])) u ≡ some v)
        × (v.job.status ≡ stopped)
        × (v.job.ticks ≡ u.job.ticks ++ Tick.stopped (canceled ∷ []) ∷ []))

-- The goroutine goes on, with nothing to wait for.
abbrev pub GoesOn : Task → Type 0
GoesOn u = (v : Task) × (step run u ≡ some v)

waiting-Stops :
    (count : ℕ) (c : ℤ) (j : Job)
    → IsAsked count (record { job = j; pc = waiting c })
    → Stops (record { job = j; pc = waiting c })
unfolding step_at
waiting-Stops count c j (h, asked) =
    let tick = Tick.stopped (canceled ∷ []) in
    let l = waiting-IsLive j h.channels h.state in
    (
      c,
      refl,
      (
        start_finish stopped tick j,
        step_at-step (done (canceled ∷ [])) _ ∙ rw asked refl,
        rw (start_finish-running l stopped tick) refl,
        rw (start_finish-running l stopped tick) refl,
      ),
    )

finished-Answers :
    (count : ℕ) (t : Task) → IsConsistent count t → t.job.finished ≡ true → Answers t.job
unfolding stop_answer
finished-Answers count t c f =
    let (_, over) = finished-HasEnded count t c f in (t.job.status, rw f refl, over)

-- Where the goroutine stands behind a request: `Stop` returns, the process has crashed, or there is a
-- step that waits for nothing.
stands :
    (count : ℕ) (pc : Pc) (j : Job)
    → IsAsked count (record { job = j; pc = pc })
    → Answers j
      ⊎ ((pc ≡ crashed)
          ⊎ ((0 < steps_left pc)
              × (Stops (record { job = j; pc = pc }) ⊎ GoesOn (record { job = j; pc = pc }))))
unfolding step
stands count (starting c) j a = inr (inr (omega arith, inr (_, refl)))
stands count (waiting c) j a = inr (inr (omega arith, inl (waiting-Stops count c j a)))
stands count (auditing false s t) j a = inr (inr (omega arith, inr (_, refl)))
stands count (auditing true s t) j a = inr (inr (omega arith, inr (_, refl)))
stands count closing j a = inr (inr (omega arith, inr (_, refl)))
stands count releasing j (h, _) = inl (finished-Answers count _ h (h.state.1))
stands count exited j (h, _) = inl (finished-Answers count _ h (h.state.1))
stands count crashed j a = inr (inl refl)

-- On every run that follows the first half of `Stop` on a consistent job, in a process that has not
-- crashed, one of three holds: at the end of the run the second half returns, with a terminal status;
-- or the run has a panic of the deferred function that recovers, which ends the process; or the
-- goroutine has made fewer steps of its own than `steps_left` gives for the point of the call, and it
-- has one that waits for no timer: where it waits, that of the ended context, by which the job is
-- STOPPED with a stopped tick behind its ticks, and elsewhere the next one of its code.
pub stop_returns :
    {count : ℕ} {t u : Task}
    → IsConsistent count t
    → t.pc ≢ crashed
    → (r : Reach (record t { job = request_stop t.job }) u)
    → Answers u.job ⊎ (HasLastPanic r ⊎ ((own_steps r < steps_left t.pc) × (Stops u ⊎ GoesOn u)))
unfolding request_stop
stop_returns {count} {t} {u} c up r =
    let asked : IsAsked count (record t { job = request_stop t.job }) =
      (step-IsConsistent count cancel t _ (step-cancel t) c, refl) in
    elim (Reach-IsUp asked.0 up r) [
      | inr panic ↦ inr (inl panic)
      | inl (_, still) ↦ elim (stands count u.pc u.job (IsAsked-Reach count asked r)) [
        | inl answers ↦ inl answers
        | inr (inl crash) ↦ absurd (still crash)
        | inr (inr (left, goes)) ↦ inr (inr (omega (arith, own_steps_bounded r, left), goes))
      ]
    ]
