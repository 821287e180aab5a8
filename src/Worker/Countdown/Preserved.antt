-- ===== src/Worker/Countdown/Preserved.antt =====
-- That every step of a job's goroutine keeps what holds at every point of it.
use fizzled_go.Prelude.{
  ℕ, zero, suc, ◌≡◌, ◌<◌, refl, sym, subst, ◌∙◌, inl, inr, Bool, true, false, some, [], ◌∷◌, arith,
  eq_of_some_eq, eq_of_if_some,
}
use fizzled_go.Prelude.Int.{pos, ◌-ℤ◌}
use fizzled_go.Worker.Tick.{
  Status, running, completed, stopped, failed, Tick, progress, panic_error, is_running,
}
use fizzled_go.Worker.Job.{Job, audit_transition}
use fizzled_go.Worker.Countdown.{
  Pc, starting, waiting, auditing, closing, releasing, exited, crashed, Task, Recovered, Event, run,
  tick_after, done, panics, cancel, panic_tick, recover_from, report, step_at, step,
}
use fizzled_go.Worker.Buffer.{Matches}
use fizzled_go.Worker.Channels.{set_terminal-ended}
use fizzled_go.Worker.Countdown.Invariant.{
  AtPc, IsConsistent, IsLive, HasEnded, end_line, Matches-not-running, start_finish-IsConsistent,
  recover_from-IsConsistent, report-IsConsistent, on_tick-IsConsistent, starting-IsLive,
  waiting-IsLive,
}

-- `cancel` sets only the state of the job's context, which the invariant does not read.
cancel-AtPc :
    (count : ℕ) (pc : Pc) (j : Job) → AtPc count pc j → AtPc count pc (record j { canceled = true })
cancel-AtPc count (starting c) j h = h
cancel-AtPc count (waiting c) j h = h
cancel-AtPc count (auditing r s t) j h = h
cancel-AtPc count closing j (e, f) = (record { buffer = e.buffer; logged = e.logged }, f)
cancel-AtPc count releasing j (e, f) = (record { buffer = e.buffer; logged = e.logged }, f)
cancel-AtPc count exited j (e, f) = (record { buffer = e.buffer; logged = e.logged }, f)
cancel-AtPc count crashed j (e, f) = (record { buffer = e.buffer; logged = e.logged }, f)

audit-logged :
    (s : Status) (t : Tick) (next : ℕ) (j : Job)
    → Matches s t next
    → j.status ≡ s
    → j.log ≡ []
    → (audit_transition s t j).log ≡ end_line j ∷ []
unfolding audit_transition
audit-logged completed (progress e c) next j m h k = ground arith
audit-logged stopped (Tick.stopped c) next j m h k = ground arith
audit-logged failed (panic_error c) next j m h k = ground arith
audit-logged completed (Tick.stopped c) next j m h k = absurd m
audit-logged completed (panic_error c) next j m h k = absurd m
audit-logged stopped (progress e c) next j m h k = absurd m
audit-logged stopped (panic_error c) next j m h k = absurd m
audit-logged failed (progress e c) next j m h k = absurd m
audit-logged failed (Tick.stopped c) next j m h k = absurd m
audit-logged running t next j m h k = absurd m

audit-IsConsistent :
    (count : ℕ) (r : Bool) (s : Status) (t : Tick) (j : Job)
    → IsConsistent count (record { job = j; pc = auditing r s t })
    → IsConsistent count (record { job = audit_transition s t j; pc = closing })
unfolding audit_transition
audit-IsConsistent count r s t j c =
    let (next, m, e, b, f, l) = c.state in
    record {
      channels = c.channels;
      state = (record { buffer = b; logged = inr (audit-logged s t next j m e l) }, f);
    }

auditing-HasEnded :
    (count : ℕ) (r : Bool) (s : Status) (t : Tick) (j : Job)
    → AtPc count (auditing r s t) j
    → HasEnded count j
auditing-HasEnded count r s t j (next, m, e, b, f, l) = record { buffer = b; logged = inl l }

-- A panic of the logger, behind the transition, changes nothing.
pub recover_from-ended :
    (r : Recovered) (j : Job)
    → is_running j.status ≡ false
    → recover_from r j ≡ record { job = j; pc = closing }
unfolding recover_from
recover_from-ended r j h = rw (set_terminal-ended j failed (panic_tick r) h, recover_from)

first_report :
    (count : ℕ) (j : Job)
    → IsLive count count j
    → 0 < count
    → IsConsistent count (report (progress (pos 0) (pos count)) (pos count -ℤ pos 1) j)
first_report zero j l h = elim h [ ]
first_report (suc m) j l h = report-IsConsistent (pos 0) l

step_at-IsConsistent :
    (count : ℕ) (pc : Pc) (e : Event) (j : Job) (t' : Task)
    → step_at pc e j ≡ some t'
    → IsConsistent count (record { job = j; pc = pc })
    → IsConsistent count t'
unfolding step_at
step_at-IsConsistent count pc cancel j t' h c =
    subst (IsConsistent count) (eq_of_some_eq h)
      (record { channels = c.channels; state = cancel-AtPc count pc j c.state })
step_at-IsConsistent count (starting n) run j t' h c =
    subst (IsConsistent count) (eq_of_some_eq h)
      (rw (c.state.2) (first_report count j (starting-IsLive j c.channels c.state) c.state.3))
step_at-IsConsistent count (starting n) (panics r) j t' h c =
    subst (IsConsistent count) (eq_of_some_eq h)
      (recover_from-IsConsistent (starting-IsLive j c.channels c.state) r)
step_at-IsConsistent count (waiting n) (tick_after e) j t' h c =
    subst (IsConsistent count) (eq_of_some_eq h)
      (rw (c.state.1) (on_tick-IsConsistent c.state.0 e (waiting-IsLive j c.channels c.state)))
step_at-IsConsistent count (waiting n) (done cause) j t' h c =
    subst (IsConsistent count) (eq_of_if_some j.canceled h)
      (start_finish-IsConsistent (waiting-IsLive j c.channels c.state) stopped _ tt)
step_at-IsConsistent count (waiting n) (panics r) j t' h c =
    subst (IsConsistent count) (eq_of_some_eq h)
      (recover_from-IsConsistent (waiting-IsLive j c.channels c.state) r)
step_at-IsConsistent count (auditing r s t) run j t' h c =
    subst (IsConsistent count) (eq_of_some_eq h) (audit-IsConsistent count r s t j c)
step_at-IsConsistent count (auditing false s t) (panics r) j t' h c =
    subst (IsConsistent count)
      (sym (recover_from-ended r j (rw (c.state.2) (Matches-not-running s t c.state.0 c.state.1)))
        ∙ eq_of_some_eq h)
      (record {
        channels = c.channels;
        state = (auditing-HasEnded count false s t j c.state, c.state.4);
      })
step_at-IsConsistent count (auditing true s t) (panics r) j t' h c =
    subst (IsConsistent count) (eq_of_some_eq h) (record {
      channels = c.channels;
      state = (auditing-HasEnded count true s t j c.state, c.state.4);
    })
step_at-IsConsistent count closing run j t' h c =
    subst (IsConsistent count) (eq_of_some_eq h) (record {
      channels = c.channels;
      state = (record { buffer = c.state.0.buffer; logged = c.state.0.logged }, refl);
    })
step_at-IsConsistent count releasing run j t' h c =
    subst (IsConsistent count) (eq_of_some_eq h) (record {
      channels = c.channels;
      state = (record { buffer = c.state.0.buffer; logged = c.state.0.logged }, c.state.1);
    })
step_at-IsConsistent count _ _ j t' h c = cc

pub step-IsConsistent :
    (count : ℕ) (e : Event) (t t' : Task)
    → step e t ≡ some t'
    → IsConsistent count t
    → IsConsistent count t'
step-IsConsistent count e t t' h c = step_at-IsConsistent count t.pc e t.job t' (rw step_lem at h) c
  where
    step_lem : step e t ≡ step_at t.pc e t.job
    step_lem = unfold step in refl
