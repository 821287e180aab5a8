-- ===== src/Worker/Countdown/Invariant.antt =====
-- What holds of a job at every point of its goroutine, and that its transitions keep it.
use fizzled_go.Prelude.{
  ℕ, zero, suc, ◌≡◌, ◌<◌, refl, ◌⊎◌, Bool, true, false, [], ◌∷◌, arith, if◌then◌else◌,
}
use fizzled_go.Prelude.Int.{ℤ, pos, ◌-ℤ◌}
use fizzled_go.Worker.Tick.{Status, running, completed, stopped, failed, Tick, progress, is_running}
use fizzled_go.Worker.Job.{Job, AuditLine, Level}
use fizzled_go.Worker.Countdown.{
  Pc, starting, waiting, auditing, closing, releasing, exited, crashed, Task, Recovered,
  error_value, other_value, panic_tick, recover_from, start_finish, report, on_tick,
}
use fizzled_go.Worker.Buffer.{CountsDown, CountsDown-append, IsEnded, Matches}
use fizzled_go.Worker.Channels.{
  HasChannels, ended, reported, set_terminal-running, report_progress-running, channels-ended,
  channels-reported,
}

abbrev is_failed : Status → Bool
is_failed failed = true
is_failed running = false
is_failed _ = false

-- The one line that a job's end may leave in the log.
abbrev pub end_line : Job → AuditLine
end_line j = record {
  level = if is_failed j.status then Level.error else Level.info;
  job_id = j.id;
  status = j.status;
  has_error = is_failed j.status;
}

-- The job has ended, its last tick fits its status, and the log holds at most the one line.
pub record HasEnded (count : ℕ) (j : Job) : Type 0 where
  pub buffer : IsEnded count j.status j.ticks
  pub logged : (j.log ≡ []) ⊎ (j.log ≡ end_line j ∷ [])

abbrev pub AtPc : ℕ → Pc → Job → Type 0
AtPc count (starting c) j =
    (j.status ≡ running)
    × (j.ticks ≡ [])
    × (c ≡ pos count)
    × (0 < count)
    × (j.finished ≡ false)
    × (j.log ≡ [])
AtPc count (waiting c) j =
    (m : ℕ) × (c ≡ pos m)
    × CountsDown count j.ticks m
    × (j.status ≡ running)
    × (j.finished ≡ false)
    × (j.log ≡ [])
AtPc count (auditing r s tick) j =
    (next : ℕ) × Matches s tick next
    × (j.status ≡ s)
    × IsEnded count j.status j.ticks
    × (j.finished ≡ false)
    × (j.log ≡ [])
AtPc count closing j = HasEnded count j × (j.finished ≡ false)
AtPc count crashed j = HasEnded count j × (j.finished ≡ false)
AtPc count releasing j = HasEnded count j × (j.finished ≡ true)
AtPc count exited j = HasEnded count j × (j.finished ≡ true)

pub record IsConsistent (count : ℕ) (t : Task) : Type 0 where
  pub channels : HasChannels t.job.status t.job.changed t.job.is_closed
  pub state : AtPc count t.pc t.job

-- The facts that the points before a transition share.
pub record IsLive (count next : ℕ) (j : Job) : Type 0 where
  pub channels : HasChannels j.status j.changed j.is_closed
  pub counts : CountsDown count j.ticks next
  pub live : j.status ≡ running
  pub unfinished : j.finished ≡ false
  pub unlogged : j.log ≡ []

pub Matches-not-running :
    (s : Status) (t : Tick) (next : ℕ) → Matches s t next → is_running s ≡ false
Matches-not-running running t next h = absurd h
Matches-not-running completed t next h = refl
Matches-not-running stopped t next h = refl
Matches-not-running failed t next h = refl

module _ {count next : ℕ} {j : Job} (l : IsLive count next j) where
  ended-IsConsistent :
      (r : Bool) (s : Status) (t : Tick)
      → Matches s t next
      → IsConsistent count (record { job = ended s t j; pc = auditing r s t })
  ended-IsConsistent r s t m = record {
    channels = channels-ended j l.channels l.live s t (Matches-not-running s t next m);
    state = (
      next,
      m,
      refl,
      record {
        reported = j.ticks;
        last = t;
        next = next;
        buffer = refl;
        counts = l.counts;
        matches = m;
      },
      l.unfinished,
      l.unlogged,
    );
  }

  pub start_finish-running :
      (s : Status) (t : Tick)
      → start_finish s t j ≡ record { job = ended s t j; pc = auditing false s t }
  unfolding start_finish
  start_finish-running s t = rw (set_terminal-running j l.channels l.live s t, start_finish)

  pub start_finish-IsConsistent :
      (s : Status) (t : Tick) → Matches s t next → IsConsistent count (start_finish s t j)
  start_finish-IsConsistent s t m = rw (start_finish-running s t) (ended-IsConsistent false s t m)

  pub recover_from-running :
      (r : Recovered)
      → recover_from r j
        ≡ record { job = ended failed (panic_tick r) j; pc = auditing true failed (panic_tick r) }
  unfolding recover_from
  recover_from-running r =
      rw (set_terminal-running j l.channels l.live failed (panic_tick r), recover_from)

  pub recover_from-IsConsistent : (r : Recovered) → IsConsistent count (recover_from r j)
  recover_from-IsConsistent r =
      rw (recover_from-running r) (ended-IsConsistent true failed (panic_tick r) (panic_fits r))
    where
      panic_fits : (r : Recovered) → Matches failed (panic_tick r) next
      panic_fits (error_value e) = tt
      panic_fits other_value = tt

pub pos-sub-one : (m : ℕ) → pos (suc m) -ℤ pos 1 ≡ pos m
unfolding ◌-ℤ◌
pos-sub-one m = ground arith

pub report-running :
    {count m : ℕ} {j : Job} (elapsed : ℤ) (l : IsLive count (suc m) j)
    → report (progress elapsed (pos (suc m))) (pos m) j
      ≡ record { job = reported (progress elapsed (pos (suc m))) j; pc = waiting (pos m) }
unfolding report
report-running {m} {j} elapsed l =
    rw (report_progress-running j l.channels l.live (progress elapsed (pos (suc m))), report)
      (ground arith)

-- A report of the count that is due, when it is not the last one.
pub report-IsConsistent :
    {count m : ℕ} {j : Job} (elapsed : ℤ)
    → IsLive count (suc m) j
    → IsConsistent count (report (progress elapsed (pos (suc m))) (pos (suc m) -ℤ pos 1) j)
report-IsConsistent {count} {m} {j} elapsed l =
    rw (pos-sub-one m, report-running elapsed l)
      (record {
        channels = channels-reported j l.channels l.live (progress elapsed (pos (suc m)));
        state = (
          m,
          refl,
          CountsDown-append count j.ticks elapsed m l.counts,
          l.live,
          l.unfinished,
          l.unlogged,
        );
      })

pub on_tick-IsConsistent :
    {count : ℕ} (m : ℕ) {j : Job} (elapsed : ℤ)
    → IsLive count m j
    → IsConsistent count (on_tick elapsed (pos m) j)
unfolding on_tick
on_tick-IsConsistent zero elapsed l =
    start_finish-IsConsistent l completed (progress elapsed (pos 0)) (refl, refl)
on_tick-IsConsistent (suc m) elapsed l = report-IsConsistent elapsed l

-- What a point before a transition gives.
pub starting-IsLive :
    {count : ℕ} {c : ℤ} (t : Job)
    → HasChannels t.status t.changed t.is_closed
    → AtPc count (starting c) t
    → IsLive count count t
starting-IsLive {count} t h (live, empty, _, _, unfinished, unlogged) = record {
  channels = h;
  counts = rw empty refl;
  live = live;
  unfinished = unfinished;
  unlogged = unlogged;
}

pub waiting-IsLive :
    {count : ℕ} {c : ℤ} (t : Job)
    → HasChannels t.status t.changed t.is_closed
    → (s : AtPc count (waiting c) t) → IsLive count s.0 t
waiting-IsLive t h (m, e, counts, live, unfinished, unlogged) = record {
  channels = h;
  counts = counts;
  live = live;
  unfinished = unfinished;
  unlogged = unlogged;
}
