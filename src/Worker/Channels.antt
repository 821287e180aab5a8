-- ===== src/Worker/Channels.antt =====
-- The channels that a job signals on: closing the current one does not panic while the job runs.
use fizzled_go.Prelude.{
  ℕ, ◌+◌, ◌≡◌, subst, sym, Bool, true, false, [], ◌∷◌, ◌++◌, arith, ltb, leb, ◌==◌, if◌then◌else◌,
}
use fizzled_go.Worker.Tick.{Status, running, completed, stopped, failed, Tick, is_running}
use fizzled_go.Worker.Job.{Job, returned, report_progress, set_terminal}

-- While the job runs, exactly the channels before the current one are closed; when it has ended, the
-- current one is closed too.
abbrev pub HasChannels : Status → ℕ → (ℕ → Bool) → Type 0
HasChannels running changed is_closed = (c : ℕ) → is_closed c ≡ ltb c changed
HasChannels _ changed is_closed = (c : ℕ) → is_closed c ≡ leb c changed

-- The job after `set_terminal` made the transition.
abbrev pub ended : Status → Tick → Job → Job
ended s tick j = record j {
  status = s;
  ticks = j.ticks ++ tick ∷ [];
  is_closed = λ c. if c == j.changed then true else j.is_closed c;
}

-- The job after `report_progress` appended a tick.
abbrev pub reported : Tick → Job → Job
reported tick j = record j {
  ticks = j.ticks ++ tick ∷ [];
  is_closed = λ c. if c == j.changed then true else j.is_closed c;
  changed = j.changed + 1;
}

module _ (j : Job) (h : HasChannels j.status j.changed j.is_closed) (r : j.status ≡ running) where
  channels_running : (c : ℕ) → j.is_closed c ≡ ltb c j.changed
  channels_running = subst (λ s. HasChannels s j.changed j.is_closed) r h

  pub set_terminal-running :
      (s : Status) (t : Tick) → set_terminal s t j ≡ returned true (ended s t j)
  unfolding set_terminal
  set_terminal-running s t = ground (arith, channels_running j.changed)

  pub report_progress-running : (t : Tick) → report_progress t j ≡ returned tt (reported t j)
  unfolding report_progress
  report_progress-running t = ground (arith, channels_running j.changed)

  pub channels-ended :
      (s : Status) (t : Tick)
      → is_running s ≡ false
      → HasChannels s (ended s t j).changed (ended s t j).is_closed
  channels-ended completed t e = λ c. ground (arith, channels_running c)
  channels-ended stopped t e = λ c. ground (arith, channels_running c)
  channels-ended failed t e = λ c. ground (arith, channels_running c)
  channels-ended running t e = absurd (ground arith)

  pub channels-reported :
      (t : Tick) → HasChannels j.status (reported t j).changed (reported t j).is_closed
  channels-reported t =
      subst (λ s. HasChannels s (reported t j).changed (reported t j).is_closed) (sym r)
        (λ c. ground (arith, channels_running c))

-- A job that has ended refuses a second transition, and any tick.
pub set_terminal-ended :
    (j : Job) (s : Status) (t : Tick)
    → is_running j.status ≡ false
    → set_terminal s t j ≡ returned false j
unfolding set_terminal
set_terminal-ended j s t e = ground arith

pub report_progress-ended :
    (j : Job) (t : Tick) → is_running j.status ≡ false → report_progress t j ≡ returned tt j
unfolding report_progress
report_progress-ended j t e = ground arith
