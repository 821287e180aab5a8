-- ===== src/Server/Service/Streaming/Session.antt =====
-- One call of `StreamOutput` in internal/server/service.go, from the job that it streams to what
-- `fizzle outputs` prints of it.
use fizzled_go.Prelude.{ℕ, ◌≡◌, refl, ap, ◌∙◌, Bytes, some, false, Bool}
use fizzled_go.Prelude.Int.{ℤ, pos}
use fizzled_go.Errors.{ok}
use fizzled_go.Worker.Tick.{is_running}
use fizzled_go.Worker.Job.{Job, new_job}
use fizzled_go.Worker.Countdown.{Task}
use fizzled_go.Worker.Countdown.Reach
use fizzled_go.Worker.Countdown.Reach.{start}
use fizzled_go.Worker.Subscriber.{ended, saw_terminal}
use fizzled_go.Worker.Stream.Runs.{IsRun, complete_at_terminal}
use fizzled_go.Server.Rpc.{reply}
use fizzled_go.Server.Service.Streaming.{Sending, answer, answer_at}
use fizzled_go.Server.Service.Streaming.Sent.{
  proto_ticks, Sends, beside, Sends-Reach, Sends-IsSent, sending_none,
}

-- A call of `StreamOutput`: the job of this count that `NewJob` made, its goroutine up to where the
-- handler ranges over the job's ticks, and the two side by side from there.
pub record IsSession (count : ℕ) (t : Task) (h : Sending) : Type 0 where
  pub parent_done : Bool
  pub id : Bytes
  pub interval : ℤ
  pub job : Job
  pub made : new_job parent_done id (pos count) interval ≡ ok job
  pub from : Task
  pub alone : Reach.Reach (start (pos count) job) from
  pub beside_job : Sends from t h

session-IsRun :
    {count : ℕ} {t : Task} {h : Sending} → IsSession count t h → IsRun count (beside t h)
session-IsRun s = record {
  parent_done = s.parent_done;
  id = s.id;
  interval = s.interval;
  job = s.job;
  made = s.made;
  task = s.from;
  alone = s.alone;
  beside = Sends-Reach s.beside_job;
}

-- In a call of `StreamOutput` whose range has ended by a terminal tick, no Send has failed, the call
-- returns without an error, the client was sent the wire form of every tick of the job, in order, and
-- the job has ended.
pub stream_sends_all :
    {count : ℕ} (t : Task) (h : Sending)
    → IsSession count t h
    → h.subscriber.phase ≡ ended saw_terminal
    → (answer h ≡ some (reply tt))
      × (h.sent ≡ proto_ticks t.job.ticks)
      × (is_running t.job.status ≡ false)
unfolding answer answer_at
stream_sends_all t h s at =
    let (all, over) = complete_at_terminal (beside t h) (session-IsRun s) at in
    let (fine, sent) = sending_none h (Sends-IsSent s.beside_job) (λ q. cc) in
    (rw (at, fine) refl, sent ∙ ap proto_ticks all, over)
