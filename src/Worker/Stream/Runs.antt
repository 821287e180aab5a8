-- ===== src/Worker/Stream/Runs.antt =====
-- What a subscriber of internal/worker sees, from whatever point of a job's run it comes.
use fizzled_go.Prelude.{ℕ, ◌+◌, ◌*◌, ◌≡◌, ◌≢◌, Bytes, Bool, false, List, ◌++◌, length}
use fizzled_go.Prelude.Int.{ℤ, pos}
use fizzled_go.Errors.{ok}
use fizzled_go.Worker.Tick.{running, Tick, is_running}
use fizzled_go.Worker.Job.{Job, new_job}
use fizzled_go.Worker.Countdown.{Task}
use fizzled_go.Worker.Countdown.Reach
use fizzled_go.Worker.Countdown.Reach.{start, Reach-IsConsistent}
use fizzled_go.Worker.Subscriber.{blocked, ended, End, saw_terminal, new_subscriber}
use fizzled_go.Worker.Stream
use fizzled_go.Worker.Stream.{System}
use fizzled_go.Worker.Stream.Safety.{
  IsFaithful, fresh-IsFaithful, Reach-IsFaithful, IsFaithful-prefix, IsFaithful-complete,
  IsFaithful-wakeup,
}
use fizzled_go.Worker.Stream.Progress.{receive, IsFaithful-receive}

-- A subscriber that comes to a job at this point.
abbrev pub subscribed : Task → System
subscribed t = record { task = t; subscriber = new_subscriber }

-- A point of a run: the job of this count that `NewJob` made, its goroutine up to where the
-- subscriber comes, and the two side by side from there.
pub record IsRun (count : ℕ) (s : System) : Type 0 where
  pub parent_done : Bool
  pub id : Bytes
  pub interval : ℤ
  pub job : Job
  pub made : new_job parent_done id (pos count) interval ≡ ok job
  pub task : Task
  pub alone : Reach.Reach (start (pos count) job) task
  pub beside : Stream.Reach (subscribed task) s

-- At every point of a run the job is consistent, and the subscriber has read, of its buffer, what its
-- phase says.
pub IsRun-IsFaithful : {count : ℕ} {s : System} → IsRun count s → IsFaithful count s
IsRun-IsFaithful {count} r =
    Reach-IsFaithful {count = count}
      (fresh-IsFaithful count r.task
        (Reach-IsConsistent r.parent_done r.id count r.interval r.job r.made r.alone))
      r.beside

-- At every point of a run the ticks handed to the subscriber are the first ones of the buffer, in
-- order.
pub delivered_prefix :
    {count : ℕ} (s : System)
    → IsRun count s
    → (after : List Tick) × (s.task.job.ticks ≡ s.subscriber.delivered ++ after)
delivered_prefix s r = IsFaithful-prefix s (IsRun-IsFaithful r)

-- At a point of a run where the subscriber's iteration has ended by a terminal tick, it was handed
-- every tick of the job, which has ended.
pub complete_at_terminal :
    {count : ℕ} (s : System)
    → IsRun count s
    → s.subscriber.phase ≡ ended saw_terminal
    → (s.subscriber.delivered ≡ s.task.job.ticks) × (is_running s.task.job.status ≡ false)
complete_at_terminal s r h = IsFaithful-complete s (IsRun-IsFaithful r) h

-- At a point of a run where the subscriber waits on a channel that is open, it was handed every tick,
-- and the job is RUNNING: no append and no transition goes by without waking it.
pub no_lost_wakeup :
    {count : ℕ} (s : System) (wait : ℕ)
    → IsRun count s
    → s.subscriber.phase ≡ blocked wait
    → s.task.job.is_closed wait ≡ false
    → (s.subscriber.delivered ≡ s.task.job.ticks) × (s.task.job.status ≡ running)
no_lost_wakeup s wait r h k = IsFaithful-wakeup s wait (IsRun-IsFaithful r) h k

-- At a point of a run where the job has ended and the subscriber's iteration has not, the subscriber
-- is handed the whole buffer within four acts for each tick and five more, if its caller goes on, and
-- its iteration ends by the terminal tick.
pub receive_all :
    {count : ℕ} (s : System)
    → IsRun count s
    → is_running s.task.job.status ≡ false
    → ((e : End) → s.subscriber.phase ≢ ended e)
    → let final = receive (4 * length s.task.job.ticks + 5) s.task.job s.subscriber in
      (final.phase ≡ ended saw_terminal) × (final.delivered ≡ s.task.job.ticks)
receive_all s r h k = IsFaithful-receive s (IsRun-IsFaithful r) h k
