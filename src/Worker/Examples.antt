-- ===== src/Worker/Examples.antt =====
-- Runs of a small job of internal/worker, on which the theorems about jobs and streams apply.
use fizzled_go.Prelude.{
  ◌+◌, ◌*◌, ◌≡◌, ◌≢◌, ◌≤◌, ◌<◌, ◌⊎◌, refl, Bytes, codes, true, false, Option, none, some, List, [],
  ◌∷◌, length, ◌==◌, if◌then◌else◌,
}
use fizzled_go.Prelude.Int.{ℤ, pos}
use fizzled_go.Errors.{ok, foreign, GoError}
use fizzled_go.Worker.Tick.{running, stopped, progress, is_running}
use fizzled_go.Worker.Job.{Job, new_job, fresh_job}
use fizzled_go.Worker.Countdown.{waiting, crashed, Task, run, done, cancel, step}
use fizzled_go.Worker.Countdown.Crash.{HasLastPanic}
use fizzled_go.Worker.Countdown.Invariant.{IsConsistent}
use fizzled_go.Worker.Countdown.Reach
use fizzled_go.Worker.Countdown.Reach.{start, IsSound, Reach-IsConsistent, Reach-IsSound}
use fizzled_go.Worker.Countdown.Ending.{steps_left, own_steps, own_steps_bounded}
use fizzled_go.Worker.Countdown.Stop.{
  request_stop, stop_answer, stop_answer_final, stop_returns, Answers, Stops, GoesOn,
}
use fizzled_go.Worker.Subscriber.{
  Subscriber, blocked, ended, End, saw_terminal, Act, go, yields, new_subscriber, act,
}
use fizzled_go.Worker.Stream
use fizzled_go.Worker.Stream.{System}
use fizzled_go.Worker.Stream.Progress.{receive}
use fizzled_go.Worker.Stream.Runs.{IsRun, complete_at_terminal, no_lost_wakeup, receive_all}

abbrev pub job_id : Bytes
job_id = codes "alice/0"

abbrev pub second : ℤ
second = pos 1_000_000_000

abbrev pub alice_job : Job
alice_job = fresh_job false job_id second

pub new_alice_job : new_job false job_id (pos 2) second ≡ ok alice_job
unfolding new_job
new_alice_job = refl

abbrev pub cause : GoError
cause = foreign 7 ∷ []

-- The job counts 2, is stopped, and ends.
abbrev pub first : Task
first = start (pos 2) alice_job

abbrev pub after_one : Task
after_one = record {
  job = record alice_job {
    ticks = progress (pos 0) (pos 2) ∷ [];
    changed = 1;
    is_closed = λ c. if c == 0 then true else false;
  };
  pc = waiting (pos 1);
}

abbrev pub taken : Option Task → Task
taken none = first
taken (some t) = t

abbrev pub canceled : Task
canceled = taken (step cancel after_one)

abbrev pub ended_task : Task
ended_task = taken (step (done cause) canceled)

abbrev pub logged : Task
logged = taken (step run ended_task)

abbrev pub finished : Task
finished = taken (step run logged)

abbrev left : Task
left = taken (step run finished)

one_run : Reach.Reach first after_one
unfolding step
one_run = Reach.next run Reach.here refl

ended_run : Reach.Reach first ended_task
unfolding step
ended_run = Reach.next (done cause) (Reach.next cancel one_run refl) refl

pub finished_run : Reach.Reach first finished
unfolding step
finished_run = Reach.next run (Reach.next run ended_run refl) refl

last_run : Reach.Reach finished left
unfolding step
last_run = Reach.next run Reach.here refl

ended_status : is_running ended_task.job.status ≡ false
unfolding step
ended_status = refl

pub answered : stop_answer finished.job ≡ some stopped
unfolding step stop_answer
answered = refl

Reach-IsSound_example : IsSound 2 ended_task.job
Reach-IsSound_example = Reach-IsSound false job_id 2 second alice_job new_alice_job ended_run

own_steps_bounded_example : own_steps ended_run + steps_left ended_task.pc ≤ steps_left first.pc
own_steps_bounded_example = own_steps_bounded ended_run

finished_status : is_running finished.job.status ≡ false
unfolding step
finished_status = refl

after_one-IsConsistent : IsConsistent 2 after_one
after_one-IsConsistent = Reach-IsConsistent false job_id 2 second alice_job new_alice_job one_run

pub finished-IsConsistent : IsConsistent 2 finished
finished-IsConsistent =
    Reach-IsConsistent false job_id 2 second alice_job new_alice_job finished_run

stop_answer_final_example : (is_running stopped ≡ false) × (stop_answer left.job ≡ some stopped)
stop_answer_final_example = stop_answer_final finished-IsConsistent answered last_run

asked_run : Reach.Reach (record after_one { job = request_stop after_one.job }) ended_task
unfolding step request_stop
asked_run = Reach.next (done cause) Reach.here refl

not_crashed : after_one.pc ≢ crashed
unfolding step
not_crashed h = cc

stop_returns_example :
    Answers ended_task.job
    ⊎ (HasLastPanic asked_run
        ⊎ ((own_steps asked_run < steps_left after_one.pc)
            × (Stops ended_task ⊎ GoesOn ended_task)))
stop_returns_example = stop_returns after_one-IsConsistent not_crashed asked_run

-- A subscriber beside the running job, which it has read to the end of its buffer.
abbrev system_at : Task → System
system_at t = record { task = t; subscriber = new_subscriber }

abbrev moved : Option Subscriber → Subscriber
moved none = new_subscriber
moved (some s) = s

abbrev acting : Task → List Act → Subscriber → Subscriber
acting t [] s = s
acting t (a ∷ rest) s = acting t rest (moved (act a t.job s))

abbrev blocked_system : System
blocked_system = record {
  task = after_one;
  subscriber = acting after_one (go ∷ yields true ∷ go ∷ go ∷ go ∷ []) new_subscriber;
}

blocked_run : Stream.Reach (system_at after_one) blocked_system
unfolding act
blocked_run =
    Stream.subscriber_step go
      (Stream.subscriber_step go
        (Stream.subscriber_step go
          (Stream.subscriber_step (yields true) (Stream.subscriber_step go Stream.here refl) refl)
          refl)
        refl)
      refl

blocked-IsRun : IsRun 2 blocked_system
blocked-IsRun = record {
  parent_done = false;
  id = job_id;
  interval = second;
  job = alice_job;
  made = new_alice_job;
  task = after_one;
  alone = one_run;
  beside = blocked_run;
}

blocked_phase : blocked_system.subscriber.phase ≡ blocked 1
unfolding act
blocked_phase = refl

no_lost_wakeup_example :
    (blocked_system.subscriber.delivered ≡ after_one.job.ticks) × (after_one.job.status ≡ running)
no_lost_wakeup_example = no_lost_wakeup blocked_system 1 blocked-IsRun blocked_phase refl

-- A subscriber that replays the job that has ended.
abbrev replayed_system : System
replayed_system = record {
  task = finished;
  subscriber = acting finished (go ∷ yields true ∷ yields true ∷ []) new_subscriber;
}

replayed_run : Stream.Reach (system_at finished) replayed_system
unfolding act step
replayed_run =
    Stream.subscriber_step (yields true)
      (Stream.subscriber_step (yields true) (Stream.subscriber_step go Stream.here refl) refl) refl

replayed-IsRun : IsRun 2 replayed_system
replayed-IsRun = record {
  parent_done = false;
  id = job_id;
  interval = second;
  job = alice_job;
  made = new_alice_job;
  task = finished;
  alone = finished_run;
  beside = replayed_run;
}

subscribed-IsRun : IsRun 2 (system_at finished)
subscribed-IsRun = record {
  parent_done = false;
  id = job_id;
  interval = second;
  job = alice_job;
  made = new_alice_job;
  task = finished;
  alone = finished_run;
  beside = Stream.here;
}

replayed_phase : replayed_system.subscriber.phase ≡ ended saw_terminal
unfolding act step
replayed_phase = refl

complete_at_terminal_example :
    (replayed_system.subscriber.delivered ≡ finished.job.ticks)
    × (is_running finished.job.status ≡ false)
complete_at_terminal_example = complete_at_terminal replayed_system replayed-IsRun replayed_phase

not_over : (e : End) → new_subscriber.phase ≢ ended e
not_over e h = cc

receive_all_example :
    let final = receive (4 * length finished.job.ticks + 5) finished.job new_subscriber in
    (final.phase ≡ ended saw_terminal) × (final.delivered ≡ finished.job.ticks)
receive_all_example = receive_all (system_at finished) subscribed-IsRun finished_status not_over
