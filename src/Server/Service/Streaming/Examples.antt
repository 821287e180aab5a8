-- ===== src/Server/Service/Streaming/Examples.antt =====
-- A call of `StreamOutput` for a job that has ended, on which the theorems about the handler apply.
use fizzled_go.Prelude.{◌≡◌, refl, false, Option, none, some, List, [], ◌∷◌}
use fizzled_go.Worker.Tick.{is_running}
use fizzled_go.Worker.Countdown.{step}
use fizzled_go.Worker.Subscriber.{ended, saw_terminal, act}
use fizzled_go.Worker.Examples.{alice_job, finished, finished_run, job_id, new_alice_job, second}
use fizzled_go.Server.Rpc.{reply}
use fizzled_go.Server.Service.Streaming.{
  Sending, new_sending, Move, iterates, sends, move, send_at, answer,
}
use fizzled_go.Server.Service.Streaming.Sent.{proto_ticks, Sends, opened, handler_moves}
use fizzled_go.Server.Service.Streaming.Session.{IsSession, stream_sends_all}

abbrev taken : Option Sending → Sending
taken none = new_sending
taken (some h) = h

abbrev moving : List Move → Sending → Sending
moving [] h = h
moving (m ∷ ms) h = moving ms (taken (move m finished.job h))

-- The handler reads the buffer of two ticks and sends both.
abbrev pub streamed : Sending
streamed = moving (iterates ∷ sends none ∷ sends none ∷ []) new_sending

streamed_run : Sends finished finished streamed
unfolding move send_at act step
streamed_run =
    handler_moves (sends none)
      (handler_moves (sends none) (handler_moves iterates opened refl) refl) refl

pub session : IsSession 2 finished streamed
session = record {
  parent_done = false;
  id = job_id;
  interval = second;
  job = alice_job;
  made = new_alice_job;
  from = finished;
  alone = finished_run;
  beside_job = streamed_run;
}

pub streamed_phase : streamed.subscriber.phase ≡ ended saw_terminal
unfolding move send_at act step
streamed_phase = refl

stream_sends_all_example :
    (answer streamed ≡ some (reply tt))
    × (streamed.sent ≡ proto_ticks finished.job.ticks)
    × (is_running finished.job.status ≡ false)
stream_sends_all_example = stream_sends_all finished streamed session streamed_phase
