-- ===== src/Command/Fizzle/EndToEnd.antt =====
-- From a job on the server to the lines that `fizzle outputs` prints.
use fizzled_go.Prelude.{ℕ, ◌≡◌, ap, ◌∙◌, Bytes, none, List}
use fizzled_go.Errors.{ok}
use fizzled_go.Worker.Countdown.{Task}
use fizzled_go.Worker.Subscriber.{ended, saw_terminal}
use fizzled_go.Server.Rpc.{reply}
use fizzled_go.Server.Service.Streaming.{Sending}
use fizzled_go.Server.Service.Streaming.Sent.{proto_ticks}
use fizzled_go.Server.Service.Streaming.Session.{IsSession, stream_sends_all}
use fizzled_go.Client.Connection.{Environment, Wire}
use fizzled_go.Command.Fizzle.{outputs_command, execute_command}
use fizzled_go.Command.Fizzle.Outputs.{encode_all, lines, open_writer, outputs_prints}

-- When a call of `StreamOutput` has ended by the job's terminal tick, the connection gives the
-- client what the call sent and then the end of the stream, every tick of the job can be encoded,
-- and stdout takes every text, `fizzle outputs` prints the whole buffer of the job, a line to a tick,
-- in order, and succeeds.
pub outputs_whole_job :
    {count : ℕ} (t : Task) (h : Sending) (env : Environment) (w : Wire) (job_id : Bytes)
    {texts : List Bytes}
    → IsSession count t h
    → h.subscriber.phase ≡ ended saw_terminal
    → w.open_stream job_id ≡ reply (record { ticks = h.sent; ending = none })
    → encode_all env (proto_ticks t.job.ticks) ≡ ok texts
    → execute_command env w open_writer (outputs_command job_id) ≡ (lines texts, none)
outputs_whole_job t h env w job_id session at opened encoded =
    let (_, sent, _) = stream_sends_all t h session at in
    outputs_prints env w job_id (record { ticks = h.sent; ending = none }) opened
      (ap (encode_all env) sent ∙ encoded)
