-- ===== src/Server/Service/Streaming.antt =====
-- The handler `StreamOutput` of internal/server/service.go behind the lookup of the job: the range
-- over the job's ticks, each sent to the client. The log lines are not modelled.
pub mod Sent
pub mod Session
pub mod Examples
use fizzled_go.Prelude.{Bytes, Bool, true, false, Option, none, some, List, [], ◌∷◌, ◌++◌}
use fizzled_go.Worker.Job.{Job}
use fizzled_go.Worker.Subscriber.{
  Subscriber, Phase, locking, yielding, blocked, ended, Act, go, ctx_ends, new_subscriber, act,
  yield_one,
}
use fizzled_go.Server.Rpc.{Code, Answer, reply, refuse}
use fizzled_go.Server.Service.{WireTick, proto_tick}

-- The status of an error that `Send` returned.
abbrev pub Failure : Type 0
Failure = Code × Bytes

-- The iteration over the job's ticks, the messages that `Send` took, and its error if it gave one.
pub record Sending : Type 0 where
  pub subscriber : Subscriber
  pub sent : List WireTick
  pub failure : Option Failure

abbrev pub new_sending : Sending
new_sending = record { subscriber = new_subscriber; sent = []; failure = none }

-- What can happen to the handler: the iteration goes on, the call's context ends, or `Send` returns
-- for the tick at hand.
pub data Move : Type 0 where
  iterates context_ends : Move
  sends : Option Failure → Move

abbrev pub with_subscriber : Sending → Option Subscriber → Option Sending
with_subscriber h none = none
with_subscriber h (some s) = some (record h { subscriber = s })

-- The body of the range at a tick; an error ends the range.
unfoldable pub send_at : Phase → Option Failure → Sending → Option Sending
send_at (yielding (t ∷ ts) b wait) none h = some (record h {
  subscriber = yield_one true t ts b wait h.subscriber;
  sent = h.sent ++ (proto_tick t ∷ []);
})
send_at (yielding (t ∷ ts) b wait) (some e) h =
    some (record h { subscriber = yield_one false t ts b wait h.subscriber; failure = some e })
send_at (yielding [] b wait) outcome h = none
send_at locking outcome h = none
send_at (blocked wait) outcome h = none
send_at (ended e) outcome h = none

-- One step of the handler beside the job; `none` when the move cannot happen here.
unfoldable pub move : Move → Job → Sending → Option Sending
move iterates j h = with_subscriber h (act go j h.subscriber)
move context_ends j h = with_subscriber h (act ctx_ends j h.subscriber)
move (sends outcome) j h = send_at h.subscriber.phase outcome h

abbrev pub result_of : Option Failure → Answer (Unit {0})
result_of none = reply tt
result_of (some (code, message)) = refuse code message

-- What the handler returns; `none` while the range goes on.
unfoldable pub answer_at : Phase → Option Failure → Option (Answer (Unit {0}))
answer_at (ended e) failure = some (result_of failure)
answer_at locking failure = none
answer_at (yielding ts b wait) failure = none
answer_at (blocked wait) failure = none

unfoldable pub answer : Sending → Option (Answer (Unit {0}))
answer h = answer_at h.subscriber.phase h.failure
