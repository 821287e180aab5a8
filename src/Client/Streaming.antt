-- ===== src/Client/Streaming.antt =====
-- `StreamOutput` of internal/client/client.go, with tick.go: an iterator that calls its consumer.
use fizzled_go.Prelude.{Bytes, Bool, true, false, Option, none, some, List, [], ◌∷◌}
use fizzled_go.Errors.{Result, ok, err, ◌>>=◌}
use fizzled_go.Server.Rpc.{Code, Answer, reply, refuse}
use fizzled_go.Server.Service.{WireTick}
use fizzled_go.Client.{sentinel_for}
use fizzled_go.Client.Connection.{Environment, Wire, TickStream}

-- `tickJSON`
unfoldable pub tick_json : Environment → WireTick → Result Bytes
tick_json env tick = env.marshal tick >>= env.compact

-- A consumer, with a state of its own: what it does with an element, and whether it wants more.
abbrev pub Consumer : Type 0 → Type 0
Consumer S = S → Result Bytes → S × Bool

-- The loop over `Recv`, on the encoded tick and the loop over the rest.
abbrev pub go_on : {S : Type 0} → S × Bool → (S → S) → S
go_on (s, true) rest = rest s
go_on (s, false) rest = s

abbrev pub hand_over : {S : Type 0} → Consumer S → S → Result Bytes → (S → S) → S
hand_over consume s (ok encoded) rest = go_on (consume s (ok encoded)) rest
hand_over consume s (err e) rest = (consume s (err e)).0

unfoldable pub receive :
    {S : Type 0} → Environment → Consumer S → List WireTick → Option (Code × Bytes) → S → S
receive env consume [] none s = s
receive env consume [] (some (code, message)) s = (consume s (err (sentinel_for code ∷ []))).0
receive env consume (tick ∷ ticks) ending s =
    hand_over consume s (tick_json env tick) (λ t. receive env consume ticks ending t)

abbrev pub receive_opened : {S : Type 0} → Environment → Consumer S → S → Answer TickStream → S
receive_opened env consume s (refuse code message) = (consume s (err (sentinel_for code ∷ []))).0
receive_opened env consume s (reply stream) = receive env consume stream.ticks stream.ending s

-- `StreamOutput`, ranged over by a consumer.
unfoldable pub stream_output : {S : Type 0} → Environment → Wire → Bytes → Consumer S → S → S
stream_output env w job_id consume s = receive_opened env consume s (w.open_stream job_id)
