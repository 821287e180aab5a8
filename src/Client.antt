-- ===== src/Client.antt =====
-- Package internal/client, client.go and errors.go, and the exit codes of cmd/fizzle and
-- cmd/fizzled. Here are the calls with one answer, where `send` stands for a call of the generated
-- client; building a client is in Connection, and the streaming loop in Streaming.
pub mod Outcomes
pub mod Connection
pub mod Streaming
use fizzled_go.Prelude.{
  Bytes, Bool, true, false, ◌||◌, Option, none, some, List, [], ◌∷◌, if◌then◌else◌, ℕ,
}
use fizzled_go.Prelude.Int.{ℤ, pos, negsuc, ltb_ℤ, int32}
use fizzled_go.Errors.{
  Sentinel, GoError, error_is, Result, ok, err, ◌>>=◌, rpc, config, usage, server_config,
  unknown_status,
}
use fizzled_go.Worker.Tick.{Status, running, completed, stopped, failed}
use fizzled_go.Server.Rpc.{Code, Answer, reply, refuse}
use fizzled_go.Server.Service.{
  WireStatus, status_unspecified, status_running, status_completed, status_stopped, status_failed,
}

-- `errorFrom`: the sentinel of a status code.
abbrev pub sentinel_for : Code → Sentinel
sentinel_for Code.invalid_argument = Sentinel.invalid_argument
sentinel_for Code.not_found = Sentinel.not_found
sentinel_for Code.permission_denied = Sentinel.permission_denied
sentinel_for Code.unauthenticated = Sentinel.unauthenticated
sentinel_for Code.unavailable = Sentinel.unavailable
sentinel_for Code.canceled = Sentinel.canceled
sentinel_for Code.deadline_exceeded = Sentinel.deadline_exceeded
sentinel_for _ = rpc

-- What a method makes of the answer.
abbrev pub error_from {ℓ} : {A : Type ℓ} → Answer A → Result A
error_from (reply a) = ok a
error_from (refuse code message) = err (sentinel_for code ∷ [])

-- `statusFrom`
unfoldable pub status_from : WireStatus → Result Status
status_from status_running = ok running
status_from status_completed = ok completed
status_from status_stopped = ok stopped
status_from status_failed = ok failed
status_from status_unspecified = err (unknown_status ∷ [])

-- `Start`
unfoldable pub start : (ℤ → Answer Bytes) → ℤ → Result Bytes
start send count =
    if ltb_ℤ count (negsuc 2_147_483_647) || ltb_ℤ (pos 2_147_483_647) count
    then err (Sentinel.invalid_argument ∷ [])
    else error_from (send (int32 count))

-- `Stop` and `GetStatus`, behind the call.
unfoldable pub reported_status : Answer WireStatus → Result Status
reported_status answer = error_from answer >>= status_from

-- `exitCodeFor` of cmd/fizzle; nil is success.
abbrev pub fizzle_exit_code : Option GoError → ℕ
fizzle_exit_code none = 0
fizzle_exit_code (some e) =
    if error_is e usage || error_is e Sentinel.invalid_argument || error_is e config then 2 else 1

-- `exitCodeFor` of cmd/fizzled.
abbrev pub fizzled_exit_code : Option GoError → ℕ
fizzled_exit_code none = 0
fizzled_exit_code (some e) = if error_is e usage || error_is e server_config then 2 else 1

abbrev pub error_of {ℓ} : {A : Type ℓ} → Result A → Option GoError
error_of (ok a) = none
error_of (err e) = some e
