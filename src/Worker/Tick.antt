-- ===== src/Worker/Tick.antt =====
-- internal/worker/status.go and internal/worker/tick.go.
use fizzled_go.Prelude.{Bytes, codes, Bool, true, false, Option}
use fizzled_go.Prelude.Int.{ℤ, pos, negsuc}
use fizzled_go.Errors.{GoError}
use Prim.Native.Nat.{zero, suc}

pub data Status : Type 0 where
  running completed stopped failed : Status

-- The string that each constant is.
abbrev pub status_text : Status → Bytes
status_text running = codes "RUNNING"
status_text completed = codes "COMPLETED"
status_text stopped = codes "STOPPED"
status_text failed = codes "FAILED"

-- `status == StatusRunning`
abbrev pub is_running : Status → Bool
is_running running = true
is_running completed = false
is_running stopped = false
is_running failed = false

-- The three types behind the interface `Tick`. Elapsed is in nanoseconds.
pub data Tick : Type 0 where
  progress : ℤ → ℤ → Tick
  stopped : GoError → Tick
  panic_error : Option GoError → Tick

abbrev is_zero : ℤ → Bool
is_zero (pos zero) = true
is_zero (pos (suc n)) = false
is_zero (negsuc n) = false

-- The methods `IsTerminal`.
abbrev pub is_terminal : Tick → Bool
is_terminal (progress elapsed remaining) = is_zero remaining
is_terminal (Tick.stopped cause) = true
is_terminal (panic_error e) = true
