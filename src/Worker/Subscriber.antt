-- ===== src/Worker/Subscriber.antt =====
-- internal/worker/job.go: `Ticks`, one subscriber's loop. It shares only the job with the other
-- goroutines, and reads it under the mutex at one point and through the channel at another.
use fizzled_go.Prelude.{
  ℕ, Bool, true, false, Option, none, some, List, [], ◌∷◌, ◌++◌, length, drop, if◌then◌else◌,
}
use fizzled_go.Worker.Tick.{Tick, is_terminal}
use fizzled_go.Worker.Job.{Job}

-- Why the iteration ended: the caller left the range, a terminal tick, or the caller's context.
pub data End : Type 0 where
  refused saw_terminal ctx_done : End

-- Where the loop stands: before it takes the mutex; in the range over `newTicks`, with what is left
-- of it, whether it held anything, and the captured channel; in the `select` on that channel; or
-- behind the loop.
pub data Phase : Type 0 where
  locking : Phase
  yielding : List Tick → Bool → ℕ → Phase
  blocked : ℕ → Phase
  ended : End → Phase

-- `delivered` are the ticks that `yield` was called with.
pub record Subscriber : Type 0 where
  pub cursor : ℕ
  pub delivered : List Tick
  pub phase : Phase

abbrev pub new_subscriber : Subscriber
new_subscriber = record { cursor = 0; delivered = []; phase = locking }

-- What the scheduler and the caller choose. `yields more` is a call of `yield` that returns `more`.
pub data Act : Type 0 where
  go : Act
  yields : Bool → Act
  ctx_ends : Act

abbrev is_empty : List Tick → Bool
is_empty [] = true
is_empty (t ∷ ts) = false

-- The critical section.
unfoldable pub read_batch : Job → Subscriber → Subscriber
read_batch j s = record s {
  cursor = length j.ticks;
  phase =
      let new_ticks = drop s.cursor j.ticks in
      yielding new_ticks (if is_empty new_ticks then false else true) j.changed;
}

-- One round of the range over `newTicks`.
unfoldable pub yield_one : Bool → Tick → List Tick → Bool → ℕ → Subscriber → Subscriber
yield_one more t ts some_ticks wait s = record s {
  delivered = s.delivered ++ t ∷ [];
  phase =
      if more
      then (if is_terminal t then ended saw_terminal else yielding ts some_ticks wait)
      else ended refused;
}

-- One step of the subscriber beside the job; `none` when the act cannot happen here.
unfoldable pub act_at : Phase → Act → Job → Subscriber → Option Subscriber
act_at locking go j s = some (read_batch j s)
act_at (yielding (t ∷ ts) b wait) (yields more) j s = some (yield_one more t ts b wait s)
act_at (yielding [] true wait) go j s = some (record s { phase = locking })
act_at (yielding [] false wait) go j s = some (record s { phase = blocked wait })
act_at (blocked wait) go j s =
    if j.is_closed wait then some (record s { phase = locking }) else none
act_at (blocked wait) ctx_ends j s = some (record s { phase = ended ctx_done })
act_at _ _ j s = none

unfoldable pub act : Act → Job → Subscriber → Option Subscriber
unfolding act_at read_batch yield_one
act a j s = act_at s.phase a j s
