-- ===== src/Worker/Stream.antt =====
-- A job's goroutine and one subscriber side by side: what the subscriber has seen at each point.
-- Other subscribers write nothing that the two read, and other calls on the job are the events
-- `cancel`, so the interleavings of the two are all that one subscriber can meet.
pub mod Reading
pub mod Safety
pub mod Progress
pub mod Runs
use fizzled_go.Prelude.{
  ℕ, zero, suc, ◌+◌, ◌-◌, ◌≡◌, ◌<◌, ◌≤◌, refl, sym, ap, subst, ◌∙◌, ◌⊎◌, inl, inr, Bool, true,
  false, Option, none, some, List, [], ◌∷◌, ◌++◌, arith, All, All-append, All-of_append, length,
  take, drop, eq_of_some_eq, take-append_le, take-append-drop, take-length, length-append,
  append_assoc, append-nil, eq_of_if_some, if◌then◌else◌, ◌==◌, Bool-cases, ltb,
}
use fizzled_go.Worker.Tick.{Tick, is_terminal}
use fizzled_go.Worker.Job.{Job}
use fizzled_go.Worker.Countdown.{Task, Event, step}
use fizzled_go.Worker.Countdown.Invariant.{IsConsistent}
use fizzled_go.Worker.Countdown.Preserved.{step-IsConsistent}
use fizzled_go.Worker.Countdown.Effect.{Effect, keeps, appends, step-Effect}
use fizzled_go.Worker.Subscriber.{
  Subscriber, Phase, locking, yielding, blocked, ended, End, refused, saw_terminal, ctx_done, Act,
  go, yields, ctx_ends, new_subscriber, act,
}

pub record System : Type 0 where
  pub task : Task
  pub subscriber : Subscriber

pub data Reach (s : System) : System → Type 0 where
  here : Reach s s
  job_step :
      {t : System} {u : Task} (e : Event)
      → Reach s t
      → step e t.task ≡ some u
      → Reach s (record t { task = u })
  subscriber_step :
      {t : System} {u : Subscriber} (a : Act)
      → Reach s t
      → act a t.task.job t.subscriber ≡ some u
      → Reach s (record t { subscriber = u })

abbrev pub IsOpen : List Tick → Type 0
IsOpen = All (λ t. is_terminal t ≡ false)

-- A captured channel: it is closed, or it is the current one and the whole buffer has been read.
abbrev pub Signals : Job → ℕ → ℕ → Type 0
Signals j cursor wait = (j.is_closed wait ≡ true) ⊎ ((wait ≡ j.changed) × (cursor ≡ length j.ticks))

-- The ticks up to the cursor are those delivered and those captured.
abbrev pub HasRead : Job → Subscriber → List Tick → Type 0
HasRead j s pending =
    (s.delivered ++ pending ≡ take s.cursor j.ticks)
    × (s.cursor ≤ length j.ticks)
    × IsOpen s.delivered

abbrev pub AtEnd : Job → Subscriber → End → Type 0
AtEnd j s saw_terminal =
    (before : List Tick) × (last : Tick) × (after : List Tick) × (s.delivered ≡ before ++ last ∷ [])
    × (is_terminal last ≡ true)
    × (j.ticks ≡ s.delivered ++ after)
AtEnd j s _ = (after : List Tick) × (j.ticks ≡ s.delivered ++ after)

abbrev pub AtPhase : Job → Subscriber → Phase → Type 0
AtPhase j s locking = HasRead j s []
AtPhase j s (yielding pending nonempty wait) = HasRead j s pending × Signals j s.cursor wait
AtPhase j s (blocked wait) = HasRead j s [] × Signals j s.cursor wait
AtPhase j s (ended e) = AtEnd j s e

Signals-Effect :
    (j k : Job) (cursor wait : ℕ) → Effect j k → Signals j cursor wait → Signals k cursor wait
Signals-Effect j k cursor wait (keeps a b c) h =
    ground (arith, ap (λ (f : ℕ → Bool). f wait) c, ap length a)
Signals-Effect j k cursor wait (appends t a c) h = ground (arith, c wait)

HasRead-Effect :
    (j k : Job) (s : Subscriber) (pending : List Tick)
    → Effect j k
    → HasRead j s pending
    → HasRead k s pending
HasRead-Effect j k s pending (keeps a b c) h = rw a h
HasRead-Effect j k s pending (appends t a c) (e, le, o) = rw a (
  e ∙ sym (take-append_le s.cursor j.ticks (t ∷ []) le),
  omega (arith, length-append j.ticks (t ∷ [])),
  o,
)

grows :
    (j k : Job) (d after : List Tick)
    → Effect j k
    → j.ticks ≡ d ++ after
    → (more : List Tick) × (k.ticks ≡ d ++ more)
grows j k d after (keeps a b c) e = (after, a ∙ e)
grows j k d after (appends t a c) e =
    (after ++ t ∷ [], a ∙ ap (λ ts. ts ++ t ∷ []) e ∙ append_assoc d after (t ∷ []))

pub AtPhase-Effect :
    (j k : Job) (s : Subscriber) (p : Phase) → Effect j k → AtPhase j s p → AtPhase k s p
AtPhase-Effect j k s locking f h = HasRead-Effect j k s [] f h
AtPhase-Effect j k s (yielding pending b wait) f (h, w) =
    (HasRead-Effect j k s pending f h, Signals-Effect j k s.cursor wait f w)
AtPhase-Effect j k s (blocked wait) f (h, w) =
    (HasRead-Effect j k s [] f h, Signals-Effect j k s.cursor wait f w)
AtPhase-Effect j k s (ended saw_terminal) f (b, l, a, e, t, h) =
    let (more, e') = grows j k s.delivered a f h in (b, l, more, e, t, e')
AtPhase-Effect j k s (ended refused) f (a, h) = grows j k s.delivered a f h
AtPhase-Effect j k s (ended ctx_done) f (a, h) = grows j k s.delivered a f h
