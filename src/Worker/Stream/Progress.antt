-- ===== src/Worker/Stream/Progress.antt =====
-- A subscriber whose caller goes on receiving gets to the terminal tick of a job that has ended.
use fizzled_go.Prelude.{
  ℕ, zero, suc, ◌+◌, ◌-◌, ◌*◌, ◌≡◌, ◌<◌, ◌≤◌, ◌≢◌, refl, sym, ap, subst, ◌∙◌, ◌⊎◌, inl, inr, Bool,
  true, false, none, some, List, [], ◌∷◌, ◌++◌, arith, All-of_append, length, length-append, drop,
  Bool-cases, append-nil, leb,
}
use fizzled_go.Worker.Tick.{
  Status, running, completed, stopped, failed, Tick, is_terminal, is_running,
}
use fizzled_go.Worker.Job.{Job}
use fizzled_go.Worker.Buffer.{IsEnded, Matches-IsTerminal}
use fizzled_go.Worker.Channels.{HasChannels}
use fizzled_go.Worker.Countdown.{Task}
use fizzled_go.Worker.Countdown.Invariant.{IsConsistent}
use fizzled_go.Worker.Subscriber.{
  Subscriber, Phase, locking, yielding, blocked, ended, End, saw_terminal, Act, go, yields, act,
  act_at, read_batch, yield_one,
}
use fizzled_go.Worker.Stream.{System, AtPhase, IsOpen, HasRead, Signals}
use fizzled_go.Worker.Countdown.Reach.{IsConsistent-IsSound}
use fizzled_go.Worker.Stream.Safety.{IsFaithful, IsFaithful-complete}
use fizzled_go.Worker.Stream.Reading.{act-Reads, captured, read_so_far}

-- The act of a subscriber that is scheduled, whose caller receives what it is handed.
abbrev pub next_act : Phase → Act
next_act (yielding (t ∷ ts) b wait) = yields true
next_act _ = go

-- Up to that many such acts beside a job that stands still.
unfoldable pub receive : ℕ → Job → Subscriber → Subscriber
receive zero j s = s
receive (suc fuel) j s = elim (act (next_act s.phase) j s) [
  | none ↦ s
  | some s' ↦ receive fuel j s'
]

abbrev weight : Phase → ℕ
weight locking = 2
weight (yielding (t ∷ ts) b w) = 1
weight (yielding [] true w) = 3
weight (yielding [] false w) = 4
weight (blocked w) = 3
weight (ended e) = 0

-- The ticks that have not been handed over yet count for four acts each.
abbrev pub acts_left : Job → Subscriber → ℕ
acts_left j s = 4 * (length j.ticks - length s.delivered) + weight s.phase

-- What a job that has ended gives its subscribers: a terminal tick, and closed channels.
pub record IsOver (j : Job) : Type 0 where
  pub before : List Tick
  pub last : Tick
  pub buffer : j.ticks ≡ before ++ last ∷ []
  pub terminal : is_terminal last ≡ true
  pub wakes : (c : ℕ) → j.is_closed c ≡ leb c j.changed

-- A subscriber that has been handed no terminal tick lacks a tick.
lacks : (j : Job) (d after : List Tick) → IsOver j → IsOpen d → j.ticks ≡ d ++ after → after ≢ []
lacks j d after o h e n =
    let shown =
      subst IsOpen (sym (append-nil d) ∙ sym (ap (λ ts. d ++ ts) n) ∙ sym e ∙ o.buffer) h in
    cc ((All-of_append _ o.before (o.last ∷ []) shown).1.0, o.terminal)

length_le :
    (j : Job) (d after : List Tick) → j.ticks ≡ d ++ after → after ≢ [] → length d < length j.ticks
length_le j d [] e n = absurd (n refl)
length_le j d (t ∷ ts) e n = omega (arith, ap length e, length-append d (t ∷ ts))

weight_nonempty : (ts : List Tick) (b : Bool) (w : ℕ) → ts ≢ [] → weight (yielding ts b w) ≡ 1
weight_nonempty [] b w n = absurd (n refl)
weight_nonempty (t ∷ ts) b w n = refl

weight_le : (ts : List Tick) (b : Bool) (w : ℕ) → weight (yielding ts b w) ≤ 4
weight_le [] true w = omega arith
weight_le [] false w = omega arith
weight_le (t ∷ ts) b w = omega arith

-- One act: the iteration ends by a terminal tick, or fewer acts are left.
abbrev Advances : Job → Subscriber → Subscriber → Type 0
Advances j s s' =
    (s'.phase ≡ ended saw_terminal)
    ⊎ ((acts_left j s' < acts_left j s) × ((e : End) → s'.phase ≢ ended e))

module _ (j : Job) (s : Subscriber) (o : IsOver j) where
  read_advances : s.phase ≡ locking → HasRead j s [] → acts_left j (read_batch j s) < acts_left j s
  unfolding read_batch
  read_advances q h = omega (
    arith,
    ap weight q,
    weight_nonempty (drop s.cursor j.ticks) _ j.changed
        (lacks j s.delivered _ o h.2 (read_so_far j s h)),
  )

  yield-Advances :
      (t : Tick) (ts : List Tick) (b : Bool) (w : ℕ)
      → s.phase ≡ yielding (t ∷ ts) b w
      → HasRead j s (t ∷ ts)
      → Advances j s (yield_one true t ts b w s)
  unfolding yield_one
  yield-Advances t ts b w q h = elim (Bool-cases (is_terminal t)) [
    | inl terminal ↦ inl (rw terminal)
    | inr open_tick ↦ inr (
        rw open_tick (
          omega (
            arith,
            ap weight q,
            weight_le ts b w,
            length-append s.delivered (t ∷ []),
            length_le j s.delivered _ (captured j s (t ∷ ts) h) (λ e. cc),
          ),
          λ e. cc,
        ))
  ]

  is_woken : (w : ℕ) → Signals j s.cursor w → j.is_closed w ≡ true
  is_woken w (inl closed) = closed
  is_woken w (inr (same, _)) = ground (arith, o.wakes w)

advance_at :
    (p : Phase) (j : Job) (s : Subscriber)
    → s.phase ≡ p
    → IsOver j
    → AtPhase j s p
    → ((e : End) → p ≢ ended e)
    → (s' : Subscriber) × (act_at p (next_act p) j s ≡ some s') × Advances j s s'
unfolding act_at
advance_at locking j s q o h n =
    (read_batch j s, refl, inr (read_advances j s o q h, λ e. unfold read_batch in cc))
advance_at (yielding (t ∷ ts) b w) j s q o (h, g) n =
    (yield_one true t ts b w s, refl, yield-Advances j s o t ts b w q h)
advance_at (yielding [] true w) j s q o (h, g) n =
    (record s { phase = locking }, refl, inr (omega (arith, ap weight q), λ e. cc))
advance_at (yielding [] false w) j s q o (h, g) n =
    (record s { phase = blocked w }, refl, inr (omega (arith, ap weight q), λ e. cc))
advance_at (blocked w) j s q o (h, g) n = (
  record s { phase = locking },
  rw (is_woken j s o w g),
  inr (omega (arith, ap weight q), λ e. cc),
)
advance_at (ended e) j s q o h n = absurd (n e refl)

advance :
    (j : Job) (s : Subscriber)
    → IsOver j
    → AtPhase j s s.phase
    → ((e : End) → s.phase ≢ ended e)
    → (s' : Subscriber) × (act (next_act s.phase) j s ≡ some s') × Advances j s s'
unfolding act
advance j s o h n = advance_at s.phase j s refl o h n

no_act_behind_end :
    (j : Job) (s : Subscriber) (e : End) → s.phase ≡ ended e → act (next_act s.phase) j s ≡ none
unfolding act act_at
no_act_behind_end j s e h = simp h

receive-ended :
    (fuel : ℕ) (j : Job) (s : Subscriber) (e : End) → s.phase ≡ ended e → receive fuel j s ≡ s
unfolding receive
receive-ended zero j s e h = refl
receive-ended (suc fuel) j s e h = rw (no_act_behind_end j s e h, receive)

receive_all_at :
    (fuel : ℕ) (j : Job) (s : Subscriber)
    → acts_left j s < fuel
    → IsOver j
    → AtPhase j s s.phase
    → ((e : End) → s.phase ≢ ended e)
    → ((receive fuel j s).phase ≡ ended saw_terminal)
      × AtPhase j (receive fuel j s) (receive fuel j s).phase
unfolding receive
receive_all_at zero j s m o h n = elim m [ ]
receive_all_at (suc fuel) j s m o h n =
    let (s', e, a) = advance j s o h n in
    let h' : AtPhase j s' s'.phase = act-Reads (next_act s.phase) j s s' e h in
    rw (e, receive)
      (elim a [
        | inl over ↦ rw (receive-ended fuel j s' saw_terminal over) (over, h')
        | inr (fewer, live) ↦ receive_all_at fuel j s' (omega arith) o h' live
      ])

IsConsistent-IsOver :
    (count : ℕ) (t : Task) → IsConsistent count t → is_running t.job.status ≡ false → IsOver t.job
IsConsistent-IsOver count t c h = record {
  before = ended_at.reported;
  last = ended_at.last;
  buffer = ended_at.buffer;
  terminal = Matches-IsTerminal t.job.status ended_at.last ended_at.next ended_at.matches;
  wakes = closed_at t.job.status t.job.changed t.job.is_closed h c.channels;
}
  where
    ended_at : IsEnded count t.job.status t.job.ticks
    ended_at = elim (IsConsistent-IsSound count t.pc t.job c.state) [
      | inl (live, _, _) ↦ absurd (cc (ap is_running live))
      | inr b ↦ b
    ]

    closed_at :
        (s : Status) (changed : ℕ) (f : ℕ → Bool)
        → is_running s ≡ false
        → HasChannels s changed f
        → (c : ℕ) → f c ≡ leb c changed
    closed_at running changed f h k = absurd (cc)
    closed_at completed changed f h k = k
    closed_at stopped changed f h k = k
    closed_at failed changed f h k = k

weight_bound : (p : Phase) → weight p ≤ 4
weight_bound locking = omega arith
weight_bound (yielding ts b w) = weight_le ts b w
weight_bound (blocked w) = omega arith
weight_bound (ended e) = omega arith

-- Under the invariant, and beside a job that has ended, a subscriber whose iteration goes on is handed the whole buffer within
-- four acts for each tick and five more, and its iteration ends by the terminal tick.
pub IsFaithful-receive :
    {count : ℕ} (s : System)
    → IsFaithful count s
    → is_running s.task.job.status ≡ false
    → ((e : End) → s.subscriber.phase ≢ ended e)
    → let final = receive (4 * length s.task.job.ticks + 5) s.task.job s.subscriber in
      (final.phase ≡ ended saw_terminal) × (final.delivered ≡ s.task.job.ticks)
IsFaithful-receive {count} s f h n =
    let j = s.task.job in
    let fuel : ℕ = 4 * length j.ticks + 5 in
    let (over, reads) =
      receive_all_at fuel j s.subscriber (omega (arith, weight_bound s.subscriber.phase))
        (IsConsistent-IsOver count s.task f.job h) f.reads n in
    (
      over,
      (IsFaithful-complete {count = count} (record s { subscriber = receive fuel j s.subscriber })
          (record { job = f.job; reads = reads }) over).0,
    )
