-- ===== src/Worker/Stream/Safety.antt =====
-- What a subscriber has at every point of every interleaving with the job.
use fizzled_go.Prelude.{
  ℕ, ◌≡◌, refl, sym, ap, subst, ◌∙◌, inl, inr, Bool, true, false, List, [], ◌∷◌, ◌++◌, arith,
  All-of_append, length, take, drop, append-nil, take-length, length-append,
}
use fizzled_go.Worker.Tick.{
  Status, running, completed, stopped, failed, Tick, is_terminal, is_running,
}
use fizzled_go.Worker.Job.{Job}
use fizzled_go.Worker.Channels.{HasChannels}
use fizzled_go.Worker.Buffer.{CountsDown-IsOpen}
use fizzled_go.Worker.Countdown.{Task}
use fizzled_go.Worker.Countdown.Invariant.{IsConsistent, Matches-not-running}
use fizzled_go.Worker.Countdown.Preserved.{step-IsConsistent}
use fizzled_go.Worker.Countdown.Effect.{step-Effect}
use fizzled_go.Worker.Countdown.Reach.{IsSound, IsConsistent-IsSound}
use fizzled_go.Worker.Subscriber.{
  Subscriber, Phase, locking, yielding, blocked, ended, saw_terminal, refused, ctx_done,
  new_subscriber,
}
use fizzled_go.Worker.Stream.{
  System, Reach, here, job_step, subscriber_step, IsOpen, AtPhase, AtPhase-Effect,
}
use fizzled_go.Worker.Stream.Reading.{act-Reads, read_so_far, captured}

pub record IsFaithful (count : ℕ) (s : System) : Type 0 where
  pub job : IsConsistent count s.task
  pub reads : AtPhase s.task.job s.subscriber s.subscriber.phase

-- A subscriber that comes at any time meets a consistent job.
pub fresh-IsFaithful :
    (count : ℕ) (t : Task)
    → IsConsistent count t
    → IsFaithful count (record { task = t; subscriber = new_subscriber })
fresh-IsFaithful count t h = record { job = h; reads = (refl, omega arith, tt) }

-- No step of the job's goroutine or of the subscriber, in any order, breaks the invariant that the
-- job is consistent and that the subscriber has read, of its buffer, what its phase says.
pub Reach-IsFaithful :
    {count : ℕ} {s t : System} → IsFaithful count s → Reach s t → IsFaithful count t
Reach-IsFaithful h here = h
Reach-IsFaithful {count} h (job_step {t} {u} e r s) =
    let f = Reach-IsFaithful {count = count} h r in
    record {
      job = step-IsConsistent count e t.task u s f.job;
      reads =
          AtPhase-Effect t.task.job u.job t.subscriber t.subscriber.phase
            (step-Effect count e t.task u s f.job) f.reads;
    }
Reach-IsFaithful {count} h (subscriber_step {t} {u} a r s) =
    let f = Reach-IsFaithful {count = count} h r in
    record { job = f.job; reads = act-Reads a t.task.job t.subscriber u s f.reads }

delivered_prefix_at :
    (j : Job) (s : Subscriber) (p : Phase)
    → AtPhase j s p
    → (after : List Tick) × (j.ticks ≡ s.delivered ++ after)
delivered_prefix_at j s locking h = (drop s.cursor j.ticks, read_so_far j s h)
delivered_prefix_at j s (yielding pending b w) (h, _) =
    (pending ++ drop s.cursor j.ticks, captured j s pending h)
delivered_prefix_at j s (blocked w) (h, _) = (drop s.cursor j.ticks, read_so_far j s h)
delivered_prefix_at j s (ended saw_terminal) (_, _, a, _, _, e) = (a, e)
delivered_prefix_at j s (ended refused) h = h
delivered_prefix_at j s (ended ctx_done) h = h

-- Of a buffer with one terminal tick, at its end, what reaches a terminal tick is the whole.
whole :
    (xs before after : List Tick) (last t : Tick)
    → IsOpen xs
    → is_terminal t ≡ true
    → xs ++ last ∷ [] ≡ (before ++ t ∷ []) ++ after
    → after ≡ []
whole [] [] after last t o h e = cc
whole [] (b ∷ bs) after last t o h e =
    absurd
      (omega (arith, ap length e, length-append (bs ++ t ∷ []) after, length-append bs (t ∷ [])))
whole (x ∷ xs) [] after last t (o, _) h e = cc
whole (x ∷ xs) (b ∷ bs) after last t (_, o) h e = whole xs bs after last t o h (cc)

-- In a consistent job a delivered terminal tick is the last of the buffer.
terminal_is_last :
    (count : ℕ) (j : Job) (before after : List Tick) (t : Tick)
    → IsSound count j
    → is_terminal t ≡ true
    → j.ticks ≡ (before ++ t ∷ []) ++ after
    → (after ≡ []) × (is_running j.status ≡ false)
terminal_is_last count j before after t (inl (r, o, _)) h e =
    let (shown, _) = All-of_append _ (before ++ t ∷ []) after (subst IsOpen e o) in
    absurd (cc ((All-of_append _ before (t ∷ []) shown).1.0))
terminal_is_last count j before after t (inr b) h e = (
  whole b.reported before after b.last t (CountsDown-IsOpen count b.reported b.next b.counts) h
      (sym b.buffer ∙ e),
  Matches-not-running j.status b.last b.next b.matches,
)

-- Under the invariant, a subscriber whose iteration ended by a terminal tick was handed every tick of
-- the job, which has ended.
pub IsFaithful-complete :
    {count : ℕ} (s : System)
    → IsFaithful count s
    → s.subscriber.phase ≡ ended saw_terminal
    → (s.subscriber.delivered ≡ s.task.job.ticks) × (is_running s.task.job.status ≡ false)
IsFaithful-complete {count} s f h =
    let (before, last, after, e, t, ticks) = subst (AtPhase s.task.job s.subscriber) h f.reads in
    let (no_more, over) =
      terminal_is_last count s.task.job before after last
        (IsConsistent-IsSound count s.task.pc s.task.job f.job.state) t
        (ticks ∙ ap (λ ts. ts ++ after) e) in
    (sym (ticks ∙ ap (λ ts. s.subscriber.delivered ++ ts) no_more ∙ append-nil _), over)

open_means_running :
    (s : Status) (changed : ℕ) (is_closed : ℕ → Bool)
    → HasChannels s changed is_closed
    → is_closed changed ≡ false
    → s ≡ running
open_means_running running changed f h e = refl
open_means_running completed changed f h e = absurd (ground (arith, h changed))
open_means_running stopped changed f h e = absurd (ground (arith, h changed))
open_means_running failed changed f h e = absurd (ground (arith, h changed))

-- Under the invariant, a subscriber that waits on a channel that is open has been handed every tick,
-- and the job is RUNNING: no append and no transition goes by without waking it.
pub IsFaithful-wakeup :
    {count : ℕ} (s : System) (wait : ℕ)
    → IsFaithful count s
    → s.subscriber.phase ≡ blocked wait
    → s.task.job.is_closed wait ≡ false
    → (s.subscriber.delivered ≡ s.task.job.ticks) × (s.task.job.status ≡ running)
IsFaithful-wakeup s wait f p w =
    let (h, signal) = subst (AtPhase s.task.job s.subscriber) p f.reads in
    elim signal [
      | inl closed ↦ absurd (cc)
      | inr (same, all_read) ↦ (
        sym (append-nil _)
            ∙ h.0
            ∙ ap (λ n. take n s.task.job.ticks) all_read
            ∙ take-length s.task.job.ticks,
        open_means_running s.task.job.status s.task.job.changed s.task.job.is_closed f.job.channels
            (ap s.task.job.is_closed (sym same) ∙ w),
      )
    ]

-- Under the invariant, the ticks handed to a subscriber are the first ones of the buffer, in order.
pub IsFaithful-prefix :
    {count : ℕ} (s : System)
    → IsFaithful count s
    → (after : List Tick) × (s.task.job.ticks ≡ s.subscriber.delivered ++ after)
IsFaithful-prefix s f = delivered_prefix_at s.task.job s.subscriber s.subscriber.phase f.reads
