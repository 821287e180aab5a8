-- ===== src/Worker/Stream/Reading.antt =====
-- Every act of a subscriber keeps what AtPhase says of it.
use fizzled_go.Prelude.{
  ℕ, ◌≡◌, refl, sym, ap, subst, ◌∙◌, inl, inr, Bool, true, false, some, List, [], ◌∷◌, ◌++◌, arith,
  All-append, length, take, drop, eq_of_some_eq, take-append-drop, take-length, append_assoc,
  append-nil, eq_of_if_some, Bool-cases,
}
use native.Mathlib.Nat.{le_refl}
use fizzled_go.Worker.Tick.{Tick, is_terminal}
use fizzled_go.Worker.Job.{Job}
use fizzled_go.Worker.Subscriber.{
  Subscriber, Phase, locking, yielding, blocked, Act, go, yields, ctx_ends, act, act_at, read_batch,
  yield_one,
}
use fizzled_go.Worker.Stream.{HasRead, AtPhase, Signals}

abbrev Reads : Job → Subscriber → Type 0
Reads j s = AtPhase j s s.phase

-- What has been read and captured is the whole buffer.
read_rest :
    (j : Job) (s : Subscriber)
    → HasRead j s []
    → s.delivered ++ drop s.cursor j.ticks ≡ take (length j.ticks) j.ticks
read_rest j s (e, _, _) =
    ap (λ ts. ts ++ drop s.cursor j.ticks) (sym (append-nil s.delivered) ∙ e)
    ∙ take-append-drop s.cursor j.ticks
    ∙ sym (take-length j.ticks)

read_batch-Reads : (j : Job) (s : Subscriber) → HasRead j s [] → Reads j (read_batch j s)
unfolding read_batch
read_batch-Reads j s h = ((read_rest j s h, le_refl (length j.ticks), h.2), inr (refl, refl))

pub captured :
    (j : Job) (s : Subscriber) (pending : List Tick)
    → HasRead j s pending
    → j.ticks ≡ s.delivered ++ (pending ++ drop s.cursor j.ticks)
captured j s pending (e, _, _) =
    sym (take-append-drop s.cursor j.ticks)
    ∙ ap (λ us. us ++ drop s.cursor j.ticks) (sym e)
    ∙ append_assoc s.delivered pending _

-- The buffer behind a tick that is delivered from a captured batch.
behind :
    (j : Job) (s : Subscriber) (t : Tick) (ts : List Tick)
    → HasRead j s (t ∷ ts)
    → j.ticks ≡ (s.delivered ++ t ∷ []) ++ (ts ++ drop s.cursor j.ticks)
behind j s t ts h = captured j s (t ∷ ts) h ∙ simp append_assoc

yield_one-Reads :
    (more : Bool) (t : Tick) (ts : List Tick) (b : Bool) (wait : ℕ) (j : Job) (s : Subscriber)
    → HasRead j s (t ∷ ts)
    → Signals j s.cursor wait
    → Reads j (yield_one more t ts b wait s)
unfolding yield_one
yield_one-Reads false t ts b wait j s h w = (ts ++ drop s.cursor j.ticks, behind j s t ts h)
yield_one-Reads true t ts b wait j s h w = elim (Bool-cases (is_terminal t)) [
  | inl terminal ↦
      rw terminal (s.delivered, t, ts ++ drop s.cursor j.ticks, refl, terminal, behind j s t ts h)
  | inr open_tick ↦ rw open_tick (
    (
      append_assoc s.delivered (t ∷ []) ts ∙ h.0,
      h.1,
      All-append (λ u. is_terminal u ≡ false) s.delivered (t ∷ []) h.2 (open_tick, tt),
    ),
    w,
  )
]

pub read_so_far :
    (j : Job) (s : Subscriber) → HasRead j s [] → j.ticks ≡ s.delivered ++ drop s.cursor j.ticks
read_so_far j s h = sym (take-length j.ticks) ∙ sym (read_rest j s h)

act_at-Reads :
    (p : Phase) (a : Act) (j : Job) (s s' : Subscriber)
    → act_at p a j s ≡ some s'
    → AtPhase j s p
    → Reads j s'
unfolding act_at
act_at-Reads locking go j s s' e h = subst (Reads j) (eq_of_some_eq e) (read_batch-Reads j s h)
act_at-Reads (yielding (t ∷ ts) b wait) (yields more) j s s' e (h, w) =
    subst (Reads j) (eq_of_some_eq e) (yield_one-Reads more t ts b wait j s h w)
act_at-Reads (yielding [] true wait) go j s s' e (h, w) = subst (Reads j) (eq_of_some_eq e) h
act_at-Reads (yielding [] false wait) go j s s' e (h, w) = subst (Reads j) (eq_of_some_eq e) (h, w)
act_at-Reads (blocked wait) go j s s' e (h, w) =
    subst (Reads j) (eq_of_if_some (j.is_closed wait) e) h
act_at-Reads (blocked wait) ctx_ends j s s' e (h, w) =
    subst (Reads j) (eq_of_some_eq e) (drop s.cursor j.ticks, read_so_far j s h)
act_at-Reads _ _ j s s' e h = absurd (ground arith)

pub act-Reads :
    (a : Act) (j : Job) (s s' : Subscriber)
    → act a j s ≡ some s'
    → AtPhase j s s.phase
    → AtPhase j s' s'.phase
unfolding act
act-Reads a j s s' e h = act_at-Reads s.phase a j s s' e h
