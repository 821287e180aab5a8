-- ===== src/Worker/Buffer.antt =====
-- The shape of a job's output buffer: progress ticks that count down one by one, and behind them,
-- once the job has ended, one terminal tick.
use fizzled_go.Prelude.{
  ℕ, zero, suc, ◌+◌, ◌-◌, ◌<◌, ◌≡◌, refl, true, false, List, [], ◌∷◌, ◌++◌, arith, All, length,
}
use fizzled_go.Prelude.Int.{ℤ, pos}
use fizzled_go.Worker.Tick.{
  Status, running, completed, stopped, failed, Tick, progress, panic_error, is_terminal,
}

-- The ticks carry the counts `from`, `from - 1`, …, and the next one to carry is `to`.
abbrev pub CountsDown : ℕ → List Tick → ℕ → Type 0
CountsDown from [] to = from ≡ to
CountsDown from (progress elapsed count ∷ ts) to =
    (count ≡ pos from) × (0 < from) × CountsDown (from - 1) ts to
CountsDown from (Tick.stopped cause ∷ ts) to = ⊥
CountsDown from (panic_error e ∷ ts) to = ⊥

pub CountsDown-append :
    (from : ℕ) (ts : List Tick) (elapsed : ℤ) (to : ℕ)
    → CountsDown from ts (suc to)
    → CountsDown from (ts ++ progress elapsed (pos (suc to)) ∷ []) to
CountsDown-append from [] elapsed to h = ground arith
CountsDown-append from (progress e c ∷ ts) elapsed to (h, p, k) =
    (h, p, CountsDown-append (from - 1) ts elapsed to k)
CountsDown-append from (Tick.stopped cause ∷ ts) elapsed to h = h
CountsDown-append from (panic_error e ∷ ts) elapsed to h = h

-- No tick of a countdown is terminal.
pub CountsDown-IsOpen :
    (from : ℕ) (ts : List Tick) (to : ℕ)
    → CountsDown from ts to
    → All (λ t. is_terminal t ≡ false) ts
CountsDown-IsOpen from [] to h = tt
CountsDown-IsOpen zero (progress e c ∷ ts) to (h, p, k) = absurd (omega arith)
CountsDown-IsOpen (suc from) (progress e c ∷ ts) to (h, p, k) =
    (ground arith, CountsDown-IsOpen (suc from - 1) ts to k)
CountsDown-IsOpen from (Tick.stopped cause ∷ ts) to h = absurd h
CountsDown-IsOpen from (panic_error e ∷ ts) to h = absurd h

pub CountsDown-length :
    (from : ℕ) (ts : List Tick) (to : ℕ) → CountsDown from ts to → length ts + to ≡ from
CountsDown-length from [] to h = omega arith
CountsDown-length from (progress e c ∷ ts) to (h, p, k) =
    omega (arith, CountsDown-length (from - 1) ts to k)
CountsDown-length from (Tick.stopped cause ∷ ts) to h = absurd h
CountsDown-length from (panic_error e ∷ ts) to h = absurd h

-- The terminal tick fits the terminal status; `next` is the count that was due.
abbrev pub Matches : Status → Tick → ℕ → Type 0
Matches completed (progress elapsed count) next = (count ≡ pos 0) × (next ≡ 0)
Matches stopped (Tick.stopped cause) next = Unit
Matches failed (panic_error e) next = Unit
Matches _ _ next = ⊥

-- The buffer of a job that has ended: a countdown, and one tick that matches the status.
pub record IsEnded (count : ℕ) (status : Status) (ticks : List Tick) : Type 0 where
  pub reported : List Tick
  pub last : Tick
  pub next : ℕ
  pub buffer : ticks ≡ reported ++ last ∷ []
  pub counts : CountsDown count reported next
  pub matches : Matches status last next

pub Matches-IsTerminal :
    (s : Status) (t : Tick) (next : ℕ) → Matches s t next → is_terminal t ≡ true
Matches-IsTerminal completed (progress e c) next h = ground arith
Matches-IsTerminal completed (Tick.stopped c) next h = absurd h
Matches-IsTerminal completed (panic_error c) next h = absurd h
Matches-IsTerminal running t next h = absurd h
Matches-IsTerminal stopped (progress e c) next h = absurd h
Matches-IsTerminal stopped (Tick.stopped c) next h = refl
Matches-IsTerminal stopped (panic_error c) next h = absurd h
Matches-IsTerminal failed (progress e c) next h = absurd h
Matches-IsTerminal failed (Tick.stopped c) next h = absurd h
Matches-IsTerminal failed (panic_error c) next h = refl
