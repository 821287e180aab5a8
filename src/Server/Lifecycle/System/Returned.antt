-- ===== src/Server/Lifecycle/System/Returned.antt =====
-- What the return of `Serve` means for the jobs.
use fizzled_go.Prelude.{
  ℕ, ◌≡◌, sym, ap, subst, ◌∙◌, ◌⊎◌, inl, inr, Bytes, Bool, true, false, Option, none, some, List,
  [], ◌∷◌, get_elem?, arith,
}
use fizzled_go.Prelude.Int.{ℤ}
use fizzled_go.Errors.{GoError, err, not_accepting_jobs}
use fizzled_go.Worker.Tick.{is_running}
use fizzled_go.Worker.Countdown.{Task}
use fizzled_go.Registry.{World, create, find}
use fizzled_go.Registry.Shutdown.{HasStopped, shutdown_refuses, shutdown_stops_all}
use fizzled_go.Server.Lifecycle.Serving.{returned}
use fizzled_go.Server.Lifecycle.Serving.Answers.{Drained, CutOff, Failed, serve_answers}
use fizzled_go.Server.Lifecycle.System.{System, Reach, all_finished, is_finished, is_over}
use fizzled_go.Server.Lifecycle.System.Kept.{Shutting, Reach-IsJoined, Reach-serving, is_past}

pub all_finished-HasStopped :
    (ps : List ℕ) (w : World) → all_finished ps w.tasks ≡ true → HasStopped w ps
unfolding all_finished
all_finished-HasStopped [] w h p held t at = absurd held
all_finished-HasStopped (q ∷ ps) w h p (inl e) t at =
    let head : is_finished (get_elem? w.tasks q) ≡ true = ground arith in
    ap is_finished (sym at) ∙ ap (λ p. is_finished (get_elem? w.tasks p)) e ∙ head
all_finished-HasStopped (q ∷ ps) w h p (inr held) t at =
    all_finished-HasStopped ps w (ground arith) p held t at

-- Nothing runs: each job that can be found has ended, and `Create` makes no more of them.
abbrev pub IsAtRest : World → Type 0
IsAtRest w =
    ((a id : Bytes) (p : ℕ)
      → find a id w ≡ some p
      → (t : Task) × (get_elem? w.tasks p ≡ some t) × (is_running t.job.status ≡ false))
    × ((q : Bool) (a : Bytes) (count : ℤ) → create q a count w ≡ err (not_accepting_jobs ∷ []))

over-IsAtRest :
    (c : Option (List ℕ)) (w : World) → Shutting c w → is_over c w.tasks ≡ true → IsAtRest w
over-IsAtRest none w k h = absurd (cc)
over-IsAtRest (some ps) w k h = (
  λ a id p found.
      shutdown_stops_all k.from w a id p k.well_formed k.since
        (subst (HasStopped w) (sym k.jobs) (all_finished-HasStopped ps w h)) found,
  λ q a count. shutdown_refuses k.from w q a count k.since,
)

-- Where `Serve` has returned beside the registry, nothing runs: every job that an agent finds has
-- ended, and a call of `Create` reports ErrNotAcceptingJobs. This holds whether the shutdown drained
-- the streams, ran out of grace or followed the transport's own error, which are the three answers.
pub returned-IsAtRest :
    (y : System) (r : Option GoError)
    → Reach y
    → y.serving.main ≡ returned r
    → IsAtRest y.world × (Drained y.serving r ⊎ (CutOff y.serving r ⊎ Failed y.serving r))
returned-IsAtRest y r reached at =
    let (over, answers) = serve_answers y.serving r (Reach-serving reached) at in
    let j = Reach-IsJoined reached in
    (over-IsAtRest y.collected y.world j.shutting (j.over (ap is_past over)), answers)
