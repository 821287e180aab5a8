-- ===== src/Server/Lifecycle/System/Examples.antt =====
-- A server that runs one job, is stopped, and drains: on it the theorems about `Serve` beside the
-- registry apply.
use fizzled_go.Prelude.{
  ℕ, zero, suc, ◌≡◌, ◌≢◌, refl, sym, ap, inl, ◌⊎◌, codes, true, false, Option, none, some, List, [],
  ◌∷◌, get_elem?, eq_of_some_eq, subst,
}
use fizzled_go.Prelude.Assoc.{lookup, insert}
use fizzled_go.Prelude.Decimal.{format_int}
use fizzled_go.Prelude.Int.{pos}
use fizzled_go.Errors.{canceled}
use fizzled_go.Worker.Job.{new_job}
use fizzled_go.Worker.Countdown.{Task, Pc, starting, crashed, cancel, run, done}
use fizzled_go.Worker.Countdown
use fizzled_go.Registry.{create, create_in, job_id}
use fizzled_go.Registry.Shutdown.{all_jobs, begin_shutdown, collect}
use fizzled_go.Server.Lifecycle.Serving.{
  returned, ctx_ends, sees_done, jobs_stop, transport_drains, transport_returns, sees_stopped,
  takes_late_error, step, serve_result,
}
use fizzled_go.Server.Lifecycle.Serving.Answers.{Drained, CutOff, Failed}
use fizzled_go.Server.Lifecycle.System.{
  System, Act, serves, creates, job_steps, collects, advance, all_finished, new_system, Reach,
  starts, next,
}
use fizzled_go.Server.Lifecycle.System.Returned.{IsAtRest, returned-IsAtRest}
use fizzled_go.Server.Lifecycle.System.CanReturn.{Ends, system_can_return}

abbrev run_act : Act → Option System → Option System
run_act a none = none
run_act a (some y) = advance a y

abbrev run_acts : List Act → Option System → Option System
run_acts [] o = o
run_acts (a ∷ rest) o = run_acts rest (run_act a o)

abbrev taken : Option System → System
taken none = new_system
taken (some y) = y

run_act-Reach :
    (a : Act) (o : Option System)
    → ((y : System) → o ≡ some y → Reach y)
    → (z : System) → run_act a o ≡ some z
    → Reach z
run_act-Reach a none r z h = absurd (cc)
run_act-Reach a (some y) r z h = next a (r y refl) h

run_acts-Reach :
    (acts : List Act) (o : Option System)
    → ((y : System) → o ≡ some y → Reach y)
    → (z : System) → run_acts acts o ≡ some z
    → Reach z
run_acts-Reach [] o r z h = r z h
run_acts-Reach (a ∷ acts) o r z h = run_acts-Reach acts (run_act a o) (run_act-Reach a o r) z h

new-Reach : (y : System) → Option.some new_system ≡ some y → Reach y
new-Reach y h = subst Reach (eq_of_some_eq h) starts

-- alice starts a job, and the context of the server ends.
abbrev begun : List Act
begun = creates false (codes "alice") (pos 3) ∷ serves ctx_ends ∷ []

-- The shutdown collects the job and stops it, and the transport drains.
abbrev stopped : List Act
stopped =
    creates false (codes "alice") (pos 3)
    ∷ serves ctx_ends
    ∷ serves sees_done
    ∷ collects
    ∷ job_steps 0 run
    ∷ job_steps 0 cancel
    ∷ job_steps 0 (done (canceled ∷ []))
    ∷ job_steps 0 run
    ∷ job_steps 0 run
    ∷ serves jobs_stop
    ∷ serves transport_drains
    ∷ serves (transport_returns none)
    ∷ serves sees_stopped
    ∷ serves takes_late_error
    ∷ []

abbrev begun_system : System
begun_system = taken (run_acts begun (some new_system))

abbrev stopped_system : System
stopped_system = taken (run_acts stopped (some new_system))

begun_run : run_acts begun (some new_system) ≡ some begun_system
unfolding advance create create_in new_job job_id lookup insert format_int step
begun_run = refl

stopped_run : run_acts stopped (some new_system) ≡ some stopped_system
unfolding advance create create_in new_job job_id lookup insert format_int step Countdown.step
    begin_shutdown collect all_jobs all_finished serve_result
stopped_run = refl

stopped_main : stopped_system.serving.main ≡ returned none
unfolding advance create create_in new_job job_id lookup insert format_int step Countdown.step
    begin_shutdown collect all_jobs all_finished serve_result
stopped_main = refl

returned-IsAtRest_example :
    IsAtRest stopped_system.world
    × (Drained stopped_system.serving none
        ⊎ (CutOff stopped_system.serving none ⊎ Failed stopped_system.serving none))
returned-IsAtRest_example =
    returned-IsAtRest stopped_system none
      (run_acts-Reach stopped (some new_system) new-Reach stopped_system stopped_run) stopped_main

begun_done : begun_system.serving.ctx_done ≡ true
unfolding advance create create_in new_job job_id lookup insert format_int step
begun_done = refl

begun_pc :
    (p : ℕ) (t : Task) → get_elem? begun_system.world.tasks p ≡ some t → t.pc ≡ starting (pos 3)
unfolding advance create create_in new_job job_id lookup insert format_int step
begun_pc zero t h = ap (λ (u : Task). u.pc) (sym (eq_of_some_eq h))
begun_pc (suc p) t h = absurd (cc)

begun_alive : (p : ℕ) (t : Task) → get_elem? begun_system.world.tasks p ≡ some t → t.pc ≢ crashed
begun_alive p t h = λ e. cc (begun_pc p t h)

system_can_return_example : Ends begun_system
system_can_return_example =
    system_can_return begun_system
      (run_acts-Reach begun (some new_system) new-Reach begun_system begun_run) begun_alive
      (inl begun_done)
