-- ===== src/Registry/Examples.antt =====
-- Two agents' jobs in one registry, on which the theorems about internal/registry apply.
use fizzled_go.Registry.Refine.{run_refines, new-Shows}
use fizzled_go.Registry.Directory
use fizzled_go.Registry.Refine
use fizzled_go.Registry.Directory.{Op, creates, finds, shuts}
use fizzled_go.Prelude.{
  ℕ, ◌≡◌, ◌≢◌, refl, Bytes, codes, false, none, some, List, [], ◌∷◌, get_elem?, text_eq, arith,
}
use fizzled_go.Prelude.Assoc.{lookup, insert}
use fizzled_go.Prelude.Decimal.{format_int}
use fizzled_go.Prelude.Int.{pos}
use fizzled_go.Errors.{Result, ok, err}
use fizzled_go.Worker.Tick.{running}
use fizzled_go.Worker.Job.{new_job}
use fizzled_go.Worker.Countdown.{Task}
use fizzled_go.Registry.{World, new, create, create_in, find, job_id}
use fizzled_go.Registry.JobId.{NoSlash}
use fizzled_go.Registry.Invariant.{IsWellFormed, Steps, creates, here, next, Steps-IsWellFormed}
use fizzled_go.Registry.Ownership.{create_registers}

abbrev pub alice : Bytes
alice = codes "alice"

abbrev pub bob : Bytes
bob = codes "bob"

abbrev pub alice_0 : Bytes
alice_0 = codes "alice/0"

abbrev pub made : Result (Bytes × World) → World
made (err e) = new
made (ok (id, w)) = w

-- After one job of alice's.
abbrev pub one_job : World
one_job = made (create false alice (pos 3) new)

pub created_one : create false alice (pos 3) new ≡ ok (alice_0, one_job)
unfolding create create_in new_job job_id lookup insert format_int
created_one = refl

-- And after one of bob's.
abbrev pub two_jobs : World
two_jobs = made (create false bob (pos 5) one_job)

pub created_two : create false bob (pos 5) one_job ≡ ok (codes "bob/0", two_jobs)
unfolding create create_in new_job job_id lookup insert format_int text_eq
created_two = refl

one_step : Steps new one_job
one_step = next here (creates false alice (pos 3) alice_0 created_one)

Steps-IsWellFormed_example : IsWellFormed one_job
Steps-IsWellFormed_example = Steps-IsWellFormed one_step

pub well_formed : IsWellFormed one_job
well_formed = Steps-IsWellFormed {w = one_job} one_step

create_registers_example :
    (find bob (codes "bob/0") one_job ≡ none)
    × ((p : ℕ) × (t : Task) × (find bob (codes "bob/0") two_jobs ≡ some p)
        × (get_elem? two_jobs.tasks p ≡ some t)
        × (t.job.id ≡ codes "bob/0")
        × (t.job.status ≡ running)
        × (t.job.ticks ≡ []))
create_registers_example =
    create_registers false bob (pos 5) one_job two_jobs (codes "bob/0") well_formed created_two

pub found_one : find alice alice_0 one_job ≡ some 0
unfolding create create_in new_job job_id lookup insert format_int find text_eq
found_one = refl

pub bob_not_alice : bob ≢ alice
bob_not_alice e = cc

pub alice-NoSlash : NoSlash alice
alice-NoSlash = ground arith

pub bob-NoSlash : NoSlash bob
bob-NoSlash = ground arith

abbrev calls : List Op
calls = creates alice (pos 3) ∷ creates bob (pos 0) ∷ finds alice alice_0 ∷ shuts ∷ []

run_refines_example : Refine.run new calls ≡ Directory.run Directory.empty calls
run_refines_example = run_refines calls new Directory.empty new-Shows
