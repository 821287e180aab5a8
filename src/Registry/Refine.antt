-- ===== src/Registry/Refine.antt =====
-- The registry of internal/registry answers every sequence of calls as a directory does.
use fizzled_go.Prelude.Assoc.{lookup}
use mathlib.Core.Path.{ap₂}
use fizzled_go.Prelude.{
  ◌≡◌, refl, sym, ap, ◌∙◌, Bytes, true, false, List, [], ◌∷◌, length, length-append, Bool-cases,
  inl, inr, arith, subst,
}
use fizzled_go.Prelude.Int.{ℤ}
use fizzled_go.Errors.{Result, ok, err, invalid_count}
use fizzled_go.Worker.Job.{new_job, fresh_job, default_mean_tick_interval}
use fizzled_go.Worker.Countdown.Reach.{start}
use fizzled_go.Registry.{World, create, find, job_id}
use fizzled_go.Registry
use fizzled_go.Registry.Lookup.{
  OwnsRecords, counter_of, next_id, create_closed, create_made, create_invalid, create-IsCreated,
  IsCreated,
}
use fizzled_go.Registry.Shutdown.{begin_shutdown}
use fizzled_go.Registry.Directory.{
  Directory, Op, creates, finds, shuts, Reply, created, found, shut, is_count, grown, answer,
}
use fizzled_go.Registry.Directory

-- A call that fails leaves the world as it was.
abbrev pub outcome : World → Result (Bytes × World) → Result Bytes × World
outcome w (ok (id, w')) = (ok id, w')
outcome w (err e) = (err e, w)

pub run : World → List Op → List Reply
run w [] = []
run w (creates a count ∷ ops) =
    let (answer, w') = outcome w (create false a count w) in created answer ∷ run w' ops
run w (finds a j ∷ ops) = found (find a j w) ∷ run w ops
run w (shuts ∷ ops) = shut ∷ run (begin_shutdown w).0 ops

-- The directory that a world stands for.
pub record Shows (w : World) (d : Directory) : Type 0 where
  pub owns : OwnsRecords w
  pub jobs : (a j : Bytes) → find a j w ≡ d.jobs a j
  pub issued : (a : Bytes) → counter_of a w ≡ d.issued a
  pub size : length w.tasks ≡ d.size
  pub is_open : w.is_accepting_jobs ≡ d.is_open

new_job_valid :
    (id : Bytes) (count : ℤ)
    → is_count count ≡ true
    → new_job false id count default_mean_tick_interval
      ≡ ok (fresh_job false id default_mean_tick_interval)
unfolding new_job
new_job_valid id count h = ground arith

new_job_invalid :
    (id : Bytes) (count : ℤ)
    → is_count count ≡ false
    → new_job false id count default_mean_tick_interval ≡ err (invalid_count ∷ [])
unfolding new_job
new_job_invalid id count h = ground arith

created-Shows :
    {a : Bytes} {count : ℤ} {w w' : World} {d : Directory} {id : Bytes}
    → Shows w d
    → IsCreated false a count w id w'
    → (id ≡ job_id a (d.issued a)) × Shows w' (grown d a)
created-Shows {a} {count} {w} {w'} {d} {id} s c =
    let named : id ≡ job_id a (d.issued a) = c.minted ∙ ap (job_id a) (s.issued a) in
    (
      named,
      record {
        owns = c.owns;
        jobs = λ b j. rw (c.finds b j, named, s.size, s.jobs b j) refl;
        issued = λ b. rw (c.counts b, s.issued b) refl;
        size =
            omega
              (arith, ap length c.stored, length-append w.tasks (start count c.job ∷ []), s.size);
        is_open = c.flag ∙ sym c.accepting ∙ s.is_open;
      },
    )

abbrev Agrees : Result Bytes × World → Result Bytes × Directory → Type 0
Agrees (answer, w) (answer', d) = (answer ≡ answer') × Shows w d

-- A call of `Create` answers as the directory does, and leaves a world that stands for what it leaves.
create_refines :
    (a : Bytes) (count : ℤ) (w : World) (d : Directory)
    → Shows w d
    → Agrees (outcome w (create false a count w)) (Directory.create d a count)
create_refines a count w d s = elim (Bool-cases w.is_accepting_jobs) [
  | inr closed ↦
      let shut_too = ap (λ b. answer d a b (is_count count)) (sym s.is_open ∙ closed) in
      subst (Agrees (outcome w (create false a count w))) (sym shut_too)
        (rw (create_closed false a count w closed) (refl, s))
  | inl accepting ↦
      let open_too = sym s.is_open ∙ accepting in
      elim (Bool-cases (is_count count)) [
        | inr bad ↦
            subst (Agrees (outcome w (create false a count w)))
              (sym (ap₂ (answer d a) open_too bad))
              (rw
                (create_invalid false a count w accepting (new_job_invalid (next_id a w) count bad))
                (refl, s))
        | inl good ↦
            let made =
              create_made false a count w accepting (new_job_valid (next_id a w) count good) in
            let (named, after) =
              created-Shows s (create-IsCreated false a count w _ _ s.owns made) in
            subst (Agrees (outcome w (create false a count w)))
              (sym (ap₂ (answer d a) open_too good)) (rw made (ap ok named, after))
      ]
]

shut-Shows :
    (w : World) (d : Directory)
    → Shows w d
    → Shows (begin_shutdown w).0 (record d { is_open = false })
unfolding begin_shutdown find
shut-Shows w d s = record {
  owns = s.owns;
  jobs = s.jobs;
  issued = s.issued;
  size = s.size;
  is_open = refl;
}

-- A world that stands for a directory answers every sequence of calls of `Create`, `Find` and
-- `Shutdown` as that directory does: the same ids, the same errors and the same jobs.
pub run_refines :
    (ops : List Op) (w : World) (d : Directory) → Shows w d → run w ops ≡ Directory.run d ops
unfolding run Directory.run
run_refines [] w d s = refl
run_refines (creates a count ∷ ops) w d s =
    let (same, after) = create_refines a count w d s in
    ap₂ (λ r rs. created r ∷ rs) same (run_refines ops _ _ after)
run_refines (finds a j ∷ ops) w d s =
    ap₂ (λ o rs. found o ∷ rs) (s.jobs a j) (run_refines ops w d s)
run_refines (shuts ∷ ops) w d s = ap (λ rs. shut ∷ rs) (run_refines ops _ _ (shut-Shows w d s))

-- A new registry stands for the empty directory.
pub new-Shows : Shows Registry.new Directory.empty
unfolding find lookup
new-Shows = record {
  owns = λ a r h. absurd (cc);
  jobs = λ a j. refl;
  issued = λ a. refl;
  size = refl;
  is_open = refl;
}
