-- ===== src/Registry/Shutdown.antt =====
-- internal/registry/registry.go: `Shutdown`.
use fizzled_go.Prelude.{
  ℕ, ◌≡◌, refl, sym, ◌∙◌, ◌⊎◌, inl, inr, Bytes, Bool, true, false, some, List, [], ◌∷◌, ◌++◌,
  get_elem?, text_eq, Bool-cases, eq_of_some_eq,
}
use fizzled_go.Prelude.Assoc.{Assoc, lookup}
use fizzled_go.Prelude.Int.{ℤ}
use fizzled_go.Errors.{err, not_accepting_jobs}
use fizzled_go.Worker.Tick.{is_running}
use fizzled_go.Worker.Countdown.{Task}
use fizzled_go.Worker.Countdown.Stop.{finished-HasEnded}
use fizzled_go.Registry.{Record, World, create, find, find_in}
use fizzled_go.Registry.Lookup.{create_closed}
use fizzled_go.Registry.Invariant.{
  IsWellFormed, creates, job_steps, closes, Steps, here, next, Step-IsWellFormed,
}

-- `allJobs`: the values of the map. Go ranges over a map in any order.
unfoldable pub all_jobs : Assoc ℕ → List ℕ
all_jobs [] = []
all_jobs ((id, p) ∷ jobs) = p ∷ all_jobs jobs

-- The loop that collects every record's jobs.
unfoldable pub collect : Assoc Record → List ℕ
collect [] = []
collect ((agent, r) ∷ records) = all_jobs r.jobs ++ collect records

-- The critical section of `Shutdown`: no job is accepted from here on, and the jobs to stop are those
-- that the registry holds. `Shutdown` then calls `Stop` on each of them, each in a goroutine of its
-- own, and returns when all have returned.
unfoldable pub begin_shutdown : World → World × List ℕ
begin_shutdown w =
    (record w { registry = record w.registry { is_accepting_jobs = false } }, collect w.records)

abbrev pub Holds : ℕ → List ℕ → Type 0
Holds p [] = ⊥
Holds p (q ∷ qs) = (p ≡ q) ⊎ Holds p qs

-- The calls of `Stop` have returned for all of them: their channels `finished` are closed.
abbrev pub HasStopped : World → List ℕ → Type 0
HasStopped w ptrs =
    (p : ℕ) → Holds p ptrs → (t : Task) → get_elem? w.tasks p ≡ some t → t.job.finished ≡ true

Holds-left : (p : ℕ) (ps qs : List ℕ) → Holds p ps → Holds p (ps ++ qs)
Holds-left p [] qs h = absurd h
Holds-left p (x ∷ ps) qs (inl e) = inl e
Holds-left p (x ∷ ps) qs (inr h) = inr (Holds-left p ps qs h)

Holds-right : (p : ℕ) (ps qs : List ℕ) → Holds p qs → Holds p (ps ++ qs)
Holds-right p [] qs h = h
Holds-right p (x ∷ ps) qs h = inr (Holds-right p ps qs h)

Holds-all_jobs :
    (id : Bytes) (jobs : Assoc ℕ) (p : ℕ) → lookup id jobs ≡ some p → Holds p (all_jobs jobs)
unfolding lookup all_jobs
Holds-all_jobs id [] p h = absurd (cc)
Holds-all_jobs id ((j, q) ∷ jobs) p h = elim (Bool-cases (text_eq j id)) [
  | inl same ↦ inl (eq_of_some_eq (sym (rw (same, lookup) at h)))
  | inr other ↦ inr (Holds-all_jobs id jobs p (rw (other, lookup) at h))
]

Holds-collect :
    (a id : Bytes) (records : Assoc Record) (p : ℕ)
    → find_in id (lookup a records) ≡ some p
    → Holds p (collect records)
unfolding lookup collect
Holds-collect a id [] p h = absurd (cc)
Holds-collect a id ((b, r) ∷ records) p h = elim (Bool-cases (text_eq b a)) [
  | inl same ↦
      Holds-left p (all_jobs r.jobs) (collect records)
        (Holds-all_jobs id r.jobs p (rw (same, lookup) at h))
  | inr other ↦
      Holds-right p (all_jobs r.jobs) (collect records)
        (Holds-collect a id records p (rw (other, lookup) at h))
]

-- A closed registry stays closed, and its maps stay as they are.
pub closed_stays :
    {w u : World}
    → w.is_accepting_jobs ≡ false
    → Steps w u
    → (u.is_accepting_jobs ≡ false) × ((a id : Bytes) → find a id u ≡ find a id w)
unfolding find
closed_stays h here = (h, λ a id. refl)
closed_stays h (next {v} r (creates q a count id e)) =
    absurd (cc (create_closed q a count v (closed_stays h r).0, e))
closed_stays h (next r (job_steps p t u e k s)) = closed_stays h r
closed_stays h (next r closes) = (refl, (closed_stays h r).1)

Steps-keep : {w u : World} → IsWellFormed w → Steps w u → IsWellFormed u
Steps-keep f here = f
Steps-keep f (next r s) = Step-IsWellFormed s (Steps-keep f r)

-- In every world reached from the critical section of `Shutdown`, a call of `Create` reports
-- ErrNotAcceptingJobs, whatever its arguments.
pub shutdown_refuses :
    (w u : World) (q : Bool) (a : Bytes) (count : ℤ)
    → Steps (begin_shutdown w).0 u
    → create q a count u ≡ err (not_accepting_jobs ∷ [])
unfolding begin_shutdown
shutdown_refuses w u q a count r = create_closed q a count u (closed_stays refl r).0

-- In a world reached from the critical section of `Shutdown` on a well-formed world, once the jobs
-- that `Shutdown` collected have finished, every job that any agent finds has ended.
pub shutdown_stops_all :
    (w u : World) (a id : Bytes) (p : ℕ)
    → IsWellFormed w
    → Steps (begin_shutdown w).0 u
    → HasStopped u (begin_shutdown w).1
    → find a id u ≡ some p
    → (t : Task) × (get_elem? u.tasks p ≡ some t) × (is_running t.job.status ≡ false)
unfolding begin_shutdown find
shutdown_stops_all w u a id p f r stopped found =
    let (closed, same) = closed_stays refl r in
    let f' = Steps-keep (Step-IsWellFormed closes f) r in
    let (t, at, _) = f'.stored a id p found in
    let over = stopped p (Holds-collect a id w.records p (sym (same a id) ∙ found)) t at in
    let (n, c) = f'.sound p t at in (t, at, (finished-HasEnded n t c over).1)
