-- ===== src/Registry/Invariant.antt =====
-- What holds of the registry and of every job in it, whatever the agents and the jobs do.
use fizzled_go.Prelude.{
  ℕ, zero, suc, ◌≡◌, ◌<◌, ◌≤◌, refl, sym, ap, ◌∙◌, ◌⊎◌, inl, inr, Bytes, Bool, false, some, List,
  [], ◌∷◌, ◌++◌, arith, length, get_elem?, set, get_elem?-append, get_elem?-length, text_eq_iff,
  eq_of_some_eq,
}
use fizzled_go.Prelude.Assoc.{lookup}
use fizzled_go.Prelude.Int.{ℤ, pos, negsuc}
use fizzled_go.Errors.{ok}
use fizzled_go.Worker.Job.{Job, new_job, default_mean_tick_interval}
use fizzled_go.Worker.Countdown.{Task, Event, step}
use fizzled_go.Worker.Countdown.Invariant.{IsConsistent}
use fizzled_go.Worker.Countdown.Preserved.{step-IsConsistent}
use fizzled_go.Worker.Countdown.Kept.{id-step}
use fizzled_go.Worker.Countdown.Reach.{start, new_job-ok, new_job-IsConsistent}
use fizzled_go.Registry.{World, new, create, find, job_id}
use fizzled_go.Registry.Lookup.{counter_of, OwnsRecords, IsCreated, create-IsCreated}

pub record IsWellFormed (w : World) : Type 0 where
  -- Each record is its agent's.
  pub owns : OwnsRecords w
  -- Each id that an agent can find was minted for that agent.
  pub minted :
      (a id : Bytes) (p : ℕ)
      → find a id w ≡ some p
      → (n : ℕ) × (n < counter_of a w) × (id ≡ job_id a n)
  -- It leads to the job that bears it.
  pub stored :
      (a id : Bytes) (p : ℕ)
      → find a id w ≡ some p
      → (t : Task) × (get_elem? w.tasks p ≡ some t) × (t.job.id ≡ id)
  -- Every job is consistent.
  pub sound : (p : ℕ) (t : Task) → get_elem? w.tasks p ≡ some t → (count : ℕ) × IsConsistent count t

-- What changes the world: a call of `Create`; a step of a job's goroutine, or of a call that cancels
-- it; and the start of `Shutdown`.
pub data Step (w : World) : World → Type 0 where
  creates :
      {w' : World} (parent_done : Bool) (agent : Bytes) (count : ℤ) (id : Bytes)
      → create parent_done agent count w ≡ ok (id, w')
      → Step w w'
  job_steps :
      (p : ℕ) (t u : Task) (e : Event)
      → get_elem? w.tasks p ≡ some t
      → step e t ≡ some u
      → Step w (record w { tasks = set w.tasks p u })
  closes : Step w (record w { registry = record w.registry { is_accepting_jobs = false } })

pub data Steps (w : World) : World → Type 0 where
  here : Steps w w
  next : {v u : World} → Steps w v → Step v u → Steps w u

new-IsWellFormed : IsWellFormed new
unfolding find lookup
new-IsWellFormed = record {
  owns = λ a r h. absurd (cc);
  minted = λ a id p h. absurd (cc);
  stored = λ a id p h. absurd (cc);
  sound = λ p t h. absurd (cc);
}

-- The store behind an append.
get_elem?-snoc :
    (ts : List Task) (u : Task) (p : ℕ) (t : Task)
    → get_elem? (ts ++ u ∷ []) p ≡ some t
    → (get_elem? ts p ≡ some t) ⊎ (t ≡ u)
get_elem?-snoc [] u zero t h = inr (sym (eq_of_some_eq h))
get_elem?-snoc [] u (suc p) t h = absurd (cc)
get_elem?-snoc (x ∷ ts) u zero t h = inl h
get_elem?-snoc (x ∷ ts) u (suc p) t h = get_elem?-snoc ts u p t h

-- The store behind a write.
get_elem?-set :
    (ts : List Task) (p q : ℕ) (u t : Task)
    → get_elem? (set ts p u) q ≡ some t
    → (get_elem? ts q ≡ some t) ⊎ (t ≡ u)
get_elem?-set [] p q u t h = inl h
get_elem?-set (x ∷ ts) zero zero u t h = inr (sym (eq_of_some_eq h))
get_elem?-set (x ∷ ts) zero (suc q) u t h = inl h
get_elem?-set (x ∷ ts) (suc p) zero u t h = inl h
get_elem?-set (x ∷ ts) (suc p) (suc q) u t h = get_elem?-set ts p q u t h

-- A write changes no position but its own.
set_keeps :
    (ts : List Task) (p q : ℕ) (t u v : Task)
    → get_elem? ts p ≡ some t
    → get_elem? ts q ≡ some v
    → u.job.id ≡ t.job.id
    → (v' : Task) × (get_elem? (set ts p u) q ≡ some v') × (v'.job.id ≡ v.job.id)
set_keeps [] p q t u v h k e = absurd (ground arith)
set_keeps (x ∷ ts) zero zero t u v h k e =
    (u, refl, e ∙ ap (λ (y : Task). y.job.id) (eq_of_some_eq (sym h ∙ k)))
set_keeps (x ∷ ts) zero (suc q) t u v h k e = (v, k, refl)
set_keeps (x ∷ ts) (suc p) zero t u v h k e = (v, k, refl)
set_keeps (x ∷ ts) (suc p) (suc q) t u v h k e = set_keeps ts p q t u v h k e

-- The job that `NewJob` makes is consistent, and bears its id.
new_job_starts :
    (p : Bool) (id : Bytes) (count interval : ℤ) (j : Job)
    → new_job p id count interval ≡ ok j
    → (j.id ≡ id) × ((n : ℕ) × IsConsistent n (start count j))
new_job_starts p id (pos n) interval j h = (
  ap (λ (k : Job). k.id) (new_job-ok p id (pos n) interval j h).0,
  (n, new_job-IsConsistent p id n interval j h),
)
new_job_starts p id (negsuc n) interval j h =
    absurd (omega (arith, (new_job-ok p id (negsuc n) interval j h).1))

module _ {q : Bool} {a : Bytes} {count : ℤ} {w : World} {id : Bytes} {w' : World}
    (f : IsWellFormed w) (c : IsCreated q a count w id w') where
  -- What can be found behind `create`: the new job, and what could be found before.
  pub found-created :
      (b j : Bytes) (p : ℕ)
      → find b j w' ≡ some p
      → ((b ≡ a) × (j ≡ id) × (p ≡ length w.tasks)) ⊎ (find b j w ≡ some p)
  found-created b j p h = ground (arith, c.finds b j, text_eq_iff a b, text_eq_iff id j)

  counts-le : (b : Bytes) → counter_of b w ≤ counter_of b w'
  counts-le b = ground (arith, c.counts b)

  counts-new : counter_of a w < counter_of a w'
  counts-new = ground (arith, c.counts a, text_eq_iff a a)

  created-minted :
      (b j : Bytes) (p : ℕ)
      → find b j w' ≡ some p
      → (n : ℕ) × (n < counter_of b w') × (j ≡ job_id b n)
  created-minted b j p h = elim (found-created b j p h) [
    | inl (who, what, _) ↦ rw who (counter_of a w, counts-new, what ∙ c.minted)
    | inr old ↦ let (n, low, e) = f.minted b j p old in (n, omega (arith, counts-le b), e)
  ]

  created-stored :
      (b j : Bytes) (p : ℕ)
      → find b j w' ≡ some p
      → (t : Task) × (get_elem? w'.tasks p ≡ some t) × (t.job.id ≡ j)
  created-stored b j p h = rw (c.stored) (elim (found-created b j p h) [
    | inl (_, what, where_new) ↦ (
      start count c.job,
      ap (get_elem? (w.tasks ++ start count c.job ∷ [])) where_new
          ∙ get_elem?-length w.tasks (start count c.job),
      (new_job_starts q id count default_mean_tick_interval c.job c.made).0 ∙ sym what,
    )
    | inr old ↦
        let (t, at, e) = f.stored b j p old in
        (t, get_elem?-append w.tasks (start count c.job ∷ []) p at, e)
  ])

  created_sound : (p : ℕ) (t : Task) → get_elem? w'.tasks p ≡ some t → (n : ℕ) × IsConsistent n t
  created_sound p t h =
      elim (get_elem?-snoc w.tasks (start count c.job) p t
        (ap (λ ts. get_elem? ts p) (sym c.stored) ∙ h)) [
          | inl old ↦ f.sound p t old
          | inr fresh ↦
              rw fresh (new_job_starts q id count default_mean_tick_interval c.job c.made).1
        ]

  create-IsWellFormed : IsWellFormed w'
  create-IsWellFormed = record {
    owns = c.owns;
    minted = created-minted;
    stored = created-stored;
    sound = created_sound;
  }

job_step-IsWellFormed :
    (w : World) (p : ℕ) (t u : Task) (e : Event)
    → IsWellFormed w
    → get_elem? w.tasks p ≡ some t
    → step e t ≡ some u
    → IsWellFormed (record w { tasks = set w.tasks p u })
unfolding find
job_step-IsWellFormed w p t u e f h s = record {
  owns = f.owns;
  minted = f.minted;
  stored = λ a id q k.
      let (v, at, named) = f.stored a id q k in
      let (v', at', same) = set_keeps w.tasks p q t u v h at (id-step e t u s) in
      (v', at', same ∙ named);
  sound = λ q v k. elim (get_elem?-set w.tasks p q u v k) [
    | inl old ↦ f.sound q v old
    | inr written ↦ let (n, c) = f.sound p t h in rw written (n, step-IsConsistent n e t u s c)
  ];
}

closes-IsWellFormed :
    (w : World)
    → IsWellFormed w
    → IsWellFormed (record w { registry = record w.registry { is_accepting_jobs = false } })
unfolding find
closes-IsWellFormed w f = record {
  owns = f.owns;
  minted = f.minted;
  stored = f.stored;
  sound = f.sound;
}

pub Step-IsWellFormed : {w w' : World} → Step w w' → IsWellFormed w → IsWellFormed w'
Step-IsWellFormed {w} {w'} (creates q a count id h) f =
    create-IsWellFormed f (create-IsCreated q a count w id w' f.owns h)
Step-IsWellFormed {w} (job_steps p t u e h s) f = job_step-IsWellFormed w p t u e f h s
Step-IsWellFormed {w} closes f = closes-IsWellFormed w f

-- Every world that the program reaches is well formed.
pub Steps-IsWellFormed : {w : World} → Steps new w → IsWellFormed w
Steps-IsWellFormed here = new-IsWellFormed
Steps-IsWellFormed (next r s) = Step-IsWellFormed s (Steps-IsWellFormed r)
