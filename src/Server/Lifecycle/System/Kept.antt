-- ===== src/Server/Lifecycle/System/Kept.antt =====
-- What holds of `Serve` beside the registry at every point.
use fizzled_go.Prelude.{
  ℕ, zero, suc, ◌≡◌, refl, sym, ap, subst, ◌∙◌, ◌⊎◌, inl, inr, Bytes, Bool, true, false, Option,
  none, some, List, [], ◌∷◌, get_elem?, set, arith, eq_of_some_eq,
}
use fizzled_go.Prelude.Int.{ℤ}
use fizzled_go.Errors.{Result, ok, err, Result-cases}
use fizzled_go.Worker.Countdown.{Task}
use fizzled_go.Worker.Countdown
use fizzled_go.Worker.Countdown.Kept.{finished-step}
use fizzled_go.Registry.{World, create, new}
use fizzled_go.Registry.Lookup.{create_closed}
use fizzled_go.Registry.Shutdown.{begin_shutdown, closed_stays}
use fizzled_go.Registry.Invariant.{
  IsWellFormed, Steps, Steps-IsWellFormed, creates, job_steps, closes, here, next,
}
use fizzled_go.Server.Lifecycle.Serving
use fizzled_go.Server.Lifecycle.Serving.{
  Main, Stopper, idle, stopping_jobs, draining, finished, Serving, Event, transport_returns,
  ctx_ends, takes_error, sees_done, jobs_stop, transport_drains, sees_stopped, grace_elapses,
  takes_late_error, step,
}
use fizzled_go.Server.Lifecycle.System
use fizzled_go.Server.Lifecycle.System.Acts.{serves_inv, put_inv, collects_inv}
use fizzled_go.Server.Lifecycle.System.{
  System, Act, Reach, advance, all_finished, collects, collects_at, is_finished, is_over,
  may_happen, starts, with_created, with_serving, serves, put_task, step_task,
}

-- The jobs have stopped.
abbrev pub is_past : Stopper → Bool
is_past draining = true
is_past finished = true
is_past _ = false

abbrev IsJobsStop : Event → Type 0
IsJobsStop jobs_stop = Unit
IsJobsStop _ = ⊥

past-step :
    (e : Event) (s t : Serving)
    → step e s ≡ some t
    → is_past t.stopper ≡ true
    → (is_past s.stopper ≡ true) ⊎ IsJobsStop e
unfolding step
past-step jobs_stop s t h p = inr tt
past-step (transport_returns e) s t h p = inl (ground arith)
past-step ctx_ends s t h p = inl (ground arith)
past-step takes_error s t h p = inl (ground arith)
past-step sees_done s t h p = inl (ground arith)
past-step transport_drains s t h p = inl (ground arith)
past-step sees_stopped s t h p = inl (ground arith)
past-step grace_elapses s t h p = inl (ground arith)
past-step takes_late_error s t h p = inl (ground arith)

-- A job that has finished stays so.
is_finished-set :
    (ts : List Task) (p q : ℕ) (e : Countdown.Event) (t u : Task)
    → get_elem? ts p ≡ some t
    → Countdown.step e t ≡ some u
    → is_finished (get_elem? ts q) ≡ true
    → is_finished (get_elem? (set ts p u) q) ≡ true
is_finished-set [] p q e t u h s f = absurd (cc)
is_finished-set (x ∷ ts) zero zero e t u h s f =
    finished-step e t u s (ap (λ (v : Task). v.job.finished) (sym (eq_of_some_eq h)) ∙ f)
is_finished-set (x ∷ ts) zero (suc q) e t u h s f = f
is_finished-set (x ∷ ts) (suc p) zero e t u h s f = f
is_finished-set (x ∷ ts) (suc p) (suc q) e t u h s f = is_finished-set ts p q e t u h s f

pub all_finished-set :
    (ps : List ℕ) (ts : List Task) (p : ℕ) (e : Countdown.Event) (t u : Task)
    → get_elem? ts p ≡ some t
    → Countdown.step e t ≡ some u
    → all_finished ps ts ≡ true
    → all_finished ps (set ts p u) ≡ true
unfolding all_finished
all_finished-set [] ts p e t u h s f = refl
all_finished-set (q ∷ ps) ts p e t u h s f =
    ground (arith, is_finished-set ts p q e t u h s, all_finished-set ps ts p e t u h s)

-- Once the jobs are collected, the world goes on from the critical section of the registry's
-- `Shutdown`.
pub record IsShutting (w : World) (ps : List ℕ) : Type 0 where
  pub from : World
  pub well_formed : IsWellFormed from
  pub since : Steps (begin_shutdown from).0 w
  pub jobs : (begin_shutdown from).1 ≡ ps

abbrev pub Shutting : Option (List ℕ) → World → Type 0
Shutting none w = Unit
Shutting (some ps) w = IsShutting w ps

pub record IsJoined (y : System) : Type 0 where
  pub steps : Steps new y.world
  pub shutting : Shutting y.collected y.world
  pub over : is_past y.serving.stopper ≡ true → is_over y.collected y.world.tasks ≡ true

Shutting-next :
    (c : Option (List ℕ)) {w u : World}
    → ((v : World) → Steps v w → Steps v u)
    → Shutting c w
    → Shutting c u
Shutting-next none go k = tt
Shutting-next (some ps) go k = record {
  from = k.from;
  well_formed = k.well_formed;
  since = go (begin_shutdown k.from).0 k.since;
  jobs = k.jobs;
}

may-over :
    (e : Event) (y : System)
    → IsJobsStop e
    → may_happen e y ≡ true
    → is_over y.collected y.world.tasks ≡ true
may-over jobs_stop y j h = h
may-over e y j h = absurd j

closed_of_over :
    (c : Option (List ℕ)) (w : World)
    → Shutting c w
    → is_over c w.tasks ≡ true
    → w.is_accepting_jobs ≡ false
unfolding begin_shutdown
closed_of_over none w k h = absurd (cc)
closed_of_over (some ps) w k h = (closed_stays refl k.since).0

is_over-set :
    (c : Option (List ℕ)) (ts : List Task) (p : ℕ) (e : Countdown.Event) (t u : Task)
    → get_elem? ts p ≡ some t
    → Countdown.step e t ≡ some u
    → is_over c ts ≡ true
    → is_over c (set ts p u) ≡ true
is_over-set none ts p e t u h s f = absurd (cc)
is_over-set (some ps) ts p e t u h s f = all_finished-set ps ts p e t u h s f

-- What an act changes, where it changes no more than the world.
world-IsJoined :
    (y : System) (u : World)
    → IsJoined y
    → ((v : World) → Steps v y.world → Steps v u)
    → (is_over y.collected y.world.tasks ≡ true → is_over y.collected u.tasks ≡ true)
    → IsJoined (record y { world = u })
world-IsJoined y u j go over = record {
  steps = go new j.steps;
  shutting = Shutting-next y.collected go j.shutting;
  over = λ p. over (j.over p);
}

created-IsJoined :
    (q : Bool) (a : Bytes) (count : ℤ) (y : System)
    → IsJoined y
    → IsJoined (with_created y (create q a count y.world))
created-IsJoined q a count y j = elim (Result-cases (create q a count y.world)) [
  | inl ((id, u), made) ↦ rw made (
      world-IsJoined y u j (λ v r. next r (creates q a count id made))
        (λ over.
          let closed = closed_of_over y.collected y.world j.shutting over in
          absurd (cc (create_closed q a count y.world closed, made))))
  | inr (e, refused) ↦ rw refused j
]

collected-IsJoined :
    (y : System)
    → y.serving.stopper ≡ stopping_jobs
    → IsJoined y
    → IsJoined (record y {
      world = (begin_shutdown y.world).0;
      collected = some (begin_shutdown y.world).1;
    })
collected-IsJoined y at j = record {
  steps = unfold begin_shutdown in next j.steps closes;
  shutting = record {
    from = y.world;
    well_formed = Steps-IsWellFormed j.steps;
    since = here;
    jobs = refl;
  };
  over = λ p. absurd (cc (ap is_past at));
}

served-IsJoined :
    (e : Event) (y : System) (s : Serving)
    → may_happen e y ≡ true
    → step e y.serving ≡ some s
    → IsJoined y
    → IsJoined (record y { serving = s })
served-IsJoined e y s m h j = record {
  steps = j.steps;
  shutting = j.shutting;
  over = λ p. elim (past-step e y.serving s h p) [
    | inl before ↦ j.over before
    | inr now ↦ may-over e y now m
  ];
}

pub advance-IsJoined : (a : Act) (y z : System) → advance a y ≡ some z → IsJoined y → IsJoined z
unfolding advance
advance-IsJoined (serves e) y z h j =
    let (m, (s, g, same)) = serves_inv (may_happen e y) y z (step e y.serving) h in
    subst IsJoined same (served-IsJoined e y s m g j)
advance-IsJoined (Act.creates q a count) y z h j =
    subst IsJoined (eq_of_some_eq h) (created-IsJoined q a count y j)
advance-IsJoined (Act.job_steps p e) y z h j =
    let (t, u, at, s, put) = put_inv e y z p (get_elem? y.world.tasks p) h in
    subst IsJoined (eq_of_some_eq put) (
      world-IsJoined y (record y.world { tasks = set y.world.tasks p u }) j
        (λ v r. next r (job_steps p t u e at s))
        (is_over-set y.collected y.world.tasks p e t u at s))
advance-IsJoined collects y z h j =
    let (_, at, same) = collects_inv y.serving.stopper y.collected y z h in
    subst IsJoined same (collected-IsJoined y at j)

pub Reach-IsJoined : {y : System} → Reach y → IsJoined y
Reach-IsJoined starts = record { steps = here; shutting = tt; over = λ p. absurd (cc) }
Reach-IsJoined (System.next {y} {z} a r h) = advance-IsJoined a y z h (Reach-IsJoined r)

created-serving :
    (y : System) (o : Result (Bytes × World))
    → Serving.Reach y.serving
    → Serving.Reach (with_created y o).serving
created-serving y (err e) r = r
created-serving y (ok (id, w)) r = r

-- `Serve` itself takes the steps of its own machine.
advance-serving :
    (a : Act) (y z : System)
    → advance a y ≡ some z
    → Serving.Reach y.serving
    → Serving.Reach z.serving
unfolding advance
advance-serving (serves e) y z h r =
    let (_, (s, g, same)) = serves_inv (may_happen e y) y z (step e y.serving) h in
    subst (λ z. Serving.Reach z.serving) same (Serving.next e r g)
advance-serving (Act.creates q a count) y z h r =
    subst (λ z. Serving.Reach z.serving) (eq_of_some_eq h)
      (created-serving y (create q a count y.world) r)
advance-serving (Act.job_steps p e) y z h r =
    let (_, _, _, _, put) = put_inv e y z p (get_elem? y.world.tasks p) h in
    subst (λ z. Serving.Reach z.serving) (eq_of_some_eq put) r
advance-serving collects y z h r =
    let (_, _, same) = collects_inv y.serving.stopper y.collected y z h in
    subst (λ z. Serving.Reach z.serving) same r

pub Reach-serving : {y : System} → Reach y → Serving.Reach y.serving
Reach-serving starts = Serving.serving
Reach-serving (System.next {y} {z} a r h) = advance-serving a y z h (Reach-serving r)
