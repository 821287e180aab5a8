-- ===== src/Server/Lifecycle/System/CanReturn.antt =====
-- That `Serve` can return beside the registry without the end of the grace: the jobs can all be
-- brought to their ends, and then the transport drains.
use fizzled_go.Prelude.{
  ℕ, zero, suc, ◌≡◌, ◌≢◌, refl, sym, ap, subst, ◌∙◌, ◌⊎◌, inl, inr, true, ◌&&◌, Option, none, some,
  List, [], ◌∷◌, get_elem?, set, arith, eq_of_some_eq, Option-cases,
}
use fizzled_go.Errors.{GoError}
use fizzled_go.Worker.Countdown.{Task, crashed}
use fizzled_go.Worker.Countdown
use fizzled_go.Worker.Countdown.Finishing.{IsCalm, Finishes, over, by, IsConsistent-Finishes}
use fizzled_go.Registry.Shutdown.{begin_shutdown}
use fizzled_go.Registry.Invariant.{Steps-IsWellFormed}
use fizzled_go.Server.Lifecycle.Serving.{
  stopping_jobs, Serving, Event, returned, jobs_stop, grace_elapses, step,
}
use fizzled_go.Server.Lifecycle.Serving.Returning
use fizzled_go.Server.Lifecycle.Serving.Returning.{Returns, serve_can_return}
use fizzled_go.Server.Lifecycle.System.{
  System, Act, Reach, advance, all_finished, collects, is_finished, may_happen, serves, job_steps,
  put_task, step_task, with_serving, is_over, collects_at,
}
use fizzled_go.Server.Lifecycle.System.Kept.{Reach-IsJoined, Reach-serving, all_finished-set}

-- Neither a panic, nor the end of the grace, nor a new job.
abbrev pub IsQuiet : Act → Type 0
IsQuiet (serves e) = e ≢ grace_elapses
IsQuiet (Act.creates q a count) = ⊥
IsQuiet (job_steps p e) = IsCalm e
IsQuiet collects = Unit

-- Quiet acts that lead to the return of `Serve`.
pub data Ends : System → Type 0 where
  ended : {y : System} (r : Option GoError) → y.serving.main ≡ returned r → Ends y
  acts : {y z : System} (a : Act) → IsQuiet a → advance a y ≡ some z → Ends z → Ends y

-- Each job can be brought to its end.
abbrev AllFinish : List Task → Type 0
AllFinish ts = (p : ℕ) (t : Task) → get_elem? ts p ≡ some t → Finishes t

AllFinish-set :
    (ts : List Task) (p : ℕ) (u : Task) → AllFinish ts → Finishes u → AllFinish (set ts p u)
AllFinish-set [] p u f g q t h = f q t h
AllFinish-set (x ∷ ts) zero u f g zero t h = subst Finishes (eq_of_some_eq h) g
AllFinish-set (x ∷ ts) zero u f g (suc q) t h = f (suc q) t h
AllFinish-set (x ∷ ts) (suc p) u f g zero t h = f zero t h
AllFinish-set (x ∷ ts) (suc p) u f g (suc q) t h =
    AllFinish-set ts p u (λ r v k. f (suc r) v k) g q t h

abbrev with_tasks : System → List Task → System
with_tasks y ts = record y { world = record y.world { tasks = ts } }

-- A job that has a list of tasks behind it in which what was finished still is.
abbrev Keeps : List Task → List Task → Type 0
Keeps ts us = (ps : List ℕ) → all_finished ps ts ≡ true → all_finished ps us ≡ true

job_act :
    (y : System) (p : ℕ) (e : Countdown.Event) (t u : Task)
    → get_elem? y.world.tasks p ≡ some t
    → Countdown.step e t ≡ some u
    → advance (job_steps p e) y ≡ some (with_tasks y (set y.world.tasks p u))
unfolding advance
job_act y p e t u h s = ap (λ o. put_task y p (step_task e o)) h ∙ ap (put_task y p) s

get_elem?-set_self :
    (ts : List Task) (p : ℕ) (t u : Task)
    → get_elem? ts p ≡ some t
    → get_elem? (set ts p u) p ≡ some u
get_elem?-set_self [] p t u h = absurd (cc)
get_elem?-set_self (x ∷ ts) zero t u h = refl
get_elem?-set_self (x ∷ ts) (suc p) t u h = get_elem?-set_self ts p t u h

-- Driving one job to its end, before what follows.
drive :
    (p : ℕ) (t : Task) (y : System)
    → Finishes t
    → get_elem? y.world.tasks p ≡ some t
    → AllFinish y.world.tasks
    → ((us : List Task)
        → AllFinish us
        → is_finished (get_elem? us p) ≡ true
        → Keeps y.world.tasks us
        → Ends (with_tasks y us))
    → Ends y
drive p t y (over f) at able follow = follow y.world.tasks able (ap is_finished at ∙ f) (λ ps h. h)
drive p t y (by {u = u} e calm s rest) at able follow =
    let ts = set y.world.tasks p u in
    acts (job_steps p e) calm (job_act y p e t u at s) (
      drive p u (with_tasks y ts) rest (get_elem?-set_self y.world.tasks p t u at)
        (AllFinish-set y.world.tasks p u able rest)
        (λ us able' done keeps.
          follow us able' done
            (λ ps h. keeps ps (all_finished-set ps y.world.tasks p e t u at s h))))

all_finished-cons :
    (p : ℕ) (ps : List ℕ) (us vs : List Task)
    → is_finished (get_elem? us p) ≡ true
    → Keeps us vs
    → all_finished ps vs ≡ true
    → all_finished (p ∷ ps) vs ≡ true
unfolding all_finished
all_finished-cons p ps us vs done keeps rest =
    let one : (is_finished (get_elem? us p) && true) ≡ true = ap (λ b. b && true) done in
    let kept = keeps (p ∷ []) one in ground arith

-- Driving the jobs of a list.
drive_all :
    (ps : List ℕ) (y : System)
    → AllFinish y.world.tasks
    → ((us : List Task)
        → AllFinish us
        → all_finished ps us ≡ true
        → Keeps y.world.tasks us
        → Ends (with_tasks y us))
    → Ends y
drive_all [] y able follow = follow y.world.tasks able (unfold all_finished in refl) (λ ps h. h)
drive_all (p ∷ ps) y able follow = elim (Option-cases (get_elem? y.world.tasks p)) [
  | inl nothing ↦ drive_all ps y able (λ us able' rest keeps.
      follow us able' (all_finished-cons p ps y.world.tasks us (ap is_finished nothing) keeps rest)
        keeps)
  | inr (t, at) ↦ drive p t y (able p t at) at able (λ us able' done keeps.
      drive_all ps (with_tasks y us) able' (λ vs able'' rest keeps'.
        follow vs able'' (all_finished-cons p ps us vs done keeps' rest)
          (λ qs h. keeps' qs (keeps qs h))))
]

-- An event of `Serve` that waits for no job can happen beside the registry.
Waits : Event → Type 0
Waits e = (e ≡ jobs_stop) ⊎ ((y : System) → may_happen e y ≡ true)

waits : (e : Event) → Waits e
unfolding Waits
waits jobs_stop = inl refl
waits _ = inr (λ y. refl)

serve_act :
    (y : System) (e : Event) (s : Serving)
    → may_happen e y ≡ true
    → step e y.serving ≡ some s
    → advance (serves e) y ≡ some (record y { serving = s })
unfolding advance
serve_act y e s m h = rw m (ap (with_serving y) h)

stop-stopping : (s t : Serving) → step jobs_stop s ≡ some t → s.stopper ≡ stopping_jobs
unfolding step
stop-stopping s t h = ground arith

-- The jobs that `Shutdown` collected are driven to their ends, and then it returns.
stops-Ends :
    (ps : List ℕ) (y : System) (s : Serving)
    → y.collected ≡ some ps
    → step jobs_stop y.serving ≡ some s
    → AllFinish y.world.tasks
    → ((z : System) → z.serving ≡ s → AllFinish z.world.tasks → Ends z)
    → Ends y
stops-Ends ps y s c h able follow = drive_all ps y able (λ us able' all keeps.
    let z = with_tasks y us in
    acts (serves jobs_stop) (λ q. cc) (serve_act z jobs_stop s (ap (λ c. is_over c us) c ∙ all) h)
      (follow (record z { serving = s }) refl able'))

collects-Ends :
    (c : Option (List ℕ)) (y : System) (s : Serving)
    → y.collected ≡ c
    → step jobs_stop y.serving ≡ some s
    → AllFinish y.world.tasks
    → ((z : System) → z.serving ≡ s → AllFinish z.world.tasks → Ends z)
    → Ends y
unfolding advance begin_shutdown
collects-Ends (some ps) y s c h able follow = stops-Ends ps y s c h able follow
collects-Ends none y s c h able follow =
    let (w, ps) = begin_shutdown y.world in
    acts collects tt (rw (stop-stopping y.serving s h, c, collects_at) refl)
      (stops-Ends ps (record y { world = w; collected = some ps }) s refl h able follow)

-- The steps with which `Serve` returns, beside the registry.
Returns-Ends :
    {s : Serving} → Returns s → (y : System) → y.serving ≡ s → AllFinish y.world.tasks → Ends y
unfolding Waits
Returns-Ends (Returning.here r h) y same able = ended r (ap (λ (z : Serving). z.main) same ∙ h)
Returns-Ends (Returning.by {t} e quiet h rest) y same able =
    let g : step e y.serving ≡ some t = ap (step e) same ∙ h in
    elim (waits e) [
      | inl now ↦
          collects-Ends y.collected y t refl (ap (λ e. step e y.serving) (sym now) ∙ g) able
            (λ z there able'. Returns-Ends rest z there able')
      | inr free ↦
          acts (serves e) quiet (serve_act y e t (free y) g)
            (Returns-Ends rest (record y { serving = t }) refl able)
    ]

-- From every point of `Serve` beside the registry where its context has ended or the transport's
-- `Serve` has returned, and where no job has crashed the process, there are acts after which `Serve`
-- has returned: none is a panic, the end of the grace, or a new job.
pub system_can_return :
    (y : System)
    → Reach y
    → ((p : ℕ) (t : Task) → get_elem? y.world.tasks p ≡ some t → t.pc ≢ crashed)
    → (y.serving.ctx_done ≡ true) ⊎ (y.serving.transport ≢ none)
    → Ends y
system_can_return y reached alive stop =
    let f = Steps-IsWellFormed (Reach-IsJoined reached).steps in
    Returns-Ends (serve_can_return y.serving (Reach-serving reached) stop) y refl
      (λ p t at. let (count, c) = f.sound p t at in IsConsistent-Finishes count t c (alive p t at))
