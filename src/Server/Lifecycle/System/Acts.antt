-- ===== src/Server/Lifecycle/System/Acts.antt =====
-- What an act of `Serve` beside the registry comes to.
use fizzled_go.Prelude.{
  ℕ, ◌≡◌, refl, sym, ap, ◌∙◌, inl, inr, Bool, true, false, Option, none, some, List, arith,
  eq_of_some_eq, Option-cases, if◌then◌else◌,
}
use fizzled_go.Worker.Countdown.{Task}
use fizzled_go.Worker.Countdown
use fizzled_go.Registry.Shutdown.{begin_shutdown}
use fizzled_go.Server.Lifecycle.Serving.{Stopper, stopping_jobs, Serving}
use fizzled_go.Server.Lifecycle.System.{System, collects_at, with_serving, put_task, step_task}

pub serves_inv :
    (b : Bool) (y z : System) (o : Option Serving)
    → (if b then with_serving y o else none) ≡ some z
    → (b ≡ true) × ((s : Serving) × (o ≡ some s) × (record y { serving = s } ≡ z))
serves_inv true y z none h = absurd (cc)
serves_inv true y z (some s) h = (refl, (s, refl, eq_of_some_eq h))
serves_inv false y z o h = absurd (cc)

pub put_inv :
    (e : Countdown.Event) (y z : System) (p : ℕ) (o : Option Task)
    → put_task y p (step_task e o) ≡ some z
    → (t : Task) × (u : Task) × (o ≡ some t)
      × (Countdown.step e t ≡ some u)
      × (put_task y p (some u) ≡ some z)
put_inv e y z p none h = absurd (cc)
put_inv e y z p (some t) h = elim (Option-cases (Countdown.step e t)) [
  | inr (u, s) ↦ (t, u, refl, s, ap (put_task y p) (sym s) ∙ h)
  | inl s ↦ absurd (cc s)
]

pub collects_inv :
    (st : Stopper) (c : Option (List ℕ)) (y z : System)
    → collects_at st c y ≡ some z
    → (c ≡ none)
      × (st ≡ stopping_jobs)
      × (record y {
        world = (begin_shutdown y.world).0;
        collected = some (begin_shutdown y.world).1;
      }
          ≡ z)
collects_inv stopping_jobs none y z h = (refl, refl, eq_of_some_eq h)
collects_inv st c y z h = absurd (ground arith)
