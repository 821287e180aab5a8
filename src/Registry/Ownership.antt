-- ===== src/Registry/Ownership.antt =====
-- Who finds what: a new job is found by its owner alone, under an id that was never in use.
use fizzled_go.Prelude.{
  ℕ, ◌≡◌, ◌≢◌, refl, sym, ap, ◌∙◌, inl, inr, Bytes, Bool, none, some, [], ◌∷◌, ◌++◌, arith, length,
  get_elem?, get_elem?-length, text_eq_iff, text_eq_refl, Option-cases, eq_of_some_eq,
}
use fizzled_go.Prelude.Decimal.{format_int-injective}
use fizzled_go.Prelude.Int.{ℤ}
use fizzled_go.Errors.{ok}
use fizzled_go.Worker.Tick.{running}
use fizzled_go.Worker.Job.{default_mean_tick_interval}
use fizzled_go.Worker.Countdown.{Task}
use fizzled_go.Worker.Countdown.Reach.{start, new_job-ok}
use fizzled_go.Registry.{World, create, find, job_id}
use fizzled_go.Registry.JobId.{NoSlash, job_id-injective}
use fizzled_go.Registry.Lookup.{counter_of, IsCreated, create-IsCreated}
use fizzled_go.Registry.Invariant.{IsWellFormed}

append_cancel : (a s t : Bytes) → a ++ s ≡ a ++ t → s ≡ t
append_cancel [] s t e = e
append_cancel (x ∷ a) s t e = append_cancel a s t (cc)

number_of_id : (a : Bytes) (n m : ℕ) → job_id a n ≡ job_id a m → n ≡ m
unfolding job_id
number_of_id a n m e = format_int-injective n m (cc (append_cancel a _ _ e))

-- The id that `create` mints is not one that its agent could find before.
fresh :
    {q : Bool} {a : Bytes} {count : ℤ} {w : World} {id : Bytes} {w' : World}
    → IsWellFormed w
    → IsCreated q a count w id w'
    → find a id w ≡ none
fresh {a} {w} {id} f c = elim (Option-cases (find a id w)) [
  | inl missing ↦ missing
  | inr (p, found) ↦
      let (n, low, e) = f.minted a id p found in
      absurd (omega (arith, number_of_id a n (counter_of a w) (sym e ∙ c.minted)))
]

-- In a well-formed world, a call of `Create` that succeeds mints an id under which its agent found
-- nothing before; under it the agent then finds the new job, which is RUNNING, bears that id and has
-- an empty buffer.
pub create_registers :
    (q : Bool) (a : Bytes) (count : ℤ) (w w' : World) (id : Bytes)
    → IsWellFormed w
    → create q a count w ≡ ok (id, w')
    → (find a id w ≡ none)
      × ((p : ℕ) × (t : Task) × (find a id w' ≡ some p)
          × (get_elem? w'.tasks p ≡ some t)
          × (t.job.id ≡ id)
          × (t.job.status ≡ running)
          × (t.job.ticks ≡ []))
create_registers q a count w w' id f h =
    let c = create-IsCreated q a count w id w' f.owns h in
    let new_one = fresh f c in
    let (made, _, _, _) = new_job-ok q id count default_mean_tick_interval c.job c.made in
    (
      new_one,
      (
        length w.tasks,
        start count c.job,
        ground (arith, c.finds a id, text_eq_refl a, text_eq_refl id),
        ap (λ ts. get_elem? ts (length w.tasks)) c.stored
            ∙ get_elem?-length w.tasks (start count c.job),
        rw made refl,
        rw made refl,
        rw made refl,
      ),
    )

-- In a well-formed world, what an agent found before a call of `Create`, it finds after it.
pub create_keeps :
    (q : Bool) (a b : Bytes) (count : ℤ) (w w' : World) (id j : Bytes) (p : ℕ)
    → IsWellFormed w
    → create q a count w ≡ ok (id, w')
    → find b j w ≡ some p
    → find b j w' ≡ some p
create_keeps q a b count w w' id j p f h old =
    let c = create-IsCreated q a count w id w' f.owns h in
    ground (arith, c.finds b j, text_eq_iff a b, text_eq_iff id j, fresh f c)

-- In a well-formed world, a call of `Create` that succeeds for one agent leaves what every other
-- agent finds as it was.
pub create_isolated :
    (q : Bool) (a b : Bytes) (count : ℤ) (w w' : World) (id j : Bytes)
    → IsWellFormed w
    → a ≢ b
    → create q a count w ≡ ok (id, w')
    → find b j w' ≡ find b j w
create_isolated q a b count w w' id j f n h =
    let c = create-IsCreated q a count w id w' f.owns h in
    ground (arith, c.finds b j, text_eq_iff a b)

-- In a well-formed world, two agents whose identifiers hold no slash find the same job only if they
-- are one agent, and under one id.
pub owner_unique :
    (a b id j : Bytes) (p : ℕ) (w : World)
    → IsWellFormed w
    → NoSlash a
    → NoSlash b
    → find a id w ≡ some p
    → find b j w ≡ some p
    → (a ≡ b) × (id ≡ j)
owner_unique a b id j p w f h k x y =
    let (t, at, named) = f.stored a id p x in
    let (u, at', named') = f.stored b j p y in
    let same : id ≡ j =
      sym named ∙ ap (λ (v : Task). v.job.id) (eq_of_some_eq (sym at ∙ at')) ∙ named' in
    let (n, _, e) = f.minted a id p x in
    let (m, _, e') = f.minted b j p y in
    ((job_id-injective a b n m h k (sym e ∙ same ∙ e')).0, same)
