-- ===== src/Server/Call/Effects.antt =====
-- What a call changes: at most, its agent has a job more, or one of the jobs is canceled.
use fizzled_go.Prelude.{
  ℕ, ◌≡◌, ◌⊎◌, inl, inr, sym, ap, ◌∙◌, Bytes, true, false, some, get_elem?, set, arith,
  Option-cases, Bool-cases, text_eq, text_eq_iff, ◌&&◌, length, if◌then◌else◌,
}
use fizzled_go.Prelude.Int.{ℤ}
use fizzled_go.Errors.{ok, Result-cases}
use fizzled_go.Worker.Countdown
use fizzled_go.Worker.Countdown.{Task, cancel, step, step_at}
use fizzled_go.Worker.Countdown.Stop.{request_stop, step-cancel}
use fizzled_go.Registry.{World, create, find}
use fizzled_go.Registry.Lookup.{create-IsCreated}
use fizzled_go.Registry.Invariant.{IsWellFormed, Steps, creates, job_steps, next, found-created}
use fizzled_go.Registry.Ownership.{create_registers}
use fizzled_go.Server.Rpc.{Context}
use fizzled_go.Server.Service.{start, stop, cancel_at, find_job}
use fizzled_go.Server.Service.Isolation.{start_of}
use fizzled_go.Server.Call.{
  Request, start_request, stop_request, get_status_request, stream_output_request, handle,
  handle_start, handle_stop,
}

pub record Changed (agent : Bytes) (w u : World) : Type 0 where
  pub steps : (v : World) → Steps v w → Steps v u
  -- What can be found was there, or is the agent's.
  pub finds : (b id : Bytes) (p : ℕ) → find b id u ≡ some p → (find b id w ≡ some p) ⊎ (b ≡ agent)
  -- What could be found still can.
  pub keeps : (b id : Bytes) (p : ℕ) → find b id w ≡ some p → find b id u ≡ some p

unchanged : (agent : Bytes) (w : World) → Changed agent w w
unchanged agent w = record { steps = λ v r. r; finds = λ b id p h. inl h; keeps = λ b id p h. h }

pub job_step-Changed :
    (agent : Bytes) (w : World) (p : ℕ) (t u : Task) (e : Countdown.Event)
    → get_elem? w.tasks p ≡ some t
    → step e t ≡ some u
    → Changed agent w (record w { tasks = set w.tasks p u })
unfolding find
job_step-Changed agent w p t u e h s = record {
  steps = λ v r. next r (job_steps p t u e h s);
  finds = λ b id q k. inl k;
  keeps = λ b id q k. k;
}

create-Changed :
    (agent : Bytes) (count : ℤ) (w u : World) (id : Bytes)
    → IsWellFormed w
    → create false agent count w ≡ ok (id, u)
    → Changed agent w u
create-Changed agent count w u id f h =
    let c = create-IsCreated false agent count w id u f.owns h in
    let (missing, _) = create_registers false agent count w u id f h in
    record {
      steps = λ v r. next r (creates false agent count id h);
      finds = λ b j p k. elim (found-created f c b j p k) [
        | inl (who, _, _) ↦ inr who
        | inr old ↦ inl old
      ];
      keeps = λ b j p k. elim (Bool-cases (text_eq agent b && text_eq id j)) [
        | inr other ↦
            c.finds b j ∙ ap (λ t. if t then some (length w.tasks) else find b j w) other ∙ k
        | inl both ↦
            let mine : agent ≡ b = (text_eq_iff agent b).0 (ground arith) in
            let new : id ≡ j = (text_eq_iff id j).0 (ground arith) in
            absurd (cc (sym missing ∙ ap (λ a. find a id w) mine ∙ ap (λ i. find b i w) new ∙ k))
      ];
    }

cancel-Changed : (agent : Bytes) (p : ℕ) (w : World) → Changed agent w (cancel_at w p)
unfolding request_stop
cancel-Changed agent p w = elim (Option-cases (get_elem? w.tasks p)) [
  | inl nothing ↦ rw nothing (unchanged agent w)
  | inr (t, at) ↦ rw at (
      job_step-Changed agent w p t (record t { job = record t.job { canceled = true } }) cancel at
        (step-cancel t))
]

module _ (ctx : Context) (agent : Bytes) (w : World) (f : IsWellFormed w)
    (named : ctx.agent_id ≡ some agent) where
  start-Changed : (count : ℤ) → Changed agent w (handle_start (start ctx count w)).1
  start-Changed count =
      rw (start_of ctx agent count w named) (elim (Result-cases (create false agent count w)) [
        | inl ((id, u), made) ↦ rw made (create-Changed agent count w u id f made)
        | inr (e, refused) ↦ rw refused (unchanged agent w)
      ])

  stop-Changed : (job_id : Bytes) → Changed agent w (handle_stop (stop ctx job_id w)).1
  unfolding stop find_job
  stop-Changed job_id = rw named (elim (Option-cases (find agent job_id w)) [
    | inl missing ↦ rw missing (unchanged agent w)
    | inr (p, found) ↦ rw found (cancel-Changed agent p w)
  ])

  pub handle-Changed : (request : Request) → Changed agent w (handle request ctx w).1
  unfolding handle
  handle-Changed (start_request count) = start-Changed count
  handle-Changed (stop_request job_id) = stop-Changed job_id
  handle-Changed (get_status_request job_id) = unchanged agent w
  handle-Changed (stream_output_request job_id) = unchanged agent w
