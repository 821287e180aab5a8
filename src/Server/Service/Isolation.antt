-- ===== src/Server/Service/Isolation.antt =====
-- What the handlers of internal/server/service.go answer, and to whom.
use fizzled_go.Prelude.{
  ℕ, ◌≤◌, ◌≡◌, ◌≢◌, ◌⊎◌, inl, inr, refl, sym, ap, subst, eq_of_some_eq, ◌∙◌, Bytes, codes, Bool,
  true, false, ◌||◌, Bool-cases, none, some, Option-cases, [], ◌∷◌, get_elem?, arith, if◌then◌else◌,
}
use fizzled_go.Prelude.Int.{ℤ, pos, ltb_ℤ, leb_ℤ, ◌≤ℤ◌, ◌<ℤ◌}
use fizzled_go.Errors.{Result, ok, err, not_accepting_jobs, invalid_count, error_is}
use fizzled_go.Worker.Tick.{Status, running, completed, stopped, failed, progress, is_running}
use fizzled_go.Worker.Job.{max_count, new_job, fresh_job, default_mean_tick_interval}
use fizzled_go.Worker.Countdown.{Task}
use fizzled_go.Worker.Countdown.Invariant.{IsConsistent}
use fizzled_go.Worker.Countdown.Reach.{here}
use fizzled_go.Worker.Countdown.Stop.{stop_answer, stop_answer_final}
use fizzled_go.Registry.{World, create, find}
use fizzled_go.Registry.JobId.{NoSlash, job_id-injective}
use fizzled_go.Registry.Lookup.{next_id, created, create_made, create_invalid, create_closed}
use fizzled_go.Registry.Invariant.{IsWellFormed}
use fizzled_go.Registry.Ownership.{create_registers}
use fizzled_go.Server.Rpc.{
  internal, invalid_argument, unavailable, not_found, internal_error_message, reply, refuse,
  Context,
}
use fizzled_go.Server.Service.{
  WireStatus, status_running, status_unspecified, proto_status, wire_progress, proto_tick, find_job,
  invalid_count_message, start, started, get_status, stop, response_of, stop_response,
  stream_output,
}

-- What every handler that takes a job id answers when the id names no job of the agent's.
abbrev pub IsNotFound : Context → Bytes → World → Type 0
IsNotFound ctx job_id w =
    (get_status ctx job_id w ≡ refuse not_found (codes "job not found"))
    × (stop ctx job_id w ≡ (refuse not_found (codes "job not found"), w))
    × (stream_output ctx job_id w ≡ refuse not_found (codes "job not found"))

IsNotFound-of_find :
    (ctx : Context) (b job_id : Bytes) (w : World)
    → ctx.agent_id ≡ some b
    → find b job_id w ≡ none
    → IsNotFound ctx job_id w
unfolding get_status stop stream_output find_job
IsNotFound-of_find ctx b job_id w k h = (rw (k, h) refl, rw (k, h) refl, rw (k, h) refl)

-- In a well-formed world, and for agents whose ids hold no slash, a job that one agent finds is for
-- a call of every other agent as if it did not exist: `GetStatus`, `Stop` and
-- `StreamOutput` answer not found, and `Stop` changes nothing.
pub foreign_job_hidden :
    (a b job_id : Bytes) (p : ℕ) (w : World) (ctx : Context)
    → IsWellFormed w
    → NoSlash a
    → NoSlash b
    → find a job_id w ≡ some p
    → a ≢ b
    → ctx.agent_id ≡ some b
    → IsNotFound ctx job_id w
foreign_job_hidden a b job_id p w ctx f h k found n named = elim (Option-cases (find b job_id w)) [
  | inl missing ↦ IsNotFound-of_find ctx b job_id w named missing
  | inr (q, other) ↦
      let (x, _, e) = f.minted a job_id p found in
      let (y, _, d) = f.minted b job_id q other in
      absurd (n (job_id-injective a b x y h k (sym e ∙ d)).0)
]

reply_eq : {x y : Bytes} → reply x ≡ reply y → x ≡ y
reply_eq h = cc

never_reply :
    (b c : Bool) {job_id : Bytes}
    → (if b
        then refuse invalid_argument invalid_count_message
        else if c
        then refuse unavailable (codes "unavailable")
        else refuse internal internal_error_message)
      ≢ reply job_id
never_reply true c h = cc
never_reply false true h = cc
never_reply false false h = cc

pub started_reply :
    (w w' : World) (r : Result (Bytes × World)) (job_id : Bytes)
    → started w r ≡ (reply job_id, w')
    → r ≡ ok (job_id, w')
started_reply w w' (ok (id, v)) job_id h =
    let same : id ≡ job_id = reply_eq (ap (λ z. z.0) h) in
    let world : v ≡ w' = ap (λ z. z.1) h in rw (same, world) refl
started_reply w w' (err e) job_id h =
    absurd
      (never_reply (error_is e invalid_count) (error_is e not_accepting_jobs) (ap (λ z. z.0) h))

pub start_of :
    (ctx : Context) (agent : Bytes) (count : ℤ) (w : World)
    → ctx.agent_id ≡ some agent
    → start ctx count w ≡ started w (create false agent count w)
unfolding start
start_of ctx agent count w named = rw named refl

pub get_status_found :
    (ctx : Context) (agent job_id : Bytes) (w : World) (p : ℕ) (t : Task)
    → ctx.agent_id ≡ some agent
    → find agent job_id w ≡ some p
    → get_elem? w.tasks p ≡ some t
    → get_status ctx job_id w ≡ reply (proto_status t.job.status)
unfolding get_status find_job
get_status_found ctx agent job_id w p t named found at = rw (named, found, at) refl

-- In a well-formed world, and for a call that names its agent, a started job is there at once: under
-- an id that had found nothing before, the one that `Start` replies, `GetStatus` answers RUNNING to
-- the same caller, and `StreamOutput` finds the job.
pub start-get_status :
    (ctx : Context) (agent : Bytes) (count : ℤ) (w w' : World) (job_id : Bytes)
    → IsWellFormed w
    → ctx.agent_id ≡ some agent
    → start ctx count w ≡ (reply job_id, w')
    → (get_status ctx job_id w' ≡ reply status_running)
      × ((p : ℕ) × (stream_output ctx job_id w' ≡ reply p) × (find agent job_id w ≡ none))
unfolding start get_status find_job stream_output proto_status
start-get_status ctx agent count w w' job_id f named h =
    let made =
      started_reply w w' (create false agent count w) job_id
        (sym (start_of ctx agent count w named) ∙ h) in
    let (fresh, (p, t, found, at, _, status, _)) =
      create_registers false agent count w w' job_id f made in
    (
      get_status_found ctx agent job_id w' p t named found at
          ∙ ap (λ s. reply (proto_status s)) status,
      (p, rw (named, found) refl, fresh),
    )

abbrev out_of_range : ℤ → Bool
out_of_range count = leb_ℤ count (pos 0) || ltb_ℤ max_count count

new_job_refused :
    (id : Bytes) (count : ℤ)
    → out_of_range count ≡ true
    → new_job false id count default_mean_tick_interval ≡ err (invalid_count ∷ [])
unfolding new_job
new_job_refused id count h = rw h refl

new_job_made :
    (id : Bytes) (count : ℤ)
    → out_of_range count ≡ false
    → new_job false id count default_mean_tick_interval
      ≡ ok (fresh_job false id default_mean_tick_interval)
unfolding new_job
new_job_made id count h = rw h refl

-- The three ways in which `Start` answers.
abbrev pub StartAnswer : Context → ℤ → World → Type 0
StartAnswer ctx count w =
    ((w.is_accepting_jobs ≡ true)
      × (pos 1 ≤ℤ count)
      × (count ≤ℤ pos 100)
      × ((job_id : Bytes) × (w' : World) × (start ctx count w ≡ (reply job_id, w'))))
    ⊎ ((w.is_accepting_jobs ≡ true)
        × ((count <ℤ pos 1) ⊎ (pos 100 <ℤ count))
        × (start ctx count w
            ≡ (refuse invalid_argument (codes "count must be between 1 and 100"), w)))
    ⊎ ((w.is_accepting_jobs ≡ false)
        × (start ctx count w ≡ (refuse unavailable (codes "unavailable"), w)))

in_range : (count : ℤ) → out_of_range count ≡ false → (pos 1 ≤ℤ count) × (count ≤ℤ pos 100)
in_range count h = (ground arith, ground arith)

not_in_range : (count : ℤ) → out_of_range count ≡ true → (count <ℤ pos 1) ⊎ (pos 100 <ℤ count)
not_in_range count h = elim (Bool-cases (leb_ℤ count (pos 0))) [
  | inl low ↦ inl (ground arith)
  | inr high ↦ inr (ground arith)
]

-- For a call that names its agent, `Start` replies an id when jobs are accepted and the count is from 1 to 100; when jobs are accepted
-- and the count is not, it answers invalid argument; and when jobs are refused it answers
-- unavailable, whatever the count. An error changes nothing.
pub start_answers :
    (ctx : Context) (agent : Bytes) (count : ℤ) (w : World)
    → ctx.agent_id ≡ some agent
    → StartAnswer ctx count w
start_answers ctx agent count w named =
    let opened = start_of ctx agent count w named in
    elim (Bool-cases w.is_accepting_jobs) [
      | inr closed ↦
          inr (inr (closed, opened ∙ ap (started w) (create_closed false agent count w closed)))
      | inl accepting ↦ elim (Bool-cases (out_of_range count)) [
        | inl bad ↦ inr (
            inl (
              accepting,
              not_in_range count bad,
              opened
                  ∙ ap (started w) (
                      create_invalid false agent count w accepting
                        (new_job_refused (next_id agent w) count bad)),
            ))
        | inr good ↦
            let (low, high) = in_range count good in
            inl (
              accepting,
              low,
              high,
              (
                next_id agent w,
                created agent count (fresh_job false (next_id agent w) default_mean_tick_interval)
                    w,
                opened
                    ∙ ap (started w) (
                        create_made false agent count w accepting
                          (new_job_made (next_id agent w) count good)),
              ),
            )
      ]
    ]

-- A count up to the largest that a job accepts fits the int32 of the wire, so that the tick that is
-- sent holds the number that the job counted.
pub proto_tick-exact :
    (elapsed : ℤ) (n : ℕ)
    → n ≤ 100
    → proto_tick (progress elapsed (pos n)) ≡ wire_progress elapsed (pos n)
unfolding proto_tick
proto_tick-exact elapsed n h = ground arith

no_response : {s : WireStatus} → none ≢ some s
no_response h = cc

terminal_wire :
    (s : Status)
    → is_running s ≡ false
    → (proto_status s ≢ status_running) × (proto_status s ≢ status_unspecified)
unfolding proto_status
terminal_wire running h = absurd (cc)
terminal_wire completed h = (λ e. cc, λ e. cc)
terminal_wire stopped h = (λ e. cc, λ e. cc)
terminal_wire failed h = (λ e. cc, λ e. cc)

-- When `Stop` has an answer for a consistent job, that is a terminal status: neither RUNNING nor UNSPECIFIED.
pub stop_response_terminal :
    (count : ℕ) (t : Task) (s : WireStatus)
    → IsConsistent count t
    → stop_response t.job ≡ some s
    → (s ≢ status_running) × (s ≢ status_unspecified)
unfolding stop_response
stop_response_terminal count t s c h = elim (Option-cases (stop_answer t.job)) [
  | inl e ↦ absurd (no_response (ap response_of (sym e) ∙ h))
  | inr (a, e) ↦
      let (over, _) = stop_answer_final c e here in
      subst (λ r. (r ≢ status_running) × (r ≢ status_unspecified))
        (eq_of_some_eq (ap response_of (sym e) ∙ h)) (terminal_wire a over)
]
