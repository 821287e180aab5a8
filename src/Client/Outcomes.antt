-- ===== src/Client/Outcomes.antt =====
-- What a caller of internal/client learns of the server's answer.
use fizzled_go.Prelude.{
  ◌≡◌, ◌↔◌, ◌⊎◌, inl, inr, refl, ap, ◌∙◌, Bytes, Bool, true, false, ◌||◌, Bool-cases, some, arith,
  [], ◌∷◌,
}
use fizzled_go.Prelude.Int.{ℤ, pos, negsuc, ltb_ℤ, int32-exact, ◌≤ℤ◌, ◌<ℤ◌}
use fizzled_go.Errors.{ok, err, eq_of_ok_eq, Sentinel}
use fizzled_go.Worker.Tick.{Status, running, completed, stopped, failed}
use fizzled_go.Registry.{World}
use fizzled_go.Server.Rpc.{Context, Answer, reply}
use fizzled_go.Server.Service.{
  WireStatus, status_unspecified, status_running, status_completed, status_stopped, status_failed,
  proto_status,
}
use fizzled_go.Server.Service.Isolation.{start_answers}
use fizzled_go.Server.Service
use fizzled_go.Client.{start, status_from, error_from}

status_written : (w : WireStatus) (s : Status) → status_from w ≡ ok s → w ≡ proto_status s
unfolding status_from proto_status
status_written status_running s h = ap proto_status (eq_of_ok_eq h)
status_written status_completed s h = ap proto_status (eq_of_ok_eq h)
status_written status_stopped s h = ap proto_status (eq_of_ok_eq h)
status_written status_failed s h = ap proto_status (eq_of_ok_eq h)
status_written status_unspecified s h = cc

status_read : (s : Status) → status_from (proto_status s) ≡ ok s
unfolding status_from proto_status
status_read running = refl
status_read completed = refl
status_read stopped = refl
status_read failed = refl

-- The client reads a status of the wire exactly as the one that the server wrote.
pub status_from_iff : (w : WireStatus) (s : Status) → (status_from w ≡ ok s) ↔ (w ≡ proto_status s)
status_from_iff w s = (status_written w s, λ e. rw e (status_read s))

abbrev pub is_wide : ℤ → Bool
is_wide count = ltb_ℤ count (negsuc 2_147_483_647) || ltb_ℤ (pos 2_147_483_647) count

wide_start :
    (send : ℤ → Answer Bytes) (count : ℤ)
    → is_wide count ≡ true
    → start send count ≡ err (Sentinel.invalid_argument ∷ [])
unfolding start
wide_start send count h = rw h refl

narrow_start :
    (send : ℤ → Answer Bytes) (count : ℤ)
    → is_wide count ≡ false
    → start send count ≡ error_from (send count)
unfolding start
narrow_start send count h = rw (h, int32-exact count (ground arith) (ground arith)) refl

wide_OutOfRange : (count : ℤ) → is_wide count ≡ true → (count <ℤ pos 1) ⊎ (pos 100 <ℤ count)
wide_OutOfRange count h = elim (Bool-cases (ltb_ℤ count (negsuc 2_147_483_647))) [
  | inl low ↦ inl (ground arith)
  | inr high ↦ inr (ground arith)
]

-- For a server that accepts jobs, and a call that names its agent, the client's `Start` gives the id
-- that the server replies when the count is from 1 to 100, and ErrInvalidArgument when it is any other
-- integer, also one that the wire cannot carry.
pub start_outcome :
    (ctx : Context) (agent : Bytes) (count : ℤ) (w : World) (send : ℤ → Answer Bytes)
    → ((n : ℤ) → send n ≡ (Service.start ctx n w).0)
    → ctx.agent_id ≡ some agent
    → w.is_accepting_jobs ≡ true
    → ((pos 1 ≤ℤ count)
        × (count ≤ℤ pos 100)
        × ((id : Bytes) × (w' : World) × (Service.start ctx count w ≡ (reply id, w'))
            × (start send count ≡ ok id)))
      ⊎ (((count <ℤ pos 1) ⊎ (pos 100 <ℤ count))
          × (start send count ≡ err (Sentinel.invalid_argument ∷ [])))
start_outcome ctx agent count w send sends named accepting = elim (Bool-cases (is_wide count)) [
  | inl wide ↦ inr (wide_OutOfRange count wide, wide_start send count wide)
  | inr narrow ↦
      let through = narrow_start send count narrow ∙ ap error_from (sends count) in
      elim (start_answers ctx agent count w named) [
        | inl (_, low, high, (id, w', e)) ↦
            inl (low, high, (id, w', e, through ∙ ap (λ z. error_from z.0) e))
        | inr (inl (_, bad, e)) ↦ inr (bad, through ∙ ap (λ z. error_from z.0) e)
        | inr (inr (closed, _)) ↦ absurd (cc)
      ]
]
