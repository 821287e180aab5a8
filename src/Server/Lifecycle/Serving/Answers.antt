-- ===== src/Server/Lifecycle/Serving/Answers.antt =====
-- How `Serve` of internal/server/server.go ends, and that it can.
use fizzled_go.Prelude.{
  ◌≡◌, ◌≢◌, refl, sym, ap, subst, ◌⊎◌, inl, inr, Bool, true, false, not, Option, none, some, [],
  ◌∷◌, arith, eq_of_some_eq, Bool-cases,
}
use fizzled_go.Errors.{GoError, error_is, server_stopped, shutdown_grace_elapsed}
use fizzled_go.Server.Lifecycle.Serving.{
  Main, selecting, shutting, cut_off, awaiting, returned, Stopper, idle, finished, Serving,
  serve_result, Event, transport_returns, ctx_ends, takes_error, sees_done, jobs_stop,
  transport_drains, sees_stopped, grace_elapses, takes_late_error, step, Reach, serving, next,
  sees_stopped_at, takes_late_at,
}

-- The error is in hand, or still on its way through the channel.
abbrev pub InHand : Option (Option GoError) → (served transport : Option (Option GoError)) → Type 0
InHand none served transport = served ≡ transport
InHand (some e) served transport = transport ≡ some e

-- What holds where `Serve` stands.
abbrev pub Placed : Main → Serving → Type 0
Placed selecting s = (s.stopper ≡ idle) × (s.is_cut ≡ false) × (s.served ≡ s.transport)
Placed (shutting e) s = (s.stopper ≢ idle) × (s.is_cut ≡ false) × InHand e s.served s.transport
Placed (cut_off e) s = (s.stopper ≢ idle) × (s.is_cut ≡ true) × InHand e s.served s.transport
Placed (awaiting drained) s =
    (s.stopper ≡ finished) × (s.is_cut ≡ not drained) × (s.served ≡ s.transport)
Placed (returned r) s =
    (s.stopper ≡ finished)
    × ((e : Option GoError) × (s.transport ≡ some e) × (r ≡ serve_result e (not s.is_cut)))

abbrev pub IsPlaced : Serving → Type 0
IsPlaced s = Placed s.main s

-- The state by its fields.
abbrev pub at :
    Main → Stopper → Option (Option GoError) → Option (Option GoError) → Bool → Bool → Serving
at m st sv tr done cut = record {
  main = m;
  stopper = st;
  served = sv;
  transport = tr;
  ctx_done = done;
  is_cut = cut;
}

sees_stopped-IsPlaced :
    (m : Main) (st : Stopper) (sv tr : Option (Option GoError)) (done cut : Bool) {t : Serving}
    → IsPlaced (at m st sv tr done cut)
    → sees_stopped_at m st (at m st sv tr done cut) ≡ some t
    → IsPlaced t
sees_stopped-IsPlaced (shutting none) finished sv tr done cut (_, whole, same) h =
    subst IsPlaced (eq_of_some_eq h) (refl, whole, same)
sees_stopped-IsPlaced (shutting (some e)) finished sv tr done cut (_, whole, same) h =
    subst IsPlaced (eq_of_some_eq h) (refl, (e, same, ap (λ c. serve_result e (not c)) (sym whole)))
sees_stopped-IsPlaced (cut_off none) finished sv tr done cut (_, short, same) h =
    subst IsPlaced (eq_of_some_eq h) (refl, short, same)
sees_stopped-IsPlaced (cut_off (some e)) finished sv tr done cut (_, short, same) h =
    subst IsPlaced (eq_of_some_eq h) (refl, (e, same, ap (λ c. serve_result e (not c)) (sym short)))
sees_stopped-IsPlaced m st sv tr done cut p h = absurd (ground arith)

late-IsPlaced :
    (m : Main) (st : Stopper) (sv tr : Option (Option GoError)) (done cut : Bool) {t : Serving}
    → IsPlaced (at m st sv tr done cut)
    → takes_late_at m sv (at m st sv tr done cut) ≡ some t
    → IsPlaced t
late-IsPlaced (awaiting true) st (some e) tr done cut (over, short, same) h =
    subst IsPlaced (eq_of_some_eq h)
      (over, (e, sym same, ap (λ c. serve_result e (not c)) (sym short)))
late-IsPlaced (awaiting false) st (some e) tr done cut (over, short, same) h =
    subst IsPlaced (eq_of_some_eq h)
      (over, (e, sym same, ap (λ c. serve_result e (not c)) (sym short)))
late-IsPlaced m st sv tr done cut p h = absurd (ground arith)

step-IsPlaced :
    (m : Main) (st : Stopper) (sv tr : Option (Option GoError)) (done cut : Bool) (e : Event)
    {t : Serving}
    → IsPlaced (at m st sv tr done cut)
    → step e (at m st sv tr done cut) ≡ some t
    → IsPlaced t
unfolding step
step-IsPlaced m st sv tr done cut sees_stopped p h = sees_stopped-IsPlaced m st sv tr done cut p h
step-IsPlaced m st sv tr done cut (transport_returns e) p h = ground arith
step-IsPlaced m st sv tr done cut ctx_ends p h = ground arith
step-IsPlaced m st sv tr done cut takes_error p h = ground arith
step-IsPlaced m st sv tr done cut sees_done p h = ground arith
step-IsPlaced m st sv tr done cut jobs_stop p h = ground arith
step-IsPlaced m st sv tr done cut transport_drains p h = ground arith
step-IsPlaced m st sv tr done cut grace_elapses p h = ground arith
step-IsPlaced m st sv tr done cut takes_late_error p h = late-IsPlaced m st sv tr done cut p h

pub Reach-IsPlaced : {s : Serving} → Reach s → IsPlaced s
Reach-IsPlaced serving = (refl, refl, refl)
Reach-IsPlaced (next {s} e r h) =
    step-IsPlaced s.main s.stopper s.served s.transport s.ctx_done s.is_cut e (Reach-IsPlaced r) h

-- What the transport's `Serve` returned, where it was stopped: nil, or an error that says so.
abbrev pub WasStopped : Serving → Type 0
WasStopped s =
    (s.transport ≡ some none)
    ⊎ ((e : GoError) × (s.transport ≡ some (some e)) × (error_is e server_stopped ≡ true))

-- The three ways to return: drained, cut off, or with the transport's own error. What the transport
-- returned tells the last from the others.
abbrev pub Drained : Serving → Option GoError → Type 0
Drained s r = (r ≡ none) × (s.is_cut ≡ false) × WasStopped s

abbrev pub CutOff : Serving → Option GoError → Type 0
CutOff s r = (r ≡ some (shutdown_grace_elapsed ∷ [])) × (s.is_cut ≡ true) × WasStopped s

abbrev pub Failed : Serving → Option GoError → Type 0
Failed s r =
    (e : GoError) × (r ≡ some e)
    × (s.transport ≡ some (some e))
    × (error_is e server_stopped ≡ false)

serve_result-cases :
    (s : Serving) (e r : Option GoError)
    → s.transport ≡ some e
    → r ≡ serve_result e (not s.is_cut)
    → Drained s r ⊎ (CutOff s r ⊎ Failed s r)
unfolding serve_result
serve_result-cases s none r h k = elim (Bool-cases s.is_cut) [
  | inl cut ↦ inr (inl (ground arith, cut, inl h))
  | inr whole ↦ inl (ground arith, whole, inl h)
]
serve_result-cases s (some e) r h k = elim (Bool-cases (error_is e server_stopped)) [
  | inr own ↦ inr (inr (e, ground arith, h, own))
  | inl ours ↦ elim (Bool-cases s.is_cut) [
    | inl cut ↦ inr (inl (ground arith, cut, inr (e, h, ours)))
    | inr whole ↦ inl (ground arith, whole, inr (e, h, ours))
  ]
]

-- Where `Serve` has returned, the service's `Shutdown` and then the transport's `GracefulStop` have
-- returned, and so has the transport's `Serve`. When that returned an error other than that the
-- transport was stopped, the result is that error. When it returned nil, or that the transport was
-- stopped, the result is nil if the transport was not cut off, and the elapsed grace if it was.
pub serve_answers :
    (s : Serving) (r : Option GoError)
    → Reach s
    → s.main ≡ returned r
    → (s.stopper ≡ finished) × (Drained s r ⊎ (CutOff s r ⊎ Failed s r))
serve_answers s r reached h =
    let (over, (e, transport, result)) = subst (λ m. Placed m s) h (Reach-IsPlaced reached) in
    (over, serve_result-cases s e r transport result)
