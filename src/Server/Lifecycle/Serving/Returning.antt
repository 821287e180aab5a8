-- ===== src/Server/Lifecycle/Serving/Returning.antt =====
-- That `Serve` of internal/server/server.go can always return once its context ends.
use fizzled_go.Prelude.{◌≡◌, ◌≢◌, refl, sym, ◌⊎◌, inl, inr, Bool, true, false, Option, none, some}
use fizzled_go.Errors.{GoError}
use fizzled_go.Server.Lifecycle.Serving.{
  Main, selecting, shutting, cut_off, awaiting, returned, Stopper, idle, stopping_jobs, draining,
  finished, Serving, serve_result, Event, transport_returns, takes_error, sees_done, jobs_stop,
  transport_drains, sees_stopped, takes_late_error, step, Reach, behind_shutdown, grace_elapses,
}
use fizzled_go.Server.Lifecycle.Serving.Answers.{at, IsPlaced, Reach-IsPlaced, InHand}

-- Steps that lead to the return, none of which is the end of the grace.
pub data Returns : Serving → Type 0 where
  here : {s : Serving} (r : Option GoError) → s.main ≡ returned r → Returns s
  by : {s t : Serving} (e : Event) → e ≢ grace_elapses → step e s ≡ some t → Returns t → Returns s

late-Returns :
    (drained : Bool) (st : Stopper) (sv tr : Option (Option GoError)) (done cut : Bool)
    → sv ≡ tr
    → Returns (at (awaiting drained) st sv tr done cut)
unfolding step
late-Returns drained st (some e) tr done cut h =
    by takes_late_error (λ q. cc) refl (here (serve_result e drained) refl)
late-Returns drained st none none done cut h =
    by (transport_returns none) (λ q. cc) refl
      (by takes_late_error (λ q. cc) refl (here (serve_result none drained) refl))
late-Returns drained st none (some e) done cut h = absurd (cc)

behind-Returns :
    (e : Option (Option GoError)) (drained : Bool) (sv tr : Option (Option GoError))
    (done cut : Bool)
    → InHand e sv tr
    → Returns (at (behind_shutdown e drained) finished sv tr done cut)
behind-Returns none drained sv tr done cut h = late-Returns drained finished sv tr done cut h
behind-Returns (some e) drained sv tr done cut h = here (serve_result e drained) refl

-- Once the stopping goroutine has begun, whether the grace has elapsed or not.
abbrev is_stopping : Bool → Option (Option GoError) → Main
is_stopping true e = shutting e
is_stopping false e = cut_off e

finished-Returns :
    (whole : Bool) (e : Option (Option GoError)) (sv tr : Option (Option GoError)) (done cut : Bool)
    → InHand e sv tr
    → Returns (at (is_stopping whole e) finished sv tr done cut)
unfolding step
finished-Returns true e sv tr done cut h =
    by sees_stopped (λ q. cc) refl (behind-Returns e true sv tr done cut h)
finished-Returns false e sv tr done cut h =
    by sees_stopped (λ q. cc) refl (behind-Returns e false sv tr done cut h)

draining-Returns :
    (whole : Bool) (e : Option (Option GoError)) (sv tr : Option (Option GoError)) (done cut : Bool)
    → InHand e sv tr
    → Returns (at (is_stopping whole e) draining sv tr done cut)
unfolding step
draining-Returns whole e sv tr done cut h =
    by transport_drains (λ q. cc) refl (finished-Returns whole e sv tr done cut h)

stopped-Returns :
    (whole : Bool) (e : Option (Option GoError)) (st : Stopper) (sv tr : Option (Option GoError))
    (done cut : Bool)
    → st ≢ idle
    → InHand e sv tr
    → Returns (at (is_stopping whole e) st sv tr done cut)
unfolding step
stopped-Returns whole e idle sv tr done cut n h = absurd (n refl)
stopped-Returns whole e finished sv tr done cut n h = finished-Returns whole e sv tr done cut h
stopped-Returns whole e draining sv tr done cut n h = draining-Returns whole e sv tr done cut h
stopped-Returns whole e stopping_jobs sv tr done cut n h =
    by jobs_stop (λ q. cc) refl (draining-Returns whole e sv tr done cut h)

placed-Returns :
    (m : Main) (st : Stopper) (sv tr : Option (Option GoError)) (done cut : Bool)
    → IsPlaced (at m st sv tr done cut)
    → (done ≡ true) ⊎ (tr ≢ none)
    → Returns (at m st sv tr done cut)
unfolding step
placed-Returns (returned r) st sv tr done cut p h = here r refl
placed-Returns (awaiting drained) st sv tr done cut (_, _, same) h =
    late-Returns drained st sv tr done cut same
placed-Returns (shutting e) st sv tr done cut (n, _, hand) h =
    stopped-Returns true e st sv tr done cut n hand
placed-Returns (cut_off e) st sv tr done cut (n, _, hand) h =
    stopped-Returns false e st sv tr done cut n hand
placed-Returns selecting st (some e) tr done cut (_, _, same) h =
    by takes_error (λ q. cc) refl
      (stopped-Returns true (some e) stopping_jobs none tr done cut (λ q. cc) (sym same))
placed-Returns selecting st none tr true cut (_, _, same) h =
    by sees_done (λ q. cc) refl
      (stopped-Returns true none stopping_jobs none tr true cut (λ q. cc) same)
placed-Returns selecting st none tr false cut (_, _, same) (inl h) = absurd (cc)
placed-Returns selecting st none tr false cut (_, _, same) (inr h) = absurd (h (sym same))

-- From every state that `Serve` can be in once its context has ended or the transport's `Serve` has
-- returned, there are steps, none of them the end of the grace, after which it has returned.
pub serve_can_return :
    (s : Serving) → Reach s → (s.ctx_done ≡ true) ⊎ (s.transport ≢ none) → Returns s
serve_can_return s reached h =
    placed-Returns s.main s.stopper s.served s.transport s.ctx_done s.is_cut
      (Reach-IsPlaced reached) h
