-- ===== src/Server/Service/Streaming/Sent.antt =====
-- What a client is sent of a job's output, by internal/server/service.go over internal/worker.
use fizzled_go.Prelude.{
  ◌≡◌, refl, sym, ap, ◌∙◌, subst, Bool, true, false, Option, none, some, List, [], ◌∷◌, ◌++◌,
  eq_of_some_eq, eq_of_if_some, Option-cases, ◌⊎◌, inl, inr, ◌≢◌,
}
use fizzled_go.Worker.Tick.{Tick}
use fizzled_go.Worker.Job.{Job}
use fizzled_go.Worker.Countdown.{Task, Event, step}
use fizzled_go.Worker.Subscriber.{
  Subscriber, Phase, locking, yielding, blocked, ended, End, refused, Act, go, ctx_ends, yields,
  act, act_at, read_batch, yield_one,
}
use fizzled_go.Worker.Stream
use fizzled_go.Worker.Stream.{System}
use fizzled_go.Worker.Stream.Runs.{subscribed}
use fizzled_go.Server.Service.{WireTick, proto_tick}
use fizzled_go.Server.Service.Streaming.{
  Sending, new_sending, Failure, Move, iterates, context_ends, sends, move, send_at,
  with_subscriber,
}

abbrev pub proto_ticks : List Tick → List WireTick
proto_ticks [] = []
proto_ticks (t ∷ ts) = proto_tick t ∷ proto_ticks ts

proto_ticks-append : (ts us : List Tick) → proto_ticks (ts ++ us) ≡ proto_ticks ts ++ proto_ticks us
proto_ticks-append [] us = refl
proto_ticks-append (t ∷ ts) us = ap (λ ws. proto_tick t ∷ ws) (proto_ticks-append ts us)

-- A handler that came to the job at this task, side by side with the job's goroutine.
pub data Sends (from : Task) : Task → Sending → Type 0 where
  opened : Sends from from new_sending
  job_moves :
      {t u : Task} {h : Sending} (e : Event) → Sends from t h → step e t ≡ some u → Sends from u h
  handler_moves :
      {t : Task} {h k : Sending} (m : Move)
      → Sends from t h
      → move m t.job h ≡ some k
      → Sends from t k

abbrev pub beside : Task → Sending → System
beside t h = record { task = t; subscriber = h.subscriber }

with_subscriber-some :
    (h : Sending) (o : Option Subscriber) {k : Sending}
    → with_subscriber h o ≡ some k
    → (o ≡ some k.subscriber) × (k.sent ≡ h.sent) × (k.failure ≡ h.failure)
with_subscriber-some h none e = absurd (cc)
with_subscriber-some h (some s) e =
    let same = eq_of_some_eq e in
    (ap (λ z. some z.subscriber) same, ap (λ z. z.sent) (sym same), ap (λ z. z.failure) (sym same))

abbrev wants : Option Failure → Bool
wants none = true
wants (some f) = false

send_at-act :
    (p : Phase) (outcome : Option Failure) (j : Job) (h : Sending) {k : Sending}
    → send_at p outcome h ≡ some k
    → act_at p (yields (wants outcome)) j h.subscriber ≡ some k.subscriber
unfolding send_at act_at
send_at-act locking outcome j h e = absurd (cc)
send_at-act (blocked wait) outcome j h e = absurd (cc)
send_at-act (ended r) outcome j h e = absurd (cc)
send_at-act (yielding [] b wait) outcome j h e = absurd (cc)
send_at-act (yielding (t ∷ ts) b wait) none j h e = ap (λ z. some z.subscriber) (eq_of_some_eq e)
send_at-act (yielding (t ∷ ts) b wait) (some f) j h e =
    ap (λ z. some z.subscriber) (eq_of_some_eq e)

-- A move of the handler is an act of its iteration.
move-act :
    (m : Move) (j : Job) (h : Sending) {k : Sending}
    → move m j h ≡ some k
    → (a : Act) × (act a j h.subscriber ≡ some k.subscriber)
unfolding move act
move-act iterates j h e = (go, (with_subscriber-some h (act go j h.subscriber) e).0)
move-act context_ends j h e = (ctx_ends, (with_subscriber-some h (act ctx_ends j h.subscriber) e).0)
move-act (sends outcome) j h e =
    (yields (wants outcome), send_at-act h.subscriber.phase outcome j h e)

-- So a handler beside a job is a subscriber beside it.
pub Sends-Reach :
    {from t : Task} {h : Sending} → Sends from t h → Stream.Reach (subscribed from) (beside t h)
Sends-Reach opened = Stream.here
Sends-Reach (job_moves e r p) = Stream.job_step e (Sends-Reach r) p
Sends-Reach (handler_moves {t} {h} m r p) =
    let (a, q) = move-act m t.job h p in Stream.subscriber_step a (Sends-Reach r) q

-- What was sent, by whether a Send failed: every tick handed over, or all but the last.
abbrev pub IsSentAs : Option Failure → Sending → Type 0
IsSentAs none h = h.sent ≡ proto_ticks h.subscriber.delivered
IsSentAs (some f) h =
    (h.subscriber.phase ≡ ended refused)
    × ((last : Tick) × (proto_ticks h.subscriber.delivered ≡ h.sent ++ proto_tick last ∷ []))

abbrev pub IsSent : Sending → Type 0
IsSent h = IsSentAs h.failure h

-- Going on, and the end of the context, hand nothing over, and happen only before the end.
quiet_act :
    (p : Phase) (j : Job) (s : Subscriber) {u : Subscriber}
    → (act_at p go j s ≡ some u) ⊎ (act_at p ctx_ends j s ≡ some u)
    → (u.delivered ≡ s.delivered) × ((r : End) → p ≢ ended r)
unfolding act_at read_batch
quiet_act locking j s (inl e) = (ap (λ z. z.delivered) (sym (eq_of_some_eq e)), λ r q. cc)
quiet_act locking j s (inr e) = absurd (cc)
quiet_act (yielding [] true wait) j s (inl e) =
    (ap (λ z. z.delivered) (sym (eq_of_some_eq e)), λ r q. cc)
quiet_act (yielding [] false wait) j s (inl e) =
    (ap (λ z. z.delivered) (sym (eq_of_some_eq e)), λ r q. cc)
quiet_act (yielding [] true wait) j s (inr e) = absurd (cc)
quiet_act (yielding [] false wait) j s (inr e) = absurd (cc)
quiet_act (yielding (t ∷ ts) b wait) j s (inl e) = absurd (cc)
quiet_act (yielding (t ∷ ts) b wait) j s (inr e) = absurd (cc)
quiet_act (blocked wait) j s (inl e) =
    (ap (λ z. z.delivered) (sym (eq_of_if_some (j.is_closed wait) e)), λ r q. cc)
quiet_act (blocked wait) j s (inr e) = (ap (λ z. z.delivered) (sym (eq_of_some_eq e)), λ r q. cc)
quiet_act (ended r) j s (inl e) = absurd (cc)
quiet_act (ended r) j s (inr e) = absurd (cc)

quiet-IsSent :
    (j : Job) (h : Sending) (o : Option Subscriber) {k : Sending}
    → IsSent h
    → ((u : Subscriber)
        → o ≡ some u
        → (u.delivered ≡ h.subscriber.delivered) × ((r : End) → h.subscriber.phase ≢ ended r))
    → with_subscriber h o ≡ some k
    → IsSent k
quiet-IsSent j h o {k} sent quiet e =
    let (p, same, failure) = with_subscriber-some h o e in
    let (delivered, going) = quiet k.subscriber p in
    elim (Option-cases h.failure) [
      | inl fine ↦
          let before : h.sent ≡ proto_ticks h.subscriber.delivered =
            subst (λ o. IsSentAs o h) fine sent in
          subst (λ o. IsSentAs o k) (sym (failure ∙ fine))
            (same ∙ before ∙ ap proto_ticks (sym delivered))
      | inr (f, failed) ↦ absurd (going refused (subst (λ o. IsSentAs o h) failed sent).0)
    ]

-- A handler whose range has not ended by a refusal has had no failure.
pub sending_none :
    (h : Sending)
    → IsSent h
    → h.subscriber.phase ≢ ended refused
    → (h.failure ≡ none) × (h.sent ≡ proto_ticks h.subscriber.delivered)
sending_none h sent going = elim (Option-cases h.failure) [
  | inl fine ↦ (fine, subst (λ o. IsSentAs o h) fine sent)
  | inr (f, failed) ↦ absurd (going (subst (λ o. IsSentAs o h) failed sent).0)
]

send_at-IsSent :
    (p : Phase) (outcome : Option Failure) (h : Sending) {k : Sending}
    → h.subscriber.phase ≡ p
    → IsSent h
    → send_at p outcome h ≡ some k
    → IsSent k
unfolding send_at yield_one
send_at-IsSent locking outcome h at sent e = absurd (cc)
send_at-IsSent (blocked wait) outcome h at sent e = absurd (cc)
send_at-IsSent (ended r) outcome h at sent e = absurd (cc)
send_at-IsSent (yielding [] b wait) outcome h at sent e = absurd (cc)
send_at-IsSent (yielding (t ∷ ts) b wait) none h at sent e =
    let (fine, before) = sending_none h sent (λ q. cc) in
    subst IsSent (eq_of_some_eq e) (
      subst
        (λ o. IsSentAs o (record h {
          subscriber = yield_one true t ts b wait h.subscriber;
          sent = h.sent ++ (proto_tick t ∷ []);
        }))
        (sym fine)
        (ap (λ ws. ws ++ proto_tick t ∷ []) before
          ∙ sym (proto_ticks-append h.subscriber.delivered (t ∷ []))))
send_at-IsSent (yielding (t ∷ ts) b wait) (some f) h at sent e =
    let (fine, before) = sending_none h sent (λ q. cc) in
    subst IsSent (eq_of_some_eq e) (
      refl,
      (
        t,
        proto_ticks-append h.subscriber.delivered (t ∷ [])
            ∙ ap (λ ws. ws ++ proto_tick t ∷ []) (sym before),
      ),
    )

move-IsSent :
    (m : Move) (j : Job) (h : Sending) {k : Sending} → IsSent h → move m j h ≡ some k → IsSent k
unfolding move act
move-IsSent iterates j h sent e =
    quiet-IsSent j h (act go j h.subscriber) sent
      (λ u p. quiet_act h.subscriber.phase j h.subscriber (inl p)) e
move-IsSent context_ends j h sent e =
    quiet-IsSent j h (act ctx_ends j h.subscriber) sent
      (λ u p. quiet_act h.subscriber.phase j h.subscriber (inr p)) e
move-IsSent (sends outcome) j h sent e = send_at-IsSent h.subscriber.phase outcome h refl sent e

pub Sends-IsSent : {from t : Task} {h : Sending} → Sends from t h → IsSent h
Sends-IsSent opened = refl
Sends-IsSent (job_moves e r p) = Sends-IsSent r
Sends-IsSent (handler_moves {t} {h} m r p) = move-IsSent m t.job h (Sends-IsSent r) p
