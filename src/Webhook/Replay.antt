-- ===== src/Webhook/Replay.antt =====
-- kenjutsu/server/webhook.py: a delivery that comes again.
use kenjutsu.Base.{
  ℕ, String, true, ◌≡◌, refl, sym, ◌∙◌, some, List, [], ◌∷◌, ◌++◌, arith, Option-cases, Bool-cases,
  inl, inr, subst, some_eq, beq_refl, ◌==◌, string_eq,
}
use kenjutsu.Webhook.{
  Builtins, Request, Installation, WebhookEvent, Task, Delivery, answer, Server, filled, checked,
  resolved, is_stored, dispatch, persist, receive_webhook, event_of,
}
use kenjutsu.Webhook.Payload.{null, get_field}
use kenjutsu.Webhook.Routing.{
  review_key, route_event, take_task, run_task, Step, received, dispatched, due, ended, take_step,
  serve,
}
use kenjutsu.Webhook.Refusal.{checked-no_answer, resolved-no_answer}
use kenjutsu.Webhook.Stored.{Outcome-cases, checked-Genuine}

abbrev StoredIn : String → Server → Type 0
StoredIn delivery_id s = is_stored delivery_id s.events ≡ true

is_stored-append :
    (delivery_id : String) (xs ys : List WebhookEvent)
    → is_stored delivery_id xs ≡ true
    → is_stored delivery_id (xs ++ ys) ≡ true
unfolding is_stored
is_stored-append delivery_id [] ys h = absurd (ground (arith, h))
is_stored-append delivery_id (x ∷ xs) ys h = elim (Bool-cases (x.delivery_id == delivery_id)) [
  | inl y ↦ rw y refl
  | inr n ↦ rw n (is_stored-append delivery_id xs ys (rw n at h))
]

is_stored-last :
    (e : WebhookEvent) (xs : List WebhookEvent) → is_stored e.delivery_id (xs ++ e ∷ []) ≡ true
unfolding is_stored
is_stored-last e [] = rw (beq_refl e.delivery_id) refl
is_stored-last e (x ∷ xs) = rw (is_stored-last e xs) (ground arith)

dispatch-events : (d : Delivery) (s : Server) → (dispatch d s).1.events ≡ s.events
unfolding dispatch
dispatch-events d s = elim (Option-cases (get_field d.payload "action" null)) [
  | inl e ↦ rw (e, dispatch) refl
  | inr (action, e) ↦ rw (e, dispatch) refl
]

persist-Stored :
    (d : Delivery) (i : Installation) (s : Server) → StoredIn d.delivery_id (persist d i s).1
unfolding persist
persist-Stored d i s = elim (Bool-cases (is_stored d.delivery_id s.events)) [
  | inl y ↦ rw y y
  | inr n ↦ rw n (
      rw (dispatch-events d (record s { events = s.events ++ event_of d i ∷ [] }))
        (is_stored-last (event_of d i) s.events))
]

persist-keeps :
    (delivery_id : String) (d : Delivery) (i : Installation) (s : Server)
    → StoredIn delivery_id s
    → StoredIn delivery_id (persist d i s).1
unfolding persist
persist-keeps delivery_id d i s h = elim (Bool-cases (is_stored d.delivery_id s.events)) [
  | inl y ↦ rw y h
  | inr n ↦ rw n (
      rw (dispatch-events d (record s { events = s.events ++ event_of d i ∷ [] }))
        (is_stored-append delivery_id s.events _ h))
]

receive_webhook-keeps :
    (b : Builtins) (delivery_id : String) (r : Request) (s : Server)
    → StoredIn delivery_id s
    → StoredIn delivery_id (receive_webhook b r s).1
unfolding receive_webhook
receive_webhook-keeps b delivery_id r s h = elim (Outcome-cases (checked b r)) [
  | inr (_, e) ↦ rw (e, receive_webhook) h
  | inl (d, e) ↦
      rw (e, receive_webhook)
        (elim (Outcome-cases (resolved b s.installations d.payload)) [
          | inr (_, f) ↦ rw (f, receive_webhook) h
          | inl (i, f) ↦ rw (f, receive_webhook) (persist-keeps delivery_id d i s h)
        ])
]

route_event-events : (b : Builtins) (t : Task) (s : Server) → (route_event b t s).events ≡ s.events
unfolding route_event
route_event-events b t s = elim (Option-cases (review_key b t.event_type t.action t.payload)) [
  | inl e ↦ rw (e, route_event) refl
  | inr (k, e) ↦ rw (e, route_event) refl
]

run_task-events : (b : Builtins) (i : ℕ) (s : Server) → (run_task b i s).events ≡ s.events
unfolding run_task
run_task-events b i s = elim (Option-cases (take_task i s.background)) [
  | inl e ↦ rw (e, run_task) refl
  | inr ((t, rest), e) ↦ rw (e, run_task) (route_event-events b t (record s { background = rest }))
]

serve-keeps :
    (b : Builtins) (delivery_id : String) (s : Server) (es : List Step)
    → StoredIn delivery_id s
    → StoredIn delivery_id (serve b s es)
unfolding serve take_step
serve-keeps b delivery_id s [] h = h
serve-keeps b delivery_id s (received r ∷ es) h =
    serve-keeps b delivery_id (receive_webhook b r s).1 es
      (receive_webhook-keeps b delivery_id r s h)
serve-keeps b delivery_id s (dispatched i ∷ es) h =
    serve-keeps b delivery_id (run_task b i s) es (rw (run_task-events b i s) h)
serve-keeps b delivery_id s (due handle ∷ es) h =
    serve-keeps b delivery_id (take_step b s (due handle)) es h
serve-keeps b delivery_id s (ended task ∷ es) h =
    serve-keeps b delivery_id (take_step b s (ended task)) es h

accepted-Stored :
    (b : Builtins) (r : Request) (s : Server) (delivery_id : String)
    → filled r.delivery ≡ some delivery_id
    → (receive_webhook b r s).0 ≡ answer "accepted"
    → StoredIn delivery_id (receive_webhook b r s).1
unfolding receive_webhook
accepted-Stored b r s delivery_id k h = elim (Outcome-cases (checked b r)) [
  | inr (response, e) ↦
      absurd (checked-no_answer b r response "accepted" e (rw (e, receive_webhook) at h))
  | inl (d, e) ↦ elim (Outcome-cases (resolved b s.installations d.payload)) [
    | inr (response, f) ↦ absurd (
        resolved-no_answer b s.installations d.payload response "accepted" f
          (rw (e, f, receive_webhook) at h))
    | inl (i, f) ↦
        let same : d.delivery_id ≡ delivery_id =
          some_eq (sym (checked-Genuine b r d e).delivery_header ∙ k) in
        rw (e, f, receive_webhook)
          (subst (λ x. StoredIn x (persist d i s).1) same (persist-Stored d i s))
  ]
]

stored-unchanged :
    (b : Builtins) (r : Request) (s : Server) (delivery_id : String)
    → filled r.delivery ≡ some delivery_id
    → StoredIn delivery_id s
    → (receive_webhook b r s).1 ≡ s
unfolding receive_webhook persist
stored-unchanged b r s delivery_id k h = elim (Outcome-cases (checked b r)) [
  | inr (_, e) ↦ rw (e, receive_webhook) refl
  | inl (d, e) ↦
      rw (e, receive_webhook)
        (elim (Outcome-cases (resolved b s.installations d.payload)) [
          | inr (_, f) ↦ rw (f, receive_webhook) refl
          | inl (i, f) ↦
              let same : delivery_id ≡ d.delivery_id =
                some_eq (sym k ∙ (checked-Genuine b r d e).delivery_header) in
              rw (f, receive_webhook) (rw (subst (λ x. is_stored x s.events ≡ true) same h) refl)
        ])
]

-- A delivery that was accepted is handled once: whatever happens to the server meanwhile, a request with
-- the same delivery id leaves the server as it is, with no event, no task and no timer more.
pub receive_webhook-replay :
    (b : Builtins) (s : Server) (r again : Request) (es : List Step) (delivery_id : String)
    → filled r.delivery ≡ some delivery_id
    → filled again.delivery ≡ some delivery_id
    → (receive_webhook b r s).0 ≡ answer "accepted"
    → (receive_webhook b again (serve b (receive_webhook b r s).1 es)).1
      ≡ serve b (receive_webhook b r s).1 es
receive_webhook-replay b s r again es delivery_id k l h =
    stored-unchanged b again (serve b (receive_webhook b r s).1 es) delivery_id l (
      serve-keeps b delivery_id (receive_webhook b r s).1 es
        (accepted-Stored b r s delivery_id k h))
