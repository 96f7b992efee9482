-- ===== src/Webhook/Origin.antt =====
-- kenjutsu/server/webhook.py: where stored events, background tasks and reviews come from.
use kenjutsu.Base.{
  ℕ, zero, suc, String, ◌≡◌, refl, Option, none, some, List, [], ◌∷◌, ◌++◌, All, All-append, In,
  Option-cases, Bool-cases, inl, inr, subst,
}
use kenjutsu.Debounce.{PrKey, new_manager}
use kenjutsu.Debounce.Keys.{
  Keyed, schedule-Keyed, timer_due-Keyed, run_ends-Keyed, new_manager-Keyed,
}
use kenjutsu.Webhook.{
  Builtins, Request, Installation, WebhookEvent, Task, Delivery, Server, checked, resolved,
  is_stored, dispatch, persist, receive_webhook, event_of,
}
use kenjutsu.Webhook.Payload.{null, get_field}
use kenjutsu.Webhook.Routing.{
  review_key, route_event, take_task, run_task, Step, received, dispatched, due, ended, take_step,
  serve,
}
use kenjutsu.Webhook.Stored.{Genuine, Outcome-cases, checked-Genuine}

module _ (b : Builtins) (P : Request → Type 0) where
  -- A stored event is what a request with a valid signature says.
  abbrev pub EventFrom : WebhookEvent → Type 0
  EventFrom e = (r : Request) × P r × Genuine b r e.event_type e.delivery_id e.payload_json

  abbrev pub TaskFrom : Task → Type 0
  TaskFrom t =
      (get_field t.payload "action" null ≡ some t.action)
      × (r : Request) × (delivery : String) × P r
      × Genuine b r t.event_type delivery t.payload

  -- A review is of the pull request that a task is about, one that came from such a request.
  abbrev pub ReviewFrom : PrKey → Type 0
  ReviewFrom k = (t : Task) × (review_key b t.event_type t.action t.payload ≡ some k) × TaskFrom t

  pub record Origin (s : Server) : Type 0 where
    pub events : All EventFrom s.events
    pub background : All TaskFrom s.background
    pub reviews : Keyed ReviewFrom s.manager

  dispatch-Origin :
      (r : Request) (d : Delivery) (s : Server)
      → P r
      → Genuine b r d.event_type d.delivery_id d.payload
      → Origin s
      → Origin (dispatch d s).1
  unfolding dispatch
  dispatch-Origin r d s p g w = elim (Option-cases (get_field d.payload "action" null)) [
    | inl e ↦ rw (e, dispatch) w
    | inr (action, e) ↦
        rw (e, dispatch)
          (record {
            events = w.events;
            background =
                All-append TaskFrom s.background _ w.background ((e, r, d.delivery_id, p, g), tt);
            reviews = w.reviews;
          })
  ]

  persist-Origin :
      (r : Request) (d : Delivery) (i : Installation) (s : Server)
      → P r
      → Genuine b r d.event_type d.delivery_id d.payload
      → Origin s
      → Origin (persist d i s).1
  unfolding persist
  persist-Origin r d i s p g w = elim (Bool-cases (is_stored d.delivery_id s.events)) [
    | inl y ↦ rw y w
    | inr n ↦ rw n (
        dispatch-Origin r d (record s { events = s.events ++ event_of d i ∷ [] }) p g
          (record {
            events = All-append EventFrom s.events _ w.events ((r, p, g), tt);
            background = w.background;
            reviews = w.reviews;
          }))
  ]

  receive_webhook-Origin :
      (r : Request) (s : Server) → P r → Origin s → Origin (receive_webhook b r s).1
  unfolding receive_webhook
  receive_webhook-Origin r s p w = elim (Outcome-cases (checked b r)) [
    | inr (_, e) ↦ rw (e, receive_webhook) w
    | inl (d, e) ↦
        rw (e, receive_webhook)
          (elim (Outcome-cases (resolved b s.installations d.payload)) [
            | inr (_, f) ↦ rw (f, receive_webhook) w
            | inl (i, f) ↦
                rw (f, receive_webhook) (persist-Origin r d i s p (checked-Genuine b r d e) w)
          ])
  ]

  abbrev PickedFrom : Option (Task × List Task) → Type 0
  PickedFrom none = Unit {0}
  PickedFrom (some (t, rest)) = TaskFrom t × All TaskFrom rest

  take_task-From : (i : ℕ) (ts : List Task) → All TaskFrom ts → PickedFrom (take_task i ts)
  unfolding take_task
  take_task-From i [] w = tt
  take_task-From zero (t ∷ ts) w = w
  take_task-From (suc i) (t ∷ ts) w = elim (Option-cases (take_task i ts)) [
    | inl e ↦ rw (e, take_task) tt
    | inr ((u, us), e) ↦
        let (from, others) = subst PickedFrom e (take_task-From i ts w.1) in
        rw (e, take_task) (from, (w.0, others))
  ]

  route_event-Origin : (t : Task) (s : Server) → TaskFrom t → Origin s → Origin (route_event b t s)
  unfolding route_event
  route_event-Origin t s f w = elim (Option-cases (review_key b t.event_type t.action t.payload)) [
    | inl e ↦ rw (e, route_event) w
    | inr (k, e) ↦
        rw (e, route_event)
          (record {
            events = w.events;
            background = w.background;
            reviews = schedule-Keyed ReviewFrom s.manager k s.factories (t, e, f) w.reviews;
          })
  ]

  run_task-Origin : (i : ℕ) (s : Server) → Origin s → Origin (run_task b i s)
  unfolding run_task
  run_task-Origin i s w = elim (Option-cases (take_task i s.background)) [
    | inl e ↦ rw (e, run_task) w
    | inr ((t, rest), e) ↦
        let (from, others) = subst PickedFrom e (take_task-From i s.background w.background) in
        rw (e, run_task)
          (route_event-Origin t (record s { background = rest }) from
            (record { events = w.events; background = others; reviews = w.reviews }))
  ]

  abbrev Sends : Step → Type 0
  Sends (received r) = P r
  Sends _ = Unit {0}

  take_step-Origin : (s : Server) (e : Step) → Sends e → Origin s → Origin (take_step b s e)
  unfolding take_step
  take_step-Origin s (received r) p w = receive_webhook-Origin r s p w
  take_step-Origin s (dispatched i) p w = run_task-Origin i s w
  take_step-Origin s (due handle) p w = record {
    events = w.events;
    background = w.background;
    reviews = timer_due-Keyed ReviewFrom s.manager handle w.reviews;
  }
  take_step-Origin s (ended task) p w = record {
    events = w.events;
    background = w.background;
    reviews = run_ends-Keyed ReviewFrom s.manager task w.reviews;
  }

  serve-Origin-from :
      (s : Server) (es : List Step) → All Sends es → Origin s → Origin (serve b s es)
  unfolding serve
  serve-Origin-from s [] p w = w
  serve-Origin-from s (e ∷ es) p w =
      serve-Origin-from (take_step b s e) es p.1 (take_step-Origin s e p.0 w)

abbrev pub new_server : List Installation → Server
new_server installations = record {
  installations = installations;
  events = [];
  background = [];
  manager = new_manager;
  factories = 0;
}

All-received :
    (P : Request → Type 0) (b : Builtins) (es : List Step)
    → ((r : Request) → In (received r) es → P r)
    → All (Sends b P) es
All-received P b [] h = tt
All-received P b (e ∷ es) h = (sends e h, All-received P b es (λ r m. h r (inr m)))
  where
    sends : (e : Step) → ((r : Request) → In (received r) (e ∷ es) → P r) → Sends b P e
    sends (received r) h = h r (inl refl)
    sends (dispatched i) h = tt
    sends (due handle) h = tt
    sends (ended task) h = tt

-- Whatever requests, turns of tasks, timers and ends of reviews the server sees: each stored event,
-- background task, timer and running review stems from a request it received whose signature is valid
-- under a configured secret: the event is what that request says, and a timer or a review is of the pull
-- request that such a request names, in an event that is to start a review.
pub serve-Origin :
    (b : Builtins) (installations : List Installation) (es : List Step)
    → Origin b (λ r. In (received r) es) (serve b (new_server installations) es)
serve-Origin b installations es =
    serve-Origin-from b (λ r. In (received r) es) (new_server installations) es
      (All-received (λ r. In (received r) es) b es (λ r m. m))
      (record {
        events = tt;
        background = tt;
        reviews = new_manager-Keyed (ReviewFrom b (λ r. In (received r) es));
      })
