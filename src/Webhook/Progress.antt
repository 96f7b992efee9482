-- ===== src/Webhook/Progress.antt =====
-- kenjutsu/server/webhook.py with kenjutsu/server/debounce.py: a request that is to start a review does.
use kenjutsu.Base.{
  ℕ, String, Bool, false, ◌+◌, ◌≡◌, refl, sym, ap, ◌∙◌, some, List, [], ◌∷◌, ◌++◌, length, arith,
  Option-cases, Bool-cases, inl, inr, subst, ◌==◌, some_eq, beq_refl, nat_eq, string_eq, pair_eq,
}
use kenjutsu.Dict.{get, get-put}
use kenjutsu.Debounce.{
  PrKey, Timer, DebounceManager, cancel_pending, cancel_in_flight, start_timer, schedule, fire,
  timer_due,
}
use kenjutsu.Webhook.{
  WebhookEvent, loaded, Builtins, Request, Task, Delivery, Response, answer, Server, filled,
  checked, resolved, is_stored, dispatch, persist, receive_webhook, event_of,
}
use kenjutsu.Webhook.Payload.{Json, null, get_field}
use kenjutsu.Webhook.Routing.{
  review_key, route_event, take_task, run_task, received, dispatched, due, take_step, serve,
}
use kenjutsu.Webhook.Refusal.{checked-no_answer, resolved-no_answer}
use kenjutsu.Webhook.Stored.{Outcome-cases, checked-Genuine}

cancel_pending-handle :
    (m : DebounceManager) (k : PrKey) → (cancel_pending m k).1.next_handle ≡ m.next_handle
unfolding cancel_pending
cancel_pending-handle m k = elim (Option-cases (get m.pending k)) [
  | inl e ↦ rw (e, cancel_pending) refl
  | inr (h, e) ↦ rw (e, cancel_pending) refl
]

cancel_in_flight-handle :
    (m : DebounceManager) (k : PrKey) → (cancel_in_flight m k).1.next_handle ≡ m.next_handle
unfolding cancel_in_flight
cancel_in_flight-handle m k = elim (Option-cases (get m.in_flight k)) [
  | inl e ↦ rw (e, cancel_in_flight) refl
  | inr (h, e) ↦ rw (e, cancel_in_flight) refl
]

abbrev timer_of : PrKey → ℕ → Timer
timer_of k f = record { pr_key = k; coro_factory = f; cancelled = false }

abbrev pub task_of : PrKey → ℕ → kenjutsu.Debounce.Task
task_of k f = record { pr_key = k; coro_factory = f; cancelled = false }

start_timer-due :
    (m : DebounceManager) (k : PrKey) (f : ℕ)
    → get (timer_due (start_timer m k f) m.next_handle).tasks (m.next_handle + 1)
      ≡ some (task_of k f)
unfolding timer_due start_timer fire
start_timer-due m k f =
    let found : get (start_timer m k f).timers m.next_handle ≡ some (timer_of k f) =
      rw (get-put m.timers m.next_handle (timer_of k f) m.next_handle)
        (rw (beq_refl m.next_handle) refl) in
    rw (found, timer_due)
      (rw (get-put m.tasks (m.next_handle + 1) (task_of k f) (m.next_handle + 1))
        (rw (beq_refl (m.next_handle + 1)) refl))

-- A call of schedule and the timer it starts, when it is due.
schedule-due :
    (m : DebounceManager) (k : PrKey) (f : ℕ)
    → get (timer_due (schedule m k f) m.next_handle).tasks (m.next_handle + 1) ≡ some (task_of k f)
unfolding schedule
schedule-due m k f =
    let m' = (cancel_in_flight (cancel_pending m k).1 k).1 in
    let same : m'.next_handle ≡ m.next_handle =
      cancel_in_flight-handle (cancel_pending m k).1 k ∙ cancel_pending-handle m k in
    subst (λ n. get (timer_due (start_timer m' k f) n).tasks (n + 1) ≡ some (task_of k f)) same
      (start_timer-due m' k f)

take_task-last : (ts : List Task) (t : Task) → take_task (length ts) (ts ++ t ∷ []) ≡ some (t, ts)
unfolding take_task
take_task-last [] t = refl
take_task-last (u ∷ us) t = rw (take_task-last us t, take_task) refl

abbrev is_accepted : Response → Bool
is_accepted (answer status) = status == "accepted"
is_accepted _ = false

duplicate_differs : ¬ (answer "duplicate" ≡ answer "accepted")
duplicate_differs h = absurd (ground (arith, ap is_accepted h))

-- What an accepted request leaves: its event, and a task for it at the end.
dispatch-accepted :
    (d : Delivery) (s : Server) (action : Json)
    → get_field d.payload "action" null ≡ some action
    → (dispatch d s).1 ≡ record s {
      background =
          s.background
          ++ (record { event_type = d.event_type; action = action; payload = d.payload }) ∷ [];
    }
unfolding dispatch
dispatch-accepted d s action e = rw (e, dispatch) refl

receive_webhook-accepted :
    (b : Builtins) (r : Request) (s : Server) (event : String) (payload action : Json)
    → filled r.event ≡ some event
    → b.loads r.body ≡ loaded payload
    → get_field payload "action" null ≡ some action
    → (receive_webhook b r s).0 ≡ answer "accepted"
    → (events : List WebhookEvent) × ((receive_webhook b r s).1 ≡ record s {
      events = events;
      background =
          s.background ++ (record { event_type = event; action = action; payload = payload }) ∷ [];
    })
unfolding receive_webhook persist
receive_webhook-accepted b r s event payload action k l a h = elim (Outcome-cases (checked b r)) [
  | inr (response, e) ↦
      absurd (checked-no_answer b r response "accepted" e (rw (e, receive_webhook) at h))
  | inl (d, e) ↦ elim (Outcome-cases (resolved b s.installations d.payload)) [
    | inr (response, f) ↦ absurd (
        resolved-no_answer b s.installations d.payload response "accepted" f
          (rw (e, f, receive_webhook) at h))
    | inl (i, f) ↦ elim (Bool-cases (is_stored d.delivery_id s.events)) [
      | inl y ↦ absurd (duplicate_differs (rw (e, f, y, receive_webhook) at h))
      | inr n ↦
          let g = checked-Genuine b r d e in
          let same_event : d.event_type ≡ event = some_eq (sym g.event_header ∙ k) in
          let same_payload : d.payload ≡ payload = cc (g.body, l) in
          (
            s.events ++ event_of d i ∷ [],
            rw (e, f, n, receive_webhook)
                (rw (sym same_event, sym same_payload)
                  (dispatch-accepted d (record s { events = s.events ++ event_of d i ∷ [] }) action
                    (rw same_payload a))),
          )
    ]
  ]
]

-- The turn of the last task, and the timer that it starts.
run_task-review :
    (b : Builtins) (s : Server) (events : List WebhookEvent) (t : Task) (k : PrKey)
    → review_key b t.event_type t.action t.payload ≡ some k
    → get
        (serve b
          (record s { events = events; background = s.background ++ t ∷ [] })
          (dispatched (length s.background) ∷ due s.manager.next_handle ∷ [])).manager.tasks
        (s.manager.next_handle + 1)
      ≡ some (task_of k s.factories)
unfolding serve take_step run_task route_event
run_task-review b s events t k n =
    rw (take_task-last s.background t, run_task)
      (rw (n, route_event) (schedule-due s.manager k s.factories))

-- A request that is accepted and is to start a review does start it: when its task has had its turn and
-- the timer that this starts is due, with nothing else in between, a task of that pull request is there.
pub receive_webhook-review :
    (b : Builtins) (r : Request) (s : Server) (event : String) (payload action : Json) (k : PrKey)
    → filled r.event ≡ some event
    → b.loads r.body ≡ loaded payload
    → get_field payload "action" null ≡ some action
    → review_key b event action payload ≡ some k
    → (receive_webhook b r s).0 ≡ answer "accepted"
    → get
        (serve b s (
          received r
          ∷ dispatched (length s.background)
          ∷ due s.manager.next_handle
          ∷ [])).manager.tasks
        (s.manager.next_handle + 1)
      ≡ some (task_of k s.factories)
unfolding serve take_step
receive_webhook-review b r s event payload action k e l a n h =
    let (events, same) = receive_webhook-accepted b r s event payload action e l a h in
    subst
      (λ s'.
        get
          (serve b s'
            (dispatched (length s.background) ∷ due s.manager.next_handle ∷ [])).manager.tasks
          (s.manager.next_handle + 1)
        ≡ some (task_of k s.factories))
      (sym same)
      (run_task-review b s events
        (record { event_type = event; action = action; payload = payload }) k n)
