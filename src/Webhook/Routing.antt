-- ===== src/Webhook/Routing.antt =====
-- `_route_event` of kenjutsu/server/webhook.py, and the server as a whole: requests that come in,
-- background tasks that run, and the events of the loop that the debounce manager waits for.
use kenjutsu.Base.{
  ℕ, zero, suc, String, Bool, false, ◌||◌, ◌+◌, Option, none, some, List, [], ◌∷◌, ◌==◌, string_eq,
  if◌then◌else◌,
}
use kenjutsu.Debounce.{PrKey, schedule, timer_due, run_ends}
use kenjutsu.Webhook.{Builtins, Request, Task, Server, receive_webhook}
use kenjutsu.Webhook.Payload.{Json, null, text, get_field, get_nested}

abbrev is_review_action : Json → Bool
is_review_action (text action) =
    action == "opened" || action == "synchronize" || action == "reopened"
is_review_action _ = false

abbrev key_of : Option String → Option ℕ → Option PrKey
key_of (some repo) (some pr_number) = some (repo, pr_number)
key_of _ _ = none

-- `(repo, int(pr_number))`, once the number is there.
unfoldable pub numbered_key : Builtins → Json → Json → Option PrKey
numbered_key b repo null = none
numbered_key b repo pr_number = key_of (b.hashed repo) (b.int pr_number)

unfoldable pub event_key : Builtins → Json → Option PrKey
event_key b payload = elim (get_field payload "number" null) [
  | none ↦ none
  | some pr_number ↦ elim (get_nested payload "repository" "full_name" (text "unknown")) [
    | none ↦ none
    | some repo ↦ numbered_key b repo pr_number
  ]
]

-- The pull request whose review is scheduled, if one is. An exception is logged and nothing else.
unfoldable pub review_key : Builtins → String → Json → Json → Option PrKey
review_key b event_type action payload =
    let key = event_key b payload in
    if event_type == "pull_request" then (if is_review_action action then key else none) else none

-- `_route_event`; the factory that is made is the next one.
unfoldable pub route_event : Builtins → Task → Server → Server
route_event b t server = elim (review_key b t.event_type t.action t.payload) [
  | none ↦ server
  | some pr_key ↦ record server {
    manager = schedule server.manager pr_key server.factories;
    factories = server.factories + 1;
  }
]

-- A background task, and those that stay.
unfoldable pub take_task : ℕ → List Task → Option (Task × List Task)
take_task i [] = none
take_task zero (t ∷ ts) = some (t, ts)
take_task (suc i) (t ∷ ts) = elim (take_task i ts) [ none ↦ none | some (u, us) ↦ some (u, t ∷ us) ]

unfoldable pub run_task : Builtins → ℕ → Server → Server
run_task b i server = elim (take_task i server.background) [
  | none ↦ server
  | some (t, ts) ↦ route_event b t (record server { background = ts })
]

-- What happens to the server: a request, a turn of one of the background tasks, a timer that is due,
-- and a review that ends.
pub data Step : Type 0 where
  received : Request → Step
  dispatched due ended : ℕ → Step

unfoldable pub take_step : Builtins → Server → Step → Server
take_step b server (received request) = (receive_webhook b request server).1
take_step b server (dispatched i) = run_task b i server
take_step b server (due handle) = record server { manager = timer_due server.manager handle }
take_step b server (ended task) = record server { manager = run_ends server.manager task }

unfoldable pub serve : Builtins → Server → List Step → Server
serve b server [] = server
serve b server (s ∷ ss) = serve b (take_step b server s) ss
