-- ===== src/Webhook/Tests.antt =====
-- A webhook that opens a pull request, and the theorems about the receiver there.
use kenjutsu.Base.{◌+◌, ◌≡◌, refl, some, List, [], ◌∷◌, In, length, nat_eq}
use kenjutsu.Dict.{get}
use kenjutsu.Webhook.{
  Builtins, loaded, Request, Server, answer, http_error, unhandled, receive_webhook, checked,
  authenticated, verify_signature, parsed, resolved, installed, known, persist, is_stored, dispatch,
}
use kenjutsu.Diff.Text.{after}
use kenjutsu.Webhook.Payload.{
  Json, null, number, text, object, nil, field, field_or, get_field, get_nested,
}
use kenjutsu.Webhook.Routing.{
  review_key, event_key, numbered_key, Step, received, dispatched, due, ended, serve,
}
use kenjutsu.Webhook.Origin.{Origin, new_server, serve-Origin}
use kenjutsu.Webhook.Replay.{receive_webhook-replay}
use kenjutsu.Webhook.Progress.{task_of, receive_webhook-review}

abbrev payload : Json
payload = object (
    field "action" (text "opened") (
      field "number" (number "7") (
        field "repository" (object (field "full_name" (text "a/b") nil))
          (field "installation" (object (field "id" (number "12") nil)) nil))))

abbrev builtins : Builtins
builtins = record {
  secret = "s3cret";
  hexdigest = λ secret body. "d1";
  loads = λ body. loaded payload;
  str = λ value. "12";
  bigint = λ value. some 12;
  int = λ value. some 7;
  hashed = λ value. some "a/b";
}

abbrev opened : Request
opened = record {
  signature = some "sha256=d1";
  event = some "pull_request";
  delivery = some "delivery-1";
  body = "{}";
}

abbrev forged : Request
forged = record opened { signature = some "sha256=00" }

-- A signature that is not ASCII text.
abbrev malformed : Request
malformed = record opened { signature = some "sha256=é" }

abbrev again : Request
again = record opened { event = some "installation" }

abbrev server : Server
server = new_server ((record { id = 1; github_installation_id = 12 }) ∷ [])

accepted : (receive_webhook builtins opened server).0 ≡ answer "accepted"
unfolding receive_webhook checked authenticated verify_signature parsed resolved installed known
    persist is_stored dispatch after get_field get_nested field_or
accepted = refl

duplicate :
    (receive_webhook builtins again (receive_webhook builtins opened server).1).0
    ≡ answer "duplicate"
unfolding receive_webhook checked authenticated verify_signature parsed resolved installed known
    persist is_stored dispatch after get_field get_nested field_or
duplicate = refl

forged_refused : (receive_webhook builtins forged server).0 ≡ http_error 401 "Invalid signature"
unfolding receive_webhook checked authenticated verify_signature after
forged_refused = refl

malformed_unhandled : (receive_webhook builtins malformed server).0 ≡ unhandled
unfolding receive_webhook checked authenticated verify_signature after
malformed_unhandled = refl

opened_action : get_field payload "action" null ≡ some (text "opened")
unfolding get_field field_or
opened_action = refl

opened_key : review_key builtins "pull_request" (text "opened") payload ≡ some ("a/b", 7)
unfolding review_key event_key numbered_key get_field get_nested field_or
opened_key = refl

abbrev day : List Step
day = received forged ∷ received opened ∷ dispatched 0 ∷ received again ∷ due 0 ∷ ended 1 ∷ []

serve-Origin_example :
    Origin builtins
      (λ r. In (received r) day)
      (serve builtins (new_server ((record { id = 1; github_installation_id = 12 }) ∷ [])) day)
serve-Origin_example =
    serve-Origin builtins ((record { id = 1; github_installation_id = 12 }) ∷ []) day

receive_webhook-replay_example :
    (receive_webhook builtins again
      (serve builtins (receive_webhook builtins opened server).1 (dispatched 0 ∷ due 0 ∷ []))).1
    ≡ serve builtins (receive_webhook builtins opened server).1 (dispatched 0 ∷ due 0 ∷ [])
receive_webhook-replay_example =
    receive_webhook-replay builtins server opened again (dispatched 0 ∷ due 0 ∷ []) "delivery-1"
      refl refl accepted

receive_webhook-review_example :
    get
      (serve builtins server (
        received opened
        ∷ dispatched (length server.background)
        ∷ due server.manager.next_handle
        ∷ [])).manager.tasks
      (server.manager.next_handle + 1)
    ≡ some (task_of ("a/b", 7) server.factories)
receive_webhook-review_example =
    receive_webhook-review builtins opened server "pull_request" payload (text "opened") ("a/b", 7)
      refl refl opened_action opened_key accepted
