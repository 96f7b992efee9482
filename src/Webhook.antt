-- ===== src/Webhook.antt =====
-- kenjutsu/server/webhook.py: the receiver of GitHub's webhooks, with the tables of
-- kenjutsu/db/models.py that it uses, its background tasks, and the debounce manager they call.
mod Payload
mod Routing
mod Stored
mod Origin
mod Refusal
mod Replay
mod Progress
mod Tests
use Prim.Native.Char.{code}
use Prim.Native.String.{◌++◌ as cat}
use kenjutsu.Base.{
  ℕ, zero, suc, String, Bool, true, false, not, ◌&&◌, ◌||◌, ◌+◌, Option, none, some, List, [], ◌∷◌,
  ◌++◌, ltb, ◌==◌, nat_eq, string_eq, if◌then◌else◌,
}
use kenjutsu.Debounce.{DebounceManager}
use kenjutsu.Diff.Text.{after}
use kenjutsu.Webhook.Payload.{Json, null, text, object, get_field, get_nested}

-- How `json.loads` ends: with a value, with a JSONDecodeError, or with another exception, as for bytes
-- that are no text.
pub data Loaded : Type 0 where
  loaded : Json → Loaded
  decode_error other_error : Loaded

-- Python's, asyncpg's and the environment's part, where `none` is an exception: the HMAC-SHA256 digest
-- of a body in hexadecimal, `json.loads`, `str`, the number that a value is bound as in a query, `int`,
-- and the name under which a dict finds a value that is used as the name of a repository.
pub record Builtins : Type 0 where
  pub secret : String
  pub hexdigest : String → String → String
  pub loads : String → Loaded
  pub str : Json → String
  pub bigint : Json → Option ℕ
  pub int : Json → Option ℕ
  pub hashed : Json → Option String

pub record Request : Type 0 where
  pub signature : Option String
  pub event : Option String
  pub delivery : Option String
  pub body : String

pub record Installation : Type 0 where
  pub id : ℕ
  pub github_installation_id : ℕ

pub record WebhookEvent : Type 0 where
  pub delivery_id : String
  pub installation_id : ℕ
  pub event_type : String
  pub payload_json : Json

-- The arguments of `_route_event`.
pub record Task : Type 0 where
  pub event_type : String
  pub action : Json
  pub payload : Json

-- The tables, the background tasks that have not run, the debounce manager, and a count of the
-- coroutine factories that were made.
pub record Server : Type 0 where
  pub installations : List Installation
  pub events : List WebhookEvent
  pub background : List Task
  pub manager : DebounceManager
  pub factories : ℕ

-- An HTTPException, the answer with status 200, and an exception that nothing handles.
pub data Response : Type 0 where
  http_error : ℕ → String → Response
  answer : String → Response
  unhandled : Response

pub data Outcome (A : Type 0) : Type 0 where
  passed : A → Outcome A
  refused : Response → Outcome A

abbrev ascii : String → Bool
ascii String.[] = true
ascii (String.◌∷◌ c s) = ltb (code c) 128 && ascii s

-- `hmac.compare_digest` of texts, which raises unless both are ASCII.
abbrev compare_digest : String → String → Option Bool
compare_digest a b = if ascii a && ascii b then some (a == b) else none

unfoldable pub verify_signature : Builtins → String → String → Option Bool
verify_signature b payload signature = elim (after "sha256=" signature) [
  | none ↦ some false
  | some expected ↦ compare_digest (b.hexdigest b.secret payload) expected
]

abbrev pub filled : Option String → Option String
filled none = none
filled (some value) = if value == "" then none else some value

abbrev pub or_empty : Option String → String
or_empty none = ""
or_empty (some value) = value

-- What the first four steps take from a request.
pub record Delivery : Type 0 where
  pub delivery_id : String
  pub event_type : String
  pub payload : Json

-- Step 4.
unfoldable pub parsed : Builtins → String → String → String → Outcome Delivery
parsed b event delivery body = elim (b.loads body) [
  | loaded payload ↦
      passed (record { delivery_id = delivery; event_type = event; payload = payload })
  | decode_error ↦ refused (http_error 400 "Invalid JSON payload")
  | other_error ↦ refused unhandled
]

-- Steps 3 and 4.
unfoldable pub authenticated : Builtins → Request → String → String → Outcome Delivery
authenticated b request event delivery =
    if b.secret == ""
    then refused (http_error 500 "Webhook secret not configured")
    else elim (verify_signature b request.body (or_empty request.signature)) [
      | none ↦ refused unhandled
      | some false ↦ refused (http_error 401 "Invalid signature")
      | some true ↦ parsed b event delivery request.body
    ]

-- Steps 1 to 4.
unfoldable pub checked : Builtins → Request → Outcome Delivery
checked b request = elim (filled request.event) [
  | none ↦ refused (http_error 400 "Missing X-GitHub-Event header")
  | some event ↦ elim (filled request.delivery) [
    | none ↦ refused (http_error 400 "Missing X-GitHub-Delivery header")
    | some delivery ↦ authenticated b request event delivery
  ]
]

abbrev find_installation : List Installation → ℕ → Option Installation
find_installation [] id = none
find_installation (i ∷ is) id =
    let rest = find_installation is id in if i.github_installation_id == id then some i else rest

-- Step 5, for an id that is not null.
unfoldable pub known : Builtins → List Installation → Json → Outcome Installation
known b installations id = elim (b.bigint id) [
  | none ↦ refused unhandled
  | some number ↦ elim (find_installation installations number) [
    | none ↦ refused (http_error 400 (cat "Unknown installation: " (b.str id)))
    | some installation ↦ passed installation
  ]
]

unfoldable pub installed : Builtins → List Installation → Json → Outcome Installation
installed b installations null = refused (http_error 400 "Payload missing installation.id")
installed b installations id = known b installations id

unfoldable pub resolved : Builtins → List Installation → Json → Outcome Installation
resolved b installations payload = elim (get_nested payload "installation" "id" null) [
  | none ↦ refused unhandled
  | some id ↦ installed b installations id
]

-- The unique column `delivery_id`.
unfoldable pub is_stored : String → List WebhookEvent → Bool
is_stored delivery_id [] = false
is_stored delivery_id (e ∷ es) =
    let rest = is_stored delivery_id es in e.delivery_id == delivery_id || rest

abbrev event_of : Delivery → Installation → WebhookEvent
event_of d installation = record {
  delivery_id = d.delivery_id;
  installation_id = installation.id;
  event_type = d.event_type;
  payload_json = d.payload;
}

-- Step 7, after the commit.
unfoldable pub dispatch : Delivery → Server → Response × Server
dispatch d server = elim (get_field d.payload "action" null) [
  | none ↦ (unhandled, server)
  | some action ↦ (
    answer "accepted",
    record server {
      background =
          server.background
          ++ (record { event_type = d.event_type; action = action; payload = d.payload }) ∷ [];
    },
  )
]

-- Steps 6 and 7.
unfoldable pub persist : Delivery → Installation → Server → Response × Server
persist d installation server =
    if is_stored d.delivery_id server.events
    then (answer "duplicate", server)
    else dispatch d (record server { events = server.events ++ event_of d installation ∷ [] })

unfoldable pub receive_webhook : Builtins → Request → Server → Response × Server
receive_webhook b request server = elim (checked b request) [
  | refused response ↦ (response, server)
  | passed d ↦ elim (resolved b server.installations d.payload) [
    | refused response ↦ (response, server)
    | passed installation ↦ persist d installation server
  ]
]
