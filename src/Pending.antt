-- ===== src/Pending.antt =====
-- kenjutsu/publisher/pending_review.py: the publisher of findings as one review. The HTTP client is not
-- the program's: it is a function of the payload and the state `W` of the world.
mod Order
mod Limit
mod Tests
use Prim.Native.String.{◌++◌ as cat}
use kenjutsu.Base.{
  ℕ, String, Bool, true, false, ◌&&◌, Option, none, some, List, [], ◌∷◌, ◌++◌, map, filter, ltb,
  leb, ◌==◌, nat_eq, string_eq, if◌then◌else◌,
}
use kenjutsu.Effect.{Result, ok, err, Exec, pure, raise, ◌>>=◌, ◌>>◌}
use kenjutsu.Finding.{
  Finding, Severity, critical, warning, suggestion, Publishability, publish, redact_and_publish,
  suppress, audit_only,
}

abbrev pub severity_badge : Severity → String
severity_badge critical = "🔴 **critical**"
severity_badge warning = "🟡 **warning**"
severity_badge suggestion = "💡 **suggestion**"

abbrev pub rate_limit_floor : ℕ
rate_limit_floor = 20

abbrev pub severity_order : Severity → ℕ
severity_order critical = 0
severity_order warning = 1
severity_order suggestion = 2

abbrev suggestion_block : Option String → String
suggestion_block none = ""
suggestion_block (some text) =
    if text == "" then "" else cat "\n\n```suggestion\n" (cat text "\n```")

unfoldable pub format_comment_body : Finding → String
format_comment_body f =
    cat (severity_badge f.severity) (cat "\n\n" (cat f.description (suggestion_block f.suggestion)))

-- The dict of a comment; `start_line` with `start_side` only for several lines.
pub record Comment : Type 0 where
  pub path : String
  pub body : String
  pub side : String
  pub start_line : Option ℕ
  pub start_side : Option String
  pub line : ℕ

unfoldable pub build_comment : Finding → Comment
build_comment f =
    let one_line = f.line_start == f.line_end in
    record {
      path = f.file_path;
      body = format_comment_body f;
      side = "RIGHT";
      start_line = if one_line then none else some f.line_start;
      start_side = if one_line then none else some "RIGHT";
      line = f.line_end;
    }

abbrev pub is_publishable : Finding → Bool
is_publishable f = elim f.publishability [
  | publish ↦ true
  | redact_and_publish ↦ true
  | suppress ↦ false
  | audit_only ↦ false
]

-- `f.severity == Severity.CRITICAL`
abbrev pub is_critical : Finding → Bool
is_critical f = elim f.severity [ critical ↦ true | warning ↦ false | suggestion ↦ false ]

-- `list.sort` by the order of severities, which is stable: a finding goes before those that came later.
unfoldable pub insert_finding : Finding → List Finding → List Finding
insert_finding f [] = f ∷ []
insert_finding f (g ∷ gs) =
    let rest = insert_finding f gs in
    if leb (severity_order f.severity) (severity_order g.severity) then f ∷ g ∷ gs else g ∷ rest

unfoldable pub sort_findings : List Finding → List Finding
sort_findings [] = []
sort_findings (f ∷ fs) = insert_finding f (sort_findings fs)

-- `_near_rate_limit`
abbrev pub near_rate_limit : Option ℕ → Bool
near_rate_limit none = false
near_rate_limit (some remaining) = ltb remaining rate_limit_floor

-- The findings that are published.
unfoldable pub select_findings : Option ℕ → List Finding → List Finding
select_findings remaining findings =
    let publishable = sort_findings (filter is_publishable findings) in
    if near_rate_limit remaining then filter is_critical publishable else publishable

-- The JSON of the request; the event is always `COMMENT`.
pub record Payload : Type 0 where
  pub body : String
  pub event : String
  pub comments : List Comment

-- The status, the header X-RateLimit-Remaining, and the review object, with `none` where decoding
-- raises.
pub record Response (J : Type 0) : Type 0 where
  pub status : ℕ
  pub remaining : Option String
  pub json : Option J

-- `post`, with `none` for an exception of the transport, and Python's `int` of a text.
pub record Client (J W : Type 0) : Type 0 where
  pub post : Payload → W → Option (Response J) × W
  pub int : String → Option ℕ

pub data Error : Type 0 where
  transport_error value_error rate_limit_exceeded : Error
  http_status_error : ℕ → Error

-- PendingReviewPublisher, the world, and the requests that were sent.
pub record Publisher (W : Type 0) : Type 0 where
  pub rate_limit_remaining : Option ℕ
  pub world : W
  pub sent : List Payload

module _ {J W : Type 0} (client : Client J W) where
  abbrev received : Option (Response J) → Result Error (Response J)
  received none = err transport_error
  received (some r) = ok r

  unfoldable pub post : Payload → Exec Error (Publisher W) (Response J)
  post payload p =
      let (response, w) = client.post payload p.world in
      (received response, record p { world = w; sent = p.sent ++ payload ∷ [] })

  -- `self._rate_limit_remaining = int(raw)`
  unfoldable pub set_remaining : Option ℕ → Exec Error (Publisher W) (Unit {0})
  set_remaining none p = (err value_error, p)
  set_remaining (some n) p = (ok tt, record p { rate_limit_remaining = some n })

  unfoldable pub record_rate_limit : Response J → Exec Error (Publisher W) (Unit {0})
  record_rate_limit response = elim response.remaining [
    | none ↦ λ p. (ok tt, p)
    | some raw ↦ set_remaining (client.int raw)
  ]

  unfoldable pub raise_for_status : Response J → Exec Error (Publisher W) (Unit {0})
  raise_for_status response p =
      if leb 200 response.status && ltb response.status 300
      then (ok tt, p)
      else (err (http_status_error response.status), p)

  unfoldable pub check_rate_limit : Exec Error (Publisher W) (Unit {0})
  check_rate_limit p =
      if near_rate_limit p.rate_limit_remaining then (err rate_limit_exceeded, p) else (ok tt, p)

  abbrev decoded : Option J → Result Error J
  decoded none = err value_error
  decoded (some review) = ok review

  -- What follows the request.
  unfoldable pub on_response : Response J → Exec Error (Publisher W) J
  unfolding ◌>>=◌ ◌>>◌
  on_response response = do
    record_rate_limit response
    raise_for_status response
    check_rate_limit
    λ p. (decoded response.json, p)

  abbrev pub review_payload : Option ℕ → List Finding → String → Payload
  review_payload remaining findings body = record {
    body = body;
    event = "COMMENT";
    comments = map build_comment (select_findings remaining findings);
  }

  unfoldable pub publish_findings : List Finding → String → Exec Error (Publisher W) J
  unfolding ◌>>=◌
  publish_findings findings body p =
      (post (review_payload p.rate_limit_remaining findings body) >>= on_response) p
