-- ===== src/Pending/Tests.antt =====
-- Four findings that are published near the rate limit, and the theorems about the publisher there.
use kenjutsu.Base.{String, ◌≡◌, refl, none, some, List, [], ◌∷◌, ◌++◌, map}
use kenjutsu.Effect.{ok, err, ◌>>=◌, ◌>>◌}
use kenjutsu.Finding.{
  Finding, Severity, critical, warning, suggestion, Publishability, publish, redact_and_publish,
  suppress, llm, high, bug,
}
use kenjutsu.Pending.{
  Client, Publisher, format_comment_body, rate_limit_exceeded, insert_finding, sort_findings,
  select_findings, post, record_rate_limit, set_remaining, raise_for_status, check_rate_limit,
  on_response, publish_findings,
}
use kenjutsu.Pending.Order.{selection}
use kenjutsu.Pending.Limit.{
  NearLimit, posted_with, publish_findings-sent, publish_findings-NearLimit,
}

abbrev finding : Severity → Publishability → String → Finding
finding severity publishability description = record {
  file_path = "a.py";
  line_start = 3;
  line_end = 4;
  origin = llm;
  confidence = high;
  severity = severity;
  category = bug;
  publishability = publishability;
  description = description;
  suggestion = none;
  evidence_sources = [];
}

abbrev findings : List Finding
findings =
    finding suggestion publish "rename"
    ∷ finding critical redact_and_publish "overflow"
    ∷ finding critical suppress "leak"
    ∷ finding warning publish "unused"
    ∷ finding critical publish "race"
    ∷ []

order :
    map (λ f. f.description) (select_findings none findings)
    ≡ "overflow" ∷ "race" ∷ "unused" ∷ "rename" ∷ []
unfolding select_findings sort_findings insert_finding
order = refl

order_near_limit :
    map (λ f. f.description) (select_findings (some 19) findings) ≡ "overflow" ∷ "race" ∷ []
unfolding select_findings sort_findings insert_finding
order_near_limit = refl

comment : format_comment_body (finding warning publish "unused") ≡ "🟡 **warning**\n\nunused"
unfolding format_comment_body
comment = refl

-- GitHub accepts each request, and has 19 calls left.
abbrev client : Client String (Unit {0})
client = record {
  post =
      λ payload w. (some (record { status = 200; remaining = some "19"; json = some "review" }), w);
  int = λ raw. some 19;
}

abbrev publisher : Publisher (Unit {0})
publisher = record { rate_limit_remaining = none; world = tt; sent = [] }

raises : (publish_findings client findings "Review" publisher).0 ≡ err rate_limit_exceeded
unfolding publish_findings ◌>>=◌ ◌>>◌ post on_response record_rate_limit set_remaining
    raise_for_status check_rate_limit
raises = refl

abbrev plenty : Client String (Unit {0})
plenty = record client { int = λ raw. some 4000 }

returns : (publish_findings plenty findings "Review" publisher).0 ≡ ok "review"
unfolding publish_findings ◌>>=◌ ◌>>◌ post on_response record_rate_limit set_remaining
    raise_for_status check_rate_limit
returns = refl

publish_findings-sent_example :
    (publish_findings client findings "Review" publisher).1.sent
    ≡ publisher.sent
      ++ posted_with client (selection publisher.rate_limit_remaining findings) "Review" ∷ []
publish_findings-sent_example = publish_findings-sent client findings "Review" publisher

publish_findings-NearLimit_example :
    NearLimit client findings "Review" publisher
      (publish_findings client findings "Review" publisher).1
publish_findings-NearLimit_example =
    publish_findings-NearLimit client findings "Review" publisher raises
