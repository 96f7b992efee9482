-- ===== src/Publisher/Tests.antt =====
-- A first publication and its repetition against a server that answers, and the theorems there.
use kenjutsu.Base.{
  ℕ, ◌+◌, String, false, ◌≡◌, ◌≢◌, refl, none, some, arith, ap, sym, subst, [], ◌∷◌, inl, inr, All,
  In, nat_eq, string_eq,
}
use kenjutsu.Dict
use kenjutsu.Dict.{Dict, get-empty}
use kenjutsu.Finding.{join}
use text.Mathlib.TextEquality.{eq_iff}
use kenjutsu.Publisher.Rows.{FindingRow, ReviewRow, Tables, select_review, find_review, find_repo}
use kenjutsu.Publisher.Body.{finding_comment_body, is_redacted}
use kenjutsu.Publisher.Github.{
  Server, RepoName, Session, Request, get_pull, post_review, put_review, post_comment,
  patch_comment, Response, fetch_head_sha,
}
use kenjutsu.Publisher.Scope.{Belongs, sends_only_publishable}
use kenjutsu.Publisher.Retry.{creations, IsPresent, retry_creates_nothing}
use kenjutsu.Publisher.Redaction.{redaction_hides}
use kenjutsu.Publisher.Stale.{stale_publishes_nothing}
use kenjutsu.Publisher.Tenant.{OfTenant, publish_review-OfTenant}
use kenjutsu.Publisher.Known.{DistinctIds}
use kenjutsu.Publisher.{publish_loaded, publish_review, existing_comment, or_else}

-- The world is the next free id.
abbrev answer : Request → ℕ → Response
answer (get_pull repo n) w = record { status = 200; id = none; head_sha = some "sha" }
answer (post_review repo n sha) w = record { status = 201; id = some w; head_sha = none }
answer (post_comment repo n sha path line text) w = record {
  status = 201;
  id = some w;
  head_sha = none;
}
answer _ w = record { status = 200; id = none; head_sha = none }

abbrev at : RepoName
at = ("o", "r")

abbrev github : Server ℕ
github = record { send = λ request w. (some (answer request w), w + 1) }

abbrev body : FindingRow → String
body = finding_comment_body (λ s. s)

abbrev leak : FindingRow
leak = record {
  id = "f1";
  review_id = "r1";
  fingerprint = "00ff";
  file_path = "a.py";
  line_end = 3;
  origin = "llm";
  confidence = "high";
  severity = "critical";
  category = "security";
  publishability = "redact-and-publish";
  description = "key abc is in the log";
  suggestion = some "rotate abc";
  published = false;
  github_comment_id = some 5;
}

abbrev review : ReviewRow
review = record {
  id = "r1";
  repo_id = "p1";
  pr_number = 7;
  head_sha = "sha";
  github_review_id = some 4;
  github_comment_ids = none;
}

abbrev tables : Tables
tables = record {
  reviews = review ∷ [];
  repos = record { id = "p1"; installation_id = "i1"; full_name = "o/r" } ∷ [];
  findings = leak ∷ [];
}

abbrev session : Session ℕ
session = record { review = review; findings = leak ∷ []; world = 10; sent = [] }

body_of_leak :
    body leak
    ≡ "🔴 **critical** [security] — [REDACTED]\n\n*origin: llm · confidence: high · fingerprint: [REDACTED]*"
unfolding finding_comment_body join
body_of_leak = refl

redaction_hides_example :
    body leak
    ≡ body (record leak {
      description = "key xyz is in the log";
      suggestion = none;
      fingerprint = "1";
    })
unfolding is_redacted
redaction_hides_example =
    redaction_hides (λ s. s) leak
      (record leak { description = "key xyz is in the log"; suggestion = none; fingerprint = "1" })
      refl refl refl refl refl refl

one_finding : DistinctIds (leak ∷ [])
unfolding DistinctIds
one_finding = ((λ g m. absurd m), tt)

sends_only_publishable_example :
    All
      (Belongs at body review (leak ∷ []))
      (publish_loaded github at body review (leak ∷ []) session).1.sent
sends_only_publishable_example =
    sends_only_publishable github at body review (leak ∷ []) session one_finding tt

github-IsPresent : IsPresent github
github-IsPresent (get_pull repo n) w r e h = ground arith
github-IsPresent (put_review repo n id) w r e h = ground arith
github-IsPresent (patch_comment repo id text) w r e h = ground arith
github-IsPresent (post_review repo n sha) w r e h = cc
github-IsPresent (post_comment repo n sha path line text) w r e h = cc

leak_known : existing_comment Dict.empty leak ≢ none
unfolding existing_comment or_else
leak_known e = cc (ap (λ o. or_else o leak.github_comment_id) (get-empty {V = ℕ} leak.id))

linked : (f : FindingRow) → In f (leak ∷ []) → existing_comment Dict.empty f ≢ none
linked f (inl e) = subst (λ g. existing_comment Dict.empty g ≢ none) (sym e) leak_known
linked f (inr m) = absurd m

retry_creates_nothing_example :
    creations (publish_loaded github at body review (leak ∷ []) session).1 ≡ 0
retry_creates_nothing_example =
    retry_creates_nothing github at body github-IsPresent review (leak ∷ []) session (λ e. cc)
      (λ f m open_to. linked f m)

stale_publishes_nothing_example :
    (publish_loaded github at body (record review { head_sha = "old" }) (leak ∷ []) session).1.sent
    ≡ get_pull at 7 ∷ []
unfolding fetch_head_sha
stale_publishes_nothing_example =
    (stale_publishes_nothing github at body (record review { head_sha = "old" }) (leak ∷ []) session
      (λ e. ground (arith, eq_iff "sha" "old"))).1

-- The same server, without the review.
abbrev answer_without : Request → ℕ → Response
answer_without (put_review repo n id) w = record { status = 404; id = none; head_sha = none }
answer_without request w = answer request w

abbrev github_without : Server ℕ
github_without = record { send = λ request w. (some (answer_without request w), w + 1) }

publish_review-OfTenant_example :
    OfTenant body
      (λ n. some ("o", "r"))
      tables
      "r1"
      "i1"
      (publish_loaded github at body review (leak ∷ []) session).1
unfolding publish_review select_review find_review find_repo
publish_review-OfTenant_example =
    publish_review-OfTenant github body (λ n. some ("o", "r")) tables "r1" "i1" 10 _ one_finding
      refl
