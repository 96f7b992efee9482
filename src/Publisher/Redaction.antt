-- ===== src/Publisher/Redaction.antt =====
-- What a comment shows of a redacted finding.
use kenjutsu.Base.{String, true, ◌≡◌, refl, Option, none, some, string_eq, []}
use kenjutsu.Publisher.Rows.{FindingRow}
use kenjutsu.Publisher.Body.{finding_comment_body, is_redacted, suggestion_lines}

redacted_suggestion : (s : Option String) → suggestion_lines true s ≡ []
unfolding suggestion_lines
redacted_suggestion none = refl
redacted_suggestion (some text) = refl

-- The comment of a redacted finding depends on its severity, category, origin and confidence alone:
-- two redacted findings that agree there have the same comment, whatever their descriptions,
-- suggestions and fingerprints.
pub redaction_hides :
    (upper : String → String) (f g : FindingRow)
    → is_redacted f ≡ true
    → is_redacted g ≡ true
    → f.severity ≡ g.severity
    → f.category ≡ g.category
    → f.origin ≡ g.origin
    → f.confidence ≡ g.confidence
    → finding_comment_body upper f ≡ finding_comment_body upper g
unfolding finding_comment_body
redaction_hides upper f g p q sev cat ori con =
    rw
      (p, q, redacted_suggestion f.suggestion, redacted_suggestion g.suggestion, sev, cat, ori, con)
