-- ===== src/Publisher/Body.antt =====
-- `_finding_comment_body` of kenjutsu/pipeline/publisher.py: the text of an inline comment.
use Prim.Native.String.{◌++◌ as cat}
use kenjutsu.Base.{
  String, Bool, not, Option, none, some, List, [], ◌∷◌, ◌++◌, ◌&&◌, ◌==◌, string_eq, if◌then◌else◌,
}
use kenjutsu.Finding.{join}
use kenjutsu.Publisher.Rows.{FindingRow}

unfoldable pub severity_icon : String → String
severity_icon severity =
    if severity == "critical"
    then "🔴"
    else if severity == "warning"
    then "🟡"
    else if severity == "suggestion"
    then "🔵"
    else "⚪"

unfoldable pub is_redacted : FindingRow → Bool
is_redacted f = f.publishability == "redact-and-publish"

-- The lines of the suggestion: none for a redacted finding, and none for a suggestion that is absent
-- or empty.
unfoldable pub suggestion_lines : Bool → Option String → List String
suggestion_lines redacted none = []
suggestion_lines redacted (some text) =
    if not redacted && not (text == "") then "" ∷ cat "**Suggestion:** " text ∷ [] else []

-- Python's `str.upper` is a parameter.
module _ (upper : String → String) where
  unfoldable pub finding_comment_body : FindingRow → String
  unfolding severity_icon is_redacted suggestion_lines
  finding_comment_body f =
      let redacted = is_redacted f in
      let description = if redacted then "[REDACTED]" else f.description in
      let fingerprint = if redacted then "[REDACTED]" else cat "`" (cat f.fingerprint "`") in
      join "\n" (
        join "" (
          severity_icon f.severity
          ∷ " **"
          ∷ upper f.severity
          ∷ "** ["
          ∷ f.category
          ∷ "] — "
          ∷ description
          ∷ [])
        ∷ (suggestion_lines redacted f.suggestion
            ++ ""
              ∷ join "" (
                  "*origin: " ∷ f.origin ∷ " · confidence: " ∷ f.confidence ∷ " · fingerprint: "
                  ∷ fingerprint ∷ "*" ∷ [])
              ∷ []))
