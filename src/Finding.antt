-- ===== src/Finding.antt =====
-- kenjutsu/models/findings.py: the five dimensions of a finding, and its fingerprint.
use Prim.Native.String.{◌++◌ as cat}
use text.Mathlib.TextEquality.{eq_iff}
use kenjutsu.Base.{
  ap, ℕ, String, Bool, true, Option, none, some, List, [], ◌∷◌, ◌≡◌, refl, Comparable, ◌==◌, ◌↔◌,
  if◌then◌else◌, string_eq,
}

pub data Origin : Type 0 where
  deterministic graph llm predictive : Origin

pub data Confidence : Type 0 where
  verified high medium low : Confidence

pub data Severity : Type 0 where
  critical warning suggestion : Severity

pub data Category : Type 0 where
  bug security breaking_change performance missing_test co_change stale_doc style : Category

pub data Publishability : Type 0 where
  publish redact_and_publish suppress audit_only : Publishability

-- The strings that the members of `Category` are.
abbrev pub category_value : Category → String
category_value bug = "bug"
category_value security = "security"
category_value breaking_change = "breaking-change"
category_value performance = "performance"
category_value missing_test = "missing-test"
category_value co_change = "co-change"
category_value stale_doc = "stale-doc"
category_value style = "style"

-- Line numbers are counted from 1, so they are natural numbers.
pub record Finding : Type 0 where
  pub file_path : String
  pub line_start : ℕ
  pub line_end : ℕ
  pub origin : Origin
  pub confidence : Confidence
  pub severity : Severity
  pub category : Category
  pub publishability : Publishability
  pub description : String
  pub suggestion : Option String
  pub evidence_sources : List String

abbrev pub category_eq : Category → Category → Bool
category_eq a b = category_value a == category_value b

-- `Category(value)`
pub category_of : String → Option Category
category_of s =
    if s == "bug"
    then some bug
    else if s == "security"
    then some security
    else if s == "breaking-change"
    then some breaking_change
    else if s == "performance"
    then some performance
    else if s == "missing-test"
    then some missing_test
    else if s == "co-change"
    then some co_change
    else if s == "stale-doc"
    then some stale_doc
    else if s == "style"
    then some style
    else none

-- Looking up the value of a category gives the category back.
pub category_of-value : (c : Category) → category_of (category_value c) ≡ some c
unfolding category_of
category_of-value bug = refl
category_of-value _ = refl

pub category_eq_iff : (a b : Category) → (category_eq a b ≡ true) ↔ (a ≡ b)
category_eq_iff a b = (
  λ h. cc (
    category_of-value a,
    category_of-value b,
    (eq_iff (category_value a) (category_value b)).0 h,
  ),
  λ p. (eq_iff (category_value a) (category_value b)).1 (ap category_value p),
)

instance abbrev pub category_Eq : Comparable Category
category_Eq = record { equal = category_eq; equal_iff = category_eq_iff }

-- `join(" ", …)` of a list of words
unfoldable pub join : String → List String → String
join sep [] = ""
join sep (w ∷ []) = w
join sep (w ∷ v ∷ ws) = cat w (cat sep (join sep (v ∷ ws)))

-- Python's `str.lower` and `str.split`, and the first 16 hexadecimal digits of SHA-256 of a text,
-- are parameters.
module _ (lower : String → String) (split : String → List String)
    (sha256_16 : String → String) where
  pub fingerprint : Finding → String
  unfolding join
  fingerprint f =
      let normalized = join " " (split (lower f.description)) in
      sha256_16 (cat f.file_path (cat ":" (cat (category_value f.category) (cat ":" normalized))))
