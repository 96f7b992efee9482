-- ===== src/Review.antt =====
-- kenjutsu/models/reviews.py and kenjutsu/pipeline/supersession.py: the in-memory review records
-- and the two functions that keep one live review for a pull request.
pub mod Supersession
mod Tests
use kenjutsu.Base.{
  ℕ, String, Bool, true, false, Option, none, some, List, [], ◌∷◌, map, ◌&&◌, not, Comparable, ◌==◌,
  string_eq, nat_eq, if◌then◌else◌,
}

pub data ReviewStatus : Type 0 where
  queued processing complete failed aborted superseded : ReviewStatus

-- `self not in (SUPERSEDED, ABORTED, FAILED)`
pub is_canonical : ReviewStatus → Bool
is_canonical superseded = false
is_canonical aborted = false
is_canonical failed = false
is_canonical _ = true

pub record Review : Type 0 where
  pub id : String
  pub repo_id : String
  pub pr_number : ℕ
  pub head_sha : String
  pub status : ReviewStatus
  pub superseded_by : Option String

-- `Review(id, repo_id, pr_number, head_sha)`, with the constructor's defaults
pub new_review : String → String → ℕ → String → Review
new_review id repo_id pr_number head_sha = record {
  id = id;
  repo_id = repo_id;
  pr_number = pr_number;
  head_sha = head_sha;
  status = queued;
  superseded_by = none;
}

-- One turn of the loop: the three tests, the first two of which `continue`.
pub supersede_review : String → String → ℕ → Review → Review
unfolding is_canonical
supersede_review new_review_id repo_id pr_number review =
    if review.id == new_review_id
    then review
    else if not (review.repo_id == repo_id && review.pr_number == pr_number)
    then review
    else if is_canonical review.status
    then record review { status = superseded; superseded_by = some new_review_id }
    else review

pub supersede_previous_reviews : List Review → String → String → ℕ → List Review
supersede_previous_reviews reviews new_review_id repo_id pr_number =
    map (supersede_review new_review_id repo_id pr_number) reviews

-- The test inside the loop of `ensure_unique_canonical`.
pub is_live_for : String → ℕ → String → Review → Bool
unfolding is_canonical
is_live_for repo_id pr_number head_sha review =
    review.repo_id == repo_id
    && review.pr_number == pr_number
    && review.head_sha == head_sha
    && is_canonical review.status

pub ensure_unique_canonical : List Review → String → ℕ → String → Option Review
ensure_unique_canonical [] repo_id pr_number head_sha = none
ensure_unique_canonical (review ∷ reviews) repo_id pr_number head_sha =
    if is_live_for repo_id pr_number head_sha review
    then some review
    else ensure_unique_canonical reviews repo_id pr_number head_sha
