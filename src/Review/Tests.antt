-- ===== src/Review/Tests.antt =====
-- Runs of the supersession functions, and the theorems about them at concrete reviews.
use kenjutsu.Base.{filter, true, none, some, List, [], ◌∷◌, ◌≡◌, ◌≤◌, refl, count, arith, string_eq}
use kenjutsu.Review.{
  Review, is_canonical, queued, complete, superseded, supersede_previous_reviews,
  ensure_unique_canonical, is_live_for, supersede_review,
}
use kenjutsu.Review.Supersession.{
  is_live, stays_live, supersede_previous_reviews-live, ensure_unique_some,
}

abbrev old_review : Review
old_review = record {
  id = "r1";
  repo_id = "repo";
  pr_number = 7;
  head_sha = "aaa";
  status = complete;
  superseded_by = none;
}

abbrev other_review : Review
other_review = record {
  id = "r2";
  repo_id = "repo";
  pr_number = 8;
  head_sha = "bbb";
  status = queued;
  superseded_by = none;
}

abbrev reviews : List Review
reviews = old_review ∷ other_review ∷ []

superseded_run :
    supersede_previous_reviews reviews "r3" "repo" 7
    ≡ record old_review { status = superseded; superseded_by = some "r3" } ∷ other_review ∷ []
unfolding supersede_previous_reviews supersede_review
superseded_run = refl

supersede_previous_reviews-live_example :
    (filter (λ r. is_canonical r.status) (supersede_previous_reviews reviews "r3" "repo" 7)
      ≡ filter (stays_live "r3" "repo" 7) reviews)
    × (count (is_live "repo" 7) (supersede_previous_reviews reviews "r3" "repo" 7) ≤ 1)
supersede_previous_reviews-live_example =
    supersede_previous_reviews-live reviews "r3" "repo" 7 (omega arith)

ensure_unique_some_example : is_live_for "repo" 7 "aaa" old_review ≡ true
unfolding ensure_unique_canonical is_live_for
ensure_unique_some_example = (ensure_unique_some reviews "repo" 7 "aaa" old_review refl).1
