-- ===== src/Review/Supersession.antt =====
-- What kenjutsu/pipeline/supersession.py promises: at most one live review of a pull request.
use text.Mathlib.TextEquality.{eq_iff}
use kenjutsu.Base.{
  not, filter, ℕ, ◌≤◌, String, Bool, true, false, none, some, List, [], ◌∷◌, ◌++◌, ◌&&◌, ◌≡◌, refl,
  ◌⊎◌, inr, ◌↔◌, ◌==◌, string_eq, nat_eq, arith, count, All, In, In-map, subst, beq_refl,
}
use kenjutsu.Review.{
  Review, is_canonical, new_review, supersede_review, supersede_previous_reviews, is_live_for,
  ensure_unique_canonical, superseded,
}

-- A review of the pull request that is still live.
unfoldable pub is_live : String → ℕ → Review → Bool
unfolding is_canonical
is_live repo pr r = r.repo_id == repo && r.pr_number == pr && is_canonical r.status

-- The loop body on a live review of the pull request that is not the new one, and on any other.
supersede_review-live :
    (r : Review) (id repo : String) (pr : ℕ)
    → is_live repo pr r ≡ true
    → (r.id ≡ id → ⊥)
    → supersede_review id repo pr r ≡ record r { status = superseded; superseded_by = some id }
unfolding supersede_review is_live
supersede_review-live r id repo pr h ne = ground (arith, eq_iff r.id id)

supersede_review-other :
    (r : Review) (id repo : String) (pr : ℕ)
    → (is_live repo pr r ≡ false) ⊎ (r.id ≡ id)
    → supersede_review id repo pr r ≡ r
unfolding supersede_review is_live
supersede_review-other r id repo pr h = ground (arith, eq_iff r.id id)

is_live-supersede_review :
    (r : Review) (id repo : String) (pr : ℕ)
    → is_live repo pr (supersede_review id repo pr r) ≡ true
    → (r.id == id) ≡ true
unfolding supersede_review is_live
is_live-supersede_review r id repo pr h = ground (arith, eq_iff r.id id)

live_le_named :
    (rs : List Review) (id repo : String) (pr : ℕ)
    → count (is_live repo pr) (supersede_previous_reviews rs id repo pr)
      ≤ count (λ r. r.id == id) rs
unfolding supersede_previous_reviews
live_le_named [] id repo pr = omega arith
live_le_named (r ∷ rs) id repo pr =
    ground (arith, is_live-supersede_review r id repo pr, live_le_named rs id repo pr)

-- A review that is live, and not of the pull request under another id.
unfoldable pub stays_live : String → String → ℕ → Review → Bool
unfolding is_canonical
stays_live id repo pr r =
    is_canonical r.status && not (r.repo_id == repo && (r.pr_number == pr && not (r.id == id)))

live-supersede :
    (rs : List Review) (id repo : String) (pr : ℕ)
    → filter (λ r. is_canonical r.status) (supersede_previous_reviews rs id repo pr)
      ≡ filter (stays_live id repo pr) rs
unfolding supersede_previous_reviews supersede_review stays_live is_canonical
live-supersede [] id repo pr = refl
live-supersede (r ∷ rs) id repo pr = ground (arith, live-supersede rs id repo pr)

-- After `supersede_previous_reviews` the live reviews of all pull requests are, in order and as they
-- were, those that were live before, but for the reviews of the pull request that have another id
-- than the new one; so, if at most one of the reviews has the new id, at most one review of the pull
-- request is live.
pub supersede_previous_reviews-live :
    (reviews : List Review) (id repo : String) (pr : ℕ)
    → count (λ r. r.id == id) reviews ≤ 1
    → (filter (λ r. is_canonical r.status) (supersede_previous_reviews reviews id repo pr)
        ≡ filter (stays_live id repo pr) reviews)
      × (count (is_live repo pr) (supersede_previous_reviews reviews id repo pr) ≤ 1)
supersede_previous_reviews-live reviews id repo pr h =
    (live-supersede reviews id repo pr, omega (arith, live_le_named reviews id repo pr))

-- Every review is still there: a live review of the pull request with another id as superseded by
-- the new one, and each review that is not live for the pull request, or is the new one, as it was.
pub supersede_effect :
    (reviews : List Review) (id repo : String) (pr : ℕ) (r : Review)
    → In r reviews
    → (is_live repo pr r ≡ true
        → (r.id ≡ id → ⊥)
        → In
            (record r { status = superseded; superseded_by = some id })
            (supersede_previous_reviews reviews id repo pr))
      × ((is_live repo pr r ≡ false) ⊎ (r.id ≡ id)
          → In r (supersede_previous_reviews reviews id repo pr))
unfolding supersede_previous_reviews
supersede_effect reviews id repo pr r h =
    let kept = In-map (supersede_review id repo pr) r reviews h in
    (
      λ live ne.
          subst (λ x. In x (supersede_previous_reviews reviews id repo pr))
            (supersede_review-live r id repo pr live ne) kept,
      λ o.
          subst (λ x. In x (supersede_previous_reviews reviews id repo pr))
            (supersede_review-other r id repo pr o) kept,
    )

old_not_live :
    (r : Review) (id repo : String) (pr : ℕ) (sha : String)
    → (r.id == id) ≡ false
    → is_live_for repo pr sha (supersede_review id repo pr r) ≡ false
unfolding is_live_for supersede_review
old_not_live r id repo pr sha h = ground arith

new_is_live :
    (id repo : String) (pr : ℕ) (sha : String)
    → is_live_for repo pr sha (new_review id repo pr sha) ≡ true
unfolding is_live_for new_review is_canonical
new_is_live id repo pr sha = simp beq_refl

-- The documented use: when the ids of the known reviews differ from the new one, appending the new
-- review and superseding the previous ones makes the new review the one that is found for the commit.
pub ensure_unique-supersede :
    (rs : List Review) (id repo : String) (pr : ℕ) (sha : String)
    → All (λ r. (r.id == id) ≡ false) rs
    → ensure_unique_canonical
        (supersede_previous_reviews (rs ++ new_review id repo pr sha ∷ []) id repo pr)
        repo
        pr
        sha
      ≡ some (new_review id repo pr sha)
unfolding ensure_unique_canonical supersede_previous_reviews
ensure_unique-supersede [] id repo pr sha h =
    rw
      (supersede_review-other (new_review id repo pr sha) id repo pr
        (inr (unfold new_review in refl)))
      (rw (new_is_live id repo pr sha))
ensure_unique-supersede (r ∷ rs) id repo pr sha h =
    rw (old_not_live r id repo pr sha h.0) (ensure_unique-supersede rs id repo pr sha h.1)

-- The first review that is live for the exact commit is returned, and `none` exactly when there is
-- no such review.
pub ensure_unique_none_iff :
    (reviews : List Review) (repo : String) (pr : ℕ) (sha : String)
    → (ensure_unique_canonical reviews repo pr sha ≡ none)
      ↔ (count (is_live_for repo pr sha) reviews ≡ 0)
unfolding ensure_unique_canonical
ensure_unique_none_iff [] repo pr sha = ((λ _. refl), (λ _. refl))
ensure_unique_none_iff (r ∷ rs) repo pr sha = ground (arith, ensure_unique_none_iff rs repo pr sha)

pub ensure_unique_some :
    (reviews : List Review) (repo : String) (pr : ℕ) (sha : String) (r : Review)
    → ensure_unique_canonical reviews repo pr sha ≡ some r
    → In r reviews × (is_live_for repo pr sha r ≡ true)
unfolding ensure_unique_canonical
ensure_unique_some [] repo pr sha r h = cc
ensure_unique_some (x ∷ rs) repo pr sha r h = ground (arith, ensure_unique_some rs repo pr sha r)
