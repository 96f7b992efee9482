-- ===== src/Publisher/Scope.antt =====
-- What a publication may send: requests about its own pull request, and the bodies of publishable
-- findings only.
use kenjutsu.Base.{
  ◌⊎◌, ◌∙◌, ℕ, String, true, Option, none, some, List, [], ◌∷◌, ◌≡◌, refl, sym, All, filter, not,
  In, In-filter, inl, inr, ◌==◌, string_eq, if◌then◌else◌,
}
use kenjutsu.Effect.{pure, raise}
use kenjutsu.Publisher.Rows.{FindingRow, ReviewRow}
use kenjutsu.Publisher.Github.{
  RepoName, Server, Session, Request, get_pull, post_review, put_review, post_comment,
  patch_comment, head_sha_mismatch, create_review, update_review, create_comment, update_comment,
  fetch_head_sha,
}
use kenjutsu.Publisher.Keeps.{Keeps, Keeps-send, Keeps-bind, Keeps-if}
use kenjutsu.Publisher.Known.{
  DistinctIds, DistinctIds-filter, IsStored, existing_comment-cases, ensure_review-IsStored,
  publish_comment-other,
}
use kenjutsu.Dict
use kenjutsu.Publisher.Sent.{
  sent-fetch_head_sha, sent-create_review, sent-update_review, sent-create_comment,
  sent-update_comment,
}
use kenjutsu.Publisher.{
  Comments, is_publishable, existing_comment, recreate_review, ensure_review, publish_current,
  new_comment, publish_comment, publish_comments, publish_loaded, stored_comments,
}

module _ (repo : RepoName) (body : FindingRow → String) (review : ReviewRow)
    (findings : List FindingRow) where
  -- The comment ids that the rows hold for a finding.
  abbrev pub HasComment : FindingRow → ℕ → Type 0
  HasComment f id =
      (Dict.get (stored_comments review.github_comment_ids) f.id ≡ some id)
      ⊎ (f.github_comment_id ≡ some id)

  -- The request is about the pull request of the review, in this repository, and a text that it
  -- carries is the body of a publishable finding of the review, for a comment of that finding.
  abbrev pub Belongs : Request → Type 0
  Belongs (get_pull at n) = (at ≡ repo) × (n ≡ review.pr_number)
  Belongs (post_review at n sha) = (at ≡ repo) × (n ≡ review.pr_number) × (sha ≡ review.head_sha)
  Belongs (put_review at n id) =
      (at ≡ repo) × (n ≡ review.pr_number) × (review.github_review_id ≡ some id)
  Belongs (post_comment at n sha path line text) =
      (at ≡ repo)
      × (n ≡ review.pr_number)
      × (sha ≡ review.head_sha)
      × ((f : FindingRow) × In f findings
          × (is_publishable f ≡ true)
          × (text ≡ body f)
          × (path ≡ f.file_path)
          × (line ≡ f.line_end))
  Belongs (patch_comment at id text) =
      (at ≡ repo)
      × ((f : FindingRow) × In f findings
          × (is_publishable f ≡ true)
          × (text ≡ body f)
          × HasComment f id)

module _ {W : Type 0} (server : Server W) (repo : RepoName) (body : FindingRow → String)
    (review : ReviewRow) (findings : List FindingRow) where
  abbrev pub Bound : Request → Type 0
  Bound = Belongs repo body review findings

  abbrev pr : ℕ
  pr = review.pr_number

  abbrev sha : String
  sha = review.head_sha

  recreate_review-Keeps : (s : Session W) → Keeps Bound s (recreate_review server repo pr sha s).1
  unfolding recreate_review
  recreate_review-Keeps s =
      Keeps-bind Bound (create_review server repo pr sha) _ s
        (Keeps-send Bound s.sent (post_review repo pr sha) (sent-create_review server repo pr sha s)
          (refl, refl, refl))
        λ id e t h. h

  ensure_review-Keeps :
      (id : Option ℕ) (comments : Comments) (s : Session W)
      → review.github_review_id ≡ id
      → Keeps Bound s (ensure_review server repo id pr sha comments s).1
  unfolding ensure_review
  ensure_review-Keeps none comments s e =
      Keeps-bind Bound (create_review server repo pr sha) _ s
        (Keeps-send Bound s.sent (post_review repo pr sha) (sent-create_review server repo pr sha s)
          (refl, refl, refl))
        λ id e t h. h
  ensure_review-Keeps (some id) comments s e =
      Keeps-bind Bound (update_review server repo pr id) _ s
        (Keeps-send Bound s.sent (put_review repo pr id) (sent-update_review server repo pr id s)
          (refl, refl, e))
        λ there e t.
          Keeps-if Bound there (pure comments) (recreate_review server repo pr sha) t (λ h. h)
            (recreate_review-Keeps t)

  module _ (f : FindingRow) (of_review : In f findings) (open_to : is_publishable f ≡ true) where
    new_comment-Keeps :
        (comments : Comments) (s : Session W)
        → Keeps Bound s (new_comment server repo body pr sha f comments s).1
    unfolding new_comment
    new_comment-Keeps comments s =
        Keeps-bind Bound (create_comment server repo body pr sha f) _ s
          (Keeps-send Bound s.sent (post_comment repo pr sha f.file_path f.line_end (body f))
            (sent-create_comment server repo body pr sha f s)
            (refl, refl, refl, (f, of_review, open_to, refl, refl, refl)))
          λ id e t h. h

    publish_comment-Keeps :
        (old : Option ℕ) (comments : Comments) (s : Session W)
        → ((id : ℕ) → old ≡ some id → HasComment repo body review findings f id)
        → Keeps Bound s (publish_comment server repo body old pr sha f comments s).1
    unfolding publish_comment
    publish_comment-Keeps none comments s has =
        Keeps-bind Bound (new_comment server repo body pr sha f comments) _ s
          (new_comment-Keeps comments s) λ comments' e t h. h
    publish_comment-Keeps (some id) comments s has =
        Keeps-bind Bound (update_comment server repo body id f) _ s
          (Keeps-send Bound s.sent (patch_comment repo id (body f))
            (sent-update_comment server repo body id f s)
            (refl, (f, of_review, open_to, refl, has id refl)))
          λ there e t.
            Keeps-bind Bound
              (if there then pure comments else new_comment server repo body pr sha f comments) _ t
              (Keeps-if Bound there (pure comments) (new_comment server repo body pr sha f comments)
                t (λ h. h) (new_comment-Keeps comments t))
              λ comments' e u h. h

  abbrev stored : Comments
  stored = stored_comments review.github_comment_ids

  publish_comments-Keeps :
      (fs : List FindingRow) (comments : Comments) (s : Session W)
      → ((f : FindingRow) → In f fs → In f findings × (is_publishable f ≡ true))
      → DistinctIds fs
      → IsStored stored comments fs
      → Keeps Bound s (publish_comments server repo body pr sha fs comments s).1
  unfolding publish_comments DistinctIds
  publish_comments-Keeps [] comments s own distinct known = λ h. h
  publish_comments-Keeps (f ∷ fs) comments s own distinct known =
      let (here, open_to) = own f (inl refl) in
      Keeps-bind Bound
        (publish_comment server repo body (existing_comment comments f) pr sha f comments)
        (publish_comments server repo body pr sha fs) s
        (publish_comment-Keeps f here open_to (existing_comment comments f) comments s λ id e.
          elim (existing_comment-cases comments f id e) [
            | inl there ↦ inl (known f (inl refl) id there)
            | inr own_id ↦ inr own_id
          ])
        λ comments' e t.
          publish_comments-Keeps fs comments' t (λ g m. own g (inr m)) distinct.1
            λ g m id there. known g (inr m) id (
              sym (
                publish_comment-other server repo body pr sha f g.id (distinct.0 g m)
                  (existing_comment comments f) comments s comments' e)
              ∙ there)

  publish_current-Keeps :
      (s : Session W)
      → DistinctIds findings
      → Keeps Bound s (publish_current server repo body review findings s).1
  unfolding publish_current
  publish_current-Keeps s distinct =
      Keeps-bind Bound
        (ensure_review server repo review.github_review_id pr sha
          (stored_comments review.github_comment_ids))
        _ s (ensure_review-Keeps review.github_review_id _ s refl)
        λ comments e t.
          Keeps-bind Bound
            (publish_comments server repo body pr sha (filter is_publishable findings) comments) _ t
            (publish_comments-Keeps (filter is_publishable findings) comments t
              (λ f m. In-filter is_publishable f findings m)
              (DistinctIds-filter is_publishable findings distinct)
              (ensure_review-IsStored server repo review.github_review_id pr sha stored
                (filter is_publishable findings) s comments e))
            λ comments' e u h. h

  -- Whatever GitHub answers, where the findings have distinct ids: every request that a publication
  -- adds to those sent before is about the pull request and the commit of the review, in its
  -- repository; a comment carries the body of a publishable finding of the review, a new one at that
  -- finding's file and last line; and a comment that is changed is one whose id was stored for the
  -- finding whose body it is given.
  pub sends_only_publishable :
      (s : Session W)
      → DistinctIds findings
      → All Bound s.sent
      → All Bound (publish_loaded server repo body review findings s).1.sent
  unfolding publish_loaded
  sends_only_publishable s distinct =
      Keeps-bind Bound (fetch_head_sha server repo pr) _ s
        (Keeps-send Bound s.sent (get_pull repo pr) (sent-fetch_head_sha server repo pr s)
          (refl, refl))
        λ current e t.
          Keeps-if Bound (not (current == sha)) (raise head_sha_mismatch)
            (publish_current server repo body review findings) t (λ h. h)
            (publish_current-Keeps t distinct)
